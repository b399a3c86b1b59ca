-- ===== src/Tests/Files.antt =====
-- The file manager on a small directory tree with a symbolic link that leaves the root.
use mingyue_go.Base.{
  All, List, Option, Text, [], arith, codes, if◌then◌else◌, join, none, refl, some, text_eq, true,
  ◌++◌, ◌∷◌, ◌≡◌,
}
use mathlib.Core.List.{reverse}
use mingyue_go.Errors.{ok, err, done, os, other}
use mingyue_go.Path.{is_abs, dir}
use mingyue_go.Path.Clean.{IsName, abs_path}
use mingyue_go.SafePath.{escapes, absolute, safe_path, path_escapes, symlink_escapes}
use mingyue_go.SafePath.Ancestors.{nearest, nearest_allowed}
use mingyue_go.SafePath.Contained.{
  IsBelow, decision, safe_path-decision, safe_path-IsBelow, safe_path_links,
}
use mingyue_go.SafePath.Accepted.{safe_path_accepts}
use mingyue_go.File.{Fs, Host, Manager}
use mingyue_go.File.Ops.{Request, run, move_req}
use mingyue_go.File.Guard.{IsGuard, run-guard}
use mingyue_go.File.Journals.{run_journal, record_of}

abbrev pub root : Text
root = codes "/srv/data"

-- The directories that are there, and a link /srv/data/out to /etc.
abbrev pub links : Text → Option Text
links p =
    if text_eq p (codes "/")
    then some p
    else if text_eq p (codes "/srv")
    then some p
    else if text_eq p (codes "/srv/data")
    then some p
    else if text_eq p (codes "/srv/data/a")
    then some p
    else if text_eq p (codes "/srv/data/out")
    then some (codes "/etc")
    else none

climbing : safe_path links root (codes "a/../../../etc/passwd") ≡ err path_escapes
unfolding safe_path dir
climbing = refl

through_link : safe_path links root (codes "out/new") ≡ err symlink_escapes
unfolding safe_path dir
through_link = refl

inside : safe_path links root (codes "a/x/../b") ≡ ok (codes "/srv/data/a/b")
unfolding safe_path dir
inside = refl

pub rooted : is_abs root ≡ true
unfolding is_abs
rooted = refl

safe_path-IsBelow_example : IsBelow root (codes "/srv/data/a/b")
safe_path-IsBelow_example = safe_path-IsBelow links root (codes "a/x/../b") rooted inside

a-IsName : IsName (codes "a")
a-IsName = ((λ e. cc), (λ e. ground arith), (λ e. ground arith), ground arith)

b-IsName : IsName (codes "b")
b-IsName = ((λ e. cc), (λ e. ground arith), (λ e. ground arith), ground arith)

srv-IsName : IsName (codes "srv")
srv-IsName = ((λ e. cc), (λ e. ground arith), (λ e. ground arith), ground arith)

data-IsName : IsName (codes "data")
data-IsName = ((λ e. cc), (λ e. ground arith), (λ e. ground arith), ground arith)

abbrev dirs : List Text
dirs = codes "srv" ∷ codes "data" ∷ []

abbrev below_a : List Text
below_a = codes "a" ∷ codes "b" ∷ []

named : All IsName (dirs ++ below_a)
named = (srv-IsName, (data-IsName, (a-IsName, (b-IsName, tt))))

accepted : safe_path links root (abs_path (dirs ++ below_a)) ≡ ok (codes "/srv/data/a/b")
unfolding safe_path dir
accepted = refl

nearest_a : nearest links (reverse (dirs ++ below_a)) ≡ some (abs_path (dirs ++ codes "a" ∷ []))
unfolding nearest text_eq join
nearest_a = refl

allowed_a : nearest_allowed (abs_path dirs) (nearest links (reverse (dirs ++ below_a))) ≡ true
unfolding nearest escapes join
allowed_a = refl

safe_path_links_example : IsBelow root (abs_path (dirs ++ codes "a" ∷ []))
safe_path_links_example =
    safe_path_links links root (dirs ++ below_a) (dirs ++ codes "a" ∷ []) named
      (srv-IsName, (data-IsName, (a-IsName, tt))) accepted nearest_a

safe_path_accepts_example :
    safe_path links (abs_path dirs) (abs_path (dirs ++ below_a)) ≡ ok (abs_path (dirs ++ below_a))
safe_path_accepts_example = safe_path_accepts links dirs below_a named allowed_a

safe_path-decision_example :
    (names : List Text) × (absolute root (codes "out/new") ≡ abs_path names)
    × All IsName names
    × (safe_path links root (codes "out/new") ≡ decision links root names)
safe_path-decision_example = safe_path-decision links root (codes "out/new") rooted

-- A manager that records the paths it is told to change.
abbrev pub touching : Fs (List Text)
touching = record {
  read_dir = λ p w. ok [];
  stat = λ p w. err (os (other []));
  mkdir_all = λ p perm w. (done, p ∷ w);
  remove_one = λ p w. (done, p ∷ w);
  remove_all = λ p w. (done, p ∷ w);
  rename = λ p q w. (done, p ∷ q ∷ w);
  copy_file = λ p q w. (done, p ∷ q ∷ w);
  read_file = λ p w. ok [];
  write_file = λ p c perm w. (done, p ∷ w);
  eval_symlinks = λ p w. links p;
}

abbrev pub manager : Manager (List Text)
manager = record { fs = touching; root = root }

pub touching-IsGuard : IsGuard manager (All (IsBelow root))
touching-IsGuard = record {
  mkdir_all = λ p perm w b k. (b.below, k);
  remove_one = λ p w b k. (b.below, k);
  remove_all = λ p w b k. (b.below, k);
  rename = λ p q w b c k. (b.below, (c.below, k));
  copy_file = λ p q w b c k. (b.below, (c.below, k));
  write_file = λ p c perm w b k. (b.below, k);
}

abbrev host : Host (List Text)
host = record { world = []; journal = some [] }

abbrev a_move : Request
a_move = move_req (codes "a/x") (codes "a/y/../z")

moved :
    (run manager a_move (codes "cli") host).1.world
    ≡ codes "/srv/data/a/x" ∷ codes "/srv/data/a/z" ∷ []
unfolding run dir safe_path
moved = refl

run-guard_example : All (IsBelow root) (run manager a_move (codes "cli") host).1.world
run-guard_example =
    run-guard manager (All (IsBelow root)) touching-IsGuard rooted a_move (codes "cli") host tt

run_journal_example :
    (run manager a_move (codes "cli") host).1.journal
    ≡ some ([] ++ record_of (codes "cli") a_move (run manager a_move (codes "cli") host).0 ∷ [])
run_journal_example = run_journal manager rooted a_move (codes "cli") host [] refl
