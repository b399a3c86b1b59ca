-- ===== src/SafePath/Contained.antt =====
-- safePath of internal/service/file/manager.go: where an accepted path lies.
use mingyue_go.Base.{
  All, All-append_right, Bool-cases, List, Option, Text, [], ap, append-nil, append_assoc, arith,
  cut_prefix, false, has_prefix, has_prefix-append, if◌then◌else◌, inl, inr, length, refl, some,
  suc, sym, text_eq_iff, true, ◌++◌, ◌∙◌, ◌∷◌, ◌≡◌, ◌⊎◌,
}
use mathlib.Core.List.{reverse}
use mingyue_go.Errors.{Result, ok, err, GoError}
use mingyue_go.Path.{slash, root_path, is_abs, clean, join_path, components}
use mingyue_go.Path.Clean.{
  IsName, abs_path, clean_abs, clean-abs_path, components-abs_path, components-append,
}
use mathlib.Core.Path.{subst}
use mingyue_go.SafePath.{
  escapes, absolute, safe_path, path_escapes, symlink_escapes, verdict, check_ancestors,
}
use mingyue_go.SafePath.Ancestors.{nearest, nearest_allowed, check_ancestors-names}

-- `p` lies at or below `root`: its components are those of the root and further names, none of
-- which is empty, "." or "..", or holds a slash.
abbrev pub IsBelow : Text → Text → Type 0
IsBelow root p = (names : List Text) × (components p ≡ components root ++ names) × All IsName names

is_abs-append : (s t : Text) → is_abs s ≡ true → is_abs (s ++ t) ≡ true
unfolding is_abs
is_abs-append [] t h = cc
is_abs-append (c ∷ s) t h = h

is_abs-abs_path : (names : List Text) → is_abs (abs_path names) ≡ true
unfolding is_abs
is_abs-abs_path names = refl

clean-is_abs : (p : Text) → is_abs p ≡ true → is_abs (clean p) ≡ true
clean-is_abs p h = let (names, e, _) = clean_abs p h in rw e (is_abs-abs_path names)

join_path-is_abs : (root path : Text) → is_abs root ≡ true → is_abs (join_path root path) ≡ true
unfolding join_path
join_path-is_abs [] path h = unfold is_abs in cc
join_path-is_abs (c ∷ root) path h =
    clean-is_abs ((c ∷ root) ++ slash ∷ path) (is_abs-append (c ∷ root) (slash ∷ path) h)

requested-is_abs :
    (root path : Text)
    → is_abs root ≡ true
    → is_abs (if is_abs path then path else join_path root path) ≡ true
requested-is_abs root path h = elim (Bool-cases (is_abs path)) [
  | inl e ↦ rw e e
  | inr e ↦ rw e (join_path-is_abs root path h)
]

-- Under an absolute root the checked path is a cleaned absolute path.
pub absolute-names :
    (root path : Text)
    → is_abs root ≡ true
    → (names : List Text) × (absolute root path ≡ abs_path names) × All IsName names
unfolding absolute
absolute-names root path h =
    clean_abs (if is_abs path then path else join_path root path) (requested-is_abs root path h)

escapes-cases :
    (root p : Text)
    → escapes root p ≡ false
    → (root ≡ root_path) ⊎ ((has_prefix p (root ++ slash ∷ []) ≡ true) ⊎ (p ≡ root))
unfolding escapes
escapes-cases root p e = ground (arith, text_eq_iff root root_path, text_eq_iff p root)

components-root : components root_path ≡ []
unfolding components
components-root = refl

-- A path of names that the boundary test lets through lies at or below the root.
pub escapes-IsBelow :
    (root : Text) (names : List Text)
    → All IsName names
    → escapes root (abs_path names) ≡ false
    → IsBelow root (abs_path names)
escapes-IsBelow root names h e = elim (escapes-cases root (abs_path names) e) [
  | inl top ↦ (
    names,
    components-abs_path names h ∙ ap (λ r. r ++ names) (sym (ap components top ∙ components-root)),
    h,
  )
  | inr (inr same) ↦ ([], ap components same ∙ sym (append-nil (components root)), tt)
  | inr (inl below) ↦ prefix_case (has_prefix-append (abs_path names) (root ++ slash ∷ []) below)
]
  where
    prefix_case :
        abs_path names ≡ (root ++ slash ∷ []) ++ cut_prefix (abs_path names) (root ++ slash ∷ [])
        → IsBelow root (abs_path names)
    prefix_case e =
        let rest = cut_prefix (abs_path names) (root ++ slash ∷ []) in
        let parts : components (abs_path names) ≡ components root ++ components rest =
          ap components (e ∙ append_assoc root (slash ∷ []) rest) ∙ components-append root rest in
        (
          components rest,
          parts,
          All-append_right IsName (components root) (components rest)
              (subst (All IsName) (sym (components-abs_path names h) ∙ parts) h),
        )

-- What safePath is meant to decide, by the names of the checked path: the boundary test of the
-- path itself, then that of its nearest existing ancestor.
abbrev pub decision : (Text → Option Text) → Text → List Text → Result Text
decision eval root names =
    if escapes root (abs_path names)
    then err path_escapes
    else if nearest_allowed root (nearest eval (reverse names))
    then ok (abs_path names)
    else err symlink_escapes

-- safePath takes that decision for every request under an absolute root; its loop ends.
pub safe_path-decision :
    (eval : Text → Option Text) (root path : Text)
    → is_abs root ≡ true
    → (names : List Text) × (absolute root path ≡ abs_path names)
      × All IsName names
      × (safe_path eval root path ≡ decision eval root names)
unfolding safe_path
safe_path-decision eval root path h =
    let (names, e, all) = absolute-names root path h in
    (names, e, all, rw (e, check_ancestors-names eval root names all) (ground arith))

pub decision_ok :
    (eval : Text → Option Text) (root : Text) (names : List Text) {abs : Text}
    → decision eval root names ≡ ok abs
    → (abs ≡ abs_path names)
      × (escapes root (abs_path names) ≡ false)
      × (nearest_allowed root (nearest eval (reverse names)) ≡ true)
decision_ok eval root names h = ground arith

-- Under an absolute root, an accepted path lies at or below the root: its components are those of
-- the root and further plain names, so no ".." is left to climb out, whatever the request was.
pub safe_path-IsBelow :
    (eval : Text → Option Text) (root path : Text) {abs : Text}
    → is_abs root ≡ true
    → safe_path eval root path ≡ ok abs
    → IsBelow root abs
safe_path-IsBelow eval root path h e =
    let (names, _, all, d) = safe_path-decision eval root path h in
    let (here, inside, _) = decision_ok eval root names (sym d ∙ e) in
    rw here (escapes-IsBelow root names all inside)

absolute-abs_path :
    (root : Text) (names : List Text)
    → All IsName names
    → absolute root (abs_path names) ≡ abs_path names
unfolding absolute
absolute-abs_path root names all = rw (is_abs-abs_path names) (clean-abs_path names all)

outcome : (Text → Option Text) → Text → Text → Result Text
outcome eval root abs =
    if escapes root abs
    then err path_escapes
    else verdict (check_ancestors (suc (length abs)) eval root abs) abs

safe_path-outcome :
    (eval : Text → Option Text) (root path : Text)
    → safe_path eval root path ≡ outcome eval root (absolute root path)
unfolding safe_path outcome
safe_path-outcome eval root path = refl

outcome-decision :
    (eval : Text → Option Text) (root : Text) (names : List Text)
    → All IsName names
    → outcome eval root (abs_path names) ≡ decision eval root names
unfolding outcome
outcome-decision eval root names all = ground (arith, check_ancestors-names eval root names all)

pub safe_path_of_names :
    (eval : Text → Option Text) (root : Text) (names : List Text)
    → All IsName names
    → safe_path eval root (abs_path names) ≡ decision eval root names
safe_path_of_names eval root names all =
    safe_path-outcome eval root (abs_path names)
    ∙ ap (outcome eval root) (absolute-abs_path root names all)
    ∙ outcome-decision eval root names all

-- Where an absolute path of plain names is accepted and its nearest existing ancestor is, after
-- its symbolic links are resolved, an absolute path of plain names, that one lies at or below the
-- root too.
pub safe_path_links :
    (eval : Text → Option Text) (root : Text) (names real : List Text) {abs : Text}
    → All IsName names
    → All IsName real
    → safe_path eval root (abs_path names) ≡ ok abs
    → nearest eval (reverse names) ≡ some (abs_path real)
    → IsBelow root (abs_path real)
safe_path_links eval root names real {abs} all all_real e found =
    let (_, _, allowed) =
      decision_ok eval root names (sym (safe_path_of_names eval root names all) ∙ e) in
    escapes-IsBelow root real all_real
      (not_escaping (ap (nearest_allowed root) (sym found) ∙ allowed))
  where
    not_escaping :
        nearest_allowed root (some (abs_path real)) ≡ true → escapes root (abs_path real) ≡ false
    not_escaping e = ground arith

-- A refusal under an absolute root is one of the two errors with code FORBIDDEN.
pub safe_path_refusal :
    (eval : Text → Option Text) (root path : Text) {e : GoError}
    → is_abs root ≡ true
    → safe_path eval root path ≡ err e
    → (e ≡ path_escapes) ⊎ (e ≡ symlink_escapes)
safe_path_refusal eval root path h k =
    let (names, _, all, d) = safe_path-decision eval root path h in ground (arith, sym d ∙ k)
