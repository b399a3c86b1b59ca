-- ===== src/SafePath/Accepted.antt =====
-- safePath of internal/service/file/manager.go: the paths that it accepts.
use mingyue_go.Base.{
  All, List, Option, Text, [], ap, append-has_prefix, append-nil, append_assoc, arith, false, join,
  refl, text_eq_refl, true, ◌++◌, ◌∙◌, ◌∷◌, ◌≡◌,
}
use mathlib.Core.List.{reverse}
use mingyue_go.Errors.{ok}
use mingyue_go.Path.{slash, root_path}
use mingyue_go.Path.Clean.{IsName, abs_path, abs_path-nil}
use mingyue_go.SafePath.{escapes, safe_path}
use mingyue_go.SafePath.Ancestors.{nearest, nearest_allowed}
use mingyue_go.SafePath.Contained.{safe_path_of_names}

join-append :
    (p q : Text) (ps qs : List Text)
    → join (p ∷ ps ++ q ∷ qs) root_path ≡ join (p ∷ ps) root_path ++ slash ∷ join (q ∷ qs) root_path
unfolding join
join-append p q [] qs = refl
join-append p q (r ∷ ps) qs = simp (join-append r q ps qs, append_assoc)

not_escapes_top : (p : Text) → escapes root_path p ≡ false
unfolding escapes
not_escapes_top p = ground (arith, text_eq_refl root_path)

not_escapes_self : (p : Text) → escapes p p ≡ false
unfolding escapes
not_escapes_self p = ground (arith, text_eq_refl p)

not_escapes_prefix : (root rest : Text) → escapes root (root ++ slash ∷ rest) ≡ false
unfolding escapes
not_escapes_prefix root rest =
    ground (arith, append-has_prefix (root ++ slash ∷ []) rest, append_assoc root (slash ∷ []) rest)

not_escapes_below :
    (dirs names : List Text) → escapes (abs_path dirs) (abs_path (dirs ++ names)) ≡ false
not_escapes_below [] names =
    ap (λ r. escapes r (abs_path names)) abs_path-nil ∙ not_escapes_top (abs_path names)
not_escapes_below (d ∷ dirs) [] =
    ap (λ ns. escapes (abs_path (d ∷ dirs)) (abs_path ns)) (append-nil (d ∷ dirs))
    ∙ not_escapes_self (abs_path (d ∷ dirs))
not_escapes_below (d ∷ dirs) (n ∷ names) =
    ap (λ p. escapes (abs_path (d ∷ dirs)) (slash ∷ p)) (join-append d n dirs names)
    ∙ not_escapes_prefix (abs_path (d ∷ dirs)) (join (n ∷ names) root_path)

-- A path of plain names at or below the root is accepted as it is, where no ancestor exists yet or
-- the nearest one is resolved at or below the root.
pub safe_path_accepts :
    (eval : Text → Option Text) (dirs names : List Text)
    → All IsName (dirs ++ names)
    → nearest_allowed (abs_path dirs) (nearest eval (reverse (dirs ++ names))) ≡ true
    → safe_path eval (abs_path dirs) (abs_path (dirs ++ names)) ≡ ok (abs_path (dirs ++ names))
safe_path_accepts eval dirs names all allowed =
    safe_path_of_names eval (abs_path dirs) (dirs ++ names) all
    ∙ rw (not_escapes_below dirs names, allowed) refl
