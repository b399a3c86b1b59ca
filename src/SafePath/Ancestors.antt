-- ===== src/SafePath/Ancestors.antt =====
-- The loop over ancestors in safePath of internal/service/file/manager.go.
use mingyue_go.Base.{
  All, All-append_left, Bool, Bool-cases, List, Option, Option-cases, Text, [], ap, arith, false,
  inl, inr, join, length, length-append, none, not, refl, some, suc, sym, text_eq, text_eq_iff,
  text_eq_refl, true, zero, ℕ, ◌++◌, ◌<◌, ◌∙◌, ◌∷◌, ◌≡◌, ◌≢◌, ◌≤◌,
}
use mathlib.Core.List.{reverse, reverse-cons, reverse-reverse}
use mingyue_go.Path.{slash, root_path, dir, components}
use mingyue_go.Path.Clean.{
  IsName, abs_path, abs_path-nil, dir-abs_path, dir-root_path, components-abs_path,
}
use mingyue_go.SafePath.{escapes, check_ancestors}

-- The nearest existing ancestor of a path, itself included, by its names from the last to the
-- first: none where not even "/" can be resolved.
unfoldable pub nearest : (Text → Option Text) → List Text → Option Text
nearest eval [] = eval root_path
nearest eval (n ∷ up) = elim (eval (abs_path (reverse up ++ n ∷ []))) [
  | some resolved ↦ some resolved
  | none ↦ nearest eval up
]

abbrev pub nearest_allowed : Text → Option Text → Bool
nearest_allowed root none = true
nearest_allowed root (some resolved) = not (escapes root resolved)

concat-ne : (xs : List Text) (n : Text) → xs ≢ xs ++ n ∷ []
concat-ne xs n e =
    let h : length xs ≡ length (xs ++ n ∷ []) = ap length e in
    omega (arith, length-append xs (n ∷ []))

parent-ne :
    (names : List Text) (n : Text)
    → All IsName (names ++ n ∷ [])
    → text_eq (abs_path names) (abs_path (names ++ n ∷ [])) ≡ false
parent-ne names n h = elim (Bool-cases (text_eq (abs_path names) (abs_path (names ++ n ∷ [])))) [
  | inr e ↦ e
  | inl e ↦ absurd (
      concat-ne names n (
        sym (components-abs_path names (All-append_left IsName names (n ∷ []) h))
        ∙ ap components ((text_eq_iff _ _).0 e)
        ∙ components-abs_path (names ++ n ∷ []) h))
]

module _ (fuel : ℕ) (eval : Text → Option Text) (root check : Text) where
  check_found :
      {resolved : Text}
      → eval check ≡ some resolved
      → check_ancestors (suc fuel) eval root check ≡ some (not (escapes root resolved))
  unfolding check_ancestors
  check_found e = ground (arith)

  check_top :
      eval check ≡ none
      → text_eq (dir check) check ≡ true
      → check_ancestors (suc fuel) eval root check ≡ some true
  unfolding check_ancestors
  check_top e top = ground (arith)

  check_up :
      eval check ≡ none
      → text_eq (dir check) check ≡ false
      → check_ancestors (suc fuel) eval root check ≡ check_ancestors fuel eval root (dir check)
  unfolding check_ancestors
  check_up e more = ground (arith)

nearest_found :
    (eval : Text → Option Text) (n : Text) (up : List Text) {resolved : Text}
    → eval (abs_path (reverse up ++ n ∷ [])) ≡ some resolved
    → nearest eval (n ∷ up) ≡ some resolved
unfolding nearest
nearest_found eval n up e = ground arith

nearest_up :
    (eval : Text → Option Text) (n : Text) (up : List Text)
    → eval (abs_path (reverse up ++ n ∷ [])) ≡ none
    → nearest eval (n ∷ up) ≡ nearest eval up
unfolding nearest
nearest_up eval n up e = ground arith

top_is_parent : text_eq (dir root_path) root_path ≡ true
top_is_parent = rw dir-root_path (text_eq_refl root_path)

check_root :
    (fuel : ℕ) (eval : Text → Option Text) (root : Text)
    → check_ancestors (suc fuel) eval root root_path ≡ some (nearest_allowed root (nearest eval []))
unfolding nearest
check_root fuel eval root = elim (Option-cases (eval root_path)) [
  | inl e ↦
      check_top fuel eval root root_path e top_is_parent
      ∙ sym (ap (λ o. some (nearest_allowed root o)) e)
  | inr (r, e) ↦
      check_found fuel eval root root_path e ∙ sym (ap (λ o. some (nearest_allowed root o)) e)
]

-- With more fuel than names the loop ends, and its verdict is that of the nearest ancestor.
pub check_ancestors-nearest :
    (fuel : ℕ) (eval : Text → Option Text) (root : Text) (up : List Text)
    → All IsName (reverse up)
    → length up < fuel
    → check_ancestors fuel eval root (abs_path (reverse up))
      ≡ some (nearest_allowed root (nearest eval up))
check_ancestors-nearest zero eval root up h lt = absurd (omega arith)
check_ancestors-nearest (suc fuel) eval root [] h lt = rw abs_path-nil (check_root fuel eval root)
check_ancestors-nearest (suc fuel) eval root (n ∷ up) h lt =
    rw reverse-cons (go (rw reverse-cons at h) (check_ancestors-nearest fuel eval root up))
  where
    go :
        All IsName (reverse up ++ n ∷ [])
        → (All IsName (reverse up)
            → length up < fuel
            → check_ancestors fuel eval root (abs_path (reverse up))
              ≡ some (nearest_allowed root (nearest eval up)))
        → check_ancestors (suc fuel) eval root (abs_path (reverse up ++ n ∷ []))
          ≡ some (nearest_allowed root (nearest eval (n ∷ up)))
    go h ih = elim (Option-cases (eval (abs_path (reverse up ++ n ∷ [])))) [
      | inl e ↦
          check_up fuel eval root (abs_path (reverse up ++ n ∷ [])) e (
            ap (λ d. text_eq d (abs_path (reverse up ++ n ∷ []))) (dir-abs_path (reverse up) n h)
            ∙ parent-ne (reverse up) n h)
          ∙ ap (check_ancestors fuel eval root) (dir-abs_path (reverse up) n h)
          ∙ ih (All-append_left IsName (reverse up) (n ∷ []) h) (omega arith)
          ∙ sym (ap (λ o. some (nearest_allowed root o)) (nearest_up eval n up e))
      | inr (r, e) ↦
          check_found fuel eval root (abs_path (reverse up ++ n ∷ [])) e
          ∙ sym (ap (λ o. some (nearest_allowed root o)) (nearest_found eval n up e))
    ]

-- A name has at least one rune, so a path has more runes than names.
length-join : (names : List Text) → All IsName names → length names ≤ length (join names root_path)
unfolding join
length-join [] h = omega arith
length-join ([] ∷ names) h = absurd (h.0.0 refl)
length-join ((c ∷ s) ∷ []) h = omega arith
length-join ((c ∷ s) ∷ m ∷ names) h =
    omega
      (arith, length-append {0} s (slash ∷ join (m ∷ names) root_path), length-join (m ∷ names) h.1)

length-reverse : (xs : List Text) → length (reverse xs) ≡ length xs
length-reverse [] = refl
length-reverse (x ∷ xs) =
    rw reverse-cons (omega (arith, length-append {0} (reverse xs) (x ∷ []), length-reverse xs))

-- From any cleaned absolute path the fuel that safePath gives is enough.
pub check_ancestors-names :
    (eval : Text → Option Text) (root : Text) (names : List Text)
    → All IsName names
    → check_ancestors (suc (length (abs_path names))) eval root (abs_path names)
      ≡ some (nearest_allowed root (nearest eval (reverse names)))
check_ancestors-names eval root names h =
    ap (λ ns. check_ancestors (suc (length (abs_path names))) eval root (abs_path ns))
      (sym (reverse-reverse names))
    ∙ check_ancestors-nearest (suc (length (abs_path names))) eval root (reverse names)
        (rw reverse-reverse h) (omega (arith, length-reverse names, length-join names h))
