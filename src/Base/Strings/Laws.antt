-- ===== src/Base/Strings/Laws.antt =====
-- Laws of the text functions.
use Prim.Native.Nat.{ℕ}
use mathlib.Core.Path.{◌≡◌, refl, ap}
use mathlib.Core.Logic.{◌↔◌, ◌≢◌, inl, inr}
use mathlib.Core.Bool.{true}
use mathlib.Core.List.{List, [], ◌∷◌, ◌++◌}
use native.Mathlib.Omega.{arith}
use mingyue_go.Base.Tests.{◌==◌, Bool-cases}
use mingyue_go.Base.Lists.{All}
use mingyue_go.Base.Strings.{Text, text_eq, split, join, has_prefix, cut_prefix}

pub text_eq_refl : (s : Text) → text_eq s s ≡ true
unfolding text_eq
text_eq_refl [] = refl
text_eq_refl (c ∷ s) = ground (arith, text_eq_refl s)

text_eq→eq : (s t : Text) → text_eq s t ≡ true → s ≡ t
unfolding text_eq
text_eq→eq [] [] h = refl
text_eq→eq [] (d ∷ t) h = cc
text_eq→eq (c ∷ s) [] h = cc
text_eq→eq (c ∷ s) (d ∷ t) h = ground (arith, text_eq→eq s t)

pub text_eq_iff : (s t : Text) → (text_eq s t ≡ true) ↔ (s ≡ t)
text_eq_iff s t = (text_eq→eq s t, λ e. rw e (text_eq_refl t))

-- A text without the separator.
abbrev pub Lacks : ℕ → Text → Type 0
Lacks sep [] = Unit
Lacks sep (c ∷ s) = (c ≢ sep) × Lacks sep s

pub Lacks-append : (sep : ℕ) (s t : Text) → Lacks sep s → Lacks sep t → Lacks sep (s ++ t)
Lacks-append sep [] t h k = k
Lacks-append sep (c ∷ s) t (n, h) k = (n, Lacks-append sep s t h k)

split-cons : (sep : ℕ) (s : Text) → (p : Text) × (ps : List Text) × (split sep s ≡ p ∷ ps)
unfolding split
split-cons sep [] = ([], [], refl)
split-cons sep (c ∷ s) = elim (Bool-cases (c == sep)) [
  | inl e ↦ ([], split sep s, rw e)
  | inr e ↦ let (p, ps, h) = split-cons sep s in (c ∷ p, ps, rw (e, h))
]

-- Splitting at a separator in the middle.
pub split-append : (sep : ℕ) (s t : Text) → split sep (s ++ sep ∷ t) ≡ split sep s ++ split sep t
unfolding split
split-append sep [] t = ground arith
split-append sep (c ∷ s) t =
    let (p, ps, h) = split-cons sep s in ground (arith, split-append sep s t, h)

pub split-Lacks : (sep : ℕ) (s : Text) → All (Lacks sep) (split sep s)
unfolding split
split-Lacks sep [] = (tt, tt)
split-Lacks sep (c ∷ s) = let (p, ps, h) = split-cons sep s in ground (arith, split-Lacks sep s, h)

pub split_of_Lacks : (sep : ℕ) (s : Text) → Lacks sep s → split sep s ≡ s ∷ []
unfolding split
split_of_Lacks sep [] h = refl
split_of_Lacks sep (c ∷ s) h = ground (arith, split_of_Lacks sep s h.1)

pub split-join :
    (sep : ℕ) (p : Text) (ps : List Text)
    → All (Lacks sep) (p ∷ ps)
    → split sep (join (p ∷ ps) (sep ∷ [])) ≡ p ∷ ps
unfolding join
split-join sep p [] h = split_of_Lacks sep p h.0
split-join sep p (q ∷ ps) h =
    rw (split-append sep p _)
      (rw (split_of_Lacks sep p h.0) (ap (λ r. p ∷ r) (split-join sep q ps h.1)))

-- A text with a prefix is the prefix and what stands behind it.
pub has_prefix-append : (s p : Text) → has_prefix s p ≡ true → s ≡ p ++ cut_prefix s p
unfolding has_prefix cut_prefix
has_prefix-append s [] h = refl
has_prefix-append [] (p ∷ ps) h = cc
has_prefix-append (c ∷ s) (p ∷ ps) h = ground (arith, has_prefix-append s ps)

pub append-has_prefix : (p s : Text) → has_prefix (p ++ s) p ≡ true
unfolding has_prefix
append-has_prefix [] s = refl
append-has_prefix (c ∷ p) s = ground (arith, append-has_prefix p s)
