-- ===== src/Base/Strings/Fields.antt =====
-- Fields and trimming of texts whose words are known.
use Prim.Native.Nat.{ℕ}
use mathlib.Core.Path.{◌≡◌, refl, ap, ◌∙◌}
use mathlib.Core.Bool.{true, false}
use mathlib.Core.List.{[], ◌∷◌, ◌++◌}
use native.Mathlib.Omega.{arith}
use mingyue_go.Base.Lists.{All}
use mingyue_go.Base.Strings.{
  Text, is_space, trim_left, trim_right, trim_space, fields_from, fields_func, fields, is_empty,
}

abbrev pub HasNoSpace : Text → Type 0
HasNoSpace = All (λ c. is_space c ≡ false)

open_word :
    (w : Text) (c : ℕ) (rest : Text)
    → HasNoSpace w
    → is_space c ≡ true
    → fields_from is_space true (w ++ c ∷ rest) ≡ w ∷ fields_from is_space false rest
unfolding fields_from
open_word [] c rest h e = ground (arith, e)
open_word (d ∷ w) c rest (n, h) e = ground (arith, n, open_word w c rest h e)

-- A word in front of white space is the first field.
pub fields-word :
    (d : ℕ) (w : Text) (c : ℕ) (rest : Text)
    → HasNoSpace (d ∷ w)
    → is_space c ≡ true
    → fields ((d ∷ w) ++ c ∷ rest) ≡ (d ∷ w) ∷ fields rest
unfolding fields fields_func fields_from
fields-word d w c rest (n, h) e = ground (arith, n, open_word w c rest h e)

trim_right-cons :
    (c : ℕ) (t : Text) → trim_right t ≡ t → is_empty t ≡ false → trim_right (c ∷ t) ≡ c ∷ t
unfolding trim_right
trim_right-cons c t h k = ground (arith, h, k)

-- A text that does not end with white space, and is not empty.
abbrev pub IsTrimmed : Text → Type 0
IsTrimmed t = (trim_right t ≡ t) × (is_empty t ≡ false)

pub append-IsTrimmed : (a b : Text) → IsTrimmed b → IsTrimmed (a ++ b)
append-IsTrimmed [] b h = h
append-IsTrimmed (c ∷ a) b (h, k) =
    let (r, e) = append-IsTrimmed a b (h, k) in (trim_right-cons c (a ++ b) r e, refl)

trim_left-cons : (c : ℕ) (s : Text) → is_space c ≡ false → trim_left (c ∷ s) ≡ c ∷ s
unfolding trim_left
trim_left-cons c s n = ground (arith, n)

pub trim_space-append :
    (c : ℕ) (a b : Text)
    → is_space c ≡ false
    → IsTrimmed b
    → trim_space ((c ∷ a) ++ b) ≡ (c ∷ a) ++ b
unfolding trim_space
trim_space-append c a b n h =
    ap trim_right (trim_left-cons c (a ++ b) n) ∙ (append-IsTrimmed (c ∷ a) b h).0
