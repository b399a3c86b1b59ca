-- ===== src/Base/Strings.antt =====
-- Texts as lists of code points, with the functions of Go's `strings`, `unicode` and `bufio` that
-- the program calls. A text stands for a valid UTF-8 string.
pub mod Laws
pub mod Fields
use Prim.Native.Nat.{ℕ, zero, suc, ◌+◌, ◌≤◌}
use Prim.Native.Char.{code}
use Prim.Native.String.{String}
use mathlib.Core.Path.{◌≡◌, refl}
use mathlib.Core.Bool.{Bool, true, false, not, ◌&&◌, ◌||◌}
use mathlib.Core.Option.{Option, none, some}
use mathlib.Core.List.{List, [], ◌∷◌, ◌++◌, reverse}
use mingyue_go.Base.Tests.{◌==◌, leb, ltb, if◌then◌else◌}

abbrev pub Text : Type 0
Text = List ℕ

-- The code points of a literal.
abbrev pub codes : String → Text
codes String.[] = []
codes (String.◌∷◌ c s) = code c ∷ codes s

-- s == t
unfoldable pub text_eq : Text → Text → Bool
text_eq [] [] = true
text_eq [] (d ∷ t) = false
text_eq (c ∷ s) [] = false
text_eq (c ∷ s) (d ∷ t) = (c == d) && text_eq s t

-- s == ""
abbrev pub is_empty {ℓ} : {A : Type ℓ} → List A → Bool
is_empty [] = true
is_empty (c ∷ s) = false

-- The width of a code point in UTF-8, and len(s).
abbrev pub rune_len : ℕ → ℕ
rune_len c = if ltb c 0x80 then 1 else if ltb c 0x800 then 2 else if ltb c 0x10000 then 3 else 4

unfoldable pub byte_len : Text → ℕ
byte_len [] = 0
byte_len (c ∷ s) = rune_len c + byte_len s

-- unicode.IsSpace
unfoldable pub is_space : ℕ → Bool
is_space c =
    (leb 9 c && leb c 13)
    || c == 32
    || c == 0x85
    || c == 0xA0
    || c == 0x1680
    || (leb 0x2000 c && leb c 0x200a)
    || c == 0x2028
    || c == 0x2029
    || c == 0x202f
    || c == 0x205f
    || c == 0x3000

-- strings.TrimLeft and strings.TrimSpace by white space
unfoldable pub trim_left : Text → Text
trim_left [] = []
trim_left (c ∷ s) = elim (is_space c) [ true ↦ trim_left s | false ↦ c ∷ s ]

unfoldable pub trim_right : Text → Text
trim_right [] = []
trim_right (c ∷ s) = elim (is_space c && is_empty (trim_right s)) [
  | true ↦ []
  | false ↦ c ∷ trim_right s
]

unfoldable pub trim_space : Text → Text
unfolding trim_left trim_right is_space
trim_space s = trim_right (trim_left s)

-- strings.HasPrefix(s, prefix)
unfoldable pub has_prefix : Text → Text → Bool
has_prefix s [] = true
has_prefix [] (p ∷ ps) = false
has_prefix (c ∷ s) (p ∷ ps) = (c == p) && has_prefix s ps

-- s[len(prefix):], where s has the prefix
unfoldable pub cut_prefix : Text → Text → Text
cut_prefix s [] = s
cut_prefix [] (p ∷ ps) = []
cut_prefix (c ∷ s) (p ∷ ps) = cut_prefix s ps

-- strings.TrimPrefix
unfoldable pub trim_prefix : Text → Text → Text
unfolding has_prefix cut_prefix
trim_prefix s p = if has_prefix s p then cut_prefix s p else s

-- strings.Contains(s, string(c))
unfoldable pub contains_rune : Text → ℕ → Bool
contains_rune [] c = false
contains_rune (d ∷ s) c = (d == c) || contains_rune s c

-- The first part of a split and the rest.
abbrev pub cons_first : ℕ → List Text → List Text
cons_first c [] = (c ∷ []) ∷ []
cons_first c (p ∷ ps) = (c ∷ p) ∷ ps

-- strings.Split(s, string(sep))
unfoldable pub split : ℕ → Text → List Text
split sep [] = [] ∷ []
split sep (c ∷ s) = if c == sep then [] ∷ split sep s else cons_first c (split sep s)

-- strings.SplitN(s, string(sep), n) for n > 0
unfoldable pub split_n : ℕ → ℕ → Text → List Text
split_n sep zero s = []
split_n sep (suc zero) s = s ∷ []
split_n sep (suc (suc n)) [] = [] ∷ []
split_n sep (suc (suc n)) (c ∷ s) =
    if c == sep then [] ∷ split_n sep (suc n) s else cons_first c (split_n sep (suc (suc n)) s)

-- strings.Join(parts, sep)
unfoldable pub join : List Text → Text → Text
join [] sep = []
join (p ∷ []) sep = p
join (p ∷ q ∷ ps) sep = p ++ (sep ++ join (q ∷ ps) sep)

-- One more rune of a field: `open` says that a field is being read.
fields_from : (ℕ → Bool) → Bool → Text → List Text
fields_from stop false [] = []
fields_from stop true [] = [] ∷ []
fields_from stop false (c ∷ s) = elim (stop c) [
  | true ↦ fields_from stop false s
  | false ↦ cons_first c (fields_from stop true s)
]
fields_from stop true (c ∷ s) = elim (stop c) [
  | true ↦ [] ∷ fields_from stop false s
  | false ↦ cons_first c (fields_from stop true s)
]

-- strings.FieldsFunc, strings.Fields
unfoldable pub fields_func : (ℕ → Bool) → Text → List Text
unfolding fields_from
fields_func stop s = fields_from stop false s

unfoldable pub fields : Text → List Text
unfolding fields_func is_space
fields s = fields_func is_space s

-- strings.ReplaceAll(s, string(a), string(b))
unfoldable pub replace_rune : ℕ → ℕ → Text → Text
replace_rune a b [] = []
replace_rune a b (c ∷ s) = (if c == a then b else c) ∷ replace_rune a b s

-- strings.ReplaceAll(s, "\r\n", "\n")
unfoldable pub replace_crlf : Text → Text
replace_crlf [] = []
replace_crlf (c ∷ []) = c ∷ []
replace_crlf (c ∷ d ∷ s) = elim ((c == 13) && (d == 10)) [
  | true ↦ 10 ∷ replace_crlf s
  | false ↦ c ∷ replace_crlf (d ∷ s)
]

-- unicode.SimpleFold and unicode.ToLower where the result is ASCII; any other rune is left as it
-- is, since the program compares the results with ASCII literals only.
abbrev pub fold_rune : ℕ → ℕ
fold_rune c =
    if leb b'A' c && leb c b'Z'
    then c + 32
    else if c == 0x17F
    then b's'
    else if c == 0x212A
    then b'k'
    else c

abbrev pub lower_rune : ℕ → ℕ
lower_rune c =
    if leb b'A' c && leb c b'Z'
    then c + 32
    else if c == 0x130
    then b'i'
    else if c == 0x212A
    then b'k'
    else c

unfoldable pub map_rune : (ℕ → ℕ) → Text → Text
map_rune f [] = []
map_rune f (c ∷ s) = f c ∷ map_rune f s

-- strings.EqualFold(s, t) for an ASCII t
unfoldable pub equal_fold : Text → Text → Bool
unfolding text_eq map_rune
equal_fold s t = text_eq (map_rune fold_rune s) (map_rune fold_rune t)

-- strings.ToLower
unfoldable pub to_lower : Text → Text
unfolding map_rune
to_lower s = map_rune lower_rune s

-- What bufio.ScanLines drops at the end of a line.
abbrev pub drop_cr : Text → Text
drop_cr [] = []
drop_cr (c ∷ []) = if c == 13 then [] else c ∷ []
drop_cr (c ∷ d ∷ s) = c ∷ drop_cr (d ∷ s)

-- The lines of a bufio.Scanner over the raw lines of the input, until one fills the buffer
-- (bufio.ErrTooLong); the flag tells that it stopped there.
unfoldable pub scan_raw : ℕ → List Text → List Text × Bool
scan_raw cap [] = ([], false)
scan_raw cap (l ∷ []) =
    if leb cap (byte_len l)
    then ([], true)
    else if is_empty l
    then ([], false)
    else (drop_cr l ∷ [], false)
scan_raw cap (l ∷ m ∷ ls) =
    let rest = scan_raw cap (m ∷ ls) in
    if leb cap (byte_len l) then ([], true) else (drop_cr l ∷ rest.0, rest.1)

unfoldable pub scan_lines : ℕ → Text → List Text × Bool
unfolding scan_raw split byte_len
scan_lines cap s = scan_raw cap (split 10 s)
