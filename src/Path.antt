-- ===== src/Path.antt =====
-- The functions of Go's path/filepath that the program calls, on Unix, by their documented rules.
pub mod Clean
use mingyue_go.Base.{
  Bool, List, Text, [], false, if◌then◌else◌, is_empty, join, not, select, split, text_eq, true, ℕ,
  ◌++◌, ◌==◌, ◌||◌, ◌∷◌,
}
use mathlib.Core.List.{reverse}

abbrev pub slash : ℕ
slash = b'/'

abbrev pub root_path : Text
root_path = slash ∷ []

abbrev dot : Text
dot = b'.' ∷ []

abbrev dot_dot : Text
dot_dot = b'.' ∷ b'.' ∷ []

-- filepath.IsAbs
unfoldable pub is_abs : Text → Bool
is_abs [] = false
is_abs (c ∷ s) = c == slash

-- The innermost element is removed by an inner ".."; a rooted path has no element above its root.
abbrev pop : Bool → List Text → List Text
pop true [] = []
pop false [] = dot_dot ∷ []
pop rooted (e ∷ stack) = if text_eq e dot_dot then dot_dot ∷ e ∷ stack else stack

-- One element of the path; the stack has the innermost element first.
resolve : Bool → List Text → Text → List Text
resolve rooted stack part =
    if text_eq part [] || text_eq part dot
    then stack
    else if text_eq part dot_dot
    then pop rooted stack
    else part ∷ stack

normalize_from : Bool → List Text → List Text → List Text
normalize_from rooted stack [] = reverse stack
normalize_from rooted stack (part ∷ parts) = normalize_from rooted (resolve rooted stack part) parts

render : Bool → List Text → Text
render true parts = slash ∷ join parts root_path
render false [] = dot
render false (p ∷ ps) = join (p ∷ ps) root_path

-- filepath.Clean
unfoldable pub clean : Text → Text
unfolding render normalize_from resolve is_abs split join text_eq
clean p = render (is_abs p) (normalize_from (is_abs p) [] (split slash p))

-- filepath.Join(a, b)
unfoldable pub join_path : Text → Text → Text
unfolding clean
join_path [] [] = []
join_path [] (c ∷ b) = clean (c ∷ b)
join_path (c ∷ a) b = clean ((c ∷ a) ++ slash ∷ b)

-- The text up to its last slash, the slash included.
upto_last_slash : Text → Text
upto_last_slash [] = []
upto_last_slash (c ∷ s) =
    let rest = upto_last_slash s in
    if is_empty rest then (if c == slash then c ∷ [] else []) else c ∷ rest

-- filepath.Dir
unfoldable pub dir : Text → Text
unfolding upto_last_slash clean
dir p = clean (upto_last_slash p)

-- The non-empty parts between slashes: the directories of a path and its last name.
unfoldable pub components : Text → List Text
unfolding split
components p = select (λ e. not (is_empty e)) (split slash p)
