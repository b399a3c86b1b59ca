-- ===== src/SafePath.antt =====
-- safePath of internal/service/file/manager.go, which internal/service/acl/manager.go repeats with
-- filepath.EvalSymlinks in place of its FS: a requested path is resolved under a root directory.
pub mod Ancestors
pub mod Contained
pub mod Accepted
pub mod Inside
use mingyue_go.Base.{
  Bool, Option, Text, [], false, has_prefix, if◌then◌else◌, length, none, not, some, suc, text_eq,
  true, zero, ℕ, ◌&&◌, ◌++◌, ◌∷◌,
}
use mingyue_go.Errors.{GoError, app, plain, forbidden, lit, Result, ok, err}
use mingyue_go.Path.{slash, root_path, is_abs, clean, join_path, dir}

-- The boundary test: the path is neither the root nor below it.
unfoldable pub escapes : Text → Text → Bool
unfolding text_eq has_prefix
escapes root p =
    not (text_eq root root_path) && not (has_prefix p (root ++ slash ∷ [])) && not (text_eq p root)

-- The loop that looks for the nearest existing ancestor. `eval` is EvalSymlinks, none where it
-- fails. The result tells whether the boundary test passed; none means that the fuel ran out.
pub check_ancestors : ℕ → (Text → Option Text) → Text → Text → Option Bool
check_ancestors zero eval root check = none
check_ancestors (suc fuel) eval root check =
    let parent = dir check in
    let rest = check_ancestors fuel eval root parent in
    elim (eval check) [
      | some resolved ↦ some (not (escapes root resolved))
      | none ↦ if text_eq parent check then some true else rest
    ]

-- The result of a loop that uses its fuel up.
abbrev pub out_of_fuel : GoError
out_of_fuel = plain (lit "out of fuel" ∷ [])

abbrev pub path_escapes : GoError
path_escapes = app forbidden (lit "path escapes root directory" ∷ [])

abbrev pub symlink_escapes : GoError
symlink_escapes = app forbidden (lit "path escapes root directory via symlink" ∷ [])

-- The cleaned absolute path that a request names.
unfoldable pub absolute : Text → Text → Text
unfolding is_abs clean join_path
absolute root path = clean (if is_abs path then path else join_path root path)

abbrev verdict : Option Bool → Text → Result Text
verdict none abs = err out_of_fuel
verdict (some false) abs = err symlink_escapes
verdict (some true) abs = ok abs

unfoldable pub safe_path : (Text → Option Text) → Text → Text → Result Text
unfolding check_ancestors absolute escapes
safe_path eval root path =
    let abs = absolute root path in
    let found = check_ancestors (suc (length abs)) eval root abs in
    if escapes root abs then err path_escapes else verdict found abs
