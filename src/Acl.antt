-- ===== src/Acl.antt =====
-- internal/service/acl/manager.go: reading and setting POSIX access control lists under a root
-- directory. safePath is that of SafePath, over filepath.EvalSymlinks.
pub mod Laws
use mingyue_go.Base.{
  Bool, List, Option, Text, [], byte_len, codes, has_prefix, if◌then◌else◌, is_empty, join, none,
  scan_lines, some, split_n, text_eq, trim_prefix, trim_space, ℕ, ◌&&◌, ◌*◌, ◌==◌, ◌||◌, ◌∷◌,
}
use mingyue_go.Errors.{
  ErrorCode, GoError, OsError, app, wrapped, invalid_input, internal, not_found, forbidden, os, lit,
  Result, ok, err, Status, done, is_not_exist, cause_is_exec_not_found,
}
use mingyue_go.Audit.{Journal, log_audit, success, failure}
use mingyue_go.Shell.{Shell, ran, audited}
use mingyue_go.Path.{clean, root_path}
use mingyue_go.SafePath.{safe_path}

pub record AclPermission : Type 0 where
  pub kind : Text
  pub qualifier : Text
  pub permissions : Text

-- What os.Lstat tells; the owners are there where Sys() is a Stat_t.
pub record LinkInfo : Type 0 where
  pub mode : Text
  pub owners : Option (ℕ × ℕ)

pub record AclInfo : Type 0 where
  pub path : Text
  pub owners : Option (ℕ × ℕ)
  pub mode : Text
  pub entries : List AclPermission

-- What the system answers: EvalSymlinks (none where it fails), Lstat, and what a command prints
-- and returns.
pub record AclEnv : Type 0 where
  pub eval_symlinks : Text → Option Text
  pub lstat : Text → Option OsError × LinkInfo
  pub run : List Text → Text × Option OsError

-- The root of NewManager; an empty one is "/".
unfoldable pub acl_root : Text → Text
unfolding clean
acl_root root = clean (if is_empty root then root_path else root)

-- The text before the first space, tab or '#'
unfoldable pub before_comment : Text → Text
before_comment [] = []
before_comment (c ∷ s) =
    let rest = before_comment s in if c == b' ' || c == 9 || c == b'#' then [] else c ∷ rest

abbrev pub is_acl_type : Text → Bool
is_acl_type t =
    text_eq t (codes "user")
    || text_eq t (codes "group")
    || text_eq t (codes "mask")
    || text_eq t (codes "other")

abbrev permissions_of : Text → Text
permissions_of field = trim_space (before_comment (trim_space field))

-- One entry from the three fields of a line
abbrev from_fields : List Text → Option AclPermission
from_fields (t ∷ q ∷ p ∷ []) =
    if is_acl_type (trim_space t) && (byte_len (permissions_of p) == 3)
    then some
        (record { kind = trim_space t; qualifier = trim_space q; permissions = permissions_of p })
    else none
from_fields _ = none

-- A trimmed line without its "default:", none where nothing is left
abbrev without_default : Text → Text
without_default line =
    if has_prefix line (codes "default:")
    then trim_space (trim_prefix line (codes "default:"))
    else line

unfoldable pub parse_entry : Text → Option AclPermission
unfolding trim_space has_prefix trim_prefix split_n before_comment byte_len
parse_entry line =
    if is_empty (trim_space line) || has_prefix (trim_space line) (codes "#")
    then none
    else if is_empty (without_default (trim_space line))
    then none
    else from_fields (split_n b':' 3 (without_default (trim_space line)))

unfoldable pub parse_entries : List Text → List AclPermission
unfolding parse_entry
parse_entries [] = []
parse_entries (l ∷ ls) =
    let rest = parse_entries ls in elim (parse_entry l) [ none ↦ rest | some e ↦ e ∷ rest ]

-- parseGetfaclOutput: a line of 64 KiB or more ends the scan, and its error is not looked at.
unfoldable pub parse_getfacl_output : Text → List AclPermission
unfolding scan_lines parse_entries
parse_getfacl_output out = parse_entries (scan_lines (64 * 1024) out).0

abbrev pub get_command : Text → List Text
get_command abs = codes "getfacl" ∷ codes "--absolute-names" ∷ codes "--omit-header" ∷ abs ∷ []

abbrev entries_of : Text × Option OsError → List AclPermission
entries_of (out, e) = elim e [
  | some _ ↦ []
  | none ↦ if is_empty out then [] else parse_getfacl_output out
]

abbrev lstat_error : OsError → GoError
lstat_error e =
    if is_not_exist (os e)
    then wrapped not_found (lit "path not found" ∷ []) (os e)
    else wrapped internal (lit "stat failed" ∷ []) (os e)

-- Get
unfoldable pub get_acl : AclEnv → Text → Text → Shell → Result AclInfo × Shell
unfolding safe_path parse_getfacl_output
get_acl env root path s = elim (safe_path env.eval_symlinks root path) [
  | err e ↦ (err e, s)
  | ok abs ↦ elim (env.lstat abs).0 [
    | some e ↦ (err (lstat_error e), s)
    | none ↦ (
      ok (record {
        path = abs;
        owners = (env.lstat abs).1.owners;
        mode = (env.lstat abs).1.mode;
        entries = entries_of (env.run (get_command abs));
      }),
      ran (get_command abs) s,
    )
  ]
]

abbrev pub set_command : List Text → Text → List Text
set_command entries abs = codes "setfacl" ∷ codes "-m" ∷ join entries (codes ",") ∷ abs ∷ []

abbrev pub setfacl_error : OsError → GoError
setfacl_error e =
    if cause_is_exec_not_found (some e)
    then wrapped not_found
        (lit "setfacl not found: install the acl package to manage POSIX ACLs" ∷ []) (os e)
    else wrapped internal (lit "setfacl failed" ∷ []) (os e)

-- SetACL
unfoldable pub set_acl : AclEnv → Text → Text → List Text → Text → Shell → Status × Shell
unfolding safe_path join
set_acl env root path entries source s = elim (safe_path env.eval_symlinks root path) [
  | err e ↦ audited source (codes "acl.set") path (err e) (some forbidden) s
  | ok abs ↦ elim entries [
    | [] ↦ (err (app invalid_input (lit "entries must not be empty" ∷ [])), s)
    | first ∷ rest ↦ elim (env.run (set_command (first ∷ rest) abs)).1 [
      | some e ↦
          audited source (codes "acl.set") path (err (setfacl_error e)) (some internal)
            (ran (set_command (first ∷ rest) abs) s)
      | none ↦
          audited source (codes "acl.set") path done none (ran (set_command (first ∷ rest) abs) s)
    ]
  ]
]
