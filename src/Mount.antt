-- ===== src/Mount.antt =====
-- internal/service/disk/mount.go: the mount options, and what is refused or rewritten before a
-- command runs.
pub mod Table
pub mod Fstab
pub mod Service
use mingyue_go.Base.{
  Bool, List, String, Text, [], codes, equal_fold, false, fields_func, has_prefix, if◌then◌else◌,
  is_empty, join, not, replace_crlf, replace_rune, split, to_lower, trim_space, ℕ, ◌&&◌, ◌++◌, ◌==◌,
  ◌||◌, ◌∷◌,
}
use mingyue_go.Errors.{
  app, wrapped, invalid_input, internal, lit, str, Message, GoError, OsError, os, Result, ok, err,
  Status, done,
}

pub record MountOptions : Type 0 where
  pub source : Text
  pub mount_point : Text
  pub fs_type : Text
  pub read_only : Bool
  pub options : Text
  pub username : Text
  pub password : Text
  pub domain : Text
  pub persistent : Bool

-- domain.Mount of internal/domain/mount.go; the sizes are not filled in here.
pub record Mount : Type 0 where
  pub device : Text
  pub mount_point : Text
  pub fs_type : Text
  pub options : Text

abbrev pub is_cifs : MountOptions → Bool
is_cifs opts = equal_fold opts.fs_type (codes "cifs")

abbrev pub has_credentials : MountOptions → Bool
has_credentials opts =
    not (is_empty opts.username) || not (is_empty opts.password) || not (is_empty opts.domain)

-- containsWhitespace
abbrev is_blank : ℕ → Bool
is_blank c = c == b' ' || c == 9 || c == 10 || c == 13

unfoldable pub contains_whitespace : Text → Bool
contains_whitespace [] = false
contains_whitespace (c ∷ s) = is_blank c || contains_whitespace s

-- The parts that are not empty once they are trimmed.
unfoldable pub trimmed_parts : List Text → List Text
trimmed_parts [] = []
trimmed_parts (p ∷ ps) =
    let rest = trimmed_parts ps in if is_empty (trim_space p) then rest else trim_space p ∷ rest

-- splitMountOptions
unfoldable pub split_mount_options : Text → List Text
unfolding trimmed_parts trim_space split
split_mount_options options =
    if is_empty (trim_space options) then [] else trimmed_parts (split b',' options)

-- hasExactOption
unfoldable pub has_exact_option : List Text → Text → Bool
unfolding equal_fold
has_exact_option [] want = false
has_exact_option (p ∷ ps) want = equal_fold p want || has_exact_option ps want

-- hasOptionWithPrefix
unfoldable pub has_option_with_prefix : List Text → Text → Bool
unfolding has_prefix to_lower
has_option_with_prefix [] prefix = false
has_option_with_prefix (p ∷ ps) prefix =
    has_prefix (to_lower p) (to_lower prefix) || has_option_with_prefix ps prefix

-- The loop over forbiddenCIFSPrefixes
abbrev is_forbidden_part : Text → Bool
is_forbidden_part lower =
    has_prefix lower (codes "username=")
    || has_prefix lower (codes "password=")
    || has_prefix lower (codes "domain=")

unfoldable pub has_forbidden_part : List Text → Bool
unfolding has_prefix to_lower
has_forbidden_part [] = false
has_forbidden_part (p ∷ ps) = is_forbidden_part (to_lower p) || has_forbidden_part ps

abbrev refused : String → Status
refused m = err (app invalid_input (lit m ∷ []))

-- validatePersistentMountOptions
unfoldable pub validate_persistent_mount_options : MountOptions → Status
unfolding contains_whitespace equal_fold has_forbidden_part has_option_with_prefix
    split_mount_options
validate_persistent_mount_options opts =
    if not opts.persistent
    then done
    else if contains_whitespace opts.source || contains_whitespace opts.mount_point
    then refused "persistent mounts do not support whitespace in source or mountpoint"
    else if not (is_cifs opts)
    then done
    else if has_forbidden_part (split_mount_options opts.options)
    then refused
        "persistent CIFS mounts do not allow username/password/domain in options; use dedicated flags instead"
    else if has_option_with_prefix (split_mount_options opts.options) (codes "credentials=")
        && has_credentials opts
    then refused
        "persistent CIFS mounts cannot combine credentials= in options with username/password/domain flags"
    else done

-- normalizeCIFSSource
abbrev cifs_path : List Text → Result Text
cifs_path [] = err (app invalid_input (lit "cifs source must be in the form //server/share" ∷ []))
cifs_path (server ∷ []) =
    err (app invalid_input (lit "cifs source must be in the form //server/share" ∷ []))
cifs_path (server ∷ share ∷ rest) =
    ok (codes "//" ++ (server ++ (codes "/" ++ join (share ∷ rest) (codes "/"))))

abbrev pub is_slash : ℕ → Bool
is_slash c = c == b'/'

unfoldable pub normalize_cifs_source : Text → Result Text
unfolding trim_space replace_rune fields_func join
normalize_cifs_source source =
    if is_empty (trim_space source)
    then err (app invalid_input (lit "cifs source is required" ∷ []))
    else cifs_path (fields_func is_slash (replace_rune b'\\' b'/' (trim_space source)))

-- The lines of a command's output that are not empty.
unfoldable pub non_empty : List Text → List Text
non_empty [] = []
non_empty (l ∷ ls) = let rest = non_empty ls in if is_empty l then rest else l ∷ rest

-- wrapMountCommandError
unfoldable pub wrap_mount_command_error : Message → Text → OsError → GoError
unfolding trim_space replace_crlf replace_rune split join non_empty
wrap_mount_command_error message output e =
    if is_empty (trim_space output)
    then wrapped internal message (os e)
    else wrapped internal
        (message
          ++ lit ": "
            ∷ str (
                join (non_empty (split 10 (replace_rune 13 10 (replace_crlf (trim_space output)))))
                  (codes ": "))
            ∷ [])
        (os e)
