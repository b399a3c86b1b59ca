-- ===== src/Api/Paths.antt =====
-- What the handlers of internal/api read from paths and from query parameters.
pub mod Ranges
use mingyue_go.Base.{
  Bool, Option, Text, [], codes, cut_prefix, false, has_prefix, if◌then◌else◌, is_empty, leb, ltb,
  none, some, trim_prefix, true, ℕ, ◌%◌, ◌&&◌, ◌*◌, ◌++◌, ◌+◌, ◌-◌, ◌==◌, ◌^◌, ◌||◌, ◌∷◌,
}
use mingyue_go.Errors.{app, invalid_input, lit, Result, ok, err}
use mathlib.Core.List.{reverse}
use mingyue_go.Process.{is_negative}
use mingyue_go.Api.System.{Codecs}

-- name[:strings.Index(name, "/")] where there is one
unfoldable pub before_slash : Text → Text
before_slash [] = []
before_slash (c ∷ s) = let rest = before_slash s in if c == b'/' then [] else c ∷ rest

-- What shareNameFromPath, smbShareNameFromPath and nfsExportNameFromPath do, each with its prefix
unfoldable pub name_from_path : Text → Text → Text
unfolding has_prefix cut_prefix before_slash
name_from_path prefix path =
    if has_prefix path prefix then before_slash (cut_prefix path prefix) else []

abbrev pub share_prefix : Text
share_prefix = codes "/api/v1/shares/"

abbrev pub smb_share_prefix : Text
smb_share_prefix = codes "/api/v1/smb/shares/"

abbrev pub nfs_export_prefix : Text
nfs_export_prefix = codes "/api/v1/nfs/exports/"

-- shareNameFromPath
abbrev pub share_name_from_path : Text → Text
share_name_from_path = name_from_path share_prefix

-- smbShareNameFromPath
abbrev pub smb_share_name_from_path : Text → Text
smb_share_name_from_path = name_from_path smb_share_prefix

-- nfsExportNameFromPath
abbrev pub nfs_export_name_from_path : Text → Text
nfs_export_name_from_path = name_from_path nfs_export_prefix

abbrev pub smb_user_prefix : Text
smb_user_prefix = codes "/api/v1/smb/users/"

-- strings.HasSuffix and strings.TrimSuffix
unfoldable pub has_suffix : Text → Text → Bool
unfolding has_prefix
has_suffix s suffix = has_prefix (reverse s) (reverse suffix)

unfoldable pub trim_suffix : Text → Text → Text
unfolding trim_prefix
trim_suffix s suffix = reverse (trim_prefix (reverse s) (reverse suffix))

abbrev pub password_suffix : Text
password_suffix = codes "/password"

-- smbUsernameFromPath
unfoldable pub smb_username_from_path : Text → Text
unfolding has_prefix cut_prefix trim_suffix before_slash
smb_username_from_path path =
    if has_prefix path smb_user_prefix
    then before_slash (trim_suffix (cut_prefix path smb_user_prefix) password_suffix)
    else []

-- What stands before and after the last '/', none where there is none.
unfoldable pub split_last : Text → Option (Text × Text)
split_last [] = none
split_last (c ∷ s) = elim (split_last s) [
  | some (a, b) ↦ some (c ∷ a, b)
  | none ↦ if c == b'/' then some ([], s) else none
]

abbrev pub prepend_slash : Text → Text
prepend_slash p = if has_prefix p (codes "/") then p else codes "/" ++ p

-- extractMountpointFromPath
unfoldable pub extract_mountpoint_from_path : Codecs → Text → Result Text
unfolding has_prefix cut_prefix
extract_mountpoint_from_path codecs escaped =
    if has_prefix escaped (codes "/api/v1/disks/mounts/")
    then if is_empty (cut_prefix escaped (codes "/api/v1/disks/mounts/"))
      then err (app invalid_input (lit "missing mountpoint in path" ∷ []))
      else elim (codecs.path_unescape (cut_prefix escaped (codes "/api/v1/disks/mounts/"))) [
        | none ↦ err (app invalid_input (lit "invalid mountpoint encoding" ∷ []))
        | some mp ↦ ok (prepend_slash mp)
      ]
    else err (app invalid_input (lit "missing mountpoint in path" ∷ []))

abbrev device_path : Text → Text
device_path device = if has_prefix device (codes "/") then device else codes "/dev/" ++ device

-- extractDeviceAndAction
unfoldable pub extract_device_and_action : Codecs → Text → Result (Text × Text)
unfolding has_prefix cut_prefix split_last
extract_device_and_action codecs escaped =
    if has_prefix escaped (codes "/api/v1/disks/")
    then elim (split_last (cut_prefix escaped (codes "/api/v1/disks/"))) [
      | none ↦ err (app invalid_input (lit "missing action in disk route (expected /smart)" ∷ []))
      | some (encoded, action) ↦
          if is_empty encoded
          then err (app invalid_input (lit "missing device in disk route" ∷ []))
          else elim (codecs.path_unescape encoded) [
            | none ↦ err (app invalid_input (lit "invalid device encoding" ∷ []))
            | some device ↦ ok (device_path device, action)
          ]
    ]
    else err (app invalid_input (lit "invalid disk route" ∷ []))

-- The value of decimal digits, none where there is another character.
unfoldable pub digits_value : ℕ → Text → Option ℕ
digits_value n [] = some n
digits_value n (c ∷ s) =
    let rest = digits_value (n * 10 + (c - b'0')) s in
    if leb b'0' c && leb c b'9' then rest else none

abbrev magnitude : Text → Option ℕ
magnitude [] = none
magnitude (c ∷ s) = digits_value 0 (c ∷ s)

-- The number with its sign, where it fits; a negative one as its two's complement in 64 bits.
abbrev signed : ℕ → Bool → Option ℕ → Option ℕ
signed bits negative none = none
signed bits true (some n) = if leb n (2 ^ (bits - 1)) then some ((2 ^ 64 - n) % 2 ^ 64) else none
signed bits false (some n) = if ltb n (2 ^ (bits - 1)) then some n else none

-- strconv.ParseInt(s, 10, bits), none on an error
unfoldable pub parse_int : ℕ → Text → Option ℕ
unfolding digits_value
parse_int bits [] = none
parse_int bits (c ∷ s) =
    if c == b'-'
    then signed bits true (magnitude s)
    else if c == b'+'
    then signed bits false (magnitude s)
    else signed bits false (magnitude (c ∷ s))

-- The parameter "limit", 0 where it is missing and none where it is refused.
unfoldable pub limit_of : Text → Option ℕ
unfolding parse_int
limit_of [] = some 0
limit_of (c ∷ s) = elim (parse_int 64 (c ∷ s)) [
  | none ↦ none
  | some n ↦ if is_negative n then none else some n
]

-- The parameter "page"
unfoldable pub page_number : Text → Option ℕ
unfolding parse_int
page_number [] = some 0
page_number (c ∷ s) = elim (parse_int 64 (c ∷ s)) [
  | none ↦ none
  | some n ↦ if is_negative n || n == 0 then none else some n
]

-- parsePIDFromPath, none on an error
unfoldable pub parse_pid_from_path : Text → Option ℕ
unfolding split_last parse_int
parse_pid_from_path path = elim (split_last path) [
  | none ↦ none
  | some (before, segment) ↦ elim (parse_int 32 segment) [
    | none ↦ none
    | some n ↦ if is_negative n || n == 0 then none else some n
  ]
]
