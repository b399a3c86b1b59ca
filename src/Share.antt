-- ===== src/Share.antt =====
-- The share component: internal/domain/share.go, and the validation and error helpers of
-- internal/service/share/manager.go.
pub mod Backend
pub mod Config
pub mod Store
pub mod Manager
pub mod Users
use mingyue_go.Base.{
  Bool, Text, [], codes, contains_rune, false, if◌then◌else◌, is_empty, none, not, some, trim_space,
  true, ◌&&◌, ◌++◌, ◌∷◌,
}
use mingyue_go.Errors.{
  ErrorCode, GoError, app, wrapped, invalid_input, internal, lit, quoted, Message, Status, ok, err,
  done, as_app,
}

pub data ShareType : Type 0 where
  smb nfs : ShareType
  other_type : Text → ShareType

pub record Share : Type 0 where
  pub name : Text
  pub kind : ShareType
  pub path : Text
  pub comment : Text
  pub read_only : Bool
  pub enabled : Bool
  pub valid_users : Text
  pub write_list : Text
  pub create_mask : Text
  pub directory_mask : Text
  pub hosts : Text

abbrev pub type_text : ShareType → Text
type_text smb = codes "smb"
type_text nfs = codes "nfs"
type_text (other_type t) = t

abbrev pub is_smb : ShareType → Bool
is_smb smb = true
is_smb _ = false

abbrev pub is_nfs : ShareType → Bool
is_nfs nfs = true
is_nfs _ = false

abbrev pub invalid : Message → Status
invalid m = err (app invalid_input m)

-- validateShare
unfoldable pub validate_share : Share → Status
validate_share s =
    if is_empty (trim_space s.name)
    then invalid (lit "share name must not be empty" ∷ [])
    else if contains_rune s.name b'/'
    then invalid (lit "share name must not contain '/'" ∷ [])
    else if is_empty (trim_space s.path)
    then invalid (lit "share path must not be empty" ∷ [])
    else if not (is_smb s.kind) && not (is_nfs s.kind)
    then invalid (
        lit "unsupported share type "
        ∷ quoted (type_text s.kind)
        ∷ lit "; must be "
        ∷ quoted (codes "smb")
        ∷ lit " or "
        ∷ quoted (codes "nfs")
        ∷ [])
    else done

-- errorCode
unfoldable pub error_code : GoError → ErrorCode
unfolding as_app
error_code e = elim (as_app e) [ none ↦ internal | some a ↦ a.0 ]

-- wrapBackendError
unfoldable pub wrap_backend_error : GoError → Message → GoError
unfolding as_app
wrap_backend_error e msg = elim (as_app e) [
  | none ↦ wrapped internal msg e
  | some a ↦ wrapped a.0 (msg ++ lit ": " ∷ a.1) e
]
