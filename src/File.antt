-- ===== src/File.antt =====
-- internal/service/file/manager.go: file operations under a root directory. The file system (the
-- FS interface, and os behind it) is a parameter.
pub mod Ops
pub mod Queries
pub mod Worlds
pub mod Guard
pub mod Journals
use mingyue_go.Base.{Bool, List, Option, Text, if◌then◌else◌, is_empty, ℕ}
use mingyue_go.Errors.{
  GoError, wrapped, not_found, internal, forbidden, lit, Message, Result, ok, err, Status,
  ErrorCode, is_not_exist,
}
use mingyue_go.Audit.{Journal, log_audit, success, failure}
use mingyue_go.SafePath.{safe_path}
use mingyue_go.Path.{clean, root_path}

-- os.FileInfo; the owner is there where Sys() is a Stat_t.
pub record FileInfo : Type 0 where
  pub name : Text
  pub is_dir : Bool
  pub size : ℕ
  pub mode : Text
  pub mod_time : ℕ
  pub uid : Option ℕ

-- os.DirEntry
pub record DirEntry : Type 0 where
  pub name : Text
  pub is_dir : Bool
  pub info : Result FileInfo

-- domain.FileEntry of internal/domain/file.go
pub record FileEntry : Type 0 where
  pub name : Text
  pub path : Text
  pub is_dir : Bool
  pub size : ℕ
  pub mode : Text
  pub mod_time : ℕ
  pub owner : Message
  pub unreadable : Bool

-- The FS interface over a world `W`: what changes files returns the new world.
pub record Fs (W : Type 0) : Type 0 where
  pub read_dir : Text → W → Result (List DirEntry)
  pub stat : Text → W → Result FileInfo
  pub mkdir_all : Text → ℕ → W → Status × W
  pub remove_one : Text → W → Status × W
  pub remove_all : Text → W → Status × W
  pub rename : Text → Text → W → Status × W
  pub copy_file : Text → Text → W → Status × W
  pub read_file : Text → W → Result Text
  pub write_file : Text → Text → ℕ → W → Status × W
  -- none where it fails
  pub eval_symlinks : Text → W → Option Text

-- What a manager works on: the files and the audit log.
pub record Host (W : Type 0) : Type 0 where
  pub world : W
  pub journal : Journal

pub record Manager (W : Type 0) : Type 0 where
  pub root : Text
  pub fs : Fs W

-- NewManager and NewManagerWithFS: an empty root is "/".
unfoldable pub new_manager : {W : Type 0} → Text → Fs W → Manager W
new_manager root fs = record { root = clean (if is_empty root then root_path else root); fs = fs }
