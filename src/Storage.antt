-- ===== src/Storage.antt =====
-- Files as the operating system keeps them, and what it answers while one file is written through
-- a temporary file (internal/auth/keystore.go, internal/service/disk/mount.go).
use mingyue_go.Base.{Bool, Option, Text, if◌then◌else◌, none, text_eq, ℕ}
use mingyue_go.Errors.{OsError}

pub record File : Type 0 where
  pub content : Text
  pub mode : ℕ

abbrev pub Files : Type 0
Files = Text → Option File

-- The files once `path` holds `file`; none removes it.
abbrev pub set_file : Text → Option File → Files → Files
set_file path file files q = if text_eq path q then file else files q

-- The answers of one write: an error for each step that fails, the name that os.CreateTemp chose,
-- what a failed write left in the temporary file, and whether os.Remove works.
pub record WriteEnv : Type 0 where
  pub temp : Text
  pub mkdir : Option OsError
  pub create : Option OsError
  pub chmod : Option OsError
  pub write : Option OsError
  pub partial : Text
  pub sync : Option OsError
  pub close : Option OsError
  pub rename : Option OsError
  pub removes : Bool

-- The deferred os.Remove of the temporary file.
abbrev pub clean_up : WriteEnv → Files → Files
clean_up env files = if env.removes then set_file env.temp none files else files

-- os.Rename of the temporary file to `path`.
abbrev pub rename_temp : WriteEnv → Text → Files → Files
rename_temp env path files = set_file env.temp none (set_file path (files env.temp) files)
