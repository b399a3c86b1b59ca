-- ===== src/Mount/Fstab.antt =====
-- fstabPersister of internal/service/disk/mount.go: the line of a mount in /etc/fstab.
pub mod Replace
pub mod Atomic
pub mod Lines
use mingyue_go.Base.{
  Bool, List, Option, String, Text, [], codes, false, fields, has_prefix, if◌then◌else◌, is_empty,
  join, none, not, replace_crlf, some, split, text_eq, trim_space, ℕ, ◌&&◌, ◌++◌, ◌==◌, ◌||◌, ◌∷◌,
}
use mingyue_go.Errors.{
  GoError, OsError, app, wrapped, annotated, internal, os, lit, str, Result, ok, err, Status, done,
}
use mingyue_go.Exec.{Exec, pure, raise, ◌>>=◌, ◌>>◌}
use mingyue_go.Storage.{File, Files, set_file, WriteEnv, clean_up, rename_temp}
use mingyue_go.Path.{join_path, dir}
use mingyue_go.Mount.{
  MountOptions, is_cifs, has_credentials, split_mount_options, has_exact_option,
  normalize_cifs_source,
}

-- `digest` is the hexadecimal SHA-256 of a text.
pub record Persister : Type 0 where
  pub fstab_path : Text
  pub cifs_creds_dir : Text
  pub digest : Text → Text

-- What the system answers while one mount is persisted.
pub record PersistEnv : Type 0 where
  pub read_error : Option OsError
  pub creds : WriteEnv
  pub fstab : WriteEnv

abbrev failing : String → Text → OsError → GoError
failing what path e = annotated (lit what ∷ str path ∷ []) (os e)

-- atomicWriteFile: the mode is set before anything is written. The sync of the directory at the
-- end is not checked by the code.
unfoldable pub atomic_write_file : WriteEnv → Text → Text → ℕ → Exec Files (Unit {0})
unfolding dir
atomic_write_file env path content mode files = elim env.mkdir [
  | some e ↦ (err (failing "create directory " (dir path) e), files)
  | none ↦ elim env.create [
    | some e ↦ (err (failing "create temp file in " (dir path) e), files)
    | none ↦
        let empty = set_file env.temp (some (record { content = []; mode = 0o600 })) files in
        let whole = set_file env.temp (some (record { content = content; mode = mode })) files in
        elim env.chmod [
          | some e ↦ (err (failing "chmod temp file " env.temp e), clean_up env empty)
          | none ↦ elim env.write [
            | some e ↦ (
              err (failing "write temp file " env.temp e),
              clean_up env
                  (set_file env.temp (some (record { content = env.partial; mode = mode })) files),
            )
            | none ↦ elim env.sync [
              | some e ↦ (err (failing "fsync temp file " env.temp e), clean_up env whole)
              | none ↦ elim env.close [
                | some e ↦ (err (failing "close temp file " env.temp e), clean_up env whole)
                | none ↦ elim env.rename [
                  | some e ↦ (
                    err (
                        annotated
                          (lit "rename temp file " ∷ str env.temp ∷ lit " to " ∷ str path ∷ [])
                          (os e)),
                    clean_up env whole,
                  )
                  | none ↦ (done, rename_temp env path whole)
                ]
              ]
            ]
          ]
        ]
  ]
]

-- The lines of a credentials file
abbrev pub credentials : MountOptions → Text
credentials opts =
    codes "username="
    ++ (opts.username
        ++ (10 ∷ codes "password="
            ++ (opts.password
                ++ (10
                    ∷ (if is_empty opts.domain
                        then []
                        else codes "domain=" ++ (opts.domain ++ 10 ∷ []))))))

abbrev pub cred_path : Persister → MountOptions → Text
cred_path p opts = join_path p.cifs_creds_dir (p.digest opts.mount_point ++ codes ".cred")

abbrev wrap_creds : Text → Status × Files → Result Text × Files
wrap_creds path (r, files) = elim r [
  | ok _ ↦ (ok path, files)
  | err e ↦ (err (wrapped internal (lit "failed to persist CIFS credentials" ∷ []) e), files)
]

-- writeCIFSCredentials
unfoldable pub write_cifs_credentials : Persister → PersistEnv → MountOptions → Exec Files Text
unfolding atomic_write_file
write_cifs_credentials p env opts files =
    if is_empty p.cifs_creds_dir
    then (
      err (app internal (lit "persistent CIFS credentials directory is not configured" ∷ [])),
      files,
    )
    else wrap_creds (cred_path p opts)
        (atomic_write_file env.creds (cred_path p opts) (credentials opts) 0o600 files)

-- The options of the entry, before the credentials
abbrev pub plain_parts : MountOptions → List Text
plain_parts opts =
    let parts = split_mount_options opts.options in
    if opts.read_only && not (has_exact_option parts (codes "ro"))
    then parts ++ codes "ro" ∷ []
    else parts

abbrev pub options_text : List Text → Text
options_text [] = codes "defaults"
options_text (p ∷ ps) = join (p ∷ ps) (codes ",")

-- buildOptions
unfoldable pub build_options : Persister → PersistEnv → MountOptions → Exec Files Text
unfolding write_cifs_credentials
build_options p env opts files =
    if is_cifs opts && has_credentials opts
    then (write_cifs_credentials p env opts >>= λ path.
          pure (options_text ((codes "credentials=" ++ path) ∷ plain_parts opts)))
        files
    else (ok (options_text (plain_parts opts)), files)

abbrev pub tab : Text
tab = 9 ∷ []

abbrev pub entry_text : Text → Text → Text → Text → Text
entry_text source mount_point fs_type mount_opts =
    source
    ++ (tab
        ++ (mount_point
            ++ (tab
                ++ (fs_type
                    ++ (tab ++ (mount_opts ++ (tab ++ (codes "0" ++ (tab ++ codes "0")))))))))

abbrev pub entry_source : MountOptions → Result Text
entry_source opts = if is_cifs opts then normalize_cifs_source opts.source else ok opts.source

-- buildEntry
unfoldable pub build_entry : Persister → PersistEnv → MountOptions → Exec Files Text
unfolding build_options
build_entry p env opts files = elim (entry_source opts) [
  | err e ↦ (err e, files)
  | ok source ↦
      (build_options p env opts >>= λ mount_opts. pure (
          entry_text source opts.mount_point
            (if is_empty opts.fs_type then codes "auto" else opts.fs_type) mount_opts))
        files
]

-- The list without a last part that is empty
abbrev drop_empty_last : List Text → List Text
drop_empty_last [] = []
drop_empty_last ([] ∷ []) = []
drop_empty_last ((c ∷ l) ∷ []) = (c ∷ l) ∷ []
drop_empty_last (l ∷ m ∷ ls) = l ∷ drop_empty_last (m ∷ ls)

abbrev pub lines_of : Text → List Text
lines_of content = drop_empty_last (split 10 (replace_crlf content))

-- readLines
unfoldable pub read_lines : Persister → PersistEnv → Exec Files (List Text)
read_lines p env files = elim (files p.fstab_path) [
  | none ↦ (ok [], files)
  | some f ↦ elim env.read_error [
    | some e ↦ (err (wrapped internal (lit "failed to read /etc/fstab" ∷ []) (os e)), files)
    | none ↦ (ok (lines_of f.content), files)
  ]
]

-- fields[1], where there are two fields
abbrev second : List Text → Option Text
second (a ∷ b ∷ rest) = some b
second _ = none

-- The mount point of a line, none for a comment or a line with fewer than two fields
unfoldable pub line_mount_point : Text → Option Text
unfolding trim_space has_prefix fields
line_mount_point line =
    if is_empty (trim_space line) || has_prefix (trim_space line) (codes "#")
    then none
    else second (fields (trim_space line))

abbrev pub is_line_of : Text → Text → Bool
is_line_of mount_point line = elim (line_mount_point line) [
  | none ↦ false
  | some m ↦ text_eq m mount_point
]

-- The first line of the mount point is replaced, or the entry is appended.
unfoldable pub put_line : Text → Text → List Text → List Text
put_line entry mount_point [] = entry ∷ []
put_line entry mount_point (l ∷ ls) =
    let rest = put_line entry mount_point ls in
    if is_line_of mount_point l then entry ∷ ls else l ∷ rest

abbrev ends_with_newline : Text → Bool
ends_with_newline [] = false
ends_with_newline (c ∷ []) = c == 10
ends_with_newline (c ∷ d ∷ s) = ends_with_newline (d ∷ s)

abbrev pub fstab_text : List Text → Text
fstab_text lines =
    let content = join lines (10 ∷ []) in
    if not (is_empty content) && not (ends_with_newline content)
    then content ++ 10 ∷ []
    else content

-- Persist
unfoldable pub persist : Persister → PersistEnv → MountOptions → Exec Files (Unit {0})
unfolding build_entry read_lines atomic_write_file put_line
persist p env opts = do
  entry ← build_entry p env opts
  lines ← read_lines p env
  atomic_write_file env.fstab p.fstab_path (fstab_text (put_line entry opts.mount_point lines))
      0o644
