-- ===== src/Mount/Service.antt =====
-- MountService of internal/service/disk/mount.go: listing, mounting and unmounting.
pub mod Secrets
pub mod Checks
use mingyue_go.Base.{
  Bool, List, Option, String, Text, [], codes, equal_fold, if◌then◌else◌, is_empty, none, not, some,
  ◌++◌, ◌||◌, ◌∷◌,
}
use mingyue_go.Errors.{
  ErrorCode, GoError, OsError, app, wrapped, invalid_input, internal, conflict, not_found, os, lit,
  str, Message, Result, ok, err, Status, done,
}
use mingyue_go.Audit.{Journal, log_audit, success, failure}
use mingyue_go.Storage.{File, Files, set_file}
use mingyue_go.Mount.{
  MountOptions, Mount, is_cifs, validate_persistent_mount_options, normalize_cifs_source,
  wrap_mount_command_error,
}
use mingyue_go.Mount.Table.{parse_mounts, is_mounted}
use mingyue_go.Mount.Fstab.{Persister, PersistEnv, credentials, persist}

-- What the service changes: files, the commands that were run (the oldest first), the audit log.
pub record MountState : Type 0 where
  pub files : Files
  pub commands : List (List Text)
  pub journal : Journal

-- What the system answers while the temporary credentials file is made. `left` is what a failed
-- write left in it.
pub record CredEnv : Type 0 where
  pub temp : Text
  pub create : Option OsError
  pub chmod : Option OsError
  pub write : Option OsError
  pub write_domain : Option OsError
  pub close : Option OsError
  pub left : Text
  pub removes : Bool

-- The same for one call of the service: /proc/mounts, and what a command prints and returns.
pub record MountEnv : Type 0 where
  pub open_error : Option OsError
  pub table : Text
  pub read_error : Option OsError
  pub run : List Text → Text × Option OsError
  pub creds : CredEnv
  pub persist : PersistEnv

-- List and listLocked
unfoldable pub list_mounts : MountEnv → Result (List Mount)
unfolding parse_mounts
list_mounts env = elim env.open_error [
  | some e ↦ err (wrapped internal (lit "failed to read mount table" ∷ []) (os e))
  | none ↦ parse_mounts env.read_error env.table
]

abbrev run_command : List Text → MountState → MountState
run_command command s = record s { commands = s.commands ++ command ∷ [] }

-- The options of mountGeneric
abbrev generic_options : MountOptions → Text
generic_options opts =
    if opts.read_only
    then if is_empty opts.options then codes "ro" else opts.options ++ codes ",ro"
    else opts.options

unfoldable pub generic_command : MountOptions → List Text
unfolding equal_fold
generic_command opts =
    codes "mount"
    ∷ ((if is_empty opts.fs_type || equal_fold opts.fs_type (codes "auto")
          then []
          else codes "-t" ∷ opts.fs_type ∷ [])
        ++ ((if is_empty (generic_options opts) then [] else codes "-o" ∷ generic_options opts ∷ [])
            ++ (opts.source ∷ opts.mount_point ∷ [])))

abbrev command_status : Message → Text × Option OsError → Status
command_status message (output, e) = elim e [
  | none ↦ done
  | some e ↦ err (wrap_mount_command_error message output e)
]

-- mountGeneric
unfoldable pub mount_generic : MountEnv → MountOptions → MountState → Status × MountState
unfolding generic_command
mount_generic env opts s = (
  command_status
      (lit "mount failed for " ∷ str opts.source ∷ lit " at " ∷ str opts.mount_point ∷ [])
      (env.run (generic_command opts)),
  run_command (generic_command opts) s,
)

unfoldable pub cifs_command : Text → Text → MountOptions → List Text
cifs_command temp source opts =
    codes "mount"
    ∷ codes "-t"
    ∷ codes "cifs"
    ∷ codes "-o"
    ∷ (codes "credentials="
        ++ (temp
            ++ ((if opts.read_only then codes ",ro" else [])
                ++ (if is_empty opts.options then [] else codes "," ++ opts.options))))
    ∷ source
    ∷ opts.mount_point
    ∷ []

-- The files once the credentials file was made and its deferred removal has run.
abbrev after_creds : CredEnv → Text → MountState → MountState
after_creds env content s = record s {
  files =
      if env.removes
      then set_file env.temp none s.files
      else set_file env.temp (some (record { content = content; mode = 0o600 })) s.files;
}

abbrev creds_error : String → OsError → Status
creds_error what e = err (wrapped internal (lit what ∷ []) (os e))

-- mountCIFS, once the source is in its normal form
unfoldable pub mount_share : MountEnv → Text → MountOptions → MountState → Status × MountState
unfolding cifs_command
mount_share env source opts s =
    let creds = env.creds in
    elim creds.create [
      | some e ↦ (creds_error "failed to create CIFS credentials file" e, s)
      | none ↦ elim creds.chmod [
        | some e ↦ (creds_error "failed to secure CIFS credentials file" e, after_creds creds [] s)
        | none ↦ elim creds.write [
          | some e ↦
              (creds_error "failed to write CIFS credentials" e, after_creds creds creds.left s)
          | none ↦ elim (if is_empty opts.domain then none else creds.write_domain) [
            | some e ↦ (creds_error "failed to write CIFS domain" e, after_creds creds creds.left s)
            | none ↦ elim creds.close [
              | some e ↦ (
                creds_error "failed to flush CIFS credentials file" e,
                after_creds creds (credentials opts) s,
              )
              | none ↦ (
                command_status
                    (lit "cifs mount failed for "
                      ∷ str source
                      ∷ lit " at "
                      ∷ str opts.mount_point
                      ∷ [])
                    (env.run (cifs_command creds.temp source opts)),
                run_command (cifs_command creds.temp source opts)
                    (after_creds creds (credentials opts) s),
              )
            ]
          ]
        ]
      ]
    ]

-- mountCIFS
unfoldable pub mount_cifs : MountEnv → MountOptions → MountState → Status × MountState
unfolding mount_share
mount_cifs env opts s = elim (normalize_cifs_source opts.source) [
  | err e ↦ (err e, s)
  | ok source ↦ mount_share env source opts s
]

-- The end of an operation: the result, and one audit event.
abbrev finish : Text → Text → Text → Status → Option ErrorCode → MountState → Status × MountState
finish source action target result code s = (
  result,
  record s {
    journal =
        log_audit source action target (elim code [ none ↦ success | some c ↦ failure ]) code
          s.journal;
  },
)

-- persister.Persist: none is the persister that does nothing.
abbrev persisted : Option Persister → MountEnv → MountOptions → MountState → Status × MountState
persisted none env opts s = (done, s)
persisted (some p) env opts s =
    let r = persist p env.persist opts s.files in (r.0, record s { files = r.1 })

abbrev persist_end : MountOptions → Text → Status × MountState → Status × MountState
persist_end opts source (r, s) = elim r [
  | ok _ ↦ finish source (codes "disk.mount") opts.mount_point done none s
  | err e ↦
      finish source (codes "disk.mount.persist") opts.mount_point
        (err (
          wrapped internal
            (lit "mounted "
              ∷ str opts.source
              ∷ lit " at "
              ∷ str opts.mount_point
              ∷ lit " but failed to persist in /etc/fstab"
              ∷ [])
            e))
        (some internal) s
]

abbrev mount_end :
    Option Persister → MountEnv → MountOptions → Text → Status × MountState → Status × MountState
mount_end p env opts source (r, s) = elim r [
  | err e ↦ finish source (codes "disk.mount") opts.mount_point (err e) (some internal) s
  | ok _ ↦
      if opts.persistent
      then persist_end opts source (persisted p env opts s)
      else finish source (codes "disk.mount") opts.mount_point done none s
]

abbrev already_mounted : Text → Status
already_mounted p = err (app conflict (lit "mountpoint " ∷ str p ∷ lit " is already mounted" ∷ []))

-- Mount
unfoldable pub mount :
    Option Persister → MountEnv → MountOptions → Text → MountState → Status × MountState
unfolding list_mounts is_mounted mount_generic mount_cifs
mount p env opts source s = elim (validate_persistent_mount_options opts) [
  | err e ↦ finish source (codes "disk.mount") opts.mount_point (err e) (some invalid_input) s
  | ok _ ↦ elim (list_mounts env) [
    | err e ↦ (err e, s)
    | ok mounts ↦
        if is_mounted opts.mount_point mounts
        then finish source (codes "disk.mount") opts.mount_point (already_mounted opts.mount_point)
            (some conflict) s
        else if is_cifs opts
        then mount_end p env opts source (mount_cifs env opts s)
        else mount_end p env opts source (mount_generic env opts s)
  ]
]

abbrev pub umount_command : Text → List Text
umount_command mount_point = codes "umount" ∷ mount_point ∷ []

-- Umount
unfoldable pub umount : MountEnv → Text → Text → MountState → Status × MountState
unfolding list_mounts is_mounted
umount env mount_point source s = elim (list_mounts env) [
  | err e ↦ (err e, s)
  | ok mounts ↦
      if not (is_mounted mount_point mounts)
      then finish source (codes "disk.umount") mount_point
          (err (
            app not_found
              (lit "mountpoint " ∷ str mount_point ∷ lit " is not currently mounted" ∷ [])))
          (some not_found) s
      else elim (env.run (umount_command mount_point)).1 [
        | some e ↦
            finish source (codes "disk.umount") mount_point
              (err (wrapped internal (lit "failed to unmount " ∷ str mount_point ∷ []) (os e)))
              (some internal) (run_command (umount_command mount_point) s)
        | none ↦
            finish source (codes "disk.umount") mount_point done none
              (run_command (umount_command mount_point) s)
      ]
]
