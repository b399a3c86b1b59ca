-- ===== src/Share/Store/Reload.antt =====
-- Reload of internal/service/share/filebackend.go.
use mingyue_go.Base.{
  Bool, List, Option, Text, [], codes, if◌then◌else◌, none, not, some, ◌++◌, ◌||◌, ◌∷◌,
}
use mingyue_go.Errors.{GoError, annotated, wrapped, internal, os, OsError, lit, Message, err, done}
use mingyue_go.Exec.{Exec, gets, ◌>>=◌, ◌>>◌}
use mingyue_go.Share.{Share}
use mingyue_go.Share.Config.{samba_conf, nfs_exports}
use mingyue_go.Share.Store.{
  Disk, FileStore, Codec, sort_shares, share_types, disk_has_share_types, list_shares,
}

-- A call of os.WriteFile or os.Remove: it succeeds, or fails and leaves the file in some state.
pub data Write : Type 0 where
  written : Write
  failed : OsError → Option Text → Write

-- What the operating system and the services answer during one Reload.
pub record Env : Type 0 where
  pub reads_state : Bool
  pub reads_samba : Bool
  pub reads_nfs : Bool
  pub mkdir_state : Option OsError
  pub mkdir_samba : Option OsError
  pub mkdir_nfs : Option OsError
  pub write_state : Write
  pub write_samba : Write
  pub write_nfs : Write
  pub reload_samba : Option OsError
  pub reload_nfs : Option OsError
  pub restore_state : Write
  pub restore_samba : Write
  pub restore_nfs : Write

-- The content after a call that should have left `content`.
abbrev pub result_of : Write → Option Text → Option Text
result_of w content = elim w [ written ↦ content | failed e left ↦ left ]

-- os.ReadFile, its error ignored
abbrev snapshot : Bool → Option Text → Option Text
snapshot reads content = if reads then content else none

-- os.MkdirAll
abbrev make_dir : Option OsError → (GoError → GoError) → Exec FileStore (Unit {0})
make_dir o f s = elim o [ none ↦ (done, s) | some e ↦ (err (f (os e)), s) ]

abbrev written_or : Write → (GoError → GoError) → Exec FileStore (Unit {0})
written_or w f s = elim w [ written ↦ (done, s) | failed e left ↦ (err (f (os e)), s) ]

abbrev persist_error : Message → GoError → GoError
persist_error m e = wrapped internal (lit "failed to persist share state" ∷ []) (annotated m e)

abbrev set_state : Option Text → Exec FileStore (Unit {0})
set_state c s = (done, record s { disk = record (s.disk) { state = c } })

abbrev set_samba : Option Text → Exec FileStore (Unit {0})
set_samba c s = (done, record s { disk = record (s.disk) { samba = c } })

abbrev set_nfs : Option Text → Exec FileStore (Unit {0})
set_nfs c s = (done, record s { disk = record (s.disk) { nfs = c } })

-- saveState, with the wrapping that Reload adds
unfoldable pub save_state : Codec Share → Env → List Share → Exec FileStore (Unit {0})
save_state codec env shares = do
  make_dir env.mkdir_state (persist_error (lit "create state directory" ∷ []))
  set_state (result_of env.write_state (some (codec.encode shares)))
  written_or env.write_state (persist_error (lit "write state file" ∷ []))

unfoldable pub write_samba_conf : Text → Env → List Share → Exec FileStore (Unit {0})
write_samba_conf conf_path env shares = do
  make_dir env.mkdir_samba (wrapped internal (lit "create samba config directory" ∷ []))
  set_samba (result_of env.write_samba (some (samba_conf conf_path shares)))
  written_or env.write_samba (wrapped internal (lit "write samba config" ∷ []))

unfoldable pub write_nfs_exports : Env → List Share → Exec FileStore (Unit {0})
write_nfs_exports env shares = do
  make_dir env.mkdir_nfs (wrapped internal (lit "create NFS exports directory" ∷ []))
  set_nfs (result_of env.write_nfs (some (nfs_exports shares)))
  written_or env.write_nfs (wrapped internal (lit "write NFS exports" ∷ []))

-- restoreDisk: restoreFile for each of the three snapshots
unfoldable pub restore_disk : Env → Disk → Exec FileStore (Unit {0})
restore_disk env old s = (
  done,
  record s {
    disk = record {
      state = result_of env.restore_state old.state;
      samba = result_of env.restore_samba old.samba;
      nfs = result_of env.restore_nfs old.nfs;
    };
  },
)

abbrev pub samba_command : List Text
samba_command = codes "smbcontrol" ∷ codes "all" ∷ codes "reload-config" ∷ []

abbrev pub nfs_command : List Text
nfs_command = codes "exportfs" ∷ codes "-ra" ∷ []

abbrev run_command : List Text → FileStore → FileStore
run_command command s = record s { commands = s.commands ++ command ∷ [] }

-- A command that a service needs; where it fails the files are put back.
unfoldable pub reload_service :
    Env → Disk → Bool → List Text → Option OsError → Message → Exec FileStore (Unit {0})
unfolding restore_disk
reload_service env old needed command outcome m s = if not needed then (done, s) else elim outcome [
  | none ↦ (done, run_command command s)
  | some e ↦ (err (wrapped internal m (os e)), (restore_disk env old (run_command command s)).1)
]

-- Reload
unfoldable pub reload : Codec Share → Text → Env → Exec FileStore (Unit {0})
unfolding save_state write_samba_conf write_nfs_exports reload_service
reload codec conf_path env = do
  shares ← gets (λ s. sort_shares (list_shares s))
  old ← gets {A = Disk} (λ s. record {
    state = snapshot env.reads_state s.disk.state;
    samba = snapshot env.reads_samba s.disk.samba;
    nfs = snapshot env.reads_nfs s.disk.nfs;
  })
  let had = disk_has_share_types codec old.state
  save_state codec env shares
  write_samba_conf conf_path env shares
  write_nfs_exports env shares
  let has = share_types shares
  reload_service env old (has.0 || had.0) samba_command env.reload_samba
      (lit "failed to reload samba" ∷ [])
  reload_service env old (has.1 || had.1) nfs_command env.reload_nfs
      (lit "failed to reload NFS exports" ∷ [])
