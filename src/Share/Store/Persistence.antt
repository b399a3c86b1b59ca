-- ===== src/Share/Store/Persistence.antt =====
-- Reload of internal/service/share/filebackend.go: the disk and the commands after it.
use mingyue_go.Base.{
  List, Text, [], append-nil, append_assoc, arith, if◌then◌else◌, none, some, true, ◌++◌, ◌||◌, ◌∷◌,
  ◌≡◌,
}
use mingyue_go.Errors.{GoError, err, done}
use mingyue_go.Share.{Share}
use mingyue_go.Share.Config.{samba_conf, nfs_exports}
use mingyue_go.Share.Store.{
  Disk, FileStore, Codec, sort_shares, share_types, disk_has_share_types, list_shares,
}
use mingyue_go.Share.Store.Reload.{Env, written, reload, samba_command, nfs_command}

-- The disk that Reload is meant to write for these shares.
abbrev pub full_disk : Codec Share → Text → List Share → Disk
full_disk codec conf_path shares = record {
  state = some (codec.encode shares);
  samba = some (samba_conf conf_path shares);
  nfs = some (nfs_exports shares);
}

module _ (codec : Codec Share) (conf_path : Text) (env : Env) (s : FileStore) where
  -- A reload never changes the shares in memory, whatever fails.
  pub reload_keeps_shares : (reload codec conf_path env s).1.shares ≡ s.shares
  unfolding reload
  reload_keeps_shares = ground arith

  -- After a successful reload the three files hold the present shares, sorted by name.
  pub reload_writes :
      (reload codec conf_path env s).0 ≡ done
      → (reload codec conf_path env s).1.disk
        ≡ full_disk codec conf_path (sort_shares (list_shares s))
  unfolding reload
  reload_writes h = ground arith

-- Every file operation of a Reload succeeds; only the service commands may fail.
pub record FilesWork (env : Env) : Type 0 where
  pub reads_state : env.reads_state ≡ true
  pub reads_samba : env.reads_samba ≡ true
  pub reads_nfs : env.reads_nfs ≡ true
  pub mkdir_state : env.mkdir_state ≡ none
  pub mkdir_samba : env.mkdir_samba ≡ none
  pub mkdir_nfs : env.mkdir_nfs ≡ none
  pub write_state : env.write_state ≡ written
  pub write_samba : env.write_samba ≡ written
  pub write_nfs : env.write_nfs ≡ written
  pub restore_state : env.restore_state ≡ written
  pub restore_samba : env.restore_samba ≡ written
  pub restore_nfs : env.restore_nfs ≡ written

-- The services that must be told: those that have shares now, or had some on disk before.
abbrev pub needed_commands : Codec Share → FileStore → List (List Text)
needed_commands codec s =
    let has = share_types (sort_shares (list_shares s)) in
    let had = disk_has_share_types codec s.disk.state in
    (if has.0 || had.0 then samba_command ∷ [] else [])
    ++ (if has.1 || had.1 then nfs_command ∷ [] else [])

module _ (codec : Codec Share) (conf_path : Text) (env : Env) (s : FileStore) where
  -- Where the file operations work, a Reload that returns an error has put the three files back to
  -- what they were.
  pub reload_restores :
      {e : GoError}
      → FilesWork env
      → (reload codec conf_path env s).0 ≡ err e
      → (reload codec conf_path env s).1.disk ≡ s.disk
  unfolding reload
  reload_restores w h = ground (
    arith, w.reads_state, w.reads_samba, w.reads_nfs, w.mkdir_state, w.mkdir_samba, w.mkdir_nfs,
    w.write_state, w.write_samba, w.write_nfs, w.restore_state, w.restore_samba, w.restore_nfs,
  )

  -- A successful Reload that could read the state file has told exactly the services that have
  -- shares now or had some before, samba first.
  pub reload_commands :
      env.reads_state ≡ true
      → (reload codec conf_path env s).0 ≡ done
      → (reload codec conf_path env s).1.commands ≡ s.commands ++ needed_commands codec s
  unfolding reload
  reload_commands r h = ground (
    arith,
    append-nil s.commands,
    append_assoc s.commands (samba_command ∷ []) (nfs_command ∷ []),
  )
