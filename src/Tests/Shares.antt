-- ===== src/Tests/Shares.antt =====
-- The share manager over the file backend, with a share in the store.
use mingyue_go.Base.{
  List, Option, Text, [], arith, codes, false, lookup, none, refl, some, split, true, ◌++◌, ◌↔◌,
  ◌∷◌, ◌≡◌,
}
use mingyue_go.Errors.{OsError, permission, exit_status, wrapped, internal, os, lit, err, done}
use mingyue_go.Share.{Share, smb, nfs}
use mingyue_go.Share.Backend.{Backend, IsBackend, put, drop_name, IsExact}
use mingyue_go.Share.Config.{disabled_section}
use mingyue_go.Share.Config.Lines.{disabled_section_injection}
use mingyue_go.Share.Manager.{Service, create, update, delete}
use mingyue_go.Share.Manager.Creation.{CanCreate, create-IsAtomic}
use mingyue_go.Share.Manager.Atomic.{IsAtomic, update-IsAtomic, delete-IsAtomic}
use mingyue_go.Share.Store.{
  FileStore, list_shares, load, sort_shares, share_types, disk_has_share_types,
}
use mingyue_go.Share.Store.Reload.{Env, written, reload}
use mingyue_go.Share.Store.Persistence.{FilesWork, reload_restores}
use mingyue_go.Share.Store.View.{AreNamed, view, file_backend, file_backend-IsBackend}
use mingyue_go.Share.Store.Restart.{restart_finds_shares}
use mingyue_go.Tests.Codecs.{share_codec}

abbrev pub conf_path : Text
conf_path = codes "/etc/samba/mingyue.conf"

-- Every call of a Reload works, but for the ones that the three arguments tell.
abbrev pub env_with : Option OsError → Option OsError → Option OsError → Env
env_with mkdir_samba smb_error nfs_error = record {
  reads_state = true;
  reads_samba = true;
  reads_nfs = true;
  mkdir_state = none;
  mkdir_samba = mkdir_samba;
  mkdir_nfs = none;
  write_state = written;
  write_samba = written;
  write_nfs = written;
  reload_samba = smb_error;
  reload_nfs = nfs_error;
  restore_state = written;
  restore_samba = written;
  restore_nfs = written;
}

abbrev calm : Env
calm = env_with none none none

-- smbcontrol ends with exit status 1.
abbrev pub smb_down : Env
smb_down = env_with none (some (exit_status 1)) none

abbrev no_directory : Env
no_directory = env_with (some permission) none none

abbrev pub media : Share
media = record {
  name = codes "media";
  kind = smb;
  path = codes "/srv/media";
  comment = codes "films";
  read_only = true;
  enabled = false;
  valid_users = [];
  write_list = [];
  create_mask = [];
  directory_mask = [];
  hosts = [];
}

abbrev pub backup : Share
backup = record media { name = codes "backup"; kind = nfs; path = codes "/srv/backup" }

abbrev pub store : FileStore
store = record {
  shares = (codes "media", media) ∷ [];
  disk = record { state = none; samba = none; nfs = none };
  commands = [];
}

pub store-AreNamed : AreNamed store
unfolding lookup
store-AreNamed = (refl, refl, tt)

abbrev service : Service FileStore
service = record { store = store; journal = some [] }

-- Every Reload fails when it tells samba, or none does.
abbrev pub failing : Backend FileStore
failing = file_backend share_codec conf_path (λ s. smb_down)

abbrev working : Backend FileStore
working = file_backend share_codec conf_path (λ s. calm)

file_backend-IsBackend_example : IsBackend failing view AreNamed × IsExact failing view AreNamed
file_backend-IsBackend_example = file_backend-IsBackend share_codec conf_path (λ s. smb_down)

pub failing_law : IsBackend failing view AreNamed
failing_law = (file_backend-IsBackend share_codec conf_path (λ s. smb_down)).0

create-IsAtomic_example :
    IsAtomic view AreNamed
      (view store)
      (put backup (view store))
      (create failing backup (codes "cli") service)
    × (((create failing backup (codes "cli") service).0 ≡ done)
        ↔ CanCreate failing view AreNamed failing_law (codes "cli") service backup)
create-IsAtomic_example =
    create-IsAtomic failing view AreNamed failing_law (codes "cli") service backup store-AreNamed

update-IsAtomic_example :
    IsAtomic view AreNamed
      (view store)
      (put (record media { comment = codes "new" }) (view store))
      (update failing (record media { comment = codes "new" }) (codes "cli") service)
update-IsAtomic_example =
    update-IsAtomic failing view AreNamed failing_law (codes "cli") service
      (record media { comment = codes "new" }) store-AreNamed

delete-IsAtomic_example :
    IsAtomic view AreNamed
      (view store)
      (drop_name (codes "media") (view store))
      (delete failing (codes "media") (codes "cli") service)
delete-IsAtomic_example =
    delete-IsAtomic failing view AreNamed failing_law (codes "cli") service (codes "media")
      store-AreNamed

reloaded : (reload share_codec conf_path calm store).0 ≡ done
unfolding reload share_types sort_shares list_shares disk_has_share_types
reloaded = refl

restart_finds_shares_example :
    lookup (codes "media") (load share_codec (reload share_codec conf_path calm store).1.disk.state)
    ≡ lookup (codes "media") store.shares
restart_finds_shares_example =
    restart_finds_shares share_codec conf_path calm store (codes "media") store-AreNamed reloaded

refused :
    (reload share_codec conf_path smb_down store).0
    ≡ err (wrapped internal (lit "failed to reload samba" ∷ []) (os (exit_status 1)))
unfolding reload share_types sort_shares list_shares disk_has_share_types
refused = refl

smb_down-FilesWork : FilesWork smb_down
smb_down-FilesWork = record {
  reads_state = refl;
  reads_samba = refl;
  reads_nfs = refl;
  mkdir_state = refl;
  mkdir_samba = refl;
  mkdir_nfs = refl;
  write_state = refl;
  write_samba = refl;
  write_nfs = refl;
  restore_state = refl;
  restore_samba = refl;
  restore_nfs = refl;
}

reload_restores_example : (reload share_codec conf_path smb_down store).1.disk ≡ store.disk
reload_restores_example =
    reload_restores share_codec conf_path smb_down store smb_down-FilesWork refused

-- The error of a missing directory for the samba snippet leaves the new state file behind.
no_directory_keeps_state :
    (reload share_codec conf_path no_directory store).1.disk.state
    ≡ some (share_codec.encode (sort_shares (list_shares store)))
unfolding reload
no_directory_keeps_state = refl

-- The comment of a disabled share with a section of its own in it.
abbrev crafted : Share
crafted = record media { comment = codes "x" ++ 10 ∷ codes "[root]" }

disabled_section_injection_example :
    (above : List Text) × (below : List Text) × (split 10 (disabled_section crafted)
      ≡ above ++ codes "[root]" ∷ below)
disabled_section_injection_example =
    disabled_section_injection crafted (codes "x") (codes "[root]") refl (ground arith)
