-- ===== src/Mount/Service/Checks.antt =====
-- The mount table in Mount and Umount of internal/service/disk/mount.go.
use mingyue_go.Base.{List, Option, Text, [], arith, if◌then◌else◌, true, ◌++◌, ◌∷◌, ◌≡◌}
use mingyue_go.Errors.{done, ok, err, app, conflict, lit, str}
use mingyue_go.Mount.{Mount, MountOptions, validate_persistent_mount_options}
use mingyue_go.Mount.Table.{is_mounted}
use mingyue_go.Mount.Fstab.{Persister}
use mingyue_go.Mount.Service.{MountState, MountEnv, list_mounts, mount, umount, umount_command}

-- A valid mount on a mount point of the table that was read is refused with CONFLICT: no command
-- runs and no file changes.
pub mount-is_mounted :
    (p : Option Persister) (env : MountEnv) (opts : MountOptions) (source : Text) (s : MountState)
    (ms : List Mount)
    → validate_persistent_mount_options opts ≡ done
    → list_mounts env ≡ ok ms
    → is_mounted opts.mount_point ms ≡ true
    → ((mount p env opts source s).0
        ≡ err (
            app conflict
              (lit "mountpoint " ∷ str opts.mount_point ∷ lit " is already mounted" ∷ [])))
      × ((mount p env opts source s).1.commands ≡ s.commands)
      × ((mount p env opts source s).1.files ≡ s.files)
unfolding mount
mount-is_mounted p env opts source s ms v l m = ground arith

-- Where the mount table can be read, Umount runs its one command exactly if the mount point stands
-- in the table, and changes no file.
pub umount-is_mounted :
    (env : MountEnv) (mount_point source : Text) (s : MountState) (ms : List Mount)
    → list_mounts env ≡ ok ms
    → ((umount env mount_point source s).1.commands ≡ (
        if is_mounted mount_point ms
        then s.commands ++ umount_command mount_point ∷ []
        else s.commands))
      × ((umount env mount_point source s).1.files ≡ s.files)
unfolding umount
umount-is_mounted env mount_point source s ms l = ground arith
