-- ===== src/Mount/Service/Secrets.antt =====
-- The credentials of a CIFS mount in Mount of internal/service/disk/mount.go.
use mingyue_go.Base.{List, Option, Text, arith, false, ◌≡◌}
use mingyue_go.Errors.{Status}
use mingyue_go.Audit.{Journal}
use mingyue_go.Mount.{MountOptions, validate_persistent_mount_options}
use mingyue_go.Mount.Fstab.{Persister}
use mingyue_go.Mount.Service.{
  MountState, MountEnv, mount, mount_cifs, mount_share, mount_generic, generic_command,
  cifs_command,
}

-- The same options with other credentials.
abbrev pub with_credentials : Text → Text → Text → MountOptions → MountOptions
with_credentials username password domain opts = record opts {
  username = username;
  password = password;
  domain = domain;
}

-- What others can see of a call: the error, the commands and the audit log.
abbrev pub seen : Status × MountState → Status × (List (List Text) × Journal)
seen (r, s) = (r, (s.commands, s.journal))

-- The user name and the password of a mount that is not persistent reach neither a command line
-- nor the audit log nor the error that the caller gets: with any other ones, and the same answers
-- of the system, these are the same.
pub mount-credentials :
    (p : Option Persister) (env : MountEnv) (opts : MountOptions) (username password : Text)
    (source : Text) (s : MountState)
    → opts.persistent ≡ false
    → seen (mount p env (with_credentials username password opts.domain opts) source s)
      ≡ seen (mount p env opts source s)
unfolding mount mount_cifs mount_share mount_generic generic_command cifs_command
    validate_persistent_mount_options
mount-credentials p env opts username password source s h = ground arith
