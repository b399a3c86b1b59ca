-- ===== src/Tests/Acls.antt =====
-- Access control lists below /srv/data.
use mingyue_go.Base.{Text, [], codes, if◌then◌else◌, none, refl, some, text_eq, true, ◌∷◌, ◌≡◌}
use mingyue_go.Errors.{exec_not_found}
use mingyue_go.Shell.{Shell}
use mingyue_go.Path.{is_abs}
use mingyue_go.Acl.{AclEnv, set_acl}
use mingyue_go.Acl.Laws.{IsGuarded, set_acl-IsGuarded}

abbrev root : Text
root = codes "/srv/data"

-- Nothing but the root can be resolved, and setfacl is not installed.
abbrev pub env : AclEnv
env = record {
  eval_symlinks = λ p. if text_eq p (codes "/srv/data") then some p else none;
  lstat = λ p. (none, record { mode = codes "-rw-r--r--"; owners = none });
  run = λ command. ([], some exec_not_found);
}

abbrev start : Shell
start = record { commands = []; journal = some [] }

rooted : is_abs root ≡ true
unfolding is_abs
rooted = refl

set_acl-IsGuarded_example :
    IsGuarded root
      (codes "u:anna:r" ∷ [])
      []
      (set_acl env root (codes "a/b") (codes "u:anna:r" ∷ []) (codes "cli") start).1.commands
set_acl-IsGuarded_example =
    set_acl-IsGuarded env root (codes "a/b") (codes "u:anna:r" ∷ []) (codes "cli") start rooted
