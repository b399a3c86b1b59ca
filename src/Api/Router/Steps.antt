-- ===== src/Api/Router/Steps.antt =====
-- What one request to the router of internal/api/router.go does with the services.
pub mod Files
pub mod Shares
pub mod Users
pub mod Disks
pub mod Others
use mingyue_go.Base.{
  Bool, List, Option, Text, [], codes, false, refl, some, text_eq, text_eq_iff, true, ℕ, ◌&&◌, ◌++◌,
  ◌||◌, ◌∷◌, ◌≡◌,
}
use mingyue_go.Auth.{Role, operator, admin, has_role}
use mingyue_go.Middleware.{
  status_only, reply_status, HttpRequest, role_from_context, is_mutating_method,
}
use mingyue_go.Middleware.{Reply}
use mingyue_go.Api.System.{Payload}
use mingyue_go.Api.Dispatch.{failed, post_method, put_method, delete_method}
use mingyue_go.Api.Router.Keeps.{Keeps, keeps, Condition}
use mingyue_go.Errors.{Status, ok, err, write_app_error}
use mingyue_go.Share.{Share}
use mingyue_go.Share.Manager.{create, update, delete}
use mingyue_go.Share.Users.{add_user, remove_user, set_password}
use mingyue_go.Mount.{MountOptions}
use mingyue_go.Mount.Service.{mount, umount}
use mingyue_go.Disk.Power.{set_mode}
use mingyue_go.Network.{set_link_up, set_link_down, renew_dhcp}
use mingyue_go.Acl.{set_acl}
use mingyue_go.Api.System.{Env, System, on_files, on_shares, on_users, on_mounts, on_shell}
use mingyue_go.Api.Processes.{kill_process}
use mingyue_go.File.Ops.{Request, run}

-- The commands that only read: hdparm -C and getfacl
abbrev pub is_reading : List Text → Bool
is_reading [] = false
is_reading (name ∷ []) = false
is_reading (name ∷ flag ∷ args) =
    text_eq name (codes "getfacl") || (text_eq name (codes "hdparm") && text_eq flag (codes "-C"))

-- The state is as it was, but for a command that only reads.
pub data Read {W T : Type 0} (s : System W T) : System W T → Type 0 where
  nothing : Read s s
  looked_up :
      (c : List Text) → is_reading c ≡ true → Read s (record s { commands = s.commands ++ c ∷ [] })

-- One operation of one service, by `source`, with the role that it wants
pub data Change {W T : Type 0} (env : Env W T) (source : Text) (s : System W T)
    : Role → System W T → Type 0 where
  on_file : (q : Request) → Change env source s operator (on_files (run env.files q source) s).1
  share_created :
      (x : Share) → Change env source s operator (on_shares (create env.backend x source) s).1
  share_updated :
      (x : Share) → Change env source s operator (on_shares (update env.backend x source) s).1
  share_deleted :
      (n : Text) → Change env source s operator (on_shares (delete env.backend n source) s).1
  user_added :
      (u p : Text)
      → Change env source s operator (on_users {A = Status} (add_user env.run_user u p) s).1
  user_removed :
      (u : Text)
      → Change env source s operator (on_users {A = Status} (remove_user env.run_user u) s).1
  password_set :
      (u p : Text)
      → Change env source s operator (on_users {A = Status} (set_password env.run_user u p) s).1
  mounted :
      (o : MountOptions)
      → Change env source s operator (on_mounts (mount env.persister env.mounts o source) s).1
  unmounted : (p : Text) → Change env source s operator (on_mounts (umount env.mounts p source) s).1
  power_set :
      (d action : Text)
      → Change env source s operator (on_shell (set_mode env.run d action source) s).1
  acl_set :
      (p : Text) (es : List Text)
      → Change env source s operator (on_shell (set_acl env.acls env.acl_root p es source) s).1
  killed : (pid : ℕ) → Change env source s operator (kill_process env pid source s).1
  link_up : (n : Text) → Change env source s admin (on_shell (set_link_up env.run n source) s).1
  link_down : (n : Text) → Change env source s admin (on_shell (set_link_down env.run n source) s).1
  renewed : (n : Text) → Change env source s admin (on_shell (renew_dhcp env.run n source) s).1

-- The answer has a status.
pub data IsAnswered (a : Reply Payload) : Type 0 where
  answered : (n : ℕ) → reply_status a ≡ some n → IsAnswered a

-- What a request with this role in its context does: nothing but reading, or one operation, with
-- a method that changes things, a role that meets the operation's, and an answer.
pub data Did {W T : Type 0} (env : Env W T) (r : HttpRequest) (role : Option Role) (s : System W T)
    (q : Reply Payload × System W T) : Type 0 where
  only_read : Read s q.1 → Did env r role s q
  changed :
      (minimum : Role)
      → IsAnswered q.0
      → has_role (role_from_context role) minimum ≡ true
      → is_mutating_method r.method ≡ true
      → Change env r.remote_addr s minimum q.1
      → Did env r role s q

module _ {W T : Type 0} (env : Env W T) (r : HttpRequest) (role : Option Role)
    (s : System W T) where
  pub stays : (a : Reply Payload) → Did env r role s (a, s)
  stays a = only_read nothing

  pub did :
      {q : Reply Payload × System W T} {minimum : Role}
      → IsAnswered q.0
      → has_role (role_from_context role) minimum ≡ true
      → is_mutating_method r.method ≡ true
      → Change env r.remote_addr s minimum q.1
      → Did env r role s q
  did a high m c = changed _ a high m c

-- The answer of `confirm`
pub confirmed :
    (status : ℕ) (r : Status) → IsAnswered (elim r [ ok _ ↦ status_only status | err e ↦ failed e ])
unfolding write_app_error
confirmed status (ok x) = answered status refl
confirmed status (err e) = answered _ refl

-- A handler that only answers
module _ {W T : Type 0} (env : Env W T) (C : Condition)
    (a : HttpRequest → Option Role → System W T → Reply Payload) where
  pub still : Keeps (Did env) C (λ r role s. (a r role s, s))
  still = keeps (λ r role s c. stays env r role s _)

-- The methods that change things
module _ (r : HttpRequest) where
  pub posts : text_eq r.method post_method ≡ true → is_mutating_method r.method ≡ true
  unfolding is_mutating_method text_eq
  posts e = rw ((text_eq_iff r.method post_method).0 e) refl

  pub puts : text_eq r.method put_method ≡ true → is_mutating_method r.method ≡ true
  unfolding is_mutating_method text_eq
  puts e = rw ((text_eq_iff r.method put_method).0 e) refl

  pub deletes : text_eq r.method delete_method ≡ true → is_mutating_method r.method ≡ true
  unfolding is_mutating_method text_eq
  deletes e = rw ((text_eq_iff r.method delete_method).0 e) refl
