-- ===== src/Api/Router/Restrained.antt =====
-- NewRouterWithDeps of internal/api/router.go: who may change what.
use mingyue_go.Base.{Option, inl, inr, lookup, refl, some, true, ℕ, ◌≡◌}
use mingyue_go.Errors.{ok}
use mingyue_go.Errors.Laws.{Result-cases}
use mingyue_go.Auth.{Role, Token, Keys, has_role, validate}
use mingyue_go.Auth.Laws.{validate_ok}
use mingyue_go.Middleware.{
  HttpRequest, Reply, auth, extract_bearer_token, is_mutating_method, reply_status,
}
use mingyue_go.Api.System.{Env, System, Payload, ApiHandler}
use mingyue_go.Api.Families.{smb_family, nfs_family}
use mingyue_go.Api.Router.{
  Route, health, version, swagger_tree, swagger_spec, overview, processes, process_tree, files,
  file_tree, shares, share_tree, smb_shares, smb_share_tree, smb_users, smb_user_tree, nfs_exports,
  nfs_export_tree, disk_devices, disk_mounts, disk_mount_tree, disk_tree, interfaces,
  interface_tree, acl, public_handler, guarded_handler, route_handler, new_router_with_deps, mux,
  to, redirected, no_route, patterns, Routing,
}
use mingyue_go.Api.Router.Keeps.{Keeps, holds, Always, keeps, HasMethod, only-Keeps, choose-Keeps}
use mingyue_go.Api.Router.Steps.{Did, only_read, changed, Read, nothing, Change, answered, still}
use mingyue_go.Api.Router.Steps.Files.{file_root-Keeps, file_dispatch-Keeps}
use mingyue_go.Api.Router.Steps.Shares.{
  share_root-Keeps, share_dispatch-Keeps, family_root-Keeps, family_dispatch-Keeps,
}
use mingyue_go.Api.Router.Steps.Users.{smb_user_root-Keeps, smb_user_dispatch-Keeps}
use mingyue_go.Api.Router.Steps.Disks.{
  disk_devices_list-Keeps, disk_mounts-Keeps, disk_mount_delete-Keeps, disk_device-Keeps,
}
use mingyue_go.Api.Router.Steps.Others.{
  process_list-Keeps, process_dispatch-Keeps, network_interfaces-Keeps,
  network_interface_dispatch-Keeps, acl_root-Keeps, system_overview-Keeps,
}
use mingyue_go.Api.Overview.{
  health_handler, version_handler, swagger_ui_handler, swagger_spec_handler,
}
use mingyue_go.Api.Dispatch.{get_method}

-- What a request comes to: a read, or one operation by the owner of a registered token whose role
-- meets the operation's, through a method that changes things, and with an answer.
pub data Licensed {W T : Type 0} (keys : Keys) (env : Env W T) (r : HttpRequest) (s : System W T)
    (q : Reply Payload × System W T) : Type 0 where
  read : Read s q.1 → Licensed keys env r s q
  by_token :
      (tok : Token) (minimum : Role) (status : ℕ)
      → lookup (extract_bearer_token r) keys ≡ some tok
      → has_role tok.role minimum ≡ true
      → is_mutating_method r.method ≡ true
      → reply_status q.0 ≡ some status
      → Change env r.remote_addr s minimum q.1
      → Licensed keys env r s q

module _ {W T : Type 0} (keys : Keys) (env : Env W T) where
  guarded_handler-Keeps : (route : Route) → Keeps (Did env) Always (guarded_handler keys env route)
  unfolding guarded_handler
  guarded_handler-Keeps overview = system_overview-Keeps env Always
  guarded_handler-Keeps processes = process_list-Keeps env Always
  guarded_handler-Keeps process_tree = process_dispatch-Keeps env Always
  guarded_handler-Keeps files = file_root-Keeps env Always
  guarded_handler-Keeps file_tree = file_dispatch-Keeps env Always
  guarded_handler-Keeps shares = share_root-Keeps env Always
  guarded_handler-Keeps share_tree = share_dispatch-Keeps env Always
  guarded_handler-Keeps smb_shares = family_root-Keeps env Always smb_family
  guarded_handler-Keeps smb_share_tree = family_dispatch-Keeps env Always smb_family
  guarded_handler-Keeps smb_users = smb_user_root-Keeps env Always
  guarded_handler-Keeps smb_user_tree = smb_user_dispatch-Keeps env Always
  guarded_handler-Keeps nfs_exports = family_root-Keeps env Always nfs_family
  guarded_handler-Keeps nfs_export_tree = family_dispatch-Keeps env Always nfs_family
  guarded_handler-Keeps disk_devices = disk_devices_list-Keeps env Always
  guarded_handler-Keeps disk_mounts = disk_mounts-Keeps env Always
  guarded_handler-Keeps disk_mount_tree = disk_mount_delete-Keeps env Always
  guarded_handler-Keeps disk_tree = disk_device-Keeps env Always
  guarded_handler-Keeps interfaces = network_interfaces-Keeps env Always
  guarded_handler-Keeps interface_tree = network_interface_dispatch-Keeps env Always
  guarded_handler-Keeps acl = acl_root-Keeps env Always
  guarded_handler-Keeps _ = still env _ _

  auth-Licensed :
      (next : ApiHandler W T) (r : HttpRequest) (context : Option Role) (s : System W T)
      → Keeps (Did env) Always next
      → Licensed keys env r s (auth keys next r context s)
  unfolding auth
  auth-Licensed next r context s k = elim (Result-cases (validate (extract_bearer_token r) keys)) [
    | inr (x, v) ↦ rw (v, auth) (read nothing)
    | inl (role, v) ↦ rw (v, auth) (licensed role v (holds (Did env) k r (some role) s tt))
  ]
    where
      licensed :
          (role : Role)
          → validate (extract_bearer_token r) keys ≡ ok role
          → Did env r (some role) s (next r (some role) s)
          → Licensed keys env r s (next r (some role) s)
      licensed role v (only_read n) = read n
      licensed role v (changed minimum (answered n a) high m c) =
          let (tok, found, same) = validate_ok (extract_bearer_token r) keys v in
          by_token tok minimum n found (rw same high) m a c

  -- A public page changes nothing.
  abbrev Quiet : HttpRequest → Option Role → System W T → Reply Payload × System W T → Type 0
  Quiet r role s q = Licensed keys env r s q

  same :
      (r : HttpRequest) (role : Option Role) (s : System W T) (a : Reply Payload)
      → Quiet r role s (a, s)
  same r role s a = read nothing

  page :
      (a : HttpRequest → Option Role → System W T → Reply Payload)
      → Keeps Quiet (HasMethod get_method Always) (λ r role s. (a r role s, s))
  page a = keeps (λ r role s c. read nothing)

  route_handler-Licensed :
      (route : Route) (r : HttpRequest) (context : Option Role) (s : System W T)
      → Licensed keys env r s (route_handler keys env route r context s)
  unfolding route_handler public_handler health_handler version_handler swagger_ui_handler
      swagger_spec_handler
  route_handler-Licensed health r context s =
      holds Quiet (only-Keeps Quiet same Always _ _ (page _)) r context s tt
  route_handler-Licensed version r context s =
      holds Quiet (only-Keeps Quiet same Always _ _ (page _)) r context s tt
  route_handler-Licensed swagger_tree r context s =
      holds Quiet
        (choose-Keeps Quiet same Always _ _ _ (keeps (λ r role s c. read nothing))
          (only-Keeps Quiet same Always _ _ (page _)))
        r context s tt
  route_handler-Licensed swagger_spec r context s =
      holds Quiet (only-Keeps Quiet same Always _ _ (page _)) r context s tt
  route_handler-Licensed route r context s =
      auth-Licensed (guarded_handler keys env route) r context s (guarded_handler-Keeps route)

  -- Whatever the request, the router changes nothing but by one operation of one service, with a
  -- registered token whose role meets what the operation wants (operator, or admin for the
  -- interfaces), through POST, PUT, PATCH or DELETE; any other request leaves the whole state as it
  -- was, but for one command that only reads.
  pub new_router_with_deps-Licensed :
      (r : HttpRequest) (context : Option Role) (s : System W T)
      → Licensed keys env r s (new_router_with_deps keys env r context s)
  unfolding new_router_with_deps
  new_router_with_deps-Licensed r context s =
      dispatched (mux (patterns env.managers) env.codecs r.method r.escaped_path) refl
    where
      dispatched :
          (found : Routing)
          → mux (patterns env.managers) env.codecs r.method r.escaped_path ≡ found
          → Licensed keys env r s (new_router_with_deps keys env r context s)
      dispatched (to route) e =
          rw (e, new_router_with_deps) (route_handler-Licensed route r context s)
      dispatched redirected e = rw (e, new_router_with_deps) (read nothing)
      dispatched no_route e = rw (e, new_router_with_deps) (read nothing)
