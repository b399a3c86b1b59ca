-- ===== src/Api/Router.antt =====
-- NewRouterWithDeps and NewRouter of internal/api/router.go, over the rules of http.ServeMux.
pub mod Keeps
pub mod Steps
pub mod Restrained
pub mod Refused
pub mod Accounted
pub mod Families
use mingyue_go.Base.{
  Bool, List, Option, Text, [], codes, false, if◌then◌else◌, is_empty, length, ltb, none, not, some,
  split, text_eq, true, ℕ, ◌&&◌, ◌++◌, ◌==◌, ◌∷◌,
}
use mingyue_go.Auth.{Role, Keys}
use mingyue_go.Audit.{AuditEvent}
use mingyue_go.Path.{clean, root_path}
use mingyue_go.Middleware.{HttpRequest, Reply, status_only, Handler, auth, audit_with_logger}
use mingyue_go.Api.System.{Env, Managers, Codecs, ApiHandler, Payload, System}
use mingyue_go.Api.Dispatch.{page_not_found}
use mingyue_go.Api.Files.{file_root_handler, file_dispatch_handler}
use mingyue_go.Api.Shares.{share_root_handler, share_dispatch_handler}
use mingyue_go.Api.Families.{
  family_root_handler, family_dispatch_handler, smb_family, nfs_family, smb_share_root_handler,
  smb_share_dispatch_handler, nfs_export_root_handler, nfs_export_dispatch_handler,
}
use mingyue_go.Api.Users.{smb_user_root_handler, smb_user_dispatch_handler}
use mingyue_go.Api.Disks.{
  disk_devices_list_handler, disk_mounts_handler, disk_mount_delete_handler, disk_device_handler,
}
use mingyue_go.Api.Processes.{process_list_handler, process_dispatch_handler}
use mingyue_go.Api.Interfaces.{network_interfaces_handler, network_interface_dispatch_handler}
use mingyue_go.Api.Acls.{acl_root_handler}
use mingyue_go.Api.Overview.{
  system_overview_handler, health_handler, version_handler, swagger_ui_handler,
  swagger_spec_handler,
}

-- One constructor for each pattern that is registered; `_tree` where the pattern ends in '/'.
pub data Route : Type 0 where
  health version swagger_tree swagger_spec overview processes process_tree files file_tree shares
        share_tree smb_shares smb_share_tree smb_users smb_user_tree nfs_exports nfs_export_tree
        disk_devices disk_mounts disk_mount_tree disk_tree interfaces interface_tree acl :
      Route

-- The patterns, in the order of their registration: those of a manager that is nil are left out.
abbrev pub patterns : Managers → List (Text × Route)
patterns managers =
    (codes "/api/v1/health", health)
    ∷ (codes "/api/v1/version", version)
    ∷ (codes "/swagger/", swagger_tree)
    ∷ (codes "/swagger/openapi.yaml", swagger_spec)
    ∷ (codes "/api/v1/system/overview", overview)
    ∷ (codes "/api/v1/processes", processes)
    ∷ (codes "/api/v1/processes/", process_tree)
    ∷ (codes "/api/v1/files", files)
    ∷ (codes "/api/v1/files/", file_tree)
    ∷ (codes "/api/v1/shares", shares)
    ∷ (codes "/api/v1/shares/", share_tree)
    ∷ (codes "/api/v1/smb/shares", smb_shares)
    ∷ (codes "/api/v1/smb/shares/", smb_share_tree)
    ∷ ((if managers.samba_users
          then (codes "/api/v1/smb/users", smb_users)
            ∷ (codes "/api/v1/smb/users/", smb_user_tree)
            ∷ []
          else [])
        ++ ((codes "/api/v1/nfs/exports", nfs_exports)
            ∷ (codes "/api/v1/nfs/exports/", nfs_export_tree)
            ∷ (codes "/api/v1/disks/devices", disk_devices)
            ∷ (codes "/api/v1/disks/mounts", disk_mounts)
            ∷ (codes "/api/v1/disks/mounts/", disk_mount_tree)
            ∷ (codes "/api/v1/disks/", disk_tree)
            ∷ ((if managers.network
                  then (codes "/api/v1/network/interfaces", interfaces)
                    ∷ (codes "/api/v1/network/interfaces/", interface_tree)
                    ∷ []
                  else [])
                ++ (if managers.acls then (codes "/api/v1/acl", acl) ∷ [] else []))))

-- The segments of a path or pattern, after its first '/'
abbrev pub segments : Text → List Text
segments [] = [] ∷ []
segments (c ∷ s) = split b'/' s

-- A pattern with an empty last segment takes any rest of a path that has at least one segment.
unfoldable pub matches : List Text → List Text → Bool
unfolding text_eq
matches [] [] = true
matches [] (s ∷ ss) = false
matches (p ∷ ps) [] = false
matches (p ∷ ps) (s ∷ ss) =
    let rest = matches ps ss in
    if is_empty p && is_empty ps then true else if text_eq p s then rest else false

abbrev longer : Text × Route → Option (Text × Route) → Option (Text × Route)
longer a none = some a
longer (p, a) (some (q, b)) = if ltb (length p) (length q) then some (q, b) else some (p, a)

-- The longest pattern that matches: of two that match, it is the more specific one.
unfoldable pub best_match : List Text → List (Text × Route) → Option (Text × Route)
unfolding matches
best_match ss [] = none
best_match ss ((p, a) ∷ rest) =
    let found = best_match ss rest in if matches (segments p) ss then longer (p, a) found else found

abbrev ends_in_slash : Text → Bool
ends_in_slash [] = false
ends_in_slash (c ∷ []) = c == b'/'
ends_in_slash (c ∷ d ∷ s) = ends_in_slash (d ∷ s)

abbrev rooted : Text → Text
rooted [] = root_path
rooted (c ∷ s) = if c == b'/' then c ∷ s else root_path ++ c ∷ s

-- cleanPath of net/http
unfoldable pub clean_path : Text → Text
unfolding clean
clean_path p =
    if ends_in_slash (rooted p) && not (text_eq (clean (rooted p)) root_path)
    then clean (rooted p) ++ root_path
    else clean (rooted p)

pub data Routing : Type 0 where
  to : Route → Routing
  redirected no_route : Routing

abbrev unescaped : Codecs → List Text → List Text
unescaped codecs [] = []
unescaped codecs (s ∷ ss) = elim (codecs.path_unescape s) [
  | none ↦ s ∷ unescaped codecs ss
  | some t ↦ t ∷ unescaped codecs ss
]

abbrev pub route_of_path : List (Text × Route) → Codecs → Text → Option (Text × Route)
route_of_path registered codecs p = best_match (unescaped codecs (segments p)) registered

abbrev exact : Text → Option (Text × Route) → Bool
exact p none = false
exact p (some (q, a)) =
    if ends_in_slash q && not (ends_in_slash p)
    then false
    else length (segments q) == length (segments p)

-- A path that is not clean is redirected, and so is one that is a pattern but for its last '/'.
unfoldable pub mux : List (Text × Route) → Codecs → Text → Text → Routing
unfolding clean_path best_match text_eq
mux registered codecs method escaped =
    let path = if text_eq method (codes "CONNECT") then escaped else clean_path escaped in
    if not (exact path (route_of_path registered codecs path))
      && not (ends_in_slash path)
      && exact (path ++ root_path) (route_of_path registered codecs (path ++ root_path))
    then redirected
    else if not (text_eq path escaped)
    then redirected
    else elim (route_of_path registered codecs path) [ none ↦ no_route | some found ↦ to found.1 ]

module _ {W T : Type 0} (keys : Keys) (env : Env W T) where
  -- The handler of a pattern that is not wrapped in auth, none for the other patterns.
  unfoldable pub public_handler : Route → Option (ApiHandler W T)
  public_handler health = some (health_handler env)
  public_handler version = some (version_handler env)
  public_handler swagger_tree = some (swagger_ui_handler env)
  public_handler swagger_spec = some (swagger_spec_handler env)
  public_handler _ = none

  -- The handler that auth wraps.
  unfoldable pub guarded_handler : Route → ApiHandler W T
  guarded_handler overview = system_overview_handler env
  guarded_handler processes = process_list_handler env
  guarded_handler process_tree = process_dispatch_handler env
  guarded_handler files = file_root_handler env
  guarded_handler file_tree = file_dispatch_handler env
  guarded_handler shares = share_root_handler env
  guarded_handler share_tree = share_dispatch_handler env
  guarded_handler smb_shares = smb_share_root_handler env
  guarded_handler smb_share_tree = smb_share_dispatch_handler env
  guarded_handler smb_users = smb_user_root_handler env
  guarded_handler smb_user_tree = smb_user_dispatch_handler env
  guarded_handler nfs_exports = nfs_export_root_handler env
  guarded_handler nfs_export_tree = nfs_export_dispatch_handler env
  guarded_handler disk_devices = disk_devices_list_handler env
  guarded_handler disk_mounts = disk_mounts_handler env
  guarded_handler disk_mount_tree = disk_mount_delete_handler env
  guarded_handler disk_tree = disk_device_handler env
  guarded_handler interfaces = network_interfaces_handler env
  guarded_handler interface_tree = network_interface_dispatch_handler env
  guarded_handler acl = acl_root_handler env
  guarded_handler _ = λ r role s. (page_not_found, s)

  -- The handler that is registered for a pattern
  unfoldable pub route_handler : Route → ApiHandler W T
  route_handler route = elim (public_handler route) [
    | some handler ↦ handler
    | none ↦ auth keys (guarded_handler route)
  ]

  -- NewRouterWithDeps
  unfoldable pub new_router_with_deps : ApiHandler W T
  new_router_with_deps r role s =
      elim (mux (patterns env.managers) env.codecs r.method r.escaped_path) [
        | to route ↦ route_handler route r role s
        | redirected ↦ (status_only 301, s)
        | no_route ↦ (page_not_found, s)
      ]

  -- NewRouter, whose requests begin at `start`; the events of the HTTP layer are kept in a list of
  -- their own.
  unfoldable pub new_router : ℕ → Handler (System W T × List AuditEvent) Payload
  new_router start = audit_with_logger env.digits start env.now new_router_with_deps
