-- ===== src/Tests/Routes.antt =====
-- Requests to the router over the other examples' managers.
use mingyue_go.Base.{
  List, Text, [], codes, cut_prefix, false, lookup, none, refl, some, text_eq, true, ℕ, ◌++◌, ◌<◌,
  ◌^◌, ◌∷◌, ◌≡◌, ◌⊎◌,
}
use mingyue_go.Errors.{err, ok, os, other}
use mingyue_go.Audit.{stamp}
use mingyue_go.Auth.{validate, has_role}
use mingyue_go.Middleware.{
  HttpRequest, error_reply, authentication_required, extract_bearer_token, reply_status, http_event,
  auth,
}
use mingyue_go.Share.Store.{FileStore}
use mingyue_go.Share.Store.View.{AreNamed, view}
use mingyue_go.Api.System.{Codecs, Env, Managers, System}
use mingyue_go.Api.Paths.{parse_pid_from_path}
use mingyue_go.Api.Paths.Ranges.{parse_pid_from_path-lt}
use mingyue_go.Api.Families.{smb_family, family_root_handler, family_dispatch_handler}
use mingyue_go.Api.Router.{
  mux, patterns, to, redirected, no_route, files, file_tree, disk_mount_tree, disk_tree,
  public_handler, new_router_with_deps, new_router, route_handler, guarded_handler,
}
use mingyue_go.Api.Router.Steps.{Read}
use mingyue_go.Api.Router.Restrained.{Licensed, new_router_with_deps-Licensed}
use mingyue_go.Api.Router.Refused.{IsUnguarded, new_router_with_deps-validate}
use mingyue_go.Api.Router.Accounted.{new_router-http_event}
use mingyue_go.Api.Router.Families.{IsSpared, family_handlers-IsSpared}
use mingyue_go.Tests.Files.{root, manager}
use mingyue_go.Tests.Shares.{failing, failing_law, store, store-AreNamed, media}
use mingyue_go.Tests.Mounts.{env as mount_env}
use mingyue_go.Tests.Acls.{env as acl_env}
use mingyue_go.Tests.Guards.{keys}
use mingyue_go.Api.Files.{file_dispatch_handler, file_move_handler}
use mingyue_go.Api.Dispatch.{only, with_role, parsed, reject_if, choose}
use mingyue_go.File.Ops.{move}
use mingyue_go.Path.{dir}
use mingyue_go.SafePath.{safe_path}

-- Every body is the same move, or the same share.
abbrev codecs : Codecs
codecs = record {
  decode_file = λ b. none;
  decode_move = λ b. some (record { src = codes "a/x"; dst = codes "a/y/../z" });
  decode_share = λ b. some media;
  decode_user = λ b. none;
  decode_password = λ b. none;
  decode_mount = λ b. none;
  decode_action = λ b. none;
  decode_acl = λ b. none;
  decode_base64 = λ t. some t;
  encode_base64 = λ t. t;
  path_unescape = λ t. some t;
}

abbrev all_managers : Managers
all_managers = record { samba_users = true; network = true; acls = true }

abbrev env : Env (List Text) FileStore
env = record {
  codecs = codecs;
  managers = all_managers;
  files = manager;
  backend = failing;
  persister = none;
  mounts = mount_env;
  acls = acl_env;
  acl_root = root;
  run = λ command. ([], none);
  run_user = λ call. ([], none);
  decode_lsblk = λ t. none;
  decode_smartctl = λ t. none;
  interfaces = ok [];
  pids = ok [];
  process_info = λ pid. err (os (other []));
  signal = λ pid. none;
  digits = λ n. n ∷ [];
  collector = record { cpu_percents = ok []; virtual_memory = err (os (other [])); uptime = ok 0 };
  now = 7;
  version = codes "dev";
  go_os = codes "linux";
  go_arch = codes "amd64";
  swagger_html = [];
  open_api_spec = [];
}

abbrev start : System (List Text) FileStore
start = record {
  world = [];
  shares = store;
  mount_files = λ p. none;
  commands = [];
  user_calls = [];
  signals = [];
  journal = some [];
}

abbrev request_with : Text → Text → Text → HttpRequest
request_with method path authorization = record {
  method = method;
  path = path;
  escaped_path = path;
  query = λ key. [];
  remote_addr = codes "10.0.0.1:5000";
  authorization = authorization;
  body = codes "{}";
}

abbrev move_request : HttpRequest
move_request = request_with (codes "PUT") (codes "/api/v1/files/move") (codes "Bearer k1")

abbrev stranger : HttpRequest
stranger = request_with (codes "DELETE") (codes "/api/v1/files") (codes "Bearer k2")

abbrev smb_update : HttpRequest
smb_update = request_with (codes "PUT") (codes "/api/v1/smb/shares/media") (codes "Bearer k1")

to_tree :
    mux (patterns all_managers) codecs (codes "PUT") (codes "/api/v1/files/move") ≡ to file_tree
unfolding mux
to_tree = refl

to_mounts :
    mux (patterns all_managers) codecs (codes "DELETE") (codes "/api/v1/disks/mounts/mnt")
    ≡ to disk_mount_tree
unfolding mux
to_mounts = refl

to_disks :
    mux (patterns all_managers) codecs (codes "GET") (codes "/api/v1/disks/sda/smart")
    ≡ to disk_tree
unfolding mux
to_disks = refl

not_clean : mux (patterns all_managers) codecs (codes "GET") (codes "/api/v1//files") ≡ redirected
unfolding mux
not_clean = refl

without_slash : mux (patterns all_managers) codecs (codes "GET") (codes "/swagger") ≡ redirected
unfolding mux
without_slash = refl

nowhere : mux (patterns all_managers) codecs (codes "GET") (codes "/api/v2/files") ≡ no_route
unfolding mux
nowhere = refl

without_acls :
    mux
      (patterns (record { samba_users = true; network = true; acls = false }))
      codecs
      (codes "PUT")
      (codes "/api/v1/acl")
    ≡ no_route
unfolding mux
without_acls = refl

moved :
    (new_router_with_deps keys env move_request none start).1.world
    ≡ codes "/srv/data/a/x" ∷ codes "/srv/data/a/z" ∷ []
unfolding new_router_with_deps mux route_handler public_handler guarded_handler auth validate lookup
    text_eq file_dispatch_handler choose file_move_handler only with_role parsed reject_if move
    has_role dir safe_path cut_prefix extract_bearer_token
moved = refl

new_router_with_deps-Licensed_example :
    Licensed keys env move_request start (new_router_with_deps keys env move_request none start)
new_router_with_deps-Licensed_example =
    new_router_with_deps-Licensed keys env move_request none start

new_router-http_event_example :
    Read start (new_router keys env 3 move_request none (start, [])).1.0
    ⊎ ((status : ℕ) × (reply_status (new_router keys env 3 move_request none (start, [])).0
          ≡ some status)
        × ((new_router keys env 3 move_request none (start, [])).1.1
            ≡ [] ++ stamp env.now (http_event env.digits 3 move_request status) ∷ []))
new_router-http_event_example = new_router-http_event keys env 3 move_request none start []

to_files : mux (patterns all_managers) codecs (codes "DELETE") (codes "/api/v1/files") ≡ to files
unfolding mux
to_files = refl

new_router_with_deps-validate_example :
    ((new_router_with_deps keys env stranger none start).1 ≡ start)
    × ((new_router_with_deps keys env stranger none start
          ≡ (error_reply authentication_required, start))
        ⊎ IsUnguarded (mux (patterns all_managers) codecs stranger.method stranger.escaped_path))
unfolding validate extract_bearer_token lookup text_eq
new_router_with_deps-validate_example =
    new_router_with_deps-validate keys env stranger none start refl

family_handlers-IsSpared_example :
    IsSpared view AreNamed smb_family store
      (family_root_handler env smb_family smb_update none start).1.shares
    × IsSpared view AreNamed smb_family store
        (family_dispatch_handler env smb_family smb_update none start).1.shares
family_handlers-IsSpared_example =
    family_handlers-IsSpared env view AreNamed failing_law smb_family smb_update none start
      store-AreNamed

pid_of_path : parse_pid_from_path (codes "/api/v1/processes/123") ≡ some 123
unfolding parse_pid_from_path
pid_of_path = refl

too_large : parse_pid_from_path (codes "/api/v1/processes/2147483648") ≡ none
unfolding parse_pid_from_path
too_large = refl

parse_pid_from_path-lt_example : (0 < 123) × (123 < 2 ^ 31)
parse_pid_from_path-lt_example =
    parse_pid_from_path-lt (codes "/api/v1/processes/123") 123 pid_of_path
