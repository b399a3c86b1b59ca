-- ===== src/Api/System.antt =====
-- What the router of internal/api/router.go is built over: the state of all the services, what the
-- system and the standard library answer, and the bodies of the responses.
use mingyue_go.Base.{Bool, List, Option, Text, ℕ}
use mingyue_go.Errors.{OsError, Result}
use mingyue_go.Audit.{Journal}
use mingyue_go.Storage.{Files}
use mingyue_go.Middleware.{Handler}
use mingyue_go.Shell.{Runner, Shell}
use mingyue_go.File.{FileEntry, Host, Manager}
use mingyue_go.Share.{Share}
use mingyue_go.Share.Backend.{Backend}
use mingyue_go.Share.Manager.{Service}
use mingyue_go.Share.Users.{UserCall, UserRunner}
use mingyue_go.Mount.{Mount, MountOptions}
use mingyue_go.Mount.Fstab.{Persister}
use mingyue_go.Mount.Service.{MountState, MountEnv}
use mingyue_go.Disk.Device.{BlockDevice, Children}
use mingyue_go.Disk.Power.{DiskPower}
use mingyue_go.Disk.Smart.{DiskHealth, SmartctlOutput}
use mingyue_go.Process.{ProcessInfo}
use mingyue_go.Network.{NetInterface, NetworkInterface}
use mingyue_go.Acl.{AclEnv, AclInfo}
use mingyue_go.Monitor.{Collector, HostSnapshot}

-- The body of a response, before it is encoded as JSON.
pub data Payload : Type 0 where
  file_list : Text → List FileEntry → Payload
  file_entry : FileEntry → Payload
  -- the path and the base64 of the content
  file_content : Text → Text → Payload
  share_list export_list : List Share → Payload
  share : Share → Payload
  user_list : List Text → Payload
  mount_list : List Mount → Payload
  device_list : List BlockDevice → Payload
  disk_health : DiskHealth → Payload
  disk_power : DiskPower → Payload
  -- the total and a page
  process_list : ℕ → List ProcessInfo → Payload
  process : ProcessInfo → Payload
  interface_list : List NetworkInterface → Payload
  interface : NetworkInterface → Payload
  acl_info : AclInfo → Payload
  overview : HostSnapshot → Payload
  -- the version, the system and the processor
  health : Text → Text → Text → Payload
  version : Text → Payload
  -- the content type and the content
  page : Text → Text → Payload

-- The state of all the services: files, shares, the files that mounting writes, the commands, the
-- calls that change Samba users, the processes that were signalled, and the audit log.
pub record System (W T : Type 0) : Type 0 where
  pub world : W
  pub shares : T
  pub mount_files : Files
  pub commands : List (List Text)
  pub user_calls : List UserCall
  pub signals : List ℕ
  pub journal : Journal

-- The bodies of requests, once json.Decode has read them.
pub record FileRequest : Type 0 where
  pub path : Text
  pub kind : Text
  pub content : Text

pub record MoveRequest : Type 0 where
  pub src : Text
  pub dst : Text

pub record UserRequest : Type 0 where
  pub username : Text
  pub password : Text

pub record AclRequest : Type 0 where
  pub path : Text
  pub entries : List Text

-- encoding/json, encoding/base64 and net/url: none where they return an error.
pub record Codecs : Type 0 where
  pub decode_file : Text → Option FileRequest
  pub decode_move : Text → Option MoveRequest
  pub decode_share : Text → Option Share
  pub decode_user : Text → Option UserRequest
  pub decode_password : Text → Option Text
  pub decode_mount : Text → Option MountOptions
  pub decode_action : Text → Option Text
  pub decode_acl : Text → Option AclRequest
  pub decode_base64 : Text → Option Text
  pub encode_base64 : Text → Text
  pub path_unescape : Text → Option Text

-- The managers, and what the system answers while a request is served.
-- Which of the managers that may be nil are there: sambaUserMgr, netMgr, aclMgr.
pub record Managers : Type 0 where
  pub samba_users : Bool
  pub network : Bool
  pub acls : Bool

pub record Env (W T : Type 0) : Type 0 where
  pub codecs : Codecs
  pub managers : Managers
  pub files : Manager W
  pub backend : Backend T
  pub persister : Option Persister
  pub mounts : MountEnv
  pub acls : AclEnv
  pub acl_root : Text
  pub run : Runner
  pub run_user : UserRunner
  pub decode_lsblk : Text → Option Children
  pub decode_smartctl : Text → Option SmartctlOutput
  pub interfaces : Result (List NetInterface)
  pub pids : Result (List ℕ)
  pub process_info : ℕ → Result ProcessInfo
  pub signal : ℕ → Option OsError
  -- strconv.Itoa
  pub digits : ℕ → Text
  pub collector : Collector
  pub now : ℕ
  -- Version, runtime.GOOS and runtime.GOARCH
  pub version : Text
  pub go_os : Text
  pub go_arch : Text
  -- swaggerUIHTML and the embedded specification
  pub swagger_html : Text
  pub open_api_spec : Text

abbrev pub ApiHandler : Type 0 → Type 0 → Type 0
ApiHandler W T = Handler (System W T) Payload

-- A service's operation, on its part of the state.
module _ {W T A : Type 0} where
  abbrev pub on_files : (Host W → A × Host W) → System W T → A × System W T
  on_files f s =
      let (a, h) = f (record { world = s.world; journal = s.journal }) in
      (a, record s { world = h.world; journal = h.journal })

  abbrev pub on_shares : (Service T → A × Service T) → System W T → A × System W T
  on_shares f s =
      let (a, h) = f (record { store = s.shares; journal = s.journal }) in
      (a, record s { shares = h.store; journal = h.journal })

  abbrev pub on_mounts : (MountState → A × MountState) → System W T → A × System W T
  on_mounts f s =
      let (a, h) =
        f (record { files = s.mount_files; commands = s.commands; journal = s.journal }) in
      (a, record s { mount_files = h.files; commands = h.commands; journal = h.journal })

  abbrev pub on_shell : (Shell → A × Shell) → System W T → A × System W T
  on_shell f s =
      let (a, h) = f (record { commands = s.commands; journal = s.journal }) in
      (a, record s { commands = h.commands; journal = h.journal })

  abbrev pub on_users : (List UserCall → A × List UserCall) → System W T → A × System W T
  on_users f s = let (a, calls) = f s.user_calls in (a, record s { user_calls = calls })

-- The shares as a manager of shares sees them.
abbrev pub service : {W T : Type 0} → System W T → Service T
service s = record { store = s.shares; journal = s.journal }
