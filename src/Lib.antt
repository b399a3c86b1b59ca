-- ===== src/Lib.antt =====
-- A verification library of mingyue-go, an agent that manages a Linux host: files, shares, disks,
-- processes, access control lists and the network, over a REST API and a command line.
--
-- The agent's services stand between the API and the operating system. Each is modelled by what it
-- decides and by the order of its calls. The system's answers are parameters: a record of functions
-- (File.Fs, Share.Backend.Backend), or a record with the outcome of each step of one call
-- (Storage.WriteEnv, Share.Store.Reload.Env, Mount.Service.MountEnv). Files, shares, commands and
-- audit logs are states that each operation takes and returns. Functions of Go's standard library
-- that the code relies on (strings, path/filepath, bufio, errors) are modelled in Base, Path and
-- Errors, http.ServeMux in Api/Router and strconv.ParseInt in Api/Paths; encoding/json,
-- encoding/base64, url.PathUnescape and SHA-256 are parameters.
--
-- Parts and files, with paths from the repository's root:
--   Base, Exec, Storage   numbers, lists, texts (lists of code points), dictionaries, the monad of
--                         a state that fails, and files with the outcomes of one write
--   Errors                internal/errors/errors.go: AppError and its chain; internal/api/errors.go:
--                         writeAppError and appErrorStatus
--   Audit                 internal/audit/logger.go, and the logAudit helper of the services
--   Auth, Auth/Keystore   internal/auth/auth.go: HasRole, RegisterAPIKey, Validate;
--                         internal/auth/keystore.go: LoadKeyStore, SaveKeyEntry, RevokeKey,
--                         writeEntries
--   Middleware            internal/api/middleware/auth.go and audit.go: Auth, RequireRole,
--                         AuditWithLogger over any handler
--   SafePath              safePath of internal/service/file/manager.go
--   File                  internal/service/file/manager.go: Mkdir, Remove, Move, Copy, Write (Ops),
--                         List, Stat, Read (Queries)
--   Share, Share/Manager  internal/service/share/manager.go over any Backend
--   Share/Store           internal/service/share/filebackend.go: the map of shares (Store), Reload
--                         and its rollback (Store/Reload), the generated files (Config)
--   Process               internal/service/process/manager.go: List, Get, Kill
--   Mount                 internal/service/disk/mount.go: parseMounts (Table), Mount and Umount
--                         (Service), fstabPersister (Fstab)
--   Acl                   internal/service/acl/manager.go: Get, SetACL, parseGetfaclOutput
--   Shell                 the Commander interfaces, and what a service that runs commands keeps
--   Disk                  internal/service/disk/device.go: List, flattenDevice (Device);
--                         internal/service/disk/power.go: GetStatus, SetMode (Power);
--                         internal/service/disk/smart.go: Query (Smart)
--   Network               internal/service/network/manager.go: ListInterfaces, GetInterface,
--                         SetLinkUp, SetLinkDown, RenewDHCP
--   Share/Users           internal/service/share/sambauser.go: the Samba users
--   Monitor               internal/service/system/monitor.go: Snapshot
--   Api                   internal/api: the state of all services and the request's parts (System),
--                         the tests and answers that handlers share (Dispatch), what they read from
--                         paths (Paths), the handlers (Files, Shares, Families, Users, Disks,
--                         Processes, Interfaces, Acls, Overview), and the routes (Router). Families
--                         has the handlers of smb.go and nfs.go, which differ in a type, a prefix and
--                         messages only
--   Api/Router/Steps      the operation of a service that each handler comes to
--   Discovery             internal/discovery/udp.go: Browse
--   Console               internal/cli/auth.go: keygen, list and revoke as they answer with --json;
--                         internal/cli/agent.go: the keys of an agent that starts
--   Tests                 concrete inputs for the theorems
--
-- The file manager and SetACL call SafePath before they reach the system; the share manager
-- calls the backend and then its Reload, and undoes the first where the second fails; the
-- middleware asks Auth; each service that is called with a source writes to Audit. A request goes
-- through AuditWithLogger, the mux, Auth and its handler to one operation of one service; the state
-- of the router is the state of all the services, and the events of the HTTP layer are kept in a
-- list of their own, though both layers write to one file.
--
-- Bounds: the loop of safePath runs on fuel, one more than the length of the path. Each turn
-- takes one name off the path, and a name has at least one rune, so this is enough. int is 64
-- bits wide in Process, and its wrap-around is written out. The scanner of parseMounts stops at
-- a line of 1 MiB.
--
-- The parts of the state are kept apart: the file manager, the mounts and the shares each have files
-- of their own, though on a host they share one file system. An audit log is the list of the events
-- that were handed to Log, whose errors the callers ignore.
--
-- Not modelled: the commands other than those on API keys, Advertise, the daemon, and pkg/linux,
-- which no other package imports. Time, random bytes, JSON and the concurrent calls that mutexes
-- make sequential are outside the model as well. Of the mux: request URIs that are "*", and the text
-- and the location of a redirect.
pub mod Base
pub mod Errors
pub mod Exec
pub mod Audit
pub mod Shell
pub mod Discovery
pub mod Console
pub mod Disk
pub mod Network
pub mod Monitor
pub mod Auth
pub mod Storage
pub mod Path
pub mod SafePath
pub mod File
pub mod Share
pub mod Tests
pub mod Middleware
pub mod Process
pub mod Mount
pub mod Acl
pub mod Api
