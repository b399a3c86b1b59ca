-- ===== src/Disk/Smart.antt =====
-- SmartService of internal/service/disk/smart.go.
use mingyue_go.Base.{
  Bool, List, Option, Text, [], codes, false, if◌then◌else◌, is_empty, none, some, ℕ, ◌%◌, ◌/◌,
  ◌==◌, ◌∷◌,
}
use mingyue_go.Errors.{
  GoError, OsError, app, wrapped, internal, not_found, forbidden, os, lit, str, Result, ok, err,
  cause_is_exec_not_found, cause_exit_code,
}
use mingyue_go.Shell.{Runner}
use mingyue_go.Disk.{normalize_device}

-- What json.Unmarshal finds in smartctl's output; the temperature and the hours as int and uint64
-- hold them.
pub record SmartctlOutput : Type 0 where
  pub model_name : Text
  pub serial_number : Text
  pub passed : Bool
  pub temperature : ℕ
  pub hours : ℕ

-- domain.DiskHealth of internal/domain/disk.go
pub record DiskHealth : Type 0 where
  pub device : Text
  pub model : Text
  pub serial : Text
  pub health_ok : Bool
  pub temperature : ℕ
  pub power_on_hours : ℕ

-- parseSmartctlJSON
abbrev pub disk_health : Text → SmartctlOutput → DiskHealth
disk_health device out = record {
  device = device;
  model = out.model_name;
  serial = out.serial_number;
  health_ok = out.passed;
  temperature = out.temperature;
  power_on_hours = out.hours;
}

abbrev pub smartctl_command : Text → List Text
smartctl_command path = codes "smartctl" ∷ codes "-j" ∷ codes "-a" ∷ path ∷ []

-- exitErr.ExitCode()&0x02 != 0; a command that a signal ended has the code -1, here 2 ^ 64 - 1.
abbrev open_failed : Option ℕ → Bool
open_failed none = false
open_failed (some n) = n / 2 % 2 == 1

unfoldable pub smartctl_error : Text → Option OsError → GoError
smartctl_error device none =
    app internal (lit "smartctl returned no parseable output for device " ∷ str device ∷ [])
smartctl_error device (some e) =
    if cause_is_exec_not_found (some e)
    then wrapped not_found
        (lit "smartctl not found: install the smartmontools package to query SMART data" ∷ [])
        (os e)
    else if open_failed (cause_exit_code (some e))
    then wrapped forbidden
        (lit "cannot open device "
          ∷ str device
          ∷ lit ": check that the process runs as root or has CAP_SYS_RAWIO"
          ∷ [])
        (os e)
    else wrapped internal
        (lit "smartctl failed for device "
          ∷ str device
          ∷ lit ": check device path and permissions"
          ∷ [])
        (os e)

-- Query, where `decode` is json.Unmarshal
unfoldable pub query_smart : (Text → Option SmartctlOutput) → Runner → Text → Result DiskHealth
unfolding normalize_device smartctl_error
query_smart decode run device =
    let path = normalize_device device in
    let (output, e) = run (smartctl_command path) in
    elim (if is_empty output then none else decode output) [
      | some out ↦ ok (disk_health path out)
      | none ↦ err (smartctl_error path e)
    ]
