-- ===== src/Disk/Power.antt =====
-- PowerService of internal/service/disk/power.go.
use mingyue_go.Base.{
  Bool, List, Option, Text, [], codes, false, has_prefix, if◌then◌else◌, is_empty, none, not, some,
  split, text_eq, to_lower, trim_prefix, trim_space, ℕ, ◌++◌, ◌==◌, ◌∷◌,
}
use mingyue_go.Errors.{
  ErrorCode, GoError, OsError, app, wrapped, invalid_input, internal, not_found, forbidden, os, lit,
  str, quoted, Message, Result, ok, err, Status, done, cause_is_exec_not_found, cause_exit_code,
}
use mingyue_go.Shell.{Runner, Shell, ran, audited}
use mingyue_go.Disk.{normalize_device}

-- domain.DiskPower of internal/domain/disk.go
pub record DiskPower : Type 0 where
  pub device : Text
  pub power_mode : Text

-- canonicalPowerMode
unfoldable pub canonical_power_mode : Text → Text
unfolding text_eq
canonical_power_mode state =
    if text_eq state (codes "active/idle")
    then codes "active"
    else if text_eq state (codes "standby")
    then codes "standby"
    else if text_eq state (codes "sleeping")
    then codes "sleeping"
    else if not (is_empty state)
    then state
    else codes "unknown"

abbrev state_label : Text
state_label = codes "drive state is:"

-- The loop over the lines of parseHdparmPowerMode
unfoldable pub power_mode_of : List Text → Option Text
unfolding trim_space has_prefix trim_prefix canonical_power_mode
power_mode_of [] = none
power_mode_of (l ∷ ls) =
    let rest = power_mode_of ls in
    if has_prefix (trim_space l) state_label
    then some (canonical_power_mode (trim_space (trim_prefix (trim_space l) state_label)))
    else rest

-- parseHdparmPowerMode
unfoldable pub parse_hdparm_power_mode : Text → Option Text
unfolding power_mode_of split
parse_hdparm_power_mode output = power_mode_of (split 10 output)

-- The exit code 1 of hdparm
abbrev is_exit_one : Option ℕ → Bool
is_exit_one none = false
is_exit_one (some n) = n == 1

-- The code of a command that failed with `e`, in GetStatus and SetMode.
unfoldable pub hdparm_code : OsError → ErrorCode
hdparm_code e =
    if cause_is_exec_not_found (some e)
    then not_found
    else if is_exit_one (cause_exit_code (some e))
    then forbidden
    else internal

abbrev error_of_code : Text → Message → OsError → ErrorCode → GoError
error_of_code device failed e not_found =
    wrapped not_found (lit "hdparm not found: install the hdparm package to manage disk power" ∷ [])
      (os e)
error_of_code device failed e forbidden =
    wrapped forbidden
      (lit "cannot access device " ∷ str device ∷ lit ": check that the process runs as root" ∷ [])
      (os e)
error_of_code device failed e _ = wrapped internal failed (os e)

abbrev hdparm_error : Text → Message → OsError → GoError
hdparm_error device failed e = error_of_code device failed e (hdparm_code e)

abbrev status_error : Text → Option OsError → GoError
status_error device none =
    app internal (lit "hdparm returned no parseable output for device " ∷ str device ∷ [])
status_error device (some e) =
    hdparm_error device (lit "hdparm failed for device " ∷ str device ∷ []) e

-- GetStatus
unfoldable pub get_status : Runner → Text → Shell → Result DiskPower × Shell
unfolding normalize_device parse_hdparm_power_mode hdparm_code
get_status run device s =
    let path = normalize_device device in
    let command = codes "hdparm" ∷ codes "-C" ∷ path ∷ [] in
    let (output, e) = run command in
    (
      elim (if is_empty output then none else parse_hdparm_power_mode output) [
        | some mode ↦ ok (record { device = path; power_mode = mode })
        | none ↦ err (status_error path e)
      ],
      ran command s,
    )

-- The flag of hdparm for an action
unfoldable pub power_flag : Text → Option Text
unfolding text_eq to_lower
power_flag action =
    if text_eq (to_lower action) (codes "standby")
    then some (codes "-y")
    else if text_eq (to_lower action) (codes "sleep")
    then some (codes "-Y")
    else none

abbrev pub power_command : Text → Text → List Text
power_command flag path = codes "hdparm" ∷ flag ∷ path ∷ []

-- logPowerAudit
abbrev pub power_action : Text → Text
power_action action = codes "disk.power." ++ action

-- SetMode
unfoldable pub set_mode : Runner → Text → Text → Text → Shell → Status × Shell
unfolding normalize_device power_flag hdparm_code
set_mode run device action source s =
    let path = normalize_device device in
    elim (power_flag action) [
      | none ↦
          audited source (power_action action) path
            (err (
              app invalid_input (
                lit "unsupported power action "
                ∷ quoted action
                ∷ lit ": use 'standby' or 'sleep'"
                ∷ [])))
            (some invalid_input) s
      | some flag ↦ elim (run (power_command flag path)).1 [
        | some e ↦
            audited source (power_action action) path
              (err (
                hdparm_error path
                  (lit "hdparm " ∷ str action ∷ lit " failed for device " ∷ str path ∷ []) e))
              (some (hdparm_code e)) (ran (power_command flag path) s)
        | none ↦
            audited source (power_action action) path done none (ran (power_command flag path) s)
      ]
    ]
