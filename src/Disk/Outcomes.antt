-- ===== src/Disk/Outcomes.antt =====
-- Power modes and SMART health of internal/service/disk: commands, results and audit events.
use mingyue_go.Base.{List, Option, Text, [], arith, false, is_empty, none, some, ◌++◌, ◌∷◌, ◌≡◌}
use mingyue_go.Errors.{OsError, ok}
use mingyue_go.Audit.{AuditEvent, event, log_audit, reported, verdict_word}
use mingyue_go.Shell.{Runner, Shell}
use mingyue_go.Disk.{normalize_device}
use mingyue_go.Disk.Power.{power_flag, power_command, power_action, set_mode}
use mingyue_go.Disk.Smart.{SmartctlOutput, disk_health, smartctl_command, query_smart}

-- SetMode runs one hdparm command on the device where the action is known in any case of letters,
-- and none otherwise.
pub set_mode-power_flag :
    (run : Runner) (device action source : Text) (s : Shell)
    → (set_mode run device action source s).1.commands ≡ elim (power_flag action) [
      | none ↦ s.commands
      | some flag ↦ s.commands ++ power_command flag (normalize_device device) ∷ []
    ]
unfolding set_mode
set_mode-power_flag run device action source s = ground arith

-- With a logger, SetMode appends one event, with the code of the error that the caller gets.
pub set_mode-log_audit :
    (run : Runner) (device action source : Text) (cs : List (List Text)) (es : List AuditEvent)
    → (set_mode run device action source (record { commands = cs; journal = some es })).1.journal
      ≡ some (
          es
          ++ event source
              (power_action action)
              (normalize_device device)
              (verdict_word
                (set_mode run device action source (record { commands = cs; journal = some es })).0)
              (reported
                (set_mode run device action source (record { commands = cs; journal = some es })).0)
            ∷ [])
unfolding set_mode log_audit reported
set_mode-log_audit run device action source cs es = ground arith

-- Output of smartctl that can be read is a result, whatever the exit status; any failure without
-- such output is an error.
pub query_smart_lem :
    (decode : Text → Option SmartctlOutput) (run : Runner) (device output : Text)
    (e : Option OsError)
    → run (smartctl_command (normalize_device device)) ≡ (output, e)
    → is_empty output ≡ false
    → (out : SmartctlOutput) → decode output ≡ some out
    → query_smart decode run device ≡ ok (disk_health (normalize_device device) out)
unfolding query_smart
query_smart_lem decode run device output e r n out d = ground arith
