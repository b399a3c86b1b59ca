-- ===== src/Tests/Disks.antt =====
-- Block devices, power modes and SMART health.
use mingyue_go.Base.{[], codes, none, refl, some, ◌++◌, ◌∷◌, ◌≡◌}
use mingyue_go.Errors.{exec_not_found, exit_status, ok}
use mingyue_go.Audit.{event, reported, verdict_word}
use mingyue_go.Shell.{Runner, Shell}
use mingyue_go.Disk.{normalize_device}
use mingyue_go.Disk.Device.{
  no_size, number, string, word, no_flag, device, Children, no_child, child, parse_lsblk_size,
  list_devices,
}
use mingyue_go.Disk.Device.Flatten.{preorder_all, list_devices-preorder_all}
use mingyue_go.Disk.Power.{parse_hdparm_power_mode, power_action, set_mode}
use mingyue_go.Disk.Outcomes.{set_mode-log_audit}

-- A disk with two partitions
abbrev disk : Children
disk =
    child
      (device (codes "sda") (number 1000) (codes "disk") none (some (codes "WDC "))
        (word (codes "0"))
        (child
          (device (codes "sda1") (string (codes " 600 ")) (codes "part") (some (codes "/")) none
            no_flag no_child)
          (child (device (codes "sda2") no_size (codes "part") none none no_flag no_child)
            no_child)))
      no_child

abbrev listing : Runner
listing command = (codes "{}", some (exit_status 32))

list_devices-preorder_all_example : list_devices (λ t. some disk) listing ≡ ok (preorder_all disk)
list_devices-preorder_all_example =
    list_devices-preorder_all (λ t. some disk) listing (codes "{}") (some (exit_status 32)) disk
      refl refl refl

size_of_text : parse_lsblk_size (string (codes " 600 ")) ≡ 600
unfolding parse_lsblk_size
size_of_text = refl

idle :
    parse_hdparm_power_mode (codes "/dev/sda:\n drive state is:  active/idle\n")
    ≡ some (codes "active")
unfolding parse_hdparm_power_mode
idle = refl

abbrev start : Shell
start = record { commands = []; journal = some [] }

-- hdparm is not installed.
abbrev bare : Runner
bare command = ([], some exec_not_found)

set_mode-log_audit_example :
    (set_mode bare (codes "sda") (codes "Standby") (codes "cli") start).1.journal
    ≡ some (
        []
        ++ event
            (codes "cli")
            (power_action (codes "Standby"))
            (normalize_device (codes "sda"))
            (verdict_word (set_mode bare (codes "sda") (codes "Standby") (codes "cli") start).0)
            (reported (set_mode bare (codes "sda") (codes "Standby") (codes "cli") start).0)
          ∷ [])
set_mode-log_audit_example =
    set_mode-log_audit bare (codes "sda") (codes "Standby") (codes "cli") [] []
