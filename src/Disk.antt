-- ===== src/Disk.antt =====
-- internal/service/disk: block devices, their power modes and their SMART health.
pub mod Device
pub mod Power
pub mod Smart
pub mod Outcomes
use mingyue_go.Base.{Text, codes, has_prefix, if◌then◌else◌, not, ◌++◌}
use mingyue_go.Errors.{OsError}

-- normalizeDevice, and the same step of SmartService.Query
unfoldable pub normalize_device : Text → Text
unfolding has_prefix
normalize_device device =
    if not (has_prefix device (codes "/")) then codes "/dev/" ++ device else device
