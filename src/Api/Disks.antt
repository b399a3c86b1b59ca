-- ===== src/Api/Disks.antt =====
-- internal/api/disk.go.
use mingyue_go.Base.{Text, [], codes, is_empty, text_eq, ◌||◌, ◌∷◌}
use mingyue_go.Auth.{operator}
use mingyue_go.Mount.{MountOptions}
use mingyue_go.Mount.Service.{list_mounts, mount, umount}
use mingyue_go.Disk.Device.{list_devices}
use mingyue_go.Disk.Power.{get_status, set_mode}
use mingyue_go.Disk.Smart.{query_smart}
use mingyue_go.Api.System.{
  Env, mount_list, device_list, disk_health, disk_power, ApiHandler, on_mounts, on_shell,
}
use mingyue_go.Api.Dispatch.{
  choose, reject_if, resolved, parsed, only, with_role, by_method, answer, confirm, not_found_text,
  operator_required, get_method, post_method, delete_method,
}
use mingyue_go.Api.Paths.{extract_mountpoint_from_path, extract_device_and_action}

module _ {W T : Type 0} (env : Env W T) where
  -- diskMountListHandler
  unfoldable pub disk_mount_list_handler : ApiHandler W T
  disk_mount_list_handler r role s = (answer mount_list (list_mounts env.mounts), s)

  abbrev mount_request : MountOptions → ApiHandler W T
  mount_request opts =
      reject_if (is_empty opts.source || is_empty opts.mount_point)
        "source and mount_point are required"
        (λ r role s. confirm 201 (on_mounts (mount env.persister env.mounts opts r.remote_addr) s))

  -- diskMountCreateHandler
  unfoldable pub disk_mount_create_handler : ApiHandler W T
  disk_mount_create_handler =
      with_role operator operator_required
        (parsed (λ r. env.codecs.decode_mount r.body) "invalid request body" mount_request)

  -- diskMountsHandler
  unfoldable pub disk_mounts_handler : ApiHandler W T
  disk_mounts_handler =
      by_method
        ((get_method, disk_mount_list_handler) ∷ (post_method, disk_mount_create_handler) ∷ [])

  -- diskMountDeleteHandler
  unfoldable pub disk_mount_delete_handler : ApiHandler W T
  disk_mount_delete_handler = only delete_method (
      with_role operator operator_required (
        resolved (λ r s. extract_mountpoint_from_path env.codecs r.escaped_path)
          (λ mountpoint r role s.
            confirm 204 (on_mounts (umount env.mounts mountpoint r.remote_addr) s))))

  -- diskDevicesListHandler
  unfoldable pub disk_devices_list_handler : ApiHandler W T
  disk_devices_list_handler =
      only get_method (λ r role s. (answer device_list (list_devices env.decode_lsblk env.run), s))

  -- diskPowerGetHandler
  unfoldable pub disk_power_get_handler : Text → ApiHandler W T
  disk_power_get_handler device r role s =
      let (power, s') = on_shell (get_status env.run device) s in (answer disk_power power, s')

  -- diskPowerSetHandler
  unfoldable pub disk_power_set_handler : Text → ApiHandler W T
  disk_power_set_handler device = with_role operator operator_required (
      parsed (λ r. env.codecs.decode_action r.body) "invalid request body"
        (λ action.
          reject_if (is_empty action) "action is required (standby or sleep)"
            (λ r role s. confirm 204 (on_shell (set_mode env.run device action r.remote_addr) s))))

  -- diskPowerDispatchHandler
  unfoldable pub disk_power_dispatch_handler : Text → ApiHandler W T
  disk_power_dispatch_handler device = by_method (
      (get_method, disk_power_get_handler device)
      ∷ (post_method, disk_power_set_handler device)
      ∷ [])

  abbrev smart_handler : Text → ApiHandler W T
  smart_handler device =
      only get_method
        (λ r role s. (answer disk_health (query_smart env.decode_smartctl env.run device), s))

  abbrev action_handler : Text × Text → ApiHandler W T
  action_handler (device, action) = choose (text_eq action (codes "smart")) (smart_handler device) (
      choose (text_eq action (codes "power")) (disk_power_dispatch_handler device)
        (λ r role s. (not_found_text, s)))

  -- diskDeviceHandler
  unfoldable pub disk_device_handler : ApiHandler W T
  disk_device_handler =
      resolved (λ r s. extract_device_and_action env.codecs r.escaped_path) action_handler
