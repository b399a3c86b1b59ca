-- ===== src/Api/Router/Steps/Disks.antt =====
-- The handlers of internal/api/disk.go: their steps.
use mingyue_go.Base.{Text, [], refl, text_eq, ◌∷◌}
use mingyue_go.Disk.Power.{get_status}
use mingyue_go.Api.System.{Env, System, on_shell}
use mingyue_go.Api.Disks.{
  disk_mount_list_handler, disk_mount_create_handler, disk_mounts_handler,
  disk_mount_delete_handler, disk_devices_list_handler, disk_power_get_handler,
  disk_power_set_handler, disk_power_dispatch_handler, disk_device_handler,
}
use mingyue_go.Api.Router.Keeps.{
  Keeps, keeps, Condition, HasMethod, only-Keeps, with_role-Keeps, by_method-Keeps, reject_if-Keeps,
  choose-Keeps, parsed-Keeps, resolved-Keeps,
}
use mingyue_go.Api.Dispatch.{get_method, post_method}
use mingyue_go.Api.Router.Steps.{
  confirmed, Did, only_read, Read, looked_up, stays, did, posts, deletes, still, mounted, unmounted,
  power_set,
}

module _ {W T : Type 0} (env : Env W T) (C : Condition) where
  disk_mount_list-Keeps : Keeps (Did env) C (disk_mount_list_handler env)
  unfolding disk_mount_list_handler
  disk_mount_list-Keeps = still env _ _

  disk_mount_create-Keeps :
      Keeps (Did env) (HasMethod post_method C) (disk_mount_create_handler env)
  unfolding disk_mount_create_handler
  disk_mount_create-Keeps = with_role-Keeps (Did env) (stays env) _ _ _ _ (
      parsed-Keeps (Did env) (stays env) _ _ _ _ (λ opts.
        reject_if-Keeps (Did env) (stays env) _ _ _ _ (
          keeps (λ r role s (high, (method, c)).
            did env r role s (confirmed _ _) high (posts r method) (mounted opts)))))

  get_status-Read :
      (device : Text) (s : System W T) → Read s (on_shell (get_status env.run device) s).1
  unfolding get_status text_eq
  get_status-Read device s = looked_up _ refl

  disk_power_get-Keeps : (device : Text) → Keeps (Did env) C (disk_power_get_handler env device)
  unfolding disk_power_get_handler
  disk_power_get-Keeps device = keeps (λ r role s c. only_read (get_status-Read device s))

  disk_power_set-Keeps :
      (device : Text)
      → Keeps (Did env) (HasMethod post_method C) (disk_power_set_handler env device)
  unfolding disk_power_set_handler
  disk_power_set-Keeps device = with_role-Keeps (Did env) (stays env) _ _ _ _ (
      parsed-Keeps (Did env) (stays env) _ _ _ _ (λ action.
        reject_if-Keeps (Did env) (stays env) _ _ _ _ (
          keeps (λ r role s (high, (method, c)).
            did env r role s (confirmed _ _) high (posts r method) (power_set device action)))))

module _ {W T : Type 0} (env : Env W T) (C : Condition) where
  disk_power_dispatch-Keeps :
      (device : Text) → Keeps (Did env) C (disk_power_dispatch_handler env device)
  unfolding disk_power_dispatch_handler
  disk_power_dispatch-Keeps device =
      by_method-Keeps (Did env) (stays env) C
        ((get_method, disk_power_get_handler env device)
          ∷ (post_method, disk_power_set_handler env device)
          ∷ [])
        (disk_power_get-Keeps env _ device, (disk_power_set-Keeps env _ device, tt))

  pub disk_mounts-Keeps : Keeps (Did env) C (disk_mounts_handler env)
  unfolding disk_mounts_handler
  disk_mounts-Keeps =
      by_method-Keeps (Did env) (stays env) C
        ((get_method, disk_mount_list_handler env)
          ∷ (post_method, disk_mount_create_handler env)
          ∷ [])
        (disk_mount_list-Keeps env _, (disk_mount_create-Keeps env _, tt))

  pub disk_mount_delete-Keeps : Keeps (Did env) C (disk_mount_delete_handler env)
  unfolding disk_mount_delete_handler
  disk_mount_delete-Keeps = only-Keeps (Did env) (stays env) C _ _ (
      with_role-Keeps (Did env) (stays env) _ _ _ _ (
        resolved-Keeps (Did env) (stays env) _ _ _ (λ mountpoint.
          keeps (λ r role s (high, (method, c)).
            did env r role s (confirmed _ _) high (deletes r method) (unmounted mountpoint)))))

  pub disk_devices_list-Keeps : Keeps (Did env) C (disk_devices_list_handler env)
  unfolding disk_devices_list_handler
  disk_devices_list-Keeps = only-Keeps (Did env) (stays env) C _ _ (still env _ _)

  pub disk_device-Keeps : Keeps (Did env) C (disk_device_handler env)
  unfolding disk_device_handler
  disk_device-Keeps = resolved-Keeps (Did env) (stays env) _ _ _ (λ (device, action).
      choose-Keeps (Did env) (stays env) C _ _ _
        (only-Keeps (Did env) (stays env) C _ _ (still env _ _))
        (choose-Keeps (Did env) (stays env) C _ _ _ (disk_power_dispatch-Keeps device)
          (still env _ _)))
