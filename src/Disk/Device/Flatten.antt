-- ===== src/Disk/Device/Flatten.antt =====
-- flattenDevice of internal/service/disk/device.go beside the order of the tree.
use mingyue_go.Base.{
  List, Option, Text, [], ap, append-nil, append_assoc, false, is_empty, some, sym, ◌++◌, ◌∙◌, ◌∷◌,
  ◌≡◌,
}
use mingyue_go.Disk.Device.{
  LsblkDevice, device, Children, no_child, child, BlockDevice, block_device, flatten_device,
  flatten_children, lsblk_command, list_devices,
}
use mingyue_go.Errors.{ok, OsError}
use mingyue_go.Shell.{Runner}

-- The devices of a tree from the root down, each before its children.
unfoldable mutual
  pub preorder : LsblkDevice → List BlockDevice
  preorder (device name size kind mount_point model rm children) =
      block_device name size kind mount_point model rm ∷ preorder_all children

  pub preorder_all : Children → List BlockDevice
  preorder_all no_child = []
  preorder_all (child d ds) = preorder d ++ preorder_all ds

mutual
  unfolding flatten_device flatten_children preorder preorder_all

  pub flatten_device-preorder :
      (d : LsblkDevice) (out : List BlockDevice) → flatten_device d out ≡ out ++ preorder d
  flatten_device-preorder (device name size kind mount_point model rm children) out =
      flatten_children-preorder children _
      ∙ append_assoc out (block_device name size kind mount_point model rm ∷ []) _

  pub flatten_children-preorder :
      (ds : Children) (out : List BlockDevice) → flatten_children ds out ≡ out ++ preorder_all ds
  flatten_children-preorder no_child out = sym (append-nil out)
  flatten_children-preorder (child d ds) out =
      flatten_children-preorder ds (flatten_device d out)
      ∙ ap (λ o. o ++ preorder_all ds) (flatten_device-preorder d out)
      ∙ append_assoc out (preorder d) (preorder_all ds)

-- Where lsblk prints something that decodes to a list of trees, List returns every device of every
-- tree, each before its children, whatever lsblk's exit status is.
pub list_devices-preorder_all :
    (decode : Text → Option Children) (run : Runner) (output : Text) (e : Option OsError)
    (ds : Children)
    → run lsblk_command ≡ (output, e)
    → is_empty output ≡ false
    → decode output ≡ some ds
    → list_devices decode run ≡ ok (preorder_all ds)
unfolding list_devices
list_devices-preorder_all decode run output e ds r n d =
    rw (r, list_devices)
      (rw (n, list_devices) (rw (d, list_devices) (ap ok (flatten_children-preorder ds []))))
