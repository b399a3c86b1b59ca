-- ===== src/Disk/Device.antt =====
-- DeviceService of internal/service/disk/device.go: lsblk's tree of devices as a list.
pub mod Flatten
use mingyue_go.Base.{
  Bool, List, Option, Text, [], codes, false, if◌then◌else◌, is_empty, ltb, none, some, text_eq,
  trim_space, ℕ, ◌*◌, ◌++◌, ◌+◌, ◌-◌, ◌^◌, ◌||◌, ◌∷◌,
}
use mingyue_go.Errors.{
  GoError, app, wrapped, internal, not_found, os, lit, OsError, Result, ok, err,
  cause_is_exec_not_found,
}
use mingyue_go.Shell.{Runner}

-- A size in lsblk's JSON: a number (as float64 holds it, cut to an integer), a string, or nothing.
pub data JsonSize : Type 0 where
  number : ℕ → JsonSize
  string : Text → JsonSize
  no_size : JsonSize

-- The field "rm": a bool, a string, or nothing that is either.
pub data JsonFlag : Type 0 where
  flag : Bool → JsonFlag
  word : Text → JsonFlag
  no_flag : JsonFlag

-- lsblkDevice, with the list of its children
mutual
  pub data LsblkDevice : Type 0 where
    device : Text → JsonSize → Text → Option Text → Option Text → JsonFlag → Children → LsblkDevice

  pub data Children : Type 0 where
    no_child : Children
    child : LsblkDevice → Children → Children

-- domain.BlockDevice of internal/domain/disk.go
pub record BlockDevice : Type 0 where
  pub name : Text
  pub size_bytes : ℕ
  pub kind : Text
  pub mount_point : Text
  pub model : Text
  pub removable : Bool

abbrev pub max_uint64 : ℕ
max_uint64 = 2 ^ 64 - 1

-- strconv.ParseUint(s, 10, 64) from the value read so far, its error dropped: 0 for a text that is
-- no number, the largest value where the number does not fit.
unfoldable pub parse_digits : ℕ → Text → ℕ
parse_digits n [] = n
parse_digits n (c ∷ s) =
    let rest = parse_digits (n * 10 + (c - b'0')) s in
    if ltb c b'0' || ltb b'9' c
    then 0
    else if ltb max_uint64 (n * 10 + (c - b'0'))
    then max_uint64
    else rest

-- parseLsblkSize
unfoldable pub parse_lsblk_size : JsonSize → ℕ
unfolding parse_digits trim_space
parse_lsblk_size (number n) = n
parse_lsblk_size (string s) = parse_digits 0 (trim_space s)
parse_lsblk_size no_size = 0

-- parseLsblkRM
unfoldable pub parse_lsblk_rm : JsonFlag → Bool
unfolding text_eq
parse_lsblk_rm (flag b) = b
parse_lsblk_rm (word s) = text_eq s (codes "1") || text_eq s (codes "true")
parse_lsblk_rm no_flag = false

abbrev or_empty : Option Text → Text
or_empty none = []
or_empty (some s) = s

abbrev pub block_device :
    Text → JsonSize → Text → Option Text → Option Text → JsonFlag → BlockDevice
block_device name size kind mount_point model rm = record {
  name = name;
  size_bytes = parse_lsblk_size size;
  kind = kind;
  mount_point = or_empty mount_point;
  model = trim_space (or_empty model);
  removable = parse_lsblk_rm rm;
}

-- flattenDevice and its loop: what they append to `out`
unfoldable mutual
  pub flatten_device : LsblkDevice → List BlockDevice → List BlockDevice
  flatten_device (device name size kind mount_point model rm children) out =
      flatten_children children (out ++ block_device name size kind mount_point model rm ∷ [])

  pub flatten_children : Children → List BlockDevice → List BlockDevice
  flatten_children no_child out = out
  flatten_children (child d ds) out = flatten_children ds (flatten_device d out)

abbrev pub lsblk_command : List Text
lsblk_command =
    codes "lsblk"
    ∷ codes "-J"
    ∷ codes "-b"
    ∷ codes "-o"
    ∷ codes "NAME,SIZE,TYPE,MOUNTPOINT,MODEL,RM"
    ∷ []

abbrev lsblk_error : Option OsError → GoError
lsblk_error none = app internal (lit "lsblk returned no parseable output" ∷ [])
lsblk_error (some e) =
    if cause_is_exec_not_found (some e)
    then wrapped not_found
        (lit "lsblk not found: install the util-linux package to list block devices" ∷ []) (os e)
    else wrapped internal (lit "failed to list block devices" ∷ []) (os e)

-- parseLsblkJSON, where `decode` is json.Unmarshal into the list of devices
abbrev parsed : (Text → Option Children) → Text → Option (List BlockDevice)
parsed decode output = elim (decode output) [
  | none ↦ none
  | some ds ↦ some (flatten_children ds [])
]

-- List
unfoldable pub list_devices : (Text → Option Children) → Runner → Result (List BlockDevice)
unfolding flatten_children
list_devices decode run =
    let (output, e) = run lsblk_command in
    elim (if is_empty output then none else parsed decode output) [
      | some devices ↦ ok devices
      | none ↦ err (lsblk_error e)
    ]
