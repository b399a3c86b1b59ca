-- ===== src/Mount/Table.antt =====
-- parseMounts of internal/service/disk/mount.go, and looking a mount point up.
use mingyue_go.Base.{
  Bool, List, Option, Text, [], codes, false, fields, has_prefix, if◌then◌else◌, is_empty, none,
  scan_lines, some, text_eq, trim_space, ℕ, ◌*◌, ◌||◌, ◌∷◌,
}
use mingyue_go.Errors.{OsError, other, wrapped, internal, os, lit, Result, ok, err}
use mingyue_go.Mount.{Mount}

-- One line of the table: none where it is skipped.
abbrev first_four : List Text → Option Mount
first_four (device ∷ mount_point ∷ fs_type ∷ options ∷ rest) =
    some
      (record { device = device; mount_point = mount_point; fs_type = fs_type; options = options })
first_four _ = none

unfoldable pub parse_line : Text → Option Mount
unfolding trim_space has_prefix fields
parse_line line =
    if is_empty (trim_space line) || has_prefix (trim_space line) (codes "#")
    then none
    else first_four (fields (trim_space line))

unfoldable pub parse_lines : List Text → List Mount
unfolding parse_line
parse_lines [] = []
parse_lines (l ∷ ls) =
    let rest = parse_lines ls in elim (parse_line l) [ none ↦ rest | some m ↦ m ∷ rest ]

-- The scanner's buffer: 1 MiB
abbrev pub scan_cap : ℕ
scan_cap = 1024 * 1024

abbrev too_long : OsError
too_long = other (codes "bufio.Scanner: token too long")

-- parseMounts, on what was read before a read error, if there was one
unfoldable pub parse_mounts : Option OsError → Text → Result (List Mount)
unfolding parse_lines scan_lines
parse_mounts read_error input =
    let scanned = scan_lines scan_cap input in
    if scanned.1
    then err (wrapped internal (lit "error reading mount table" ∷ []) (os too_long))
    else elim read_error [
      | some e ↦ err (wrapped internal (lit "error reading mount table" ∷ []) (os e))
      | none ↦ ok (parse_lines scanned.0)
    ]

-- The loops over the mounts in Mount and Umount
unfoldable pub is_mounted : Text → List Mount → Bool
unfolding text_eq
is_mounted mount_point [] = false
is_mounted mount_point (m ∷ ms) = text_eq m.mount_point mount_point || is_mounted mount_point ms
