-- ===== src/Share/Config.antt =====
-- writeSambaConf and writeNFSExports of internal/service/share/filebackend.go: the text of the
-- generated files.
pub mod Lines
use mingyue_go.Base.{
  Bool, List, Text, [], codes, false, fields, if◌then◌else◌, join, not, true, ◌++◌, ◌||◌, ◌∷◌,
}
use mingyue_go.Share.{Share, is_smb, is_nfs}

abbrev pub newline : Text
newline = 10 ∷ []

abbrev pub yes_no : Bool → Text
yes_no true = codes "yes"
yes_no false = codes "no"

-- A section of a disabled share, as a comment.
unfoldable pub disabled_section : Share → Text
disabled_section s =
    (codes "# [" ++ (s.name ++ (codes "] (disabled)" ++ newline)))
    ++ (codes "#    path = " ++ (s.path ++ newline))
    ++ (codes "#    comment = " ++ (s.comment ++ newline))
    ++ (codes "#    read only = " ++ (yes_no s.read_only ++ (newline ++ newline)))

-- `    key = value`, where the value is not empty.
abbrev optional : Text → Text → Text
optional key [] = []
optional key (c ∷ v) = key ++ ((c ∷ v) ++ newline)

unfoldable pub enabled_section : Share → Text
enabled_section s =
    (codes "[" ++ (s.name ++ (codes "]" ++ newline)))
    ++ (codes "    path = " ++ (s.path ++ newline))
    ++ optional (codes "    comment = ") s.comment
    ++ (codes "    read only = " ++ (yes_no s.read_only ++ newline))
    ++ optional (codes "    valid users = ") s.valid_users
    ++ optional (codes "    write list = ") s.write_list
    ++ optional (codes "    create mask = ") s.create_mask
    ++ optional (codes "    directory mask = ") s.directory_mask
    ++ (codes "    browsable = yes" ++ (newline ++ newline))

unfoldable pub samba_section : Share → Text
unfolding disabled_section enabled_section
samba_section s =
    if not (is_smb s.kind)
    then []
    else if not s.enabled
    then disabled_section s
    else enabled_section s

unfoldable pub samba_sections : List Share → Text
unfolding samba_section
samba_sections [] = []
samba_sections (s ∷ shares) = samba_section s ++ samba_sections shares

-- The text that writeSambaConf writes to the file `conf_path`.
unfoldable pub samba_conf : Text → List Share → Text
unfolding samba_sections
samba_conf conf_path shares =
    (codes "# Generated by mingyue – do not edit manually." ++ newline)
    ++ (codes "# To activate: add  include = "
        ++ (conf_path ++ (codes "  to /etc/samba/smb.conf" ++ (newline ++ newline))))
    ++ samba_sections shares

abbrev export_options : Bool → Text
export_options true = codes "ro,sync,no_subtree_check"
export_options false = codes "rw,sync,no_subtree_check"

unfoldable pub host_parts : List Text → Text → List Text
host_parts [] opts = []
host_parts (h ∷ hs) opts = (h ++ (codes "(" ++ (opts ++ codes ")"))) ∷ host_parts hs opts

abbrev export_comment : Text → Text
export_comment [] = []
export_comment (c ∷ s) = codes " # " ++ c ∷ s

abbrev pub host_entries : Text → List Text
host_entries [] = fields (codes "*")
host_entries (c ∷ s) = fields (c ∷ s)

unfoldable pub export_line : Share → Text
unfolding host_parts fields join
export_line s =
    s.path
    ++ (codes " "
        ++ (join (host_parts (host_entries s.hosts) (export_options s.read_only)) (codes " ")
            ++ (export_comment s.comment ++ newline)))

unfoldable pub export_lines : List Share → Text
unfolding export_line
export_lines [] = []
export_lines (s ∷ shares) =
    (if not (is_nfs s.kind) || not s.enabled then [] else export_line s) ++ export_lines shares

-- The text that writeNFSExports writes.
unfoldable pub nfs_exports : List Share → Text
unfolding export_lines
nfs_exports shares =
    (codes "# Generated by mingyue – do not edit manually." ++ (newline ++ newline))
    ++ export_lines shares
