-- ===== src/File/Queries.antt =====
-- The operations of internal/service/file/manager.go that only read.
use mingyue_go.Base.{List, Option, String, Text, [], false, if◌then◌else◌, none, some, true, ℕ, ◌∷◌}
use mingyue_go.Errors.{
  wrapped, not_found, internal, lit, dec, Message, Result, ok, err, is_not_exist, GoError,
}
use mingyue_go.Path.{join_path}
use mingyue_go.File.{DirEntry, FileEntry, Manager}
use mingyue_go.File.Ops.{checked}

abbrev owner_of : Option ℕ → Message
owner_of none = []
owner_of (some uid) = dec uid ∷ []

-- One round of the loop of List.
unfoldable pub list_entry : Text → DirEntry → FileEntry
list_entry abs e = elim e.info [
  | err x ↦ record {
    name = e.name;
    path = join_path abs e.name;
    is_dir = e.is_dir;
    size = 0;
    mode = [];
    mod_time = 0;
    owner = [];
    unreadable = true;
  }
  | ok info ↦ record {
    name = e.name;
    path = join_path abs e.name;
    is_dir = e.is_dir;
    size = info.size;
    mode = info.mode;
    mod_time = info.mod_time;
    owner = owner_of info.uid;
    unreadable = false;
  }
]

pub list_entries : Text → List DirEntry → List FileEntry
list_entries abs [] = []
list_entries abs (e ∷ es) = list_entry abs e ∷ list_entries abs es

abbrev found_or : GoError → String → String → GoError
found_or e missing failed =
    if is_not_exist e
    then wrapped not_found (lit missing ∷ []) e
    else wrapped internal (lit failed ∷ []) e

module _ {W : Type 0} (m : Manager W) (path : Text) (w : W) where
  -- List
  unfoldable pub list_dir : Result (List FileEntry)
  unfolding checked list_entries
  list_dir = elim (checked m path w) [
    | err e ↦ err e
    | ok abs ↦ elim (m.fs.read_dir abs w) [
      | err e ↦ err (found_or e "directory not found" "failed to read directory")
      | ok entries ↦ ok (list_entries abs entries)
    ]
  ]

  -- Stat
  unfoldable pub stat : Result FileEntry
  unfolding checked
  stat = elim (checked m path w) [
    | err e ↦ err e
    | ok abs ↦ elim (m.fs.stat abs w) [
      | err e ↦ err (found_or e "path not found" "stat failed")
      | ok info ↦ ok (record {
        name = info.name;
        path = abs;
        is_dir = info.is_dir;
        size = info.size;
        mode = info.mode;
        mod_time = info.mod_time;
        owner = owner_of info.uid;
        unreadable = false;
      })
    ]
  ]

  -- Read
  unfoldable pub read : Result Text
  unfolding checked
  read = elim (checked m path w) [
    | err e ↦ err e
    | ok abs ↦ elim (m.fs.read_file abs w) [
      | err e ↦ err (found_or e "file not found" "failed to read file")
      | ok content ↦ ok content
    ]
  ]
