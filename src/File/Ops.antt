-- ===== src/File/Ops.antt =====
-- The operations of internal/service/file/manager.go that change files. Each checks its paths, calls
-- the file system once, and writes one audit event.
use mingyue_go.Base.{Bool, List, Option, Text, [], codes, if◌then◌else◌, none, some, ◌++◌, ◌∷◌}
use mingyue_go.Errors.{
  GoError, wrapped, not_found, internal, forbidden, lit, Result, ok, err, Status, done, ErrorCode,
  is_not_exist,
}
use mingyue_go.Audit.{log_audit, success, failure}
use mingyue_go.SafePath.{safe_path}
use mingyue_go.File.{Host, Manager}

-- src+"→"+dst
abbrev pub arrow : Text → Text → Text
arrow src dst = src ++ (codes "→" ++ dst)

module _ {W : Type 0} where
  -- m.safePath(path)
  unfoldable pub checked : Manager W → Text → W → Result Text
  checked m path w = safe_path (λ p. m.fs.eval_symlinks p w) m.root path

  -- The end of an operation: the new world, and one audit event.
  abbrev pub finish : Text → Text → Text → Status → Option ErrorCode → W → Host W → Status × Host W
  finish source action target result code w h = (
    result,
    record {
      world = w;
      journal =
          log_audit source action target (elim code [ none ↦ success | some c ↦ failure ]) code
            h.journal;
    },
  )

  abbrev pub refuse : Text → Text → Text → GoError → Host W → Status × Host W
  refuse source action target e h = finish source action target (err e) (some forbidden) h.world h

  mkdir_end : Text → Text → Host W → Status × W → Status × Host W
  mkdir_end path source h (ok _, w) = finish source (codes "file.mkdir") path done none w h
  mkdir_end path source h (err e, w) =
      finish source (codes "file.mkdir") path
        (err (wrapped internal (lit "failed to create directory" ∷ []) e)) (some internal) w h

  -- Mkdir
  unfoldable pub mkdir : Manager W → Text → Text → Host W → Status × Host W
  unfolding mkdir_end checked
  mkdir m path source h = elim (checked m path h.world) [
    | err e ↦ refuse source (codes "file.mkdir") path e h
    | ok abs ↦ mkdir_end path source h (m.fs.mkdir_all abs 0o755 h.world)
  ]

  remove_end : Text → Text → Host W → Status × W → Status × Host W
  remove_end path source h (ok _, w) = finish source (codes "file.remove") path done none w h
  remove_end path source h (err e, w) =
      if is_not_exist e
      then finish source (codes "file.remove") path
          (err (wrapped not_found (lit "path not found" ∷ []) e)) (some not_found) w h
      else finish source (codes "file.remove") path
          (err (wrapped internal (lit "failed to remove path" ∷ []) e)) (some internal) w h

  -- Remove
  unfoldable pub remove_path : Manager W → Text → Bool → Text → Host W → Status × Host W
  unfolding remove_end checked
  remove_path m path recursive source h = elim (checked m path h.world) [
    | err e ↦ refuse source (codes "file.remove") path e h
    | ok abs ↦
        remove_end path source h
          (if recursive then m.fs.remove_all abs h.world else m.fs.remove_one abs h.world)
  ]

  move_end : Text → Text → Text → Host W → Status × W → Status × Host W
  move_end src dst source h (ok _, w) =
      finish source (codes "file.move") (arrow src dst) done none w h
  move_end src dst source h (err e, w) =
      if is_not_exist e
      then finish source (codes "file.move") (arrow src dst)
          (err (wrapped not_found (lit "source path not found" ∷ []) e)) (some not_found) w h
      else finish source (codes "file.move") (arrow src dst)
          (err (wrapped internal (lit "failed to move path" ∷ []) e)) (some internal) w h

  -- Move
  unfoldable pub move : Manager W → Text → Text → Text → Host W → Status × Host W
  unfolding move_end checked
  move m src dst source h = elim (checked m src h.world) [
    | err e ↦ refuse source (codes "file.move") (arrow src dst) e h
    | ok abs_src ↦ elim (checked m dst h.world) [
      | err e ↦ refuse source (codes "file.move") (arrow src dst) e h
      | ok abs_dst ↦ move_end src dst source h (m.fs.rename abs_src abs_dst h.world)
    ]
  ]

  copy_end : Text → Text → Text → Host W → Status × W → Status × Host W
  copy_end src dst source h (ok _, w) =
      finish source (codes "file.copy") (arrow src dst) done none w h
  copy_end src dst source h (err e, w) =
      if is_not_exist e
      then finish source (codes "file.copy") (arrow src dst)
          (err (wrapped not_found (lit "source file not found" ∷ []) e)) (some not_found) w h
      else finish source (codes "file.copy") (arrow src dst)
          (err (wrapped internal (lit "failed to copy file" ∷ []) e)) (some internal) w h

  -- Copy
  unfoldable pub copy : Manager W → Text → Text → Text → Host W → Status × Host W
  unfolding copy_end checked
  copy m src dst source h = elim (checked m src h.world) [
    | err e ↦ refuse source (codes "file.copy") (arrow src dst) e h
    | ok abs_src ↦ elim (checked m dst h.world) [
      | err e ↦ refuse source (codes "file.copy") (arrow src dst) e h
      | ok abs_dst ↦ copy_end src dst source h (m.fs.copy_file abs_src abs_dst h.world)
    ]
  ]

  write_end : Text → Text → Host W → Status × W → Status × Host W
  write_end path source h (ok _, w) = finish source (codes "file.write") path done none w h
  write_end path source h (err e, w) =
      finish source (codes "file.write") path
        (err (wrapped internal (lit "failed to write file" ∷ []) e)) (some internal) w h

  -- Write
  unfoldable pub write : Manager W → Text → Text → Text → Host W → Status × Host W
  unfolding write_end checked
  write m path content source h = elim (checked m path h.world) [
    | err e ↦ refuse source (codes "file.write") path e h
    | ok abs ↦ write_end path source h (m.fs.write_file abs content 0o644 h.world)
  ]
  -- The five operations as requests.

pub data Request : Type 0 where
  mkdir_req : Text → Request
  remove_req : Text → Bool → Request
  move_req copy_req : Text → Text → Request
  write_req : Text → Text → Request

module _ {W : Type 0} where
  unfoldable pub run : Manager W → Request → Text → Host W → Status × Host W
  unfolding mkdir remove_path move copy write
  run m (mkdir_req path) source h = mkdir m path source h
  run m (remove_req path recursive) source h = remove_path m path recursive source h
  run m (move_req src dst) source h = move m src dst source h
  run m (copy_req src dst) source h = copy m src dst source h
  run m (write_req path content) source h = write m path content source h

abbrev pub requested : Request → List Text
requested (mkdir_req path) = path ∷ []
requested (remove_req path recursive) = path ∷ []
requested (move_req src dst) = src ∷ dst ∷ []
requested (copy_req src dst) = src ∷ dst ∷ []
requested (write_req path content) = path ∷ []

abbrev pub action_of : Request → Text
action_of (mkdir_req path) = codes "file.mkdir"
action_of (remove_req path recursive) = codes "file.remove"
action_of (move_req src dst) = codes "file.move"
action_of (copy_req src dst) = codes "file.copy"
action_of (write_req path content) = codes "file.write"

abbrev pub target_of : Request → Text
target_of (mkdir_req path) = path
target_of (remove_req path recursive) = path
target_of (move_req src dst) = arrow src dst
target_of (copy_req src dst) = arrow src dst
target_of (write_req path content) = path
