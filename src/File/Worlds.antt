-- ===== src/File/Worlds.antt =====
-- internal/service/file/manager.go: the files after each operation.
use mingyue_go.Base.{Bool, Text, arith, if◌then◌else◌, ◌≡◌}
use mingyue_go.Errors.{GoError, ok, err}
use mingyue_go.File.{Host, Manager}
use mingyue_go.File.Ops.{checked, mkdir, remove_path, move, copy, write}

module _ {W : Type 0} (m : Manager W) (h : Host W) where
  pub mkdir_refused-world :
      (path source : Text) {e : GoError}
      → checked m path h.world ≡ err e
      → (mkdir m path source h).1.world ≡ h.world
  unfolding mkdir
  mkdir_refused-world path source k = ground arith

  pub mkdir-world :
      (path source : Text) {abs : Text}
      → checked m path h.world ≡ ok abs
      → (mkdir m path source h).1.world ≡ (m.fs.mkdir_all abs 0o755 h.world).1
  unfolding mkdir
  mkdir-world path source k = ground arith

  pub remove_path_refused-world :
      (path : Text) (recursive : Bool) (source : Text) {e : GoError}
      → checked m path h.world ≡ err e
      → (remove_path m path recursive source h).1.world ≡ h.world
  unfolding remove_path
  remove_path_refused-world path recursive source k = ground arith

  pub remove_path-world :
      (path : Text) (recursive : Bool) (source : Text) {abs : Text}
      → checked m path h.world ≡ ok abs
      → (remove_path m path recursive source h).1.world
        ≡ (if recursive then m.fs.remove_all abs h.world else m.fs.remove_one abs h.world).1
  unfolding remove_path
  remove_path-world path recursive source k = ground arith

  pub write_refused-world :
      (path content source : Text) {e : GoError}
      → checked m path h.world ≡ err e
      → (write m path content source h).1.world ≡ h.world
  unfolding write
  write_refused-world path content source k = ground arith

  pub write-world :
      (path content source : Text) {abs : Text}
      → checked m path h.world ≡ ok abs
      → (write m path content source h).1.world ≡ (m.fs.write_file abs content 0o644 h.world).1
  unfolding write
  write-world path content source k = ground arith

  pub move_refused_src-world :
      (src dst source : Text) {e : GoError}
      → checked m src h.world ≡ err e
      → (move m src dst source h).1.world ≡ h.world
  unfolding move
  move_refused_src-world src dst source k = ground arith

  pub move_refused_dst-world :
      (src dst source : Text) {abs : Text} {e : GoError}
      → checked m src h.world ≡ ok abs
      → checked m dst h.world ≡ err e
      → (move m src dst source h).1.world ≡ h.world
  unfolding move
  move_refused_dst-world src dst source k l = ground arith

  pub move-world :
      (src dst source : Text) {a b : Text}
      → checked m src h.world ≡ ok a
      → checked m dst h.world ≡ ok b
      → (move m src dst source h).1.world ≡ (m.fs.rename a b h.world).1
  unfolding move
  move-world src dst source k l = ground arith

  pub copy_refused_src-world :
      (src dst source : Text) {e : GoError}
      → checked m src h.world ≡ err e
      → (copy m src dst source h).1.world ≡ h.world
  unfolding copy
  copy_refused_src-world src dst source k = ground arith

  pub copy_refused_dst-world :
      (src dst source : Text) {abs : Text} {e : GoError}
      → checked m src h.world ≡ ok abs
      → checked m dst h.world ≡ err e
      → (copy m src dst source h).1.world ≡ h.world
  unfolding copy
  copy_refused_dst-world src dst source k l = ground arith

  pub copy-world :
      (src dst source : Text) {a b : Text}
      → checked m src h.world ≡ ok a
      → checked m dst h.world ≡ ok b
      → (copy m src dst source h).1.world ≡ (m.fs.copy_file a b h.world).1
  unfolding copy
  copy-world src dst source k l = ground arith
