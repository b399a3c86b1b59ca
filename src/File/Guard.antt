-- ===== src/File/Guard.antt =====
-- internal/service/file/manager.go: the paths at which the operations reach the file system.
use mingyue_go.Base.{Bool, Text, false, if◌then◌else◌, inl, inr, sym, true, ℕ, ◌≡◌}
use mathlib.Core.Path.{subst}
use mingyue_go.Errors.{ok}
use mingyue_go.Errors.Laws.{Result-cases}
use mingyue_go.Path.{is_abs}
use mingyue_go.SafePath.Inside.{IsInside, safe_path-IsInside}
use mingyue_go.File.{Host, Manager}
use mingyue_go.File.Worlds.{
  mkdir_refused-world, mkdir-world, remove_path_refused-world, remove_path-world,
  write_refused-world, write-world, move_refused_src-world, move_refused_dst-world, move-world,
  copy_refused_src-world, copy_refused_dst-world, copy-world,
}
use mingyue_go.File.Ops.{
  checked, mkdir, remove_path, move, copy, write, Request, run, mkdir_req, remove_req, move_req,
  copy_req, write_req,
}

module _ {W : Type 0} where
  -- A path that safePath accepts in the file system as it is: clean, at or below the root, and so is
  -- what its nearest existing ancestor resolves to.
  abbrev pub IsReached : Manager W → W → Text → Type 0
  IsReached m w p = IsInside (λ q. m.fs.eval_symlinks q w) m.root p

  -- `P` is kept by each call of the file system that changes files, where its paths are inside the
  -- root, their links resolved by the file system as it is before the call.
  pub record IsGuard (m : Manager W) (P : W → Type 0) : Type 0 where
    pub mkdir_all :
        (p : Text) (perm : ℕ) (w : W) → IsReached m w p → P w → P (m.fs.mkdir_all p perm w).1
    pub remove_one : (p : Text) (w : W) → IsReached m w p → P w → P (m.fs.remove_one p w).1
    pub remove_all : (p : Text) (w : W) → IsReached m w p → P w → P (m.fs.remove_all p w).1
    pub rename :
        (p q : Text) (w : W) → IsReached m w p → IsReached m w q → P w → P (m.fs.rename p q w).1
    pub copy_file :
        (p q : Text) (w : W) → IsReached m w p → IsReached m w q → P w → P (m.fs.copy_file p q w).1
    pub write_file :
        (p c : Text) (perm : ℕ) (w : W) → IsReached m w p → P w → P (m.fs.write_file p c perm w).1

module _ {W : Type 0} (m : Manager W) (P : W → Type 0) (guard : IsGuard m P)
    (rooted : is_abs m.root ≡ true) (h : Host W) (k : P h.world) where
  below : (path : Text) {abs : Text} → checked m path h.world ≡ ok abs → IsReached m h.world abs
  unfolding checked
  below path e = safe_path-IsInside (λ q. m.fs.eval_symlinks q h.world) m.root path rooted e

  mkdir-guard : (path source : Text) → P (mkdir m path source h).1.world
  mkdir-guard path source = elim (Result-cases (checked m path h.world)) [
    | inr (x, e) ↦ subst P (sym (mkdir_refused-world m h path source e)) k
    | inl (abs, e) ↦
        subst P (sym (mkdir-world m h path source e))
          (guard.mkdir_all abs 0o755 h.world (below path e) k)
  ]

  remove_call :
      (recursive : Bool) (abs : Text)
      → IsReached m h.world abs
      → P (if recursive then m.fs.remove_all abs h.world else m.fs.remove_one abs h.world).1
  remove_call true abs b = guard.remove_all abs h.world b k
  remove_call false abs b = guard.remove_one abs h.world b k

  remove_path-guard :
      (path : Text) (recursive : Bool) (source : Text)
      → P (remove_path m path recursive source h).1.world
  remove_path-guard path recursive source = elim (Result-cases (checked m path h.world)) [
    | inr (x, e) ↦ subst P (sym (remove_path_refused-world m h path recursive source e)) k
    | inl (abs, e) ↦
        subst P (sym (remove_path-world m h path recursive source e))
          (remove_call recursive abs (below path e))
  ]

  write-guard : (path content source : Text) → P (write m path content source h).1.world
  write-guard path content source = elim (Result-cases (checked m path h.world)) [
    | inr (x, e) ↦ subst P (sym (write_refused-world m h path content source e)) k
    | inl (abs, e) ↦
        subst P (sym (write-world m h path content source e))
          (guard.write_file abs content 0o644 h.world (below path e) k)
  ]

  move-guard : (src dst source : Text) → P (move m src dst source h).1.world
  move-guard src dst source = elim (Result-cases (checked m src h.world)) [
    | inr (x, e) ↦ subst P (sym (move_refused_src-world m h src dst source e)) k
    | inl (a, e) ↦ elim (Result-cases (checked m dst h.world)) [
      | inr (x, d) ↦ subst P (sym (move_refused_dst-world m h src dst source e d)) k
      | inl (b, d) ↦
          subst P (sym (move-world m h src dst source e d))
            (guard.rename a b h.world (below src e) (below dst d) k)
    ]
  ]

  copy-guard : (src dst source : Text) → P (copy m src dst source h).1.world
  copy-guard src dst source = elim (Result-cases (checked m src h.world)) [
    | inr (x, e) ↦ subst P (sym (copy_refused_src-world m h src dst source e)) k
    | inl (a, e) ↦ elim (Result-cases (checked m dst h.world)) [
      | inr (x, d) ↦ subst P (sym (copy_refused_dst-world m h src dst source e d)) k
      | inl (b, d) ↦
          subst P (sym (copy-world m h src dst source e d))
            (guard.copy_file a b h.world (below src e) (below dst d) k)
    ]
  ]

-- Under an absolute root, a property of the files is kept by every request, where it is kept by the
-- calls of the file system at paths that are inside the root as the links are before the request: the
-- path is clean and at or below the root, and so is what its nearest existing ancestor resolves to.
pub run-guard :
    {W : Type 0} (m : Manager W) (P : W → Type 0)
    → IsGuard m P
    → is_abs m.root ≡ true
    → (r : Request) (source : Text) (h : Host W) → P h.world
    → P (run m r source h).1.world
unfolding run
run-guard m P g rooted (mkdir_req path) source h k = mkdir-guard m P g rooted h k path source
run-guard m P g rooted (remove_req path recursive) source h k =
    remove_path-guard m P g rooted h k path recursive source
run-guard m P g rooted (move_req src dst) source h k = move-guard m P g rooted h k src dst source
run-guard m P g rooted (copy_req src dst) source h k = copy-guard m P g rooted h k src dst source
run-guard m P g rooted (write_req path content) source h k =
    write-guard m P g rooted h k path content source
