-- ===== src/Mount/Fstab/Atomic.antt =====
-- atomicWriteFile of internal/service/disk/mount.go: the file after it.
use mingyue_go.Base.{Text, arith, inl, inr, some, text_eq_iff, text_eq_refl, ℕ, ◌≡◌, ◌≢◌, ◌⊎◌}
use mingyue_go.Errors.{GoError, err, done}
use mingyue_go.Errors.Laws.{Result-cases}
use mingyue_go.Storage.{Files, WriteEnv}
use mingyue_go.Mount.Fstab.{atomic_write_file}

module _ (env : WriteEnv) (path content : Text) (mode : ℕ) (files : Files)
    (apart : env.temp ≢ path) where
  written_whole :
      (atomic_write_file env path content mode files).0 ≡ done
      → (atomic_write_file env path content mode files).1 path
        ≡ some (record { content = content; mode = mode })
  unfolding atomic_write_file
  written_whole h =
      ground (arith, text_eq_iff env.temp path, text_eq_refl path, text_eq_refl env.temp)

  left_alone :
      (e : GoError)
      → (atomic_write_file env path content mode files).0 ≡ err e
      → (atomic_write_file env path content mode files).1 path ≡ files path
  unfolding atomic_write_file
  left_alone e h =
      ground (arith, text_eq_iff env.temp path, text_eq_refl path, text_eq_refl env.temp)

  -- Where the temporary file is not the file itself: after a success the file holds the whole new
  -- content with its mode; after an error, whichever step it comes from, the file is what it was.
  pub atomic_write_file_lem :
      (((atomic_write_file env path content mode files).0 ≡ done)
        × ((atomic_write_file env path content mode files).1 path
            ≡ some (record { content = content; mode = mode })))
      ⊎ (((e : GoError) × ((atomic_write_file env path content mode files).0 ≡ err e))
          × ((atomic_write_file env path content mode files).1 path ≡ files path))
  atomic_write_file_lem = elim (Result-cases (atomic_write_file env path content mode files).0) [
    | inl (_, h) ↦ inl (h, written_whole h)
    | inr (e, h) ↦ inr ((e, h), left_alone e h)
  ]
