-- ===== src/Auth/Keystore/Atomic.antt =====
-- writeEntries of internal/auth/keystore.go: the keystore file after it.
use mingyue_go.Base.{List, Text, arith, inl, inr, some, text_eq_iff, text_eq_refl, ◌≡◌, ◌≢◌, ◌⊎◌}
use mingyue_go.Errors.{GoError, err, done}
use mingyue_go.Errors.Laws.{Result-cases}
use mingyue_go.Storage.{File, Files, WriteEnv}
use mingyue_go.Auth.Keystore.{KeyEntry, Codec, write_entries}

abbrev pub key_file : Codec → List KeyEntry → File
key_file codec es = record { content = codec.encode es; mode = 0o600 }

module _ (codec : Codec) (env : WriteEnv) (path : Text) (es : List KeyEntry) (files : Files)
    (apart : env.temp ≢ path) where
  pub write_entries_success :
      (write_entries codec env path es files).0 ≡ done
      → (write_entries codec env path es files).1 path ≡ some (key_file codec es)
  unfolding write_entries
  write_entries_success h =
      ground (arith, text_eq_iff env.temp path, text_eq_refl path, text_eq_refl env.temp)

  either :
      ((write_entries codec env path es files).1 path ≡ files path)
      ⊎ ((write_entries codec env path es files).1 path ≡ some (key_file codec es))
  unfolding write_entries
  either = ground (arith, text_eq_iff env.temp path, text_eq_refl path, text_eq_refl env.temp)

  -- Where the temporary file is not the keystore: whichever step fails, the keystore file is the
  -- old one or the whole new one with mode 0600, and after a success it is the new one.
  pub write_entries_atomic :
      (((write_entries codec env path es files).0 ≡ done)
        × ((write_entries codec env path es files).1 path ≡ some (key_file codec es)))
      ⊎ (((e : GoError) × ((write_entries codec env path es files).0 ≡ err e))
          × (((write_entries codec env path es files).1 path ≡ files path)
              ⊎ ((write_entries codec env path es files).1 path ≡ some (key_file codec es))))
  write_entries_atomic = elim (Result-cases (write_entries codec env path es files).0) [
    | inl (_, h) ↦ inl (h, write_entries_success h)
    | inr (e, h) ↦ inr ((e, h), either)
  ]

  -- Where the temporary file is not the keystore, no file but these two is touched.
  pub write_entries_frame :
      (q : Text) → path ≢ q → env.temp ≢ q → (write_entries codec env path es files).1 q ≡ files q
  unfolding write_entries
  write_entries_frame q h k = ground (arith, text_eq_iff env.temp q, text_eq_iff path q)
