-- ===== src/Tests/Keys.antt =====
-- The keystore with one key in the store, and what follows for a second one.
use mingyue_go.Base.{
  Text, [], arith, codes, none, refl, some, text_eq, trim_space, true, ◌∷◌, ◌≡◌, ◌≢◌, ◌⊎◌,
}
use mingyue_go.Errors.{GoError, ok, err, done}
use mingyue_go.Storage.{Files, WriteEnv}
use mingyue_go.Auth.{admin, viewer, validate}
use mingyue_go.Auth.Keystore.{
  KeyEntry, Vault, register_all, load_entries, write_entries, save_key_entry, revoke_key,
}
use mingyue_go.Auth.Keystore.Atomic.{key_file, write_entries_atomic}
use mingyue_go.Auth.Keystore.Durable.{IsSynced, save_key_entry-IsSynced}
use mingyue_go.Auth.Keystore.Restart.{
  restart, unknown_token, saved_key_is_valid, revoked_key_is_refused,
}
use mingyue_go.Tests.Codecs.{key_codec}

abbrev pub store_path : Text
store_path = codes "/etc/keys.json"

-- Every step of a write works.
abbrev pub calm : WriteEnv
calm = record {
  temp = codes "/etc/.keystore-1";
  mkdir = none;
  create = none;
  chmod = none;
  write = none;
  partial = [];
  sync = none;
  close = none;
  rename = none;
  removes = true;
}

abbrev pub entry : KeyEntry
entry = record { key = codes "k1"; role = admin; subject = codes "cli"; created_at = 1 }

abbrev next_entry : KeyEntry
next_entry = record { key = codes "k2"; role = viewer; subject = codes "web"; created_at = 2 }

abbrev no_files : Files
no_files q = none

abbrev empty_vault : Vault
empty_vault = record { keys = []; files = no_files }

-- The vault after one save.
abbrev pub vault : Vault
vault = (save_key_entry key_codec none calm store_path entry empty_vault).1

apart : calm.temp ≢ store_path
apart e = ground arith

empty-IsSynced : IsSynced key_codec store_path empty_vault
unfolding load_entries register_all
empty-IsSynced = ([], refl, λ k. refl)

saved : (save_key_entry key_codec none calm store_path entry empty_vault).0 ≡ done
unfolding save_key_entry load_entries write_entries
saved = refl

vault-IsSynced : IsSynced key_codec store_path vault
vault-IsSynced =
    save_key_entry-IsSynced key_codec none calm store_path empty_vault apart empty-IsSynced entry
      saved

saved_key_is_valid_example :
    (validate entry.key (save_key_entry key_codec none calm store_path entry empty_vault).1.keys
      ≡ ok admin)
    × (validate entry.key
          (restart key_codec store_path
            (save_key_entry key_codec none calm store_path entry empty_vault).1).keys
        ≡ ok admin)
saved_key_is_valid_example =
    saved_key_is_valid key_codec none calm store_path empty_vault apart empty-IsSynced entry
      (λ e. cc) saved

revoked : (revoke_key key_codec none calm store_path entry.key vault).0 ≡ done
unfolding revoke_key save_key_entry load_entries write_entries key_codec text_eq trim_space
revoked = refl

revoked_key_is_refused_example :
    (validate entry.key (revoke_key key_codec none calm store_path entry.key vault).1.keys
      ≡ err unknown_token)
    × (validate entry.key
          (restart key_codec store_path
            (revoke_key key_codec none calm store_path entry.key vault).1).keys
        ≡ err unknown_token)
revoked_key_is_refused_example =
    revoked_key_is_refused key_codec none calm store_path vault apart vault-IsSynced entry.key
      (λ e. cc) revoked

write_entries_atomic_example :
    (((write_entries key_codec calm store_path (entry ∷ []) no_files).0 ≡ done)
      × ((write_entries key_codec calm store_path (entry ∷ []) no_files).1 store_path
          ≡ some (key_file key_codec (entry ∷ []))))
    ⊎ (((e : GoError) × ((write_entries key_codec calm store_path (entry ∷ []) no_files).0 ≡ err e))
        × (((write_entries key_codec calm store_path (entry ∷ []) no_files).1 store_path ≡ none)
            ⊎ ((write_entries key_codec calm store_path (entry ∷ []) no_files).1 store_path
                ≡ some (key_file key_codec (entry ∷ [])))))
write_entries_atomic_example =
    write_entries_atomic key_codec calm store_path (entry ∷ []) no_files apart
