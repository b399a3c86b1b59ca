-- ===== src/Auth/Keystore/Durable.antt =====
-- internal/auth/keystore.go: the in-memory key store beside the keystore file.
use mingyue_go.Base.{
  Bool-cases, List, Option, Text, [], any, ap, arith, false, if◌then◌else◌, inl, inr, lookup,
  lookup-insert, lookup-remove, none, not, refl, remove, select, some, sym, text_eq, text_eq_iff,
  text_eq_refl, true, ◌++◌, ◌∙◌, ◌∷◌, ◌≡◌, ◌≢◌,
}
use mathlib.Core.Path.{subst}
use mingyue_go.Errors.{OsError, ok, err, done, GoError, Status}
use mingyue_go.Errors.Laws.{Result-cases}
use mingyue_go.Storage.{Files, WriteEnv}
use mingyue_go.Auth.{Token, Keys, register_api_key}
use mingyue_go.Auth.Keystore.{
  KeyEntry, Codec, Vault, token_of, register, load_entries, write_entries, register_all,
  save_key_entry, revoke_key, registered, dropped,
}
use mingyue_go.Auth.Keystore.Atomic.{key_file, write_entries_success}

lookup-register :
    (k : Text) (e : KeyEntry) (m : Keys)
    → lookup k (register e m) ≡ (if text_eq e.key k then some (token_of e) else lookup k m)
unfolding register_api_key
lookup-register k e m = lookup-insert e.key k (token_of e) m

register_all-append :
    (es : List KeyEntry) (e : KeyEntry) (m : Keys)
    → register_all (es ++ e ∷ []) m ≡ register e (register_all es m)
unfolding register_all
register_all-append [] e m = refl
register_all-append (x ∷ es) e m = register_all-append es e (register x m)

-- The entries without those of one key.
abbrev without : Text → List KeyEntry → List KeyEntry
without key es = select (λ (e : KeyEntry). not (text_eq e.key key)) es

register_all-without :
    (key k : Text) (es : List KeyEntry) (m n : Keys)
    → ((j : Text) → lookup j n ≡ (if text_eq key j then none else lookup j m))
    → lookup k (register_all (without key es) n)
      ≡ (if text_eq key k then none else lookup k (register_all es m))
unfolding register_all
register_all-without key k [] m n h = h k
register_all-without key k (e ∷ es) m n h = elim (Bool-cases (text_eq e.key key)) [
  | inl same ↦
      ap (λ l. lookup k (register_all l n)) (without_hit same)
      ∙ register_all-without key k es (register e m) n (λ j. h j ∙ sym (covered j same))
  | inr other ↦
      ap (λ l. lookup k (register_all l n)) (without_miss other)
      ∙ register_all-without key k es (register e m) (register e n) (λ j. kept j other)
]
  where
    without_hit : text_eq e.key key ≡ true → without key (e ∷ es) ≡ without key es
    without_hit same = rw (same, select) refl

    without_miss : text_eq e.key key ≡ false → without key (e ∷ es) ≡ e ∷ without key es
    without_miss other = rw (other, select) refl

    covered :
        (j : Text)
        → text_eq e.key key ≡ true
        → (if text_eq key j then none else lookup j (register e m))
          ≡ (if text_eq key j then none else lookup j m)
    covered j same = ground (
      arith,
      lookup-register j e m,
      text_eq_iff e.key key,
      text_eq_iff e.key j,
      text_eq_iff key j,
    )

    kept :
        (j : Text)
        → text_eq e.key key ≡ false
        → lookup j (register e n) ≡ (if text_eq key j then none else lookup j (register e m))
    kept j other = ground (
      arith,
      lookup-register j e m,
      lookup-register j e n,
      h j,
      text_eq_iff e.key key,
      text_eq_iff e.key j,
      text_eq_iff key j,
    )

-- A restart loads the keys that are in use: the file is read, and its entries, registered in an
-- empty store, give each key the token that it has now.
abbrev pub IsSynced : Codec → Text → Vault → Type 0
IsSynced codec path v =
    (es : List KeyEntry) × (load_entries codec none path v.files ≡ ok es)
    × ((k : Text) → lookup k v.keys ≡ lookup k (register_all es []))

load_written :
    (codec : Codec) (path : Text) (es : List KeyEntry) (files : Files)
    → files path ≡ some (key_file codec es)
    → load_entries codec none path files ≡ ok es
unfolding load_entries
load_written codec path es files h =
    ground (arith, codec.encode_not_blank es, codec.decode-encode es)

nothing : (key j : Text) → lookup {V = Token} j [] ≡ (if text_eq key j then none else lookup j [])
unfolding lookup
nothing key j = ground arith

err_not_done : {e : GoError} → ◌≡◌ {A = Status} (err e) done → ⊥
err_not_done h = cc

pub load_readable :
    (codec : Codec) (read_error : Option OsError) (path : Text) (files : Files) (es : List KeyEntry)
    → load_entries codec read_error path files ≡ ok es
    → load_entries codec none path files ≡ ok es
unfolding load_entries
load_readable codec read_error path files es h = ground arith

module _ (keys : Keys) (r : Status × Files) where
  registered-done :
      (entry : KeyEntry)
      → (registered entry keys r).0 ≡ done
      → (r.0 ≡ done)
        × ((registered entry keys r).1 ≡ record { keys = register entry keys; files = r.1 })
  registered-done entry h = ground arith

  dropped-done :
      (key : Text)
      → (dropped key keys r).0 ≡ done
      → (r.0 ≡ done) × ((dropped key keys r).1 ≡ record { keys = remove key keys; files = r.1 })
  dropped-done key h = ground arith

module _ (codec : Codec) (env : WriteEnv) (path : Text) (files : Files) (es : List KeyEntry)
    (apart : env.temp ≢ path) where
  -- What a successful write leaves is what a restart loads.
  load_after_write :
      (write_entries codec env path es files).0 ≡ done
      → load_entries codec none path (write_entries codec env path es files).1 ≡ ok es
  load_after_write h =
      load_written codec path es _ (write_entries_success codec env path es files apart h)

module _ (codec : Codec) (read_error : Option OsError) (env : WriteEnv) (path : Text) (v : Vault)
    (apart : env.temp ≢ path) (synced : IsSynced codec path v) where
  -- The entries that an operation read are those of the synchronised file.
  same_entries :
      (es : List KeyEntry) → load_entries codec read_error path v.files ≡ ok es → es ≡ synced.0
  same_entries es l =
      let e : ok es ≡ ok synced.0 =
        sym (load_readable codec read_error path v.files es l) ∙ synced.1 in
      cc

  save-IsSynced :
      (entry : KeyEntry) (es : List KeyEntry)
      → es ≡ synced.0
      → (registered entry v.keys (write_entries codec env path (es ++ entry ∷ []) v.files)).0 ≡ done
      → IsSynced codec path
          (registered entry v.keys (write_entries codec env path (es ++ entry ∷ []) v.files)).1
  save-IsSynced entry es same h =
      let (wrote, now) =
        registered-done v.keys (write_entries codec env path (es ++ entry ∷ []) v.files) entry h in
      subst (IsSynced codec path) (sym now) (
        es ++ entry ∷ [],
        load_after_write codec env path v.files (es ++ entry ∷ []) apart wrote,
        λ k.
            lookup-register k entry v.keys
            ∙ ap (λ o. if text_eq entry.key k then some (token_of entry) else o)
                (synced.2 k ∙ ap (λ l. lookup k (register_all l [])) (sym same))
            ∙ sym (
                ap (lookup k) (register_all-append es entry [])
                ∙ lookup-register k entry (register_all es [])),
      )

  -- After a successful save the store and the file agree again, if they did before.
  pub save_key_entry-IsSynced :
      (entry : KeyEntry)
      → (save_key_entry codec read_error env path entry v).0 ≡ done
      → IsSynced codec path (save_key_entry codec read_error env path entry v).1
  unfolding save_key_entry
  save_key_entry-IsSynced entry h =
      elim (Result-cases (load_entries codec read_error path v.files)) [
        | inr (e, l) ↦ rw (l, save_key_entry) (absurd (err_not_done (rw (l, save_key_entry) at h)))
        | inl (es, l) ↦
            rw (l, save_key_entry)
              (save-IsSynced entry es (same_entries es l) (rw (l, save_key_entry) at h))
      ]

  revoke-IsSynced :
      (key : Text) (es : List KeyEntry)
      → es ≡ synced.0
      → (dropped key v.keys (write_entries codec env path (without key es) v.files)).0 ≡ done
      → IsSynced codec path
          (dropped key v.keys (write_entries codec env path (without key es) v.files)).1
  revoke-IsSynced key es same h =
      let (wrote, now) =
        dropped-done v.keys (write_entries codec env path (without key es) v.files) key h in
      subst (IsSynced codec path) (sym now) (
        without key es,
        load_after_write codec env path v.files (without key es) apart wrote,
        λ k.
            lookup-remove key k v.keys
            ∙ ap (λ o. if text_eq key k then none else o)
                (synced.2 k ∙ ap (λ l. lookup k (register_all l [])) (sym same))
            ∙ sym (register_all-without key k es [] [] (λ j. nothing key j)),
      )

  -- After a successful revocation the store and the file agree again, if they did before.
  pub revoke_key-IsSynced :
      (key : Text)
      → (revoke_key codec read_error env path key v).0 ≡ done
      → IsSynced codec path (revoke_key codec read_error env path key v).1
  unfolding revoke_key
  revoke_key-IsSynced key h = elim (Result-cases (load_entries codec read_error path v.files)) [
    | inr (e, l) ↦ rw (l, revoke_key) (absurd (err_not_done (rw (l, revoke_key) at h)))
    | inl (es, l) ↦ elim (Bool-cases (any (λ (e : KeyEntry). text_eq e.key key) es)) [
      | inr m ↦ rw (l, revoke_key) (rw m (absurd (err_not_done (rw (l, revoke_key, m) at h))))
      | inl m ↦
          rw (l, revoke_key)
            (rw m (revoke-IsSynced key es (same_entries es l) (rw (l, revoke_key, m) at h)))
    ]
  ]

module _ (codec : Codec) (read_error : Option OsError) (env : WriteEnv) (path : Text)
    (v : Vault) where
  -- A successful save has registered the key.
  pub save_registers :
      (entry : KeyEntry)
      → (save_key_entry codec read_error env path entry v).0 ≡ done
      → lookup entry.key (save_key_entry codec read_error env path entry v).1.keys
        ≡ some (token_of entry)
  unfolding save_key_entry
  save_registers entry h = elim (Result-cases (load_entries codec read_error path v.files)) [
    | inr (e, l) ↦ absurd (err_not_done (rw (l, save_key_entry) at h))
    | inl (es, l) ↦
        rw (l, save_key_entry)
          (ap (λ (u : Vault). lookup entry.key u.keys)
              (registered-done v.keys (write_entries codec env path (es ++ entry ∷ []) v.files)
                entry (rw (l, save_key_entry) at h)).1
            ∙ lookup-register entry.key entry v.keys
            ∙ ap (λ b. if b then some (token_of entry) else lookup entry.key v.keys)
                (text_eq_refl entry.key))
  ]

  -- A successful revocation has removed the key.
  pub revoke_removes :
      (key : Text)
      → (revoke_key codec read_error env path key v).0 ≡ done
      → lookup key (revoke_key codec read_error env path key v).1.keys ≡ none
  unfolding revoke_key
  revoke_removes key h = elim (Result-cases (load_entries codec read_error path v.files)) [
    | inr (e, l) ↦ absurd (err_not_done (rw (l, revoke_key) at h))
    | inl (es, l) ↦ elim (Bool-cases (any (λ (e : KeyEntry). text_eq e.key key) es)) [
      | inr m ↦ absurd (err_not_done (rw (l, revoke_key, m) at h))
      | inl m ↦
          rw (l, revoke_key)
            (rw m (
              ap (λ (u : Vault). lookup key u.keys)
                (dropped-done v.keys (write_entries codec env path (without key es) v.files) key
                  (rw (l, revoke_key, m) at h)).1
              ∙ lookup-remove key key v.keys
              ∙ ap (λ b. if b then none else lookup key v.keys) (text_eq_refl key)))
    ]
  ]
