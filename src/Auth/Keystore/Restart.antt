-- ===== src/Auth/Keystore/Restart.antt =====
-- internal/auth: tokens across a restart of the agent.
use mingyue_go.Base.{
  List, Option, Text, [], ap, arith, lookup, none, refl, some, sym, ◌∙◌, ◌∷◌, ◌≡◌, ◌≢◌,
}
use mingyue_go.Errors.{OsError, ok, err, done, GoError, app, unauthorized, lit}
use mingyue_go.Storage.{WriteEnv}
use mingyue_go.Auth.{Keys, validate}
use mingyue_go.Auth.Keystore.{
  KeyEntry, Codec, Vault, load_entries, token_of, register_all, load_key_store, save_key_entry,
  revoke_key,
}
use mingyue_go.Auth.Keystore.Durable.{
  IsSynced, save_key_entry-IsSynced, revoke_key-IsSynced, save_registers, revoke_removes,
}

-- The agent stops, and a new process loads the keystore file into an empty store.
unfoldable pub restart : Codec → Text → Vault → Vault
restart codec path v = (load_key_store codec none path (record v { keys = [] })).1

restart_keys :
    (codec : Codec) (path : Text) (v : Vault) (es : List KeyEntry)
    → load_entries codec none path v.files ≡ ok es
    → (restart codec path v).keys ≡ register_all es []
unfolding restart load_key_store
restart_keys codec path v es l = ground (arith, l)

validate-lookup :
    (token : Text) (a b : Keys)
    → lookup token a ≡ lookup token b
    → validate token a ≡ validate token b
unfolding validate
validate-lookup token a b h = rw h refl

-- Where the store and the keystore file agree, a restart changes the answer for no token.
pub validate-restart :
    (codec : Codec) (path : Text) (v : Vault) (token : Text)
    → IsSynced codec path v
    → validate token (restart codec path v).keys ≡ validate token v.keys
validate-restart codec path v token (es, l, same) =
    validate-lookup token _ _
      (ap (lookup token) (restart_keys codec path v es l) ∙ sym (same token))

abbrev pub unknown_token : GoError
unknown_token = app unauthorized (lit "invalid or unknown token" ∷ [])

pub accepted :
    (entry : KeyEntry) (keys : Keys)
    → entry.key ≢ []
    → lookup entry.key keys ≡ some (token_of entry)
    → validate entry.key keys ≡ ok entry.role
unfolding validate
accepted entry keys some_key e = ground (arith)

refused :
    (key : Text) (keys : Keys)
    → key ≢ []
    → lookup key keys ≡ none
    → validate key keys ≡ err unknown_token
unfolding validate
refused key keys some_key e = ground (arith)

module _ (codec : Codec) (read_error : Option OsError) (env : WriteEnv) (path : Text) (v : Vault)
    (apart : env.temp ≢ path) (synced : IsSynced codec path v) where
  -- From a store that agrees with its file, and with a temporary file of another name: a key that
  -- is not empty and was saved is valid with its role, now and after a restart.
  pub saved_key_is_valid :
      (entry : KeyEntry)
      → entry.key ≢ []
      → (save_key_entry codec read_error env path entry v).0 ≡ done
      → (validate entry.key (save_key_entry codec read_error env path entry v).1.keys
          ≡ ok entry.role)
        × (validate entry.key
              (restart codec path (save_key_entry codec read_error env path entry v).1).keys
            ≡ ok entry.role)
  saved_key_is_valid entry some_key h =
      let now : validate entry.key (save_key_entry codec read_error env path entry v).1.keys
          ≡ ok entry.role =
        accepted entry (save_key_entry codec read_error env path entry v).1.keys some_key
          (save_registers codec read_error env path v entry h) in
      (
        now,
        validate-restart codec path _ entry.key
              (save_key_entry-IsSynced codec read_error env path v apart synced entry h)
            ∙ now,
      )

  -- From a store that agrees with its file, and with a temporary file of another name: a key that
  -- is not empty and was revoked is refused, now and after a restart.
  pub revoked_key_is_refused :
      (key : Text)
      → key ≢ []
      → (revoke_key codec read_error env path key v).0 ≡ done
      → (validate key (revoke_key codec read_error env path key v).1.keys ≡ err unknown_token)
        × (validate key (restart codec path (revoke_key codec read_error env path key v).1).keys
            ≡ err unknown_token)
  revoked_key_is_refused key some_key h =
      let now : validate key (revoke_key codec read_error env path key v).1.keys
          ≡ err unknown_token =
        refused key (revoke_key codec read_error env path key v).1.keys some_key
          (revoke_removes codec read_error env path v key h) in
      (
        now,
        validate-restart codec path _ key
              (revoke_key-IsSynced codec read_error env path v apart synced key h)
            ∙ now,
      )
