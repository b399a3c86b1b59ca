-- ===== src/Console.antt =====
-- internal/cli/auth.go: the commands on API keys; internal/cli/agent.go: the keys of an agent that
-- starts. What the commands print is what they print with --json.
pub mod Validity
use mingyue_go.Base.{
  List, Option, Text, [], codes, drop, if◌then◌else◌, is_empty, leb, length, ltb, none, some, take,
  text_eq, ℕ, ◌%◌, ◌++◌, ◌+◌, ◌-◌, ◌/◌, ◌∷◌,
}
use mingyue_go.Errors.{
  OsError, Result, ok, err, Status, done, annotated, plain, lit, str, quoted, os,
}
use mingyue_go.Storage.{Files, WriteEnv}
use mingyue_go.Auth.{Role, viewer, operator, admin, unknown, Keys, register_api_key}
use mingyue_go.Auth.Keystore.{
  KeyEntry, Codec, Vault, token_of, load_key_store, save_key_entry, list_key_entries, revoke_key,
}

-- The bytes of a text in UTF-8.
abbrev pub rune_bytes : ℕ → List ℕ
rune_bytes c =
    if ltb c 0x80
    then c ∷ []
    else if ltb c 0x800
    then (0xC0 + c / 64) ∷ (0x80 + c % 64) ∷ []
    else if ltb c 0x10000
    then (0xE0 + c / 4096) ∷ (0x80 + c / 64 % 64) ∷ (0x80 + c % 64) ∷ []
    else (0xF0 + c / 262144) ∷ (0x80 + c / 4096 % 64) ∷ (0x80 + c / 64 % 64) ∷ (0x80 + c % 64) ∷ []

abbrev pub utf8 : Text → List ℕ
utf8 [] = []
utf8 (c ∷ s) = rune_bytes c ++ utf8 s

-- maskKey, which counts and cuts bytes
unfoldable pub mask_key : List ℕ → List ℕ
mask_key key =
    if leb (length key) 8
    then codes "****"
    else take 4 key ++ (codes "..." ++ drop (length key - 4) key)

abbrev pub hex_digit : ℕ → ℕ
hex_digit n = if ltb n 10 then b'0' + n else b'a' + (n - 10)

-- hex.EncodeToString
abbrev pub hex : List ℕ → Text
hex [] = []
hex (b ∷ bs) = hex_digit (b / 16) ∷ hex_digit (b % 16) ∷ hex bs

-- GenerateKey: rand.Read either fails or fills the buffer.
unfoldable pub generate_key : Option OsError → List ℕ → Result Text
generate_key read_error bytes = elim read_error [
  | some e ↦ err (annotated (lit "generate key" ∷ []) (os e))
  | none ↦ ok (hex bytes)
]

-- The flag --keystore, with its default.
unfoldable pub keystore_path : Text → Text
keystore_path flag = if is_empty flag then codes "/var/lib/mingyue/apikeys.json" else flag

-- auth.Role(role)
abbrev pub role_of : Text → Role
role_of s =
    if text_eq s (codes "viewer")
    then viewer
    else if text_eq s (codes "operator")
    then operator
    else if text_eq s (codes "admin")
    then admin
    else unknown s

-- What a command meets: the outcomes of reading and of writing the keystore, rand.Read with the
-- bytes, and time.Now.
pub record CommandEnv : Type 0 where
  pub read_error : Option OsError
  pub write : WriteEnv
  pub rand_error : Option OsError
  pub rand_bytes : List ℕ
  pub now : ℕ

module _ (codec : Codec) (env : CommandEnv) (flag : Text) where
  -- A new entry, and the end of newAuthKeygenCmd's RunE.
  abbrev pub new_entry : Text → Role → Text → KeyEntry
  new_entry key role subject = record {
    key = key;
    role = role;
    subject = subject;
    created_at = env.now;
  }

  abbrev pub keygen_saved : KeyEntry → Status × Vault → Result KeyEntry × Vault
  keygen_saved entry (r, v) = elim r [
    | err e ↦ (err (annotated (lit "save key" ∷ []) e), v)
    | ok _ ↦ (ok entry, v)
  ]

  abbrev pub keygen_with : Role → Text → Vault → Result KeyEntry × Vault
  keygen_with role subject v = elim (generate_key env.rand_error env.rand_bytes) [
    | err e ↦ (err e, v)
    | ok key ↦ keygen_saved (new_entry key role subject) (
        save_key_entry codec env.read_error env.write (keystore_path flag)
          (new_entry key role subject) v)
  ]

  -- newAuthKeygenCmd
  unfoldable pub auth_keygen : Text → Text → Vault → Result KeyEntry × Vault
  auth_keygen role subject v = elim (role_of role) [
    | unknown s ↦ (
      err (
          plain
            (lit "invalid role " ∷ quoted role ∷ lit ": must be viewer, operator, or admin" ∷ [])),
      v,
    )
    | r ↦ keygen_with r subject v
  ]

  -- newAuthRevokeCmd
  unfoldable pub auth_revoke : Text → Vault → Result (List ℕ) × Vault
  auth_revoke key v =
      let (r, w) = revoke_key codec env.read_error env.write (keystore_path flag) key v in
      elim r [ err e ↦ (err e, w) | ok _ ↦ (ok (mask_key (utf8 key)), w) ]

  -- The keys of a first start: where the entry cannot be saved, the key is registered all the same.
  abbrev pub initial_key : KeyEntry → Status × Vault → Vault
  initial_key entry (r, v) = elim r [
    | ok _ ↦ v
    | err e ↦ record v { keys = register_api_key entry.key (token_of entry) v.keys }
  ]

  -- newAgentStartCmd up to the discovery: the key that is printed at a first start.
  unfoldable pub agent_start_keys : Vault → Result (Option Text) × Vault
  agent_start_keys v =
      let (r, w) = load_key_store codec env.read_error (keystore_path flag) v in
      elim r [
        | err e ↦ (err (annotated (lit "load keystore " ∷ str (keystore_path flag) ∷ []) e), w)
        | ok es ↦
            if is_empty es
            then elim (generate_key env.rand_error env.rand_bytes) [
              | err e ↦ (err (annotated (lit "generate initial key" ∷ []) e), w)
              | ok key ↦
                  let entry = new_entry key admin (codes "initial-admin") in
                  (
                    ok (some key),
                    initial_key entry (
                        save_key_entry codec env.read_error env.write (keystore_path flag) entry w),
                  )
            ]
            else (ok none, w)
      ]

-- An entry as newAuthListCmd prints it.
pub record MaskedEntry : Type 0 where
  pub key : List ℕ
  pub role : Role
  pub subject : Text
  pub created_at : ℕ

abbrev pub masked : List KeyEntry → List MaskedEntry
masked [] = []
masked (e ∷ es) =
    record {
      key = mask_key (utf8 e.key);
      role = e.role;
      subject = e.subject;
      created_at = e.created_at;
    }
    ∷ masked es

-- newAuthListCmd
unfoldable pub auth_list : Codec → Option OsError → Text → Vault → Result (List MaskedEntry)
auth_list codec read_error flag v =
    elim (list_key_entries codec read_error (keystore_path flag) v) [
      | err e ↦ err e
      | ok es ↦ ok (masked es)
    ]
