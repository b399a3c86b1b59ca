-- ===== src/Auth/Keystore.antt =====
-- internal/auth/keystore.go: API keys in a JSON file, loaded into the in-memory store.
pub mod Atomic
pub mod Durable
pub mod Restart
use mingyue_go.Base.{
  List, Option, String, Text, [], any, false, if◌then◌else◌, is_empty, none, not, remove, select,
  some, text_eq, trim_space, ℕ, ◌++◌, ◌∷◌, ◌≡◌,
}
use mingyue_go.Errors.{
  GoError, OsError, annotated, plain, os, lit, str, Result, ok, err, Status, done,
}
use mingyue_go.Storage.{Files, set_file, WriteEnv, clean_up, rename_temp}
use mingyue_go.Path.{dir}
use mingyue_go.Auth.{Role, Token, Keys, register_api_key}

pub record KeyEntry : Type 0 where
  pub key : Text
  pub role : Role
  pub subject : Text
  pub created_at : ℕ

-- encoding/json on the list of entries: it does not fail on such values, is read back, and is
-- never blank. A Role is a string in the source, so `unknown s` stands for a string other than the
-- names of the three roles.
pub record Codec : Type 0 where
  pub encode : List KeyEntry → Text
  pub decode : Text → Option (List KeyEntry)
  pub decode-encode : (es : List KeyEntry) → decode (encode es) ≡ some es
  pub encode_not_blank : (es : List KeyEntry) → is_empty (trim_space (encode es)) ≡ false

-- The in-memory store and the files.
pub record Vault : Type 0 where
  pub keys : Keys
  pub files : Files

abbrev pub token_of : KeyEntry → Token
token_of e = record { raw = e.key; role = e.role; subject = e.subject }

abbrev pub register : KeyEntry → Keys → Keys
register e keys = register_api_key e.key (token_of e) keys

-- What os.ReadFile answers: `read_error` where the file is there and cannot be read.
unfoldable pub load_entries : Codec → Option OsError → Text → Files → Result (List KeyEntry)
load_entries codec read_error path files = elim (files path) [
  | none ↦ ok []
  | some f ↦ elim read_error [
    | some e ↦ err (annotated (lit "read keystore " ∷ str path ∷ []) (os e))
    | none ↦ if is_empty (trim_space f.content) then ok [] else elim (codec.decode f.content) [
      | none ↦ err (plain (lit "parse keystore " ∷ str path ∷ []))
      | some es ↦ ok es
    ]
  ]
]

abbrev failing : String → Text → OsError → GoError
failing what path e = annotated (lit what ∷ str path ∷ []) (os e)

-- writeEntries: os.CreateTemp makes the file with mode 0600, and the final chmod sets it again.
unfoldable pub write_entries : Codec → WriteEnv → Text → List KeyEntry → Files → Status × Files
write_entries codec env path es files = elim env.mkdir [
  | some e ↦ (err (failing "create keystore dir " (dir path) e), files)
  | none ↦ elim env.create [
    | some e ↦ (err (failing "create temp keystore in " (dir path) e), files)
    | none ↦
        let whole =
          set_file env.temp (some (record { content = codec.encode es; mode = 0o600 })) files in
        elim env.write [
          | some e ↦ (
            err (failing "write temp keystore " env.temp e),
            clean_up env
                (set_file env.temp (some (record { content = env.partial; mode = 0o600 })) files),
          )
          | none ↦ elim env.sync [
            | some e ↦ (err (failing "fsync temp keystore " env.temp e), clean_up env whole)
            | none ↦ elim env.close [
              | some e ↦ (err (failing "close temp keystore " env.temp e), clean_up env whole)
              | none ↦ elim env.rename [
                | some e ↦ (
                  err (
                      annotated
                        (lit "rename temp keystore " ∷ str env.temp ∷ lit " to " ∷ str path ∷ [])
                        (os e)),
                  clean_up env whole,
                )
                | none ↦ elim env.chmod [
                  | some e ↦ (err (failing "chmod keystore " path e), rename_temp env path whole)
                  | none ↦ (done, rename_temp env path whole)
                ]
              ]
            ]
          ]
        ]
  ]
]

-- `for _, e := range entries { RegisterAPIKey(…) }`
unfoldable pub register_all : List KeyEntry → Keys → Keys
register_all [] keys = keys
register_all (e ∷ es) keys = register_all es (register e keys)

-- LoadKeyStore
unfoldable pub load_key_store :
    Codec → Option OsError → Text → Vault → Result (List KeyEntry) × Vault
load_key_store codec read_error path v = elim (load_entries codec read_error path v.files) [
  | err e ↦ (err e, v)
  | ok es ↦ (ok es, record v { keys = register_all es v.keys })
]

abbrev pub registered : KeyEntry → Keys → Status × Files → Status × Vault
registered entry keys (r, files) = elim r [
  | err e ↦ (err e, record { keys = keys; files = files })
  | ok _ ↦ (done, record { keys = register entry keys; files = files })
]

-- SaveKeyEntry
unfoldable pub save_key_entry :
    Codec → Option OsError → WriteEnv → Text → KeyEntry → Vault → Status × Vault
save_key_entry codec read_error env path entry v =
    elim (load_entries codec read_error path v.files) [
      | err e ↦ (err e, v)
      | ok es ↦ registered entry v.keys (write_entries codec env path (es ++ entry ∷ []) v.files)
    ]

-- ListKeyEntries
unfoldable pub list_key_entries : Codec → Option OsError → Text → Vault → Result (List KeyEntry)
list_key_entries codec read_error path v = load_entries codec read_error path v.files

abbrev pub dropped : Text → Keys → Status × Files → Status × Vault
dropped key keys (r, files) = elim r [
  | err e ↦ (err e, record { keys = keys; files = files })
  | ok _ ↦ (done, record { keys = remove key keys; files = files })
]

-- RevokeKey
unfoldable pub revoke_key : Codec → Option OsError → WriteEnv → Text → Text → Vault → Status × Vault
revoke_key codec read_error env path key v = elim (load_entries codec read_error path v.files) [
  | err e ↦ (err e, v)
  | ok es ↦
      if not (any (λ (e : KeyEntry). text_eq e.key key) es)
      then (err (plain (lit "key not found in keystore" ∷ [])), v)
      else dropped key v.keys (
          write_entries codec env path (select (λ (e : KeyEntry). not (text_eq e.key key)) es)
            v.files)
]
