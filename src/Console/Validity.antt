-- ===== src/Console/Validity.antt =====
-- internal/cli/auth.go and internal/cli/agent.go: which keys are valid after the commands.
use mingyue_go.Base.{
  List, Text, [], ap, append_assoc, arith, codes, drop, false, inl, inr, leb, length, length-append,
  lookup, lookup-insert, refl, some, sym, take, text_eq_refl, ℕ, ◌++◌, ◌-◌, ◌∙◌, ◌∷◌, ◌≡◌, ◌≢◌, ◌≤◌,
}
use mingyue_go.Errors.{ok}
use mingyue_go.Errors.Laws.{Result-cases}
use mingyue_go.Auth.{Token, Keys, admin, validate, register_api_key}
use mingyue_go.Auth.Keystore.{KeyEntry, Codec, Vault, load_key_store, save_key_entry}
use mingyue_go.Auth.Keystore.Durable.{save_registers}
use mingyue_go.Auth.Keystore.Restart.{accepted}
use mingyue_go.Console.{
  CommandEnv, keystore_path, mask_key, new_entry, agent_start_keys, generate_key, initial_key,
}

take-append : (xs ys : List ℕ) → take (length xs) (xs ++ ys) ≡ xs
take-append [] ys = refl
take-append (x ∷ xs) ys = ap (λ l. x ∷ l) (take-append xs ys)

drop-append : (xs ys : List ℕ) → drop (length xs) (xs ++ ys) ≡ ys
drop-append [] ys = refl
drop-append (x ∷ xs) ys = drop-append xs ys

-- The end of a text, which maskKey counts from the back.
drop_back :
    (first middle last : List ℕ)
    → length last ≡ 4
    → drop (length (first ++ (middle ++ last)) - 4) (first ++ (middle ++ last)) ≡ last
drop_back first middle last h =
    ap (λ n. drop n (first ++ (middle ++ last))) back
    ∙ ap (drop (length (first ++ middle))) (sym (append_assoc first middle last))
    ∙ drop-append (first ++ middle) last
  where
    back : length (first ++ (middle ++ last)) - 4 ≡ length (first ++ middle)
    back = omega (
      arith,
      h,
      length-append first (middle ++ last),
      length-append middle last,
      length-append first middle,
    )

mask_key_shown :
    (first middle last : List ℕ)
    → length first ≡ 4
    → length last ≡ 4
    → middle ≢ []
    → mask_key (first ++ (middle ++ last)) ≡ first ++ (codes "..." ++ last)
unfolding mask_key
mask_key_shown first [] last hf hl some_middle = absurd (some_middle refl)
mask_key_shown first (c ∷ middle) last hf hl some_middle =
    rw (long, mask_key)
      (ap
          (λ l.
            l
            ++ (codes "..."
                ++ drop (length (first ++ (c ∷ (middle ++ last))) - 4)
                    (first ++ (c ∷ (middle ++ last)))))
          (ap (λ n. take n (first ++ (c ∷ (middle ++ last)))) (sym hf)
            ∙ take-append first (c ∷ (middle ++ last)))
        ∙ ap (λ l. first ++ (codes "..." ++ l)) (drop_back first (c ∷ middle) last hl))
  where
    long : leb (length (first ++ (c ∷ (middle ++ last)))) 8 ≡ false
    long = ground (arith, length-append first (c ∷ (middle ++ last)), length-append middle last)

-- Of a key of more than eight bytes, maskKey shows the first four bytes, three dots and the last four
-- bytes, so nothing of what is between them, its length included; of a key of at most eight bytes
-- it shows nothing.
pub mask_key_shows :
    (first middle last short : List ℕ)
    → length first ≡ 4
    → length last ≡ 4
    → middle ≢ []
    → length short ≤ 8
    → (mask_key (first ++ (middle ++ last)) ≡ first ++ (codes "..." ++ last))
      × (mask_key short ≡ codes "****")
unfolding mask_key
mask_key_shows first middle last short hf hl some_middle hs =
    (mask_key_shown first middle last hf hl some_middle, ground arith)

lookup-register_api_key :
    (key : Text) (tok : Token) (keys : Keys) → lookup key (register_api_key key tok keys) ≡ some tok
unfolding register_api_key
lookup-register_api_key key tok keys =
    ground (arith, lookup-insert key key tok keys, text_eq_refl key)

module _ (codec : Codec) (env : CommandEnv) (flag : Text) where
  initial_key-validate :
      (entry : KeyEntry) (v : Vault)
      → entry.key ≢ []
      → validate entry.key
          (initial_key codec env flag entry
            (save_key_entry codec env.read_error env.write (keystore_path flag) entry v)).keys
        ≡ ok entry.role
  initial_key-validate entry v some_key =
      elim (Result-cases
        (save_key_entry codec env.read_error env.write (keystore_path flag) entry v).0) [
          | inl (u, s) ↦ rw s (
              accepted entry _ some_key
                (save_registers codec env.read_error env.write (keystore_path flag) v entry s))
          | inr (e, s) ↦ rw s (accepted entry _ some_key (lookup-register_api_key _ _ _))
        ]

  abbrev initial_entry : Text → KeyEntry
  initial_entry key = new_entry codec env flag key admin (codes "initial-admin")

  start_saves :
      (key : Text) (v : Vault)
      → (agent_start_keys codec env flag v).0 ≡ ok (some key)
      → (agent_start_keys codec env flag v).1
        ≡ initial_key codec env flag (initial_entry key) (
            save_key_entry codec env.read_error env.write
              (keystore_path flag)
              (initial_entry key)
              (load_key_store codec env.read_error (keystore_path flag) v).1)
  unfolding agent_start_keys
  start_saves key v h = ground (
    arith,
    Result-cases (load_key_store codec env.read_error (keystore_path flag) v).0,
    Result-cases (generate_key env.rand_error env.rand_bytes),
  )

  -- An agent whose start prints a key that is not empty accepts that key as an administrator's,
  -- whether or not the keystore could be written.
  pub agent_start_keys-validate :
      (key : Text) (v : Vault)
      → key ≢ []
      → (agent_start_keys codec env flag v).0 ≡ ok (some key)
      → validate key (agent_start_keys codec env flag v).1.keys ≡ ok admin
  agent_start_keys-validate key v some_key h =
      ap (λ (w : Vault). validate key w.keys) (start_saves key v h)
      ∙ initial_key-validate (initial_entry key)
          (load_key_store codec env.read_error (keystore_path flag) v).1 some_key
