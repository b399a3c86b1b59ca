-- ===== src/Tests/Consoles.antt =====
-- The commands on API keys, a first start of the agent, and three datagrams.
use mingyue_go.Base.{
  Option, Text, [], arith, codes, insert, lookup, none, refl, some, text_eq, trim_space, ◌∷◌, ◌≡◌,
}
use mingyue_go.Errors.{ok}
use mingyue_go.Auth.{admin, validate}
use mingyue_go.Auth.Keystore.{
  Vault, load_entries, write_entries, load_key_store, save_key_entry, revoke_key,
}
use mingyue_go.Console.{
  CommandEnv, keystore_path, mask_key, auth_revoke, agent_start_keys, generate_key,
}
use mingyue_go.Console.Validity.{mask_key_shows, agent_start_keys-validate}
use mingyue_go.Discovery.{AgentInfo, expired, Socket, is_seen, collect, browse}
use mingyue_go.Discovery.Unique.{heard, firsts, browse-firsts}
use mingyue_go.Tests.Codecs.{key_codec}
use mingyue_go.Tests.Keys.{store_path, calm, entry, vault}

abbrev env : CommandEnv
env = record {
  read_error = none;
  write = calm;
  rand_error = none;
  rand_bytes = 0x1f ∷ 0xa0 ∷ [];
  now = 7;
}

mask_key_shows_example :
    (mask_key (codes "abcd12wxyz") ≡ codes "abcd...wxyz") × (mask_key (codes "abcd") ≡ codes "****")
mask_key_shows_example =
    mask_key_shows (codes "abcd") (codes "12") (codes "wxyz") (codes "abcd") refl refl (λ e. cc)
      (omega arith)

-- The key is taken out of the file, and only its mask is shown.
revoked_shows : (auth_revoke key_codec env store_path entry.key vault).0 ≡ ok (codes "****")
unfolding auth_revoke keystore_path mask_key revoke_key save_key_entry load_entries write_entries
    key_codec text_eq trim_space
revoked_shows = refl

-- Nothing is there before a first start.
abbrev nothing_yet : Vault
nothing_yet = record { keys = []; files = λ q. none }

start_prints : (agent_start_keys key_codec env store_path nothing_yet).0 ≡ ok (some (codes "1fa0"))
unfolding agent_start_keys keystore_path generate_key load_key_store load_entries
start_prints = refl

agent_start_keys-validate_example :
    validate (codes "1fa0") (agent_start_keys key_codec env store_path nothing_yet).1.keys
    ≡ ok admin
agent_start_keys-validate_example =
    agent_start_keys-validate key_codec env store_path (codes "1fa0") nothing_yet (λ e. cc)
      start_prints

-- A datagram is a host name, and an empty one cannot be decoded.
decode : Text → Option AgentInfo
decode [] = none
decode (c ∷ s) = some (record { hostname = c ∷ s; addr = codes ":7070"; version = codes "1" })

abbrev socket : Socket
socket = record {
  listen = none;
  set_deadline = none;
  datagrams = codes "nas" ∷ [] ∷ codes "nas" ∷ codes "pi" ∷ [];
  end = expired;
}

browse-firsts_example : browse decode socket ≡ ok (firsts (heard decode socket.datagrams))
browse-firsts_example = browse-firsts decode socket refl refl refl

-- The second `nas` is left out.
browse_once :
    browse decode socket
    ≡ ok (
        record { hostname = codes "nas"; addr = codes ":7070"; version = codes "1" }
        ∷ record { hostname = codes "pi"; addr = codes ":7070"; version = codes "1" }
        ∷ [])
unfolding browse collect decode is_seen text_eq lookup insert
browse_once = refl
