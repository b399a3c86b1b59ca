-- ===== src/Auth/Laws.antt =====
-- internal/auth/auth.go: the order of roles, and registered keys.
use mingyue_go.Base.{
  Option-cases, Text, [], arith, if◌then◌else◌, lookup, lookup-insert, some, text_eq, text_eq_iff,
  true, ◌↔◌, ◌∷◌, ◌≡◌, ◌≢◌, ◌⊎◌,
}
use mingyue_go.Errors.{ok}
use mingyue_go.Auth.{Role, operator, admin, Token, Keys, has_role, register_api_key, validate}

-- Whoever meets a role meets each role that it meets.
pub has_role_trans :
    (a b c : Role) → has_role a b ≡ true → has_role b c ≡ true → has_role a c ≡ true
unfolding has_role
has_role_trans a b c h k = ground arith

-- The role of an operation that needs an operator: exactly operators and administrators meet it.
pub has_role-operator : (a : Role) → (has_role a operator ≡ true) ↔ ((a ≡ operator) ⊎ (a ≡ admin))
unfolding has_role
has_role-operator a = ground arith

-- After the registration of a key that is not empty, the key is valid with its new role, and every
-- other key is as before.
pub validate-register_api_key :
    (k j : Text) (tok : Token) (keys : Keys)
    → k ≢ []
    → validate j (register_api_key k tok keys)
      ≡ (if text_eq k j then ok tok.role else validate j keys)
unfolding validate register_api_key
validate-register_api_key k [] tok keys h = ground (arith, text_eq_iff k [])
validate-register_api_key k (c ∷ j) tok keys h = ground (arith, lookup-insert k (c ∷ j) tok keys)

-- Only a registered key is valid, and with the role that it was registered with.
pub validate_ok :
    (token : Text) (keys : Keys) {r : Role}
    → validate token keys ≡ ok r
    → (tok : Token) × (lookup token keys ≡ some tok) × (tok.role ≡ r)
unfolding validate
validate_ok token keys h = ground (arith, Option-cases (lookup token keys))
