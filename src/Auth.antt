-- ===== src/Auth.antt =====
-- internal/auth/auth.go: roles and the in-memory store of API keys.
pub mod Laws
pub mod Keystore
use mingyue_go.Base.{
  Bool, Dict, Text, [], if◌then◌else◌, insert, is_empty, leb, lookup, none, some, ℕ, ◌∷◌,
}
use mingyue_go.Errors.{Result, ok, err, app, unauthorized, lit}

-- The three named roles, and any other string (the empty one where a request has no role).
pub data Role : Type 0 where
  viewer operator admin : Role
  unknown : Text → Role

pub record Token : Type 0 where
  pub raw : Text
  pub role : Role
  pub subject : Text

-- roleOrder: a missing key reads as 0.
unfoldable pub role_order : Role → ℕ
role_order viewer = 1
role_order operator = 2
role_order admin = 3
role_order (unknown s) = 0

unfoldable pub has_role : Role → Role → Bool
unfolding role_order
has_role role minimum = leb (role_order minimum) (role_order role)

abbrev pub Keys : Type 0
Keys = Dict Token

unfoldable pub register_api_key : Text → Token → Keys → Keys
register_api_key key tok keys = insert key tok keys

unfoldable pub validate : Text → Keys → Result Role
validate token keys =
    if is_empty token
    then err (app unauthorized (lit "missing authentication token" ∷ []))
    else elim (lookup token keys) [
      | none ↦ err (app unauthorized (lit "invalid or unknown token" ∷ []))
      | some tok ↦ ok tok.role
    ]
