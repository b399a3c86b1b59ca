-- ===== src/Tests/Guards.antt =====
-- A handler behind the middleware, and the requests that reach it.
use mingyue_go.Base.{
  Text, [], arith, codes, lookup, none, some, text_eq, true, ℕ, ◌+◌, ◌∷◌, ◌≡◌, ◌≢◌,
}
use mingyue_go.Auth.{operator, admin, Token, Keys, has_role}
use mingyue_go.Middleware.{
  HttpRequest, status_only, Handler, extract_bearer_token, auth, require_role,
}
use mingyue_go.Middleware.Guards.{changed-registered}

abbrev pub keys : Keys
keys = (codes "k1", record { raw = codes "k1"; role = admin; subject = codes "cli" }) ∷ []

abbrev request : HttpRequest
request = record {
  method = codes "DELETE";
  path = codes "/api/v1/shares/media";
  escaped_path = codes "/api/v1/shares/media";
  query = λ key. [];
  body = [];
  remote_addr = codes "10.0.0.1:5000";
  authorization = codes "Bearer k1";
}

-- A handler that counts its calls.
abbrev counting : Handler ℕ Text
counting r role n = (status_only 204, n + 1)

counted : (auth keys (require_role operator counting) request none 0).1 ≢ 0
unfolding auth require_role text_eq lookup
counted e = omega arith

changed-registered_example :
    (tok : Token) × (lookup (extract_bearer_token request) keys ≡ some tok)
    × (has_role tok.role operator ≡ true)
changed-registered_example = changed-registered keys operator counting request none 0 counted
