-- ===== src/Middleware/Guards.antt =====
-- Handlers behind the middleware of internal/api/middleware.
use mingyue_go.Base.{
  Bool-cases, List, Option, Text, [], ap, arith, if◌then◌else◌, inl, inr, lookup, none, refl, some,
  true, ℕ, ◌++◌, ◌∙◌, ◌∷◌, ◌≡◌, ◌≢◌,
}
use mingyue_go.Errors.{Result, ok, err}
use mingyue_go.Errors.Laws.{Result-cases}
use mingyue_go.Audit.{AuditEvent, stamp}
use mingyue_go.Auth.{Role, Token, Keys, has_role, validate}
use mingyue_go.Auth.Laws.{validate_ok}
use mingyue_go.Middleware.{
  HttpRequest, error_reply, Handler, reply_status, extract_bearer_token, authentication_required,
  insufficient_permissions, auth, require_role, is_mutating_method, http_event, audit_with_logger,
}

-- What a guarded handler is meant to do: the role of the token decides.
abbrev pub by_role : {S B : Type 0} → Result Role → Role → Handler S B → Handler S B
by_role found minimum next r context s = elim found [
  | err e ↦ (error_reply authentication_required, s)
  | ok role ↦
      if has_role role minimum
      then next r (some role) s
      else (error_reply insufficient_permissions, s)
]

-- A handler behind Auth and RequireRole runs exactly where the bearer token is a registered key
-- whose role meets the minimum, and gets that role; else the state is unchanged and the answer is
-- 401 for a bad token and 403 for a role that is too low.
pub auth-require_role :
    {S B : Type 0} (keys : Keys) (minimum : Role) (next : Handler S B) (r : HttpRequest)
    (context : Option Role) (s : S)
    → auth keys (require_role minimum next) r context s
      ≡ by_role (validate (extract_bearer_token r) keys) minimum next r context s
unfolding auth require_role
auth-require_role keys minimum next r context s = ground arith

-- A guarded handler that changed the state was called with a registered token whose role meets the
-- minimum.
pub changed-registered :
    {S B : Type 0} (keys : Keys) (minimum : Role) (next : Handler S B) (r : HttpRequest)
    (context : Option Role) (s : S)
    → (auth keys (require_role minimum next) r context s).1 ≢ s
    → (tok : Token) × (lookup (extract_bearer_token r) keys ≡ some tok)
      × (has_role tok.role minimum ≡ true)
changed-registered keys minimum next r context s h =
    elim (Result-cases (validate (extract_bearer_token r) keys)) [
      | inr (e, v) ↦
          absurd (h (ap (λ q. q.1) (auth-require_role keys minimum next r context s) ∙ rw v refl))
      | inl (role, v) ↦ elim (Bool-cases (has_role role minimum)) [
        | inr low ↦
            absurd (
              h (
                ap (λ q. q.1) (auth-require_role keys minimum next r context s) ∙ rw (v, low) refl))
        | inl high ↦
            let (tok, found, same) = validate_ok (extract_bearer_token r) keys v in
            (tok, found, rw same high)
      ]
    ]

-- The audit middleware changes neither the answer nor the handler's state; it logs one event with
-- the status of the answer for each mutating request that is answered, and nothing for a request
-- that is not mutating or whose handler panics.
pub audit_with_logger_lem :
    {S B : Type 0} (digits : ℕ → Text) (start now : ℕ) (next : Handler S B) (r : HttpRequest)
    (context : Option Role) (s : S) (lines : List AuditEvent)
    → ((audit_with_logger digits start now next r context (s, lines)).0 ≡ (next r context s).0)
      × ((audit_with_logger digits start now next r context (s, lines)).1.0 ≡ (next r context s).1)
      × ((audit_with_logger digits start now next r context (s, lines)).1.1 ≡ (
          if is_mutating_method r.method
          then elim (reply_status (next r context s).0) [
            | none ↦ lines
            | some status ↦ lines ++ stamp now (http_event digits start r status) ∷ []
          ]
          else lines))
unfolding audit_with_logger
audit_with_logger_lem digits start now next r context s lines = ground arith
