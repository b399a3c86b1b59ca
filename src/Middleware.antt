-- ===== src/Middleware.antt =====
-- internal/api/middleware/auth.go and audit.go: what stands between a request and its handler.
pub mod Guards
use mingyue_go.Base.{
  Bool, List, Option, Text, [], codes, has_prefix, if◌then◌else◌, leb, none, not, some, text_eq,
  trim_prefix, ℕ, ◌++◌, ◌||◌, ◌∷◌,
}
use mingyue_go.Errors.{
  ErrorCode, unauthorized, forbidden, lit, Message, ErrorResponse, Result, ok, err,
}
use mingyue_go.Audit.{AuditEvent, log, success, failure}
use mingyue_go.Auth.{Role, unknown, Keys, has_role, validate}

-- The parts of a request that the program reads: r.URL.Path and r.URL.EscapedPath(), the first
-- value of a query parameter, the header Authorization ("" where it or a parameter is missing), and
-- the body.
pub record HttpRequest : Type 0 where
  pub method : Text
  pub path : Text
  pub escaped_path : Text
  pub query : Text → Text
  pub remote_addr : Text
  pub authorization : Text
  pub body : Text

-- What a handler answers: an error as JSON, the text of http.Error, a status alone, a status with
-- a body, or nothing, where it panics.
pub data Reply (B : Type 0) : Type 0 where
  error_reply : ErrorResponse → Reply B
  text_reply : ℕ → Text → Reply B
  status_only : ℕ → Reply B
  reply : ℕ → B → Reply B
  aborted : Reply B

-- A handler over the program's state `S`: it gets the role of the request's context, none where
-- there is none.
abbrev pub Handler : Type 0 → Type 0 → Type 0
Handler S B = HttpRequest → Option Role → S → Reply B × S

abbrev pub reply_status : {B : Type 0} → Reply B → Option ℕ
reply_status (error_reply r) = some r.status
reply_status (text_reply status text) = some status
reply_status (status_only status) = some status
reply_status (reply status body) = some status
reply_status aborted = none

abbrev bearer : Text
bearer = codes "Bearer "

-- extractBearerToken
unfoldable pub extract_bearer_token : HttpRequest → Text
unfolding has_prefix trim_prefix
extract_bearer_token r =
    if not (has_prefix r.authorization bearer) then [] else trim_prefix r.authorization bearer

abbrev pub authentication_required : ErrorResponse
authentication_required = record {
  status = 401;
  body_code = unauthorized;
  body_message = lit "authentication required" ∷ [];
}

abbrev pub insufficient_permissions : ErrorResponse
insufficient_permissions = record {
  status = 403;
  body_code = forbidden;
  body_message = lit "insufficient permissions" ∷ [];
}

-- RoleFromContext, and the assertion in RequireRole: "" where the context has no role.
abbrev pub role_from_context : Option Role → Role
role_from_context none = unknown []
role_from_context (some role) = role

module _ {S B : Type 0} where
  -- Auth, over the keys that are registered
  unfoldable pub auth : Keys → Handler S B → Handler S B
  unfolding extract_bearer_token validate
  auth keys next r role s = elim (validate (extract_bearer_token r) keys) [
    | err e ↦ (error_reply authentication_required, s)
    | ok found ↦ next r (some found) s
  ]

  -- RequireRole
  unfoldable pub require_role : Role → Handler S B → Handler S B
  unfolding has_role
  require_role minimum next r role s =
      if not (has_role (role_from_context role) minimum)
      then (error_reply insufficient_permissions, s)
      else next r role s

-- isMutatingMethod
unfoldable pub is_mutating_method : Text → Bool
is_mutating_method method =
    text_eq method (codes "POST")
    || text_eq method (codes "PUT")
    || text_eq method (codes "PATCH")
    || text_eq method (codes "DELETE")

-- fmt.Sprintf("HTTP_%d", status), by the decimal digits of the status
abbrev pub http_code : (ℕ → Text) → ℕ → Text
http_code digits status = codes "HTTP_" ++ digits status

-- The event of a request that was answered with `status` and began at `start`.
abbrev pub http_event : (ℕ → Text) → ℕ → HttpRequest → ℕ → AuditEvent
http_event digits start r status = record {
  time = start;
  source = r.remote_addr;
  action = r.method ++ (codes " " ++ r.path);
  target = r.path;
  result = if leb 400 status then failure else success;
  error_code = if leb 400 status then http_code digits status else [];
  http_status = status;
}

-- AuditWithLogger: the state of the handler and the events that were handed to Log, with the time that
-- Log gives them; the error that Log returns is ignored, so a line may be missing in the file. `start` and `now` are
-- the times before the handler and of the logger; `digits` is strconv.Itoa. A panic of the handler
-- passes by the logger.
unfoldable pub audit_with_logger :
    {S B : Type 0} → (ℕ → Text) → ℕ → ℕ → Handler S B → Handler (S × List AuditEvent) B
unfolding is_mutating_method log
audit_with_logger digits start now next r role (s, lines) =
    let (answer, s') = next r role s in
    if not (is_mutating_method r.method)
    then (answer, (s', lines))
    else elim (reply_status answer) [
      | none ↦ (answer, (s', lines))
      | some status ↦ (answer, (s', log now (http_event digits start r status) lines))
    ]
