-- ===== src/Errors/Laws.antt =====
-- What clients see of an error (internal/errors/errors.go, internal/api/errors.go).
use mingyue_go.Base.{Option-cases, arith, inl, inr, refl, some, true, ◌<◌, ◌≡◌, ◌≤◌, ◌⊎◌}
use mingyue_go.Errors.{
  Result, ok, err, ErrorCode, GoError, app, wrapped, annotated, plain, os, Message, as_app,
  errors_is, code_eq, write_app_error, app_response, app_error_status,
}

-- The response to a wrapped error is the same whatever its cause, so no cause reaches a client.
pub write_app_error-wrapped :
    (c : ErrorCode) (m : Message) (e d : GoError)
    → write_app_error (wrapped c m e) ≡ write_app_error (wrapped c m d)
unfolding write_app_error
write_app_error-wrapped c m e d = refl

app_response-status :
    (c : ErrorCode) (m : Message)
    → (400 ≤ (app_response c m).status) × ((app_response c m).status < 600)
unfolding app_response
app_response-status c m = ground arith

-- The response status is a client or a server error, whatever the error value.
pub write_app_error-status :
    (e : GoError) → (400 ≤ (write_app_error e).status) × ((write_app_error e).status < 600)
unfolding write_app_error
write_app_error-status e = ground (arith, Option-cases (as_app e))

-- The status tells the six codes apart.
pub app_error_status-injective : (c d : ErrorCode) → app_error_status c ≡ app_error_status d → c ≡ d
unfolding app_error_status
app_error_status-injective c d h = ground arith

code_eq_refl : (c : ErrorCode) → code_eq c c ≡ true
code_eq_refl c = ground arith

-- errors.Is sees the code that errors.As finds first, behind any number of %w annotations.
pub errors_is-as_app :
    (e : GoError) (c : ErrorCode) (m : Message) → as_app e ≡ some (c, m) → errors_is e c ≡ true
unfolding errors_is as_app
errors_is-as_app (app d n) c m h = ground (arith, code_eq_refl c)
errors_is-as_app (wrapped d n e) c m h = ground (arith, code_eq_refl c)
errors_is-as_app (annotated n e) c m h = errors_is-as_app e c m h
errors_is-as_app (plain n) c m h = cc
errors_is-as_app (os e) c m h = cc

pub Result-cases {ℓ} :
    {A : Type ℓ} (r : Result A) → ((a : A) × (r ≡ ok a)) ⊎ ((e : GoError) × (r ≡ err e))
Result-cases (ok a) = inl (a, refl)
Result-cases (err e) = inr (e, refl)
