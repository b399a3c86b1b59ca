-- ===== src/Errors.antt =====
-- internal/errors/errors.go, and the mapping of errors to HTTP responses in internal/api/errors.go.
-- A message is the list of the pieces that fmt.Sprintf joins; the text of a system error and the
-- quoting of %q stay symbolic.
pub mod Laws
use mingyue_go.Base.{
  Bool, List, Option, String, Text, [], codes, false, none, some, true, ℕ, ◌++◌, ◌||◌, ◌∷◌,
}

pub data ErrorCode : Type 0 where
  not_found unauthorized forbidden internal invalid_input conflict : ErrorCode

-- What an error value of the operating system or of os/exec answers to the program's questions.
pub data OsError : Type 0 where
  not_exist permission esrch exec_not_found : OsError
  exit_status : ℕ → OsError
  other : Text → OsError

-- A literal, %s, %q, %d, and the text of a system error.
pub data Piece : Type 0 where
  lit : String → Piece
  str quoted : Text → Piece
  dec : ℕ → Piece
  sys : OsError → Piece

abbrev pub Message : Type 0
Message = List Piece

-- An error value: an AppError without and with a cause, fmt.Errorf with and without %w, and an
-- error of the standard library.
pub data GoError : Type 0 where
  app : ErrorCode → Message → GoError
  wrapped : ErrorCode → Message → GoError → GoError
  annotated : Message → GoError → GoError
  plain : Message → GoError
  os : OsError → GoError

pub data Result {ℓ} (A : Type ℓ) : Type ℓ where
  ok : A → Result A
  err : GoError → Result A

abbrev pub Status : Type 0
Status = Result (Unit {0})

abbrev pub done : Status
done = ok tt

-- The string value of a code.
abbrev pub code_text : ErrorCode → Text
code_text not_found = codes "NOT_FOUND"
code_text unauthorized = codes "UNAUTHORIZED"
code_text forbidden = codes "FORBIDDEN"
code_text internal = codes "INTERNAL"
code_text invalid_input = codes "INVALID_INPUT"
code_text conflict = codes "CONFLICT"

-- Error() of each kind of error
unfoldable pub error_text : GoError → Message
error_text (app c m) = lit "[" ∷ str (code_text c) ∷ lit "] " ∷ m
error_text (wrapped c m e) = lit "[" ∷ str (code_text c) ∷ lit "] " ∷ (m ++ lit ": " ∷ error_text e)
error_text (annotated m e) = m ++ lit ": " ∷ error_text e
error_text (plain m) = m
error_text (os e) = sys e ∷ []

unfoldable pub unwrap : GoError → Option GoError
unwrap (wrapped c m e) = some e
unwrap (annotated m e) = some e
unwrap _ = none

-- errors.As(err, &ae): the code and the message of the first AppError of the chain
unfoldable pub as_app : GoError → Option (ErrorCode × Message)
as_app (app c m) = some (c, m)
as_app (wrapped c m e) = some (c, m)
as_app (annotated m e) = as_app e
as_app (plain m) = none
as_app (os e) = none

abbrev pub code_eq : ErrorCode → ErrorCode → Bool
code_eq not_found not_found = true
code_eq unauthorized unauthorized = true
code_eq forbidden forbidden = true
code_eq internal internal = true
code_eq invalid_input invalid_input = true
code_eq conflict conflict = true
code_eq _ _ = false

-- (e *AppError) Is(target)
unfoldable pub app_is : ErrorCode → GoError → Bool
app_is c (app d m) = code_eq c d
app_is c (wrapped d m e) = code_eq c d
app_is c _ = false

-- errors.Is(err, target) for a target that is an AppError of code `d`
unfoldable pub errors_is : GoError → ErrorCode → Bool
unfolding app_is
errors_is (app c m) d = app_is c (app d [])
errors_is (wrapped c m e) d = app_is c (app d []) || errors_is e d
errors_is (annotated m e) d = errors_is e d
errors_is (plain m) d = false
errors_is (os e) d = false

-- The system error at the end of the chain, as errors.Is and errors.As reach it.
unfoldable pub root_cause : GoError → Option OsError
root_cause (app c m) = none
root_cause (wrapped c m e) = root_cause e
root_cause (annotated m e) = root_cause e
root_cause (plain m) = none
root_cause (os e) = some e

-- os.IsNotExist and os.IsPermission do not look into a wrapped error.
abbrev pub is_not_exist : GoError → Bool
is_not_exist (os not_exist) = true
is_not_exist _ = false

abbrev pub is_permission : GoError → Bool
is_permission (os permission) = true
is_permission _ = false

-- errors.Is(err, exec.ErrNotFound) and errors.Is(err, syscall.ESRCH)
abbrev pub cause_is_exec_not_found : Option OsError → Bool
cause_is_exec_not_found (some exec_not_found) = true
cause_is_exec_not_found _ = false

abbrev pub cause_is_esrch : Option OsError → Bool
cause_is_esrch (some esrch) = true
cause_is_esrch _ = false

-- errors.As(err, &exitErr), and its ExitCode
abbrev pub cause_exit_code : Option OsError → Option ℕ
cause_exit_code (some (exit_status n)) = some n
cause_exit_code _ = none

-- appErrorStatus of internal/api/errors.go
unfoldable pub app_error_status : ErrorCode → ℕ
app_error_status not_found = 404
app_error_status unauthorized = 401
app_error_status forbidden = 403
app_error_status invalid_input = 400
app_error_status conflict = 409
app_error_status internal = 500

-- The status, the content type and the fields of the JSON body.
pub record ErrorResponse : Type 0 where
  pub status : ℕ
  pub body_code : ErrorCode
  pub body_message : Message

-- MarshalJSON: the cause is not a field of the body.
unfoldable pub app_response : ErrorCode → Message → ErrorResponse
unfolding app_error_status
app_response c m = record { status = app_error_status c; body_code = c; body_message = m }

abbrev internal_server_error : Message
internal_server_error = lit "internal server error" ∷ []

-- writeAppError
unfoldable pub write_app_error : GoError → ErrorResponse
unfolding as_app app_response
write_app_error e = elim (as_app e) [
  | some ae ↦ app_response ae.0 ae.1
  | none ↦ app_response internal internal_server_error
]
