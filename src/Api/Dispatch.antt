-- ===== src/Api/Dispatch.antt =====
-- What the handlers of internal/api have in common: the tests of method and role, and answers.
use mingyue_go.Base.{
  Bool, List, Option, String, Text, [], codes, if◌then◌else◌, is_empty, none, some, text_eq, ℕ, ◌∷◌,
}
use mingyue_go.Errors.{
  GoError, app, invalid_input, forbidden, lit, Result, ok, err, Status, write_app_error,
}
use mingyue_go.Auth.{Role, has_role}
use mingyue_go.Middleware.{
  HttpRequest, Handler, Reply, error_reply, text_reply, status_only, reply, role_from_context,
}

abbrev pub get_method : Text
get_method = codes "GET"

abbrev pub post_method : Text
post_method = codes "POST"

abbrev pub put_method : Text
put_method = codes "PUT"

abbrev pub delete_method : Text
delete_method = codes "DELETE"

module _ {B : Type 0} where
  -- http.Error(w, "method not allowed", http.StatusMethodNotAllowed)
  abbrev pub method_not_allowed : Reply B
  method_not_allowed = text_reply 405 (codes "method not allowed")

  -- http.NotFound, and http.Error(w, "not found", http.StatusNotFound)
  abbrev pub page_not_found : Reply B
  page_not_found = text_reply 404 (codes "404 page not found")

  abbrev pub not_found_text : Reply B
  not_found_text = text_reply 404 (codes "not found")

  -- writeAppError(w, err)
  abbrev pub failed : GoError → Reply B
  failed e = error_reply (write_app_error e)

  -- writeAppError(w, apperrors.New(apperrors.ErrInvalidInput, message))
  abbrev pub bad_input : String → Reply B
  bad_input message = failed (app invalid_input (lit message ∷ []))

  -- A read: 200 with the body, or the error.
  abbrev pub answer : {A : Type 0} → (A → B) → Result A → Reply B
  answer body (ok a) = reply 200 (body a)
  answer body (err e) = failed e

  -- A change: the status alone, or the error.
  abbrev pub confirm : {S : Type 0} → ℕ → Status × S → Reply B × S
  confirm status (r, s) = (elim r [ ok _ ↦ status_only status | err e ↦ failed e ], s)

module _ {S B : Type 0} where
  -- if r.Method != method { 405 }
  unfoldable pub only : Text → Handler S B → Handler S B
  unfolding text_eq
  only method next r role s =
      if text_eq r.method method then next r role s else (method_not_allowed, s)

  -- if !auth.HasRole(role, minimum) { 403 with the message }
  unfoldable pub with_role : Role → String → Handler S B → Handler S B
  unfolding has_role
  with_role minimum message next r role s =
      if has_role (role_from_context role) minimum
      then next r role s
      else (failed (app forbidden (lit message ∷ [])), s)

  -- switch r.Method, with 405 as the default
  unfoldable pub by_method : List (Text × Handler S B) → Handler S B
  unfolding text_eq
  by_method [] r role s = (method_not_allowed, s)
  by_method ((method, next) ∷ cases) r role s =
      let rest = by_method cases r role s in if text_eq r.method method then next r role s else rest

-- The steps that end a handler with an answer, and what comes after them
module _ {S B : Type 0} where
  -- if test { 400 with the message }
  unfoldable pub reject_if : Bool → String → Handler S B → Handler S B
  reject_if test message next r role s = if test then (bad_input message, s) else next r role s

  -- if test { a } else { b }
  unfoldable pub choose : Bool → Handler S B → Handler S B → Handler S B
  choose test a b r role s = if test then a r role s else b r role s

  -- A text of the request that must not be ""
  unfoldable pub require_text : (HttpRequest → Text) → String → (Text → Handler S B) → Handler S B
  require_text text message next r role s =
      if is_empty (text r) then (bad_input message, s) else next (text r) r role s

  -- A value that is read from the request: 400 with the message where there is none
  unfoldable pub parsed :
      {A : Type 0} → (HttpRequest → Option A) → String → (A → Handler S B) → Handler S B
  parsed read message next r role s = elim (read r) [
    | none ↦ (bad_input message, s)
    | some a ↦ next a r role s
  ]

  -- A value that is found with the request and the state: the error where there is none
  unfoldable pub resolved :
      {A : Type 0} → (HttpRequest → S → Result A) → (A → Handler S B) → Handler S B
  resolved find next r role s = elim (find r s) [ err e ↦ (failed e, s) | ok a ↦ next a r role s ]

abbrev pub operator_required : String
operator_required = "operator or admin role required"
