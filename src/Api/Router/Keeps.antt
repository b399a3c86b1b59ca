-- ===== src/Api/Router/Keeps.antt =====
-- A relation between a request, the answer and the states before and after, through the tests of internal/api and
-- internal/api/middleware.
use mingyue_go.Base.{
  Bool, Bool-cases, List, Option, Option-cases, String, Text, [], false, inl, inr, is_empty,
  text_eq, true, ◌∷◌, ◌≡◌,
}
use mingyue_go.Auth.{Role, has_role}
use mingyue_go.Middleware.{HttpRequest, Handler, Reply, role_from_context}
use mingyue_go.Errors.{Result}
use mingyue_go.Errors.Laws.{Result-cases}
use mingyue_go.Api.Dispatch.{
  reject_if, choose, require_text, parsed, resolved, only, with_role, by_method,
}

-- A condition on a request and the role in its context.
abbrev pub Condition : Type 1
Condition = HttpRequest → Option Role → Type 0

abbrev pub Always : Condition
Always r role = Unit {0}

abbrev pub HasMethod : Text → Condition → Condition
HasMethod method C r role = (text_eq r.method method ≡ true) × C r role

abbrev pub HasRole : Role → Condition → Condition
HasRole minimum C r role = (has_role (role_from_context role) minimum ≡ true) × C r role

module _ {S B : Type 0} (P : HttpRequest → Option Role → S → Reply B × S → Type 0) where
  -- Under the condition, `P` holds of the answer to a call of the handler and of the state after it.
  pub data Keeps (C : Condition) (next : Handler S B) : Type 0 where
    keeps :
        ((r : HttpRequest) (role : Option Role) (s : S) → C r role → P r role s (next r role s))
        → Keeps C next

  pub holds :
      {C : Condition} {next : Handler S B}
      → Keeps C next
      → (r : HttpRequest) (role : Option Role) (s : S) → C r role
      → P r role s (next r role s)
  holds (keeps k) = k

  abbrev pub KeepsEach : Condition → List (Text × Handler S B) → Type 0
  KeepsEach C [] = Unit {0}
  KeepsEach C ((method, next) ∷ cases) = Keeps (HasMethod method C) next × KeepsEach C cases

module _ {S B : Type 0} (P : HttpRequest → Option Role → S → Reply B × S → Type 0)
    (stays : (r : HttpRequest) (role : Option Role) (s : S) (a : Reply B) → P r role s (a, s))
    (C : Condition) where
  pub only-Keeps :
      (method : Text) (next : Handler S B)
      → Keeps P (HasMethod method C) next
      → Keeps P C (only method next)
  unfolding only
  only-Keeps method next k = keeps (λ r role s c. elim (Bool-cases (text_eq r.method method)) [
    | inl e ↦ rw (e, only) (holds P k r role s (e, c))
    | inr e ↦ rw (e, only) (stays r role s _)
  ])

  pub with_role-Keeps :
      (minimum : Role) (message : String) (next : Handler S B)
      → Keeps P (HasRole minimum C) next
      → Keeps P C (with_role minimum message next)
  unfolding with_role
  with_role-Keeps minimum message next k = keeps (λ r role s c.
      elim (Bool-cases (has_role (role_from_context role) minimum)) [
        | inl e ↦ rw (e, with_role) (holds P k r role s (e, c))
        | inr e ↦ rw (e, with_role) (stays r role s _)
      ])

  pub by_method-Keeps :
      (cases : List (Text × Handler S B)) → KeepsEach P C cases → Keeps P C (by_method cases)
  unfolding by_method
  by_method-Keeps [] k = keeps (λ r role s c. stays r role s _)
  by_method-Keeps ((method, next) ∷ cases) (k, ks) = keeps (λ r role s c.
      elim (Bool-cases (text_eq r.method method)) [
        | inl e ↦ rw (e, by_method) (holds P k r role s (e, c))
        | inr e ↦ rw (e, by_method) (holds P (by_method-Keeps cases ks) r role s c)
      ])

  pub reject_if-Keeps :
      (test : Bool) (message : String) (next : Handler S B)
      → Keeps P C next
      → Keeps P C (reject_if test message next)
  unfolding reject_if
  reject_if-Keeps true message next k = keeps (λ r role s c. stays r role s _)
  reject_if-Keeps false message next k = keeps (λ r role s c. holds P k r role s c)

  pub choose-Keeps :
      (test : Bool) (a b : Handler S B) → Keeps P C a → Keeps P C b → Keeps P C (choose test a b)
  unfolding choose
  choose-Keeps true a b k l = keeps (λ r role s c. holds P k r role s c)
  choose-Keeps false a b k l = keeps (λ r role s c. holds P l r role s c)

  pub require_text-Keeps :
      (text : HttpRequest → Text) (message : String) (next : Text → Handler S B)
      → ((t : Text) → Keeps P C (next t))
      → Keeps P C (require_text text message next)
  unfolding require_text
  require_text-Keeps text message next k = keeps (λ r role s c.
      elim (Bool-cases (is_empty (text r))) [
        | inl e ↦ rw (e, require_text) (stays r role s _)
        | inr e ↦ rw (e, require_text) (holds P (k (text r)) r role s c)
      ])

  pub parsed-Keeps :
      {A : Type 0} (read : HttpRequest → Option A) (message : String) (next : A → Handler S B)
      → ((a : A) → Keeps P C (next a))
      → Keeps P C (parsed read message next)
  unfolding parsed
  parsed-Keeps read message next k = keeps (λ r role s c. elim (Option-cases (read r)) [
    | inl e ↦ rw (e, parsed) (stays r role s _)
    | inr (a, e) ↦ rw (e, parsed) (holds P (k a) r role s c)
  ])

  pub resolved-Keeps :
      {A : Type 0} (find : HttpRequest → S → Result A) (next : A → Handler S B)
      → ((a : A) → Keeps P C (next a))
      → Keeps P C (resolved find next)
  unfolding resolved
  resolved-Keeps find next k = keeps (λ r role s c. elim (Result-cases (find r s)) [
    | inr (x, e) ↦ rw (e, resolved) (stays r role s _)
    | inl (a, e) ↦ rw (e, resolved) (holds P (k a) r role s c)
  ])

-- A handler that looks at its request first
module _ {S B : Type 0} (P : HttpRequest → Option Role → S → Reply B × S → Type 0) (C : Condition)
    (next : HttpRequest → Handler S B) where
  pub at_each : ((r : HttpRequest) → Keeps P C (next r)) → Keeps P C (λ r. next r r)
  at_each k = keeps (λ r role s c. holds P (k r) r role s c)
