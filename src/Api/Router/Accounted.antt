-- ===== src/Api/Router/Accounted.antt =====
-- NewRouter of internal/api/router.go: changes and the audit log of the HTTP layer.
use mingyue_go.Base.{List, Option, [], ap, inl, inr, refl, some, sym, ℕ, ◌++◌, ◌∙◌, ◌∷◌, ◌≡◌, ◌⊎◌}
use mingyue_go.Auth.{Role, Keys}
use mingyue_go.Audit.{AuditEvent, stamp}
use mingyue_go.Middleware.{HttpRequest, reply_status, http_event}
use mingyue_go.Middleware.Guards.{audit_with_logger_lem}
use mingyue_go.Api.System.{Env, System}
use mingyue_go.Api.Router.{new_router, new_router_with_deps}
use mingyue_go.Api.Router.Steps.{Read}
use mingyue_go.Api.Router.Restrained.{read, by_token, new_router_with_deps-Licensed}
use mathlib.Core.Path.{subst}

-- A request to NewRouter's handler that does more than read gets an answer, and the logger of the HTTP
-- layer was handed one more event, with the method, the path, the caller and the status of that answer.
pub new_router-http_event :
    {W T : Type 0} (keys : Keys) (env : Env W T) (start : ℕ) (r : HttpRequest)
    (context : Option Role) (s : System W T) (lines : List AuditEvent)
    → Read s (new_router keys env start r context (s, lines)).1.0
      ⊎ ((status : ℕ) × (reply_status (new_router keys env start r context (s, lines)).0
            ≡ some status)
          × ((new_router keys env start r context (s, lines)).1.1
              ≡ lines ++ stamp env.now (http_event env.digits start r status) ∷ []))
unfolding new_router
new_router-http_event keys env start r context s lines =
    let next = new_router_with_deps keys env in
    let (same, kept, logged) =
      audit_with_logger_lem env.digits start env.now next r context s lines in
    elim (new_router_with_deps-Licensed keys env r context s) [
      | read n ↦ inl (subst (Read s) (sym kept) n)
      | by_token tok minimum status found high method a c ↦
          inr (status, ap reply_status same ∙ a, logged ∙ rw (method, a) refl)
    ]
