-- ===== src/Api/Router/Refused.antt =====
-- NewRouterWithDeps of internal/api/router.go: what a request with no valid token comes to.
use mingyue_go.Base.{Bool-cases, Option, Text, arith, inl, inr, refl, text_eq, ◌≡◌, ◌⊎◌}
use mingyue_go.Errors.{GoError, err}
use mingyue_go.Auth.{Role, Keys, validate}
use mingyue_go.Middleware.{
  HttpRequest, Handler, error_reply, authentication_required, auth, extract_bearer_token,
}
use mingyue_go.Api.System.{Env, System}
use mingyue_go.Api.Dispatch.{only, choose}
use mingyue_go.Api.Overview.{
  health_handler, version_handler, swagger_ui_handler, swagger_spec_handler,
}
use mingyue_go.Api.Router.{
  Route, Routing, health, version, swagger_tree, swagger_spec, public_handler, route_handler,
  new_router_with_deps, mux, to, redirected, no_route, patterns,
}

-- The pages that anybody may read: four patterns, and no other.
pub data IsPublic : Route → Type 0 where
  page_health : IsPublic health
  page_version : IsPublic version
  page_swagger : IsPublic swagger_tree
  page_spec : IsPublic swagger_spec

-- The mux answers itself, or hands the request to a public page.
pub data IsUnguarded : Routing → Type 0 where
  by_page : {route : Route} → IsPublic route → IsUnguarded (to route)
  by_redirect : IsUnguarded redirected
  by_mux : IsUnguarded no_route

module _ {S B : Type 0} where
  only-same :
      (method : Text) (a : Handler S B) (r : HttpRequest) (role : Option Role) (s : S)
      → (a r role s).1 ≡ s
      → (only method a r role s).1 ≡ s
  unfolding only
  only-same method a r role s h = elim (Bool-cases (text_eq r.method method)) [
    | inl e ↦ rw e h
    | inr e ↦ rw e refl
  ]

module _ {W T : Type 0} (keys : Keys) (env : Env W T) where
  -- A public page changes nothing.
  swagger_ui_handler-same :
      (r : HttpRequest) (role : Option Role) (s : System W T)
      → (swagger_ui_handler env r role s).1 ≡ s
  unfolding swagger_ui_handler choose only
  swagger_ui_handler-same r role s = ground arith

  -- The answer of a route to a request with no valid token, and the state after it.
  abbrev IsRefused : Route → HttpRequest → Option Role → System W T → Type 0
  IsRefused route r context s =
      ((route_handler keys env route r context s).1 ≡ s)
      × ((route_handler keys env route r context s ≡ (error_reply authentication_required, s))
          ⊎ IsPublic route)

  route_handler-IsRefused :
      (route : Route) (r : HttpRequest) (context : Option Role) (s : System W T) {e : GoError}
      → validate (extract_bearer_token r) keys ≡ err e
      → IsRefused route r context s
  unfolding route_handler public_handler auth health_handler version_handler swagger_spec_handler
  route_handler-IsRefused health r context s bad = (only-same _ _ r context s refl, inr page_health)
  route_handler-IsRefused version r context s bad =
      (only-same _ _ r context s refl, inr page_version)
  route_handler-IsRefused swagger_tree r context s bad =
      (swagger_ui_handler-same r context s, inr page_swagger)
  route_handler-IsRefused swagger_spec r context s bad =
      (only-same _ _ r context s refl, inr page_spec)
  route_handler-IsRefused route r context s bad = rw (bad, auth) (refl, inl refl)

  -- A request with no valid token changes nothing, and it is answered with 401, but where it goes to
  -- one of the four public pages (health, version, the Swagger page and its description) or where the
  -- mux answers itself.
  pub new_router_with_deps-validate :
      (r : HttpRequest) (context : Option Role) (s : System W T) {e : GoError}
      → validate (extract_bearer_token r) keys ≡ err e
      → ((new_router_with_deps keys env r context s).1 ≡ s)
        × ((new_router_with_deps keys env r context s ≡ (error_reply authentication_required, s))
            ⊎ IsUnguarded (mux (patterns env.managers) env.codecs r.method r.escaped_path))
  unfolding new_router_with_deps
  new_router_with_deps-validate r context s bad =
      routed (mux (patterns env.managers) env.codecs r.method r.escaped_path) refl
    where
      routed :
          (found : Routing)
          → mux (patterns env.managers) env.codecs r.method r.escaped_path ≡ found
          → ((new_router_with_deps keys env r context s).1 ≡ s)
            × ((new_router_with_deps keys env r context s
                  ≡ (error_reply authentication_required, s))
                ⊎ IsUnguarded (mux (patterns env.managers) env.codecs r.method r.escaped_path))
      routed redirected e = rw (e, new_router_with_deps) (refl, inr by_redirect)
      routed no_route e = rw (e, new_router_with_deps) (refl, inr by_mux)
      routed (to route) e =
          let (same, answer) = route_handler-IsRefused route r context s bad in
          rw (e, new_router_with_deps)
            (same, elim answer [ inl a ↦ inl a | inr p ↦ inr (by_page p) ])
