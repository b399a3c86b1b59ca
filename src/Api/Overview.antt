-- ===== src/Api/Overview.antt =====
-- internal/api/system.go, health.go, version.go and swagger.go.
use mingyue_go.Base.{codes, not, text_eq, ◌&&◌}
use mingyue_go.Middleware.{reply}
use mingyue_go.Monitor.{snapshot}
use mingyue_go.Api.System.{Env, overview, health, version, page, ApiHandler}
use mingyue_go.Api.Dispatch.{choose, only, answer, page_not_found, get_method}

module _ {W T : Type 0} (env : Env W T) where
  -- systemOverviewHandler
  unfoldable pub system_overview_handler : ApiHandler W T
  system_overview_handler =
      only get_method (λ r role s. (answer overview (snapshot env.collector env.now), s))

  -- HealthHandler; its status is always "ok".
  unfoldable pub health_handler : ApiHandler W T
  health_handler =
      only get_method (λ r role s. (reply 200 (health env.version env.go_os env.go_arch), s))

  -- VersionHandler
  unfoldable pub version_handler : ApiHandler W T
  version_handler = only get_method (λ r role s. (reply 200 (version env.version), s))

  -- swaggerUIHandler
  unfoldable pub swagger_ui_handler : ApiHandler W T
  swagger_ui_handler r =
      choose (not (text_eq r.path (codes "/swagger/")) && not (text_eq r.path (codes "/swagger")))
        (λ r role s. (page_not_found, s))
        (only get_method
          (λ r role s. (reply 200 (page (codes "text/html; charset=utf-8") env.swagger_html), s)))
        r

  -- swaggerSpecHandler
  unfoldable pub swagger_spec_handler : ApiHandler W T
  swagger_spec_handler =
      only get_method
        (λ r role s. (reply 200 (page (codes "application/yaml") env.open_api_spec), s))
