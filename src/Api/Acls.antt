-- ===== src/Api/Acls.antt =====
-- internal/api/acl.go.
use mingyue_go.Base.{Text, [], codes, is_empty, ◌∷◌}
use mingyue_go.Auth.{operator}
use mingyue_go.Acl.{get_acl, set_acl}
use mingyue_go.Api.System.{Env, acl_info, AclRequest, ApiHandler, on_shell}
use mingyue_go.Api.Dispatch.{
  reject_if, require_text, parsed, only, with_role, by_method, answer, confirm, operator_required,
  get_method, put_method,
}

module _ {W T : Type 0} (env : Env W T) where
  abbrev query_acl : Text → ApiHandler W T
  query_acl path r role s =
      let (info, s') = on_shell (get_acl env.acls env.acl_root path) s in (answer acl_info info, s')

  -- aclGetHandler
  unfoldable pub acl_get_handler : ApiHandler W T
  acl_get_handler =
      only get_method
        (require_text (λ r. r.query (codes "path")) "path query parameter is required" query_acl)

  abbrev change_acl : AclRequest → ApiHandler W T
  change_acl req = reject_if (is_empty req.path) "path is required" (
      reject_if (is_empty req.entries) "entries must not be empty" (λ r role s.
        confirm 204
          (on_shell (set_acl env.acls env.acl_root req.path req.entries r.remote_addr) s)))

  -- aclSetHandler
  unfoldable pub acl_set_handler : ApiHandler W T
  acl_set_handler = only put_method (
      with_role operator operator_required
        (parsed (λ r. env.codecs.decode_acl r.body) "invalid JSON body" change_acl))

  -- aclRootHandler
  unfoldable pub acl_root_handler : ApiHandler W T
  acl_root_handler = by_method ((get_method, acl_get_handler) ∷ (put_method, acl_set_handler) ∷ [])
