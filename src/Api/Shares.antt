-- ===== src/Api/Shares.antt =====
-- internal/api/share.go, and shareRootHandler of internal/api/router.go.
use mingyue_go.Base.{String, Text, [], ◌∷◌}
use mingyue_go.Auth.{operator}
use mingyue_go.Share.{Share}
use mingyue_go.Share.Manager.{list, get, create, update, delete}
use mingyue_go.Api.System.{Env, share_list, share, ApiHandler, on_shares, service}
use mingyue_go.Api.Dispatch.{
  require_text, parsed, only, with_role, by_method, answer, confirm, operator_required, get_method,
  post_method, put_method, delete_method,
}
use mingyue_go.Api.Paths.{share_name_from_path}

module _ {W T : Type 0} (env : Env W T) where
  -- The name in the path, which is required
  abbrev pub with_name : (Text → Text) → String → (Text → ApiHandler W T) → ApiHandler W T
  with_name name_of required = require_text (λ r. name_of r.path) required

  -- The share in the body
  abbrev pub with_share : (Share → ApiHandler W T) → ApiHandler W T
  with_share = parsed (λ r. env.codecs.decode_share r.body) "invalid JSON body"

  -- shareListHandler
  unfoldable pub share_list_handler : ApiHandler W T
  share_list_handler =
      only get_method (λ r role s. (answer share_list (list env.backend (service s)), s))

  -- shareGetHandler
  unfoldable pub share_get_handler : ApiHandler W T
  share_get_handler = only get_method (
      with_name share_name_from_path "share name is required"
        (λ name r role s. (answer share (get env.backend name (service s)), s)))

  -- shareCreateHandler
  unfoldable pub share_create_handler : ApiHandler W T
  share_create_handler = only post_method (
      with_role operator operator_required
        (with_share (λ x r role s. confirm 201 (on_shares (create env.backend x r.remote_addr) s))))

  -- shareUpdateHandler: the name in the path replaces the name in the body.
  unfoldable pub share_update_handler : ApiHandler W T
  share_update_handler = only put_method (
      with_role operator operator_required (
        with_name share_name_from_path "share name is required" (λ name. with_share (λ x r role s.
          confirm 204
            (on_shares (update env.backend (record x { name = name }) r.remote_addr) s)))))

  -- shareDeleteHandler
  unfoldable pub share_delete_handler : ApiHandler W T
  share_delete_handler = only delete_method (
      with_role operator operator_required (
        with_name share_name_from_path "share name is required"
          (λ name r role s. confirm 204 (on_shares (delete env.backend name r.remote_addr) s))))

  -- shareDispatchHandler
  unfoldable pub share_dispatch_handler : ApiHandler W T
  share_dispatch_handler = by_method (
      (get_method, share_get_handler)
      ∷ (put_method, share_update_handler)
      ∷ (delete_method, share_delete_handler)
      ∷ [])

  -- shareRootHandler
  unfoldable pub share_root_handler : ApiHandler W T
  share_root_handler =
      by_method ((get_method, share_list_handler) ∷ (post_method, share_create_handler) ∷ [])
