-- ===== src/Api/Users.antt =====
-- The Samba user handlers of internal/api/smb.go.
use mingyue_go.Base.{Text, [], cut_prefix, is_empty, trim_space, ◌∷◌}
use mingyue_go.Auth.{operator}
use mingyue_go.Share.Users.{list_users, add_user, remove_user, set_password}
use mingyue_go.Api.System.{Env, user_list, UserRequest, ApiHandler, on_users}
use mingyue_go.Api.Dispatch.{
  choose, reject_if, require_text, parsed, with_role, by_method, answer, confirm, operator_required,
  get_method, post_method, put_method, delete_method,
}
use mingyue_go.Api.Paths.{smb_username_from_path, smb_user_prefix, has_suffix, password_suffix}

module _ {W T : Type 0} (env : Env W T) where
  -- smbUserListHandler
  unfoldable pub smb_user_list_handler : ApiHandler W T
  smb_user_list_handler r role s = (answer user_list (list_users env.run_user), s)

  abbrev add_request : UserRequest → ApiHandler W T
  add_request req = reject_if (is_empty (trim_space req.username)) "username is required" (
      reject_if (is_empty (trim_space req.password)) "password is required" (λ r role s.
        confirm 201
          (on_users (add_user env.run_user (trim_space req.username) (trim_space req.password)) s)))

  -- smbUserAddHandler
  unfoldable pub smb_user_add_handler : ApiHandler W T
  smb_user_add_handler =
      with_role operator operator_required
        (parsed (λ r. env.codecs.decode_user r.body) "invalid JSON body" add_request)

  abbrev with_username : (Text → ApiHandler W T) → ApiHandler W T
  with_username = require_text (λ r. smb_username_from_path r.path) "username is required"

  -- smbUserRemoveHandler
  unfoldable pub smb_user_remove_handler : ApiHandler W T
  smb_user_remove_handler = with_role operator operator_required (
      with_username
        (λ username r role s. confirm 204 (on_users (remove_user env.run_user username) s)))

  -- smbUserSetPasswordHandler
  unfoldable pub smb_user_set_password_handler : ApiHandler W T
  smb_user_set_password_handler = with_role operator operator_required (
      with_username (λ username.
        parsed (λ r. env.codecs.decode_password r.body) "invalid JSON body"
          (λ password.
            reject_if (is_empty (trim_space password)) "password is required" (λ r role s.
              confirm 204
                (on_users (set_password env.run_user username (trim_space password)) s)))))

  -- smbUserRootHandler
  unfoldable pub smb_user_root_handler : ApiHandler W T
  smb_user_root_handler =
      by_method ((get_method, smb_user_list_handler) ∷ (post_method, smb_user_add_handler) ∷ [])

  -- smbUserDispatchHandler; the mux calls it for paths with its prefix only.
  unfoldable pub smb_user_dispatch_handler : ApiHandler W T
  smb_user_dispatch_handler r role s =
      choose (has_suffix (cut_prefix r.path smb_user_prefix) password_suffix)
        (by_method ((put_method, smb_user_set_password_handler) ∷ []))
        (by_method ((delete_method, smb_user_remove_handler) ∷ [])) r role s
