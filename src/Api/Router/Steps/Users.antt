-- ===== src/Api/Router/Steps/Users.antt =====
-- The Samba user handlers of internal/api/smb.go: their steps.
use mingyue_go.Base.{[], ◌∷◌}
use mingyue_go.Api.System.{Env}
use mingyue_go.Api.Users.{
  smb_user_list_handler, smb_user_add_handler, smb_user_remove_handler,
  smb_user_set_password_handler, smb_user_root_handler, smb_user_dispatch_handler,
}
use mingyue_go.Api.Router.Keeps.{
  Keeps, keeps, at_each, Condition, HasMethod, with_role-Keeps, by_method-Keeps, reject_if-Keeps,
  choose-Keeps, require_text-Keeps, parsed-Keeps,
}
use mingyue_go.Api.Dispatch.{get_method, post_method, put_method, delete_method}
use mingyue_go.Api.Router.Steps.{
  confirmed, Did, stays, did, posts, puts, deletes, still, user_added, user_removed, password_set,
}

module _ {W T : Type 0} (env : Env W T) (C : Condition) where
  smb_user_list-Keeps : Keeps (Did env) C (smb_user_list_handler env)
  unfolding smb_user_list_handler
  smb_user_list-Keeps = still env _ _

  smb_user_add-Keeps : Keeps (Did env) (HasMethod post_method C) (smb_user_add_handler env)
  unfolding smb_user_add_handler
  smb_user_add-Keeps = with_role-Keeps (Did env) (stays env) _ _ _ _ (
      parsed-Keeps (Did env) (stays env) _ _ _ _ (λ req.
        reject_if-Keeps (Did env) (stays env) _ _ _ _ (
          reject_if-Keeps (Did env) (stays env) _ _ _ _ (
            keeps (λ r role s (high, (method, c)).
              did env r role s (confirmed _ _) high (posts r method) (user_added _ _))))))

  smb_user_remove-Keeps : Keeps (Did env) (HasMethod delete_method C) (smb_user_remove_handler env)
  unfolding smb_user_remove_handler
  smb_user_remove-Keeps = with_role-Keeps (Did env) (stays env) _ _ _ _ (
      require_text-Keeps (Did env) (stays env) _ _ _ _ (λ username.
        keeps (λ r role s (high, (method, c)).
          did env r role s (confirmed _ _) high (deletes r method) (user_removed username))))

  smb_user_set_password-Keeps :
      Keeps (Did env) (HasMethod put_method C) (smb_user_set_password_handler env)
  unfolding smb_user_set_password_handler
  smb_user_set_password-Keeps = with_role-Keeps (Did env) (stays env) _ _ _ _ (
      require_text-Keeps (Did env) (stays env) _ _ _ _ (λ username.
        parsed-Keeps (Did env) (stays env) _ _ _ _ (λ password.
          reject_if-Keeps (Did env) (stays env) _ _ _ _ (
            keeps (λ r role s (high, (method, c)).
              did env r role s (confirmed _ _) high (puts r method) (password_set username _))))))

module _ {W T : Type 0} (env : Env W T) (C : Condition) where
  pub smb_user_root-Keeps : Keeps (Did env) C (smb_user_root_handler env)
  unfolding smb_user_root_handler
  smb_user_root-Keeps =
      by_method-Keeps (Did env) (stays env) C
        ((get_method, smb_user_list_handler env) ∷ (post_method, smb_user_add_handler env) ∷ [])
        (smb_user_list-Keeps env _, (smb_user_add-Keeps env _, tt))

  pub smb_user_dispatch-Keeps : Keeps (Did env) C (smb_user_dispatch_handler env)
  unfolding smb_user_dispatch_handler
  smb_user_dispatch-Keeps = at_each (Did env) C _ (λ r.
      choose-Keeps (Did env) (stays env) C _ _ _
        (by_method-Keeps (Did env) (stays env) C
          ((put_method, smb_user_set_password_handler env) ∷ [])
          (smb_user_set_password-Keeps env _, tt))
        (by_method-Keeps (Did env) (stays env) C ((delete_method, smb_user_remove_handler env) ∷ [])
          (smb_user_remove-Keeps env _, tt)))
