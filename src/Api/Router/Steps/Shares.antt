-- ===== src/Api/Router/Steps/Shares.antt =====
-- The share handlers of internal/api/share.go, smb.go and nfs.go: their steps.
use mingyue_go.Base.{[], ◌∷◌}
use mingyue_go.Api.System.{Env}
use mingyue_go.Api.Shares.{
  share_list_handler, share_get_handler, share_create_handler, share_update_handler,
  share_delete_handler, share_dispatch_handler, share_root_handler,
}
use mingyue_go.Api.Families.{
  Family, family_list_handler, family_get_handler, family_create_handler, family_update_handler,
  family_delete_handler, family_root_handler, family_dispatch_handler,
}
use mingyue_go.Api.Router.Keeps.{
  Keeps, keeps, at_each, Condition, HasMethod, only-Keeps, with_role-Keeps, by_method-Keeps,
  choose-Keeps, require_text-Keeps, parsed-Keeps, resolved-Keeps,
}
use mingyue_go.Api.Dispatch.{get_method, post_method, put_method, delete_method}
use mingyue_go.Api.Router.Steps.{
  confirmed, Did, stays, did, posts, puts, deletes, still, share_created, share_updated,
  share_deleted,
}

module _ {W T : Type 0} (env : Env W T) (C : Condition) where
  share_list-Keeps : Keeps (Did env) C (share_list_handler env)
  unfolding share_list_handler
  share_list-Keeps = only-Keeps (Did env) (stays env) C _ _ (still env _ _)

  share_get-Keeps : Keeps (Did env) C (share_get_handler env)
  unfolding share_get_handler
  share_get-Keeps =
      only-Keeps (Did env) (stays env) C _ _
        (require_text-Keeps (Did env) (stays env) _ _ _ _ (λ name. still env _ _))

  share_create-Keeps : Keeps (Did env) C (share_create_handler env)
  unfolding share_create_handler
  share_create-Keeps = only-Keeps (Did env) (stays env) C _ _ (
      with_role-Keeps (Did env) (stays env) _ _ _ _ (
        parsed-Keeps (Did env) (stays env) _ _ _ _ (λ x. keeps (λ r role s (high, (method, c)).
          did env r role s (confirmed _ _) high (posts r method) (share_created x)))))

  share_update-Keeps : Keeps (Did env) C (share_update_handler env)
  unfolding share_update_handler
  share_update-Keeps = only-Keeps (Did env) (stays env) C _ _ (
      with_role-Keeps (Did env) (stays env) _ _ _ _ (
        require_text-Keeps (Did env) (stays env) _ _ _ _ (λ name.
          parsed-Keeps (Did env) (stays env) _ _ _ _ (λ x. keeps (λ r role s (high, (method, c)).
            did env r role s (confirmed _ _) high (puts r method) (share_updated _))))))

  share_delete-Keeps : Keeps (Did env) C (share_delete_handler env)
  unfolding share_delete_handler
  share_delete-Keeps = only-Keeps (Did env) (stays env) C _ _ (
      with_role-Keeps (Did env) (stays env) _ _ _ _ (
        require_text-Keeps (Did env) (stays env) _ _ _ _ (λ name.
          keeps (λ r role s (high, (method, c)).
            did env r role s (confirmed _ _) high (deletes r method) (share_deleted name)))))

  module _ (family : Family) where
    family_list-Keeps : Keeps (Did env) C (family_list_handler env family)
    unfolding family_list_handler
    family_list-Keeps = still env _ _

    family_get-Keeps : Keeps (Did env) C (family_get_handler env family)
    unfolding family_get_handler
    family_get-Keeps = require_text-Keeps (Did env) (stays env) _ _ _ _ (λ name. still env _ _)

module _ {W T : Type 0} (env : Env W T) (C : Condition) (family : Family) where
  family_create-Keeps : Keeps (Did env) (HasMethod post_method C) (family_create_handler env family)
  unfolding family_create_handler
  family_create-Keeps = with_role-Keeps (Did env) (stays env) _ _ _ _ (
      parsed-Keeps (Did env) (stays env) _ _ _ _ (λ x. keeps (λ r role s (high, (method, c)).
        did env r role s (confirmed _ _) high (posts r method) (share_created _))))

  family_update-Keeps : Keeps (Did env) (HasMethod put_method C) (family_update_handler env family)
  unfolding family_update_handler
  family_update-Keeps = with_role-Keeps (Did env) (stays env) _ _ _ _ (
      require_text-Keeps (Did env) (stays env) _ _ _ _ (λ name.
        resolved-Keeps (Did env) (stays env) _ _ _ (λ existing.
          parsed-Keeps (Did env) (stays env) _ _ _ _ (λ x. keeps (λ r role s (high, (method, c)).
            did env r role s (confirmed _ _) high (puts r method) (share_updated _))))))

  family_delete-Keeps :
      Keeps (Did env) (HasMethod delete_method C) (family_delete_handler env family)
  unfolding family_delete_handler
  family_delete-Keeps = with_role-Keeps (Did env) (stays env) _ _ _ _ (
      require_text-Keeps (Did env) (stays env) _ _ _ _ (λ name.
        resolved-Keeps (Did env) (stays env) _ _ _ (λ existing.
          keeps (λ r role s (high, (method, c)).
            did env r role s (confirmed _ _) high (deletes r method) (share_deleted name)))))

module _ {W T : Type 0} (env : Env W T) (C : Condition) where
  pub share_root-Keeps : Keeps (Did env) C (share_root_handler env)
  unfolding share_root_handler
  share_root-Keeps =
      by_method-Keeps (Did env) (stays env) C
        ((get_method, share_list_handler env) ∷ (post_method, share_create_handler env) ∷ [])
        (share_list-Keeps env _, (share_create-Keeps env _, tt))

  pub share_dispatch-Keeps : Keeps (Did env) C (share_dispatch_handler env)
  unfolding share_dispatch_handler
  share_dispatch-Keeps =
      by_method-Keeps (Did env) (stays env) C
        ((get_method, share_get_handler env)
          ∷ (put_method, share_update_handler env)
          ∷ (delete_method, share_delete_handler env)
          ∷ [])
        (share_get-Keeps env _, (share_update-Keeps env _, (share_delete-Keeps env _, tt)))

module _ {W T : Type 0} (env : Env W T) (C : Condition) (family : Family) where
  pub family_root-Keeps : Keeps (Did env) C (family_root_handler env family)
  unfolding family_root_handler
  family_root-Keeps =
      by_method-Keeps (Did env) (stays env) C
        ((get_method, family_list_handler env family)
          ∷ (post_method, family_create_handler env family)
          ∷ [])
        (family_list-Keeps env _ family, (family_create-Keeps env _ family, tt))

  pub family_dispatch-Keeps : Keeps (Did env) C (family_dispatch_handler env family)
  unfolding family_dispatch_handler
  family_dispatch-Keeps = at_each (Did env) C _ (λ r.
      choose-Keeps (Did env) (stays env) C _ _ _ (still env _ _) (
        by_method-Keeps (Did env) (stays env) C
          ((get_method, family_get_handler env family)
            ∷ (put_method, family_update_handler env family)
            ∷ (delete_method, family_delete_handler env family)
            ∷ [])
          (
            family_get-Keeps env _ family,
            (family_update-Keeps env _ family, (family_delete-Keeps env _ family, tt)),
          )))
