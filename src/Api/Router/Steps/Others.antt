-- ===== src/Api/Router/Steps/Others.antt =====
-- The handlers of internal/api/process.go, network.go, acl.go and system.go: their steps.
use mingyue_go.Base.{Bool, Option-cases, Text, [], inl, inr, refl, text_eq, ◌∷◌}
use mingyue_go.Errors.Laws.{Result-cases}
use mingyue_go.SafePath.{safe_path}
use mingyue_go.Acl.{get_acl}
use mingyue_go.Api.System.{Env, System, on_shell}
use mingyue_go.Api.Processes.{
  process_list_handler, process_get_handler, process_kill_handler, process_dispatch_handler,
}
use mingyue_go.Api.Interfaces.{
  network_interfaces_handler, put_named, get_named, named, network_interface_dispatch_handler,
}
use mingyue_go.Api.Acls.{acl_get_handler, acl_set_handler, acl_root_handler}
use mingyue_go.Api.Overview.{
  system_overview_handler, health_handler, version_handler, swagger_ui_handler,
  swagger_spec_handler,
}
use mingyue_go.Api.Router.Keeps.{
  Keeps, keeps, at_each, Condition, HasMethod, only-Keeps, with_role-Keeps, by_method-Keeps,
  reject_if-Keeps, choose-Keeps, require_text-Keeps, parsed-Keeps,
}
use mingyue_go.Api.Dispatch.{get_method, put_method, delete_method}
use mingyue_go.Api.Router.Steps.{
  confirmed, Did, only_read, Read, nothing, looked_up, stays, did, puts, deletes, still, killed,
  acl_set, link_up, link_down, renewed,
}

module _ {W T : Type 0} (env : Env W T) (C : Condition) where
  process_get-Keeps : Keeps (Did env) C (process_get_handler env)
  unfolding process_get_handler
  process_get-Keeps =
      only-Keeps (Did env) (stays env) C _ _
        (parsed-Keeps (Did env) (stays env) _ _ _ _ (λ pid. still env _ _))

  process_kill-Keeps : Keeps (Did env) C (process_kill_handler env)
  unfolding process_kill_handler
  process_kill-Keeps = only-Keeps (Did env) (stays env) C _ _ (
      with_role-Keeps (Did env) (stays env) _ _ _ _ (
        parsed-Keeps (Did env) (stays env) _ _ _ _ (λ pid. keeps (λ r role s (high, (method, c)).
          did env r role s (confirmed _ _) high (deletes r method) (killed pid)))))

  put_named-Keeps : (name : Text) → Keeps (Did env) (HasMethod put_method C) (put_named env name)
  unfolding put_named
  put_named-Keeps name = with_role-Keeps (Did env) (stays env) _ _ _ _ (
      parsed-Keeps (Did env) (stays env) _ _ _ _ (λ action.
        choose-Keeps (Did env) (stays env) _ _ _ _
          (keeps (λ r role s (high, (method, c)).
            did env r role s (confirmed _ _) high (puts r method) (link_up name)))
          (choose-Keeps (Did env) (stays env) _ _ _ _
            (keeps (λ r role s (high, (method, c)).
              did env r role s (confirmed _ _) high (puts r method) (link_down name)))
            (reject_if-Keeps (Did env) (stays env) _ _ _ _ (
              keeps (λ r role s (high, (method, c)).
                did env r role s (confirmed _ _) high (puts r method) (renewed name)))))))

  get_acl-Read :
      (path : Text) (s : System W T) → Read s (on_shell (get_acl env.acls env.acl_root path) s).1
  unfolding get_acl text_eq
  get_acl-Read path s = elim (Result-cases (safe_path env.acls.eval_symlinks env.acl_root path)) [
    | inr (x, e) ↦ rw (e, get_acl) nothing
    | inl (abs, e) ↦ elim (Option-cases (env.acls.lstat abs).0) [
      | inr (x, l) ↦ rw (e, get_acl) (rw (l, get_acl) nothing)
      | inl l ↦ rw (e, get_acl) (rw (l, get_acl) (looked_up _ refl))
    ]
  ]

  acl_get-Keeps : Keeps (Did env) C (acl_get_handler env)
  unfolding acl_get_handler
  acl_get-Keeps = only-Keeps (Did env) (stays env) C _ _ (
      require_text-Keeps (Did env) (stays env) _ _ _ _
        (λ path. keeps (λ r role s c. only_read (get_acl-Read path s))))

  acl_set-Keeps : Keeps (Did env) C (acl_set_handler env)
  unfolding acl_set_handler
  acl_set-Keeps = only-Keeps (Did env) (stays env) C _ _ (
      with_role-Keeps (Did env) (stays env) _ _ _ _ (
        parsed-Keeps (Did env) (stays env) _ _ _ _ (λ req.
          reject_if-Keeps (Did env) (stays env) _ _ _ _ (
            reject_if-Keeps (Did env) (stays env) _ _ _ _ (
              keeps (λ r role s (high, (method, c)).
                did env r role s (confirmed _ _) high (puts r method)
                  (acl_set req.path req.entries)))))))

module _ {W T : Type 0} (env : Env W T) (C : Condition) where
  pub process_list-Keeps : Keeps (Did env) C (process_list_handler env)
  unfolding process_list_handler
  process_list-Keeps = only-Keeps (Did env) (stays env) C _ _ (still env _ _)

  pub process_dispatch-Keeps : Keeps (Did env) C (process_dispatch_handler env)
  unfolding process_dispatch_handler
  process_dispatch-Keeps =
      by_method-Keeps (Did env) (stays env) C
        ((get_method, process_get_handler env) ∷ (delete_method, process_kill_handler env) ∷ [])
        (process_get-Keeps env _, (process_kill-Keeps env _, tt))

  pub network_interfaces-Keeps : Keeps (Did env) C (network_interfaces_handler env)
  unfolding network_interfaces_handler
  network_interfaces-Keeps = only-Keeps (Did env) (stays env) C _ _ (still env _ _)

  named-Keeps : (n : Text × Bool) → Keeps (Did env) C (named env n)
  named-Keeps (name, extra) = reject_if-Keeps (Did env) (stays env) C _ _ _ (
      choose-Keeps (Did env) (stays env) C _ _ _ (still env _ _) (
        by_method-Keeps (Did env) (stays env) C
          ((get_method, get_named env name) ∷ (put_method, put_named env name) ∷ [])
          (still env _ _, (put_named-Keeps env _ name, tt))))

  pub network_interface_dispatch-Keeps : Keeps (Did env) C (network_interface_dispatch_handler env)
  unfolding network_interface_dispatch_handler
  network_interface_dispatch-Keeps = at_each (Did env) C _ (λ r. named-Keeps _)

  pub acl_root-Keeps : Keeps (Did env) C (acl_root_handler env)
  unfolding acl_root_handler
  acl_root-Keeps =
      by_method-Keeps (Did env) (stays env) C
        ((get_method, acl_get_handler env) ∷ (put_method, acl_set_handler env) ∷ [])
        (acl_get-Keeps env _, (acl_set-Keeps env _, tt))

  pub system_overview-Keeps : Keeps (Did env) C (system_overview_handler env)
  unfolding system_overview_handler
  system_overview-Keeps = only-Keeps (Did env) (stays env) C _ _ (still env _ _)

  pub health-Keeps : Keeps (Did env) C (health_handler env)
  unfolding health_handler
  health-Keeps = only-Keeps (Did env) (stays env) C _ _ (still env _ _)

  pub version-Keeps : Keeps (Did env) C (version_handler env)
  unfolding version_handler
  version-Keeps = only-Keeps (Did env) (stays env) C _ _ (still env _ _)

  pub swagger_ui-Keeps : Keeps (Did env) C (swagger_ui_handler env)
  unfolding swagger_ui_handler
  swagger_ui-Keeps = at_each (Did env) C _ (λ r.
      choose-Keeps (Did env) (stays env) C _ _ _ (still env _ _)
        (only-Keeps (Did env) (stays env) C _ _ (still env _ _)))

  pub swagger_spec-Keeps : Keeps (Did env) C (swagger_spec_handler env)
  unfolding swagger_spec_handler
  swagger_spec-Keeps = only-Keeps (Did env) (stays env) C _ _ (still env _ _)
