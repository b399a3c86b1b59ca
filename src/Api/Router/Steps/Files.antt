-- ===== src/Api/Router/Steps/Files.antt =====
-- The file handlers of internal/api/file.go: their steps.
use mingyue_go.Base.{[], ◌∷◌}
use mingyue_go.File.Ops.{run, mkdir_req, remove_req, move_req, copy_req, write_req}
use mingyue_go.Api.System.{Env}
use mingyue_go.Api.Files.{
  file_list_handler, file_stat_handler, file_read_handler, file_write_handler, file_delete_handler,
  file_move_handler, file_copy_handler, file_root_handler, file_dispatch_handler,
}
use mingyue_go.Api.Router.Keeps.{
  Keeps, keeps, at_each, Condition, only-Keeps, with_role-Keeps, by_method-Keeps, reject_if-Keeps,
  choose-Keeps, require_text-Keeps, parsed-Keeps,
}
use mingyue_go.Api.Dispatch.{get_method, post_method, delete_method}
use mingyue_go.Api.Router.Steps.{confirmed, Did, stays, did, posts, puts, deletes, on_file, still}

module _ {W T : Type 0} (env : Env W T) (C : Condition) where
  file_list-Keeps : Keeps (Did env) C (file_list_handler env)
  unfolding file_list_handler
  file_list-Keeps =
      only-Keeps (Did env) (stays env) C _ _
        (require_text-Keeps (Did env) (stays env) _ _ _ _ (λ path. still env _ _))

  file_stat-Keeps : Keeps (Did env) C (file_stat_handler env)
  unfolding file_stat_handler
  file_stat-Keeps =
      only-Keeps (Did env) (stays env) C _ _
        (require_text-Keeps (Did env) (stays env) _ _ _ _ (λ path. still env _ _))

  file_read-Keeps : Keeps (Did env) C (file_read_handler env)
  unfolding file_read_handler
  file_read-Keeps =
      only-Keeps (Did env) (stays env) C _ _
        (require_text-Keeps (Did env) (stays env) _ _ _ _ (λ path. still env _ _))

  file_write-Keeps : Keeps (Did env) C (file_write_handler env)
  unfolding file_write_handler run
  file_write-Keeps = only-Keeps (Did env) (stays env) C _ _ (
      with_role-Keeps (Did env) (stays env) _ _ _ _ (
        parsed-Keeps (Did env) (stays env) _ _ _ _ (λ req.
          reject_if-Keeps (Did env) (stays env) _ _ _ _ (
            reject_if-Keeps (Did env) (stays env) _ _ _ _ (
              choose-Keeps (Did env) (stays env) _ _ _ _
                (keeps (λ r role s (high, (method, c)).
                  did env r role s (confirmed _ _) high (posts r method)
                    (on_file (mkdir_req req.path))))
                (parsed-Keeps (Did env) (stays env) _ _ _ _ (λ content.
                  keeps (λ r role s (high, (method, c)).
                    did env r role s (confirmed _ _) high (posts r method)
                      (on_file (write_req req.path content))))))))))

  file_delete-Keeps : Keeps (Did env) C (file_delete_handler env)
  unfolding file_delete_handler run
  file_delete-Keeps = only-Keeps (Did env) (stays env) C _ _ (
      with_role-Keeps (Did env) (stays env) _ _ _ _ (
        require_text-Keeps (Did env) (stays env) _ _ _ _ (λ path.
          keeps (λ r role s (high, (method, c)).
            did env r role s (confirmed _ _) high (deletes r method)
              (on_file (remove_req path _))))))

  file_move-Keeps : Keeps (Did env) C (file_move_handler env)
  unfolding file_move_handler run
  file_move-Keeps = only-Keeps (Did env) (stays env) C _ _ (
      with_role-Keeps (Did env) (stays env) _ _ _ _ (
        parsed-Keeps (Did env) (stays env) _ _ _ _ (λ req.
          reject_if-Keeps (Did env) (stays env) _ _ _ _ (
            keeps (λ r role s (high, (method, c)).
              did env r role s (confirmed _ _) high (puts r method)
                (on_file (move_req req.src req.dst)))))))

  file_copy-Keeps : Keeps (Did env) C (file_copy_handler env)
  unfolding file_copy_handler run
  file_copy-Keeps = only-Keeps (Did env) (stays env) C _ _ (
      with_role-Keeps (Did env) (stays env) _ _ _ _ (
        parsed-Keeps (Did env) (stays env) _ _ _ _ (λ req.
          reject_if-Keeps (Did env) (stays env) _ _ _ _ (
            keeps (λ r role s (high, (method, c)).
              did env r role s (confirmed _ _) high (puts r method)
                (on_file (copy_req req.src req.dst)))))))

module _ {W T : Type 0} (env : Env W T) (C : Condition) where
  pub file_root-Keeps : Keeps (Did env) C (file_root_handler env)
  unfolding file_root_handler
  file_root-Keeps =
      by_method-Keeps (Did env) (stays env) C
        ((get_method, file_list_handler env)
          ∷ (post_method, file_write_handler env)
          ∷ (delete_method, file_delete_handler env)
          ∷ [])
        (file_list-Keeps env _, (file_write-Keeps env _, (file_delete-Keeps env _, tt)))

  pub file_dispatch-Keeps : Keeps (Did env) C (file_dispatch_handler env)
  unfolding file_dispatch_handler
  file_dispatch-Keeps = at_each (Did env) C _ (λ r.
      choose-Keeps (Did env) (stays env) C _ _ _ (file_stat-Keeps env C) (
        choose-Keeps (Did env) (stays env) C _ _ _ (file_move-Keeps env C) (
          choose-Keeps (Did env) (stays env) C _ _ _ (file_copy-Keeps env C)
            (choose-Keeps (Did env) (stays env) C _ _ _ (file_read-Keeps env C) (still env _ _)))))
