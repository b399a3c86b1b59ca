-- ===== src/Api/Processes.antt =====
-- internal/api/process.go, and processDispatchHandler of internal/api/router.go.
use mingyue_go.Base.{Text, [], codes, none, some, ℕ, ◌++◌, ◌∷◌}
use mingyue_go.Errors.{Status}
use mingyue_go.Auth.{operator}
use mingyue_go.Middleware.{Reply, reply, aborted}
use mingyue_go.Process.{Listing, listed, list_error, slice_panic, list_processes, get_process, kill}
use mingyue_go.Api.System.{Env, Payload, process_list, process, ApiHandler, System}
use mingyue_go.Api.Dispatch.{
  parsed, only, with_role, by_method, answer, confirm, failed, bad_input, operator_required,
  get_method, delete_method,
}
use mingyue_go.Api.Paths.{limit_of, page_number, parse_pid_from_path}

-- The answer to a call of List; a panic ends the request.
abbrev pub listing_reply : Listing → Reply Payload
listing_reply (listed procs total) = reply 200 (process_list total procs)
listing_reply (list_error e) = failed e
listing_reply slice_panic = aborted

module _ {W T : Type 0} (env : Env W T) where
  abbrev pub list_reply : Text → Text → Reply Payload
  list_reply limit page = elim (limit_of limit) [
    | none ↦ bad_input "limit must be a non-negative integer"
    | some limit ↦ elim (page_number page) [
      | none ↦ bad_input "page must be a positive integer"
      | some page ↦
          listing_reply
            (list_processes env.pids env.process_info (record { limit = limit; page = page }))
    ]
  ]

  -- processListHandler
  unfoldable pub process_list_handler : ApiHandler W T
  process_list_handler =
      only get_method
        (λ r role s. (list_reply (r.query (codes "limit")) (r.query (codes "page")), s))

  abbrev with_pid : (ℕ → ApiHandler W T) → ApiHandler W T
  with_pid = parsed (λ r. parse_pid_from_path r.path) "invalid pid in path"

  -- processGetHandler
  unfoldable pub process_get_handler : ApiHandler W T
  process_get_handler =
      only get_method
        (with_pid (λ pid r role s. (answer process (get_process env.process_info pid), s)))

  -- mgr.Kill on the system: the signal is sent, and the audit log has one more event.
  abbrev pub kill_process : ℕ → Text → System W T → Status × System W T
  kill_process pid source s =
      let (status, journal) = kill env.digits (env.signal pid) pid source s.journal in
      (status, record s { signals = s.signals ++ pid ∷ []; journal = journal })

  -- processKillHandler
  unfoldable pub process_kill_handler : ApiHandler W T
  process_kill_handler = only delete_method (
      with_role operator operator_required
        (with_pid (λ pid r role s. confirm 204 (kill_process pid r.remote_addr s))))

  -- processDispatchHandler
  unfoldable pub process_dispatch_handler : ApiHandler W T
  process_dispatch_handler =
      by_method ((get_method, process_get_handler) ∷ (delete_method, process_kill_handler) ∷ [])
