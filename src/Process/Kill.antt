-- ===== src/Process/Kill.antt =====
-- Kill of internal/service/process/manager.go: its audit event.
use mingyue_go.Base.{List, Option, Text, [], arith, codes, some, ℕ, ◌++◌, ◌∷◌, ◌≡◌}
use mingyue_go.Errors.{OsError}
use mingyue_go.Audit.{AuditEvent, event, log_audit, reported, verdict_word}
use mingyue_go.Process.{kill, pid_target}

-- With a logger, Kill appends one event: "success" with no code where the caller gets no error,
-- else "failure" with the code of the error that the caller gets.
pub kill-log_audit :
    (digits : ℕ → Text) (signal : Option OsError) (pid : ℕ) (source : Text) (es : List AuditEvent)
    → (kill digits signal pid source (some es)).1
      ≡ some (
          es
          ++ event source
              (codes "process.kill")
              (pid_target digits pid)
              (verdict_word (kill digits signal pid source (some es)).0)
              (reported (kill digits signal pid source (some es)).0)
            ∷ [])
unfolding kill log_audit reported
kill-log_audit digits signal pid source es = ground arith
