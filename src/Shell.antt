-- ===== src/Shell.antt =====
-- Running commands: the Commander interfaces of internal/service, and what a service that runs
-- commands keeps.
use mingyue_go.Base.{List, Option, Text, [], none, some, ◌++◌, ◌∷◌}
use mingyue_go.Errors.{ErrorCode, OsError, Status}
use mingyue_go.Audit.{Journal, log_audit, success, failure}

-- What a command prints and returns.
abbrev pub Runner : Type 0
Runner = List Text → Text × Option OsError

-- The commands that were run, the oldest first, and the audit log.
pub record Shell : Type 0 where
  pub commands : List (List Text)
  pub journal : Journal

abbrev pub ran : List Text → Shell → Shell
ran command s = record s { commands = s.commands ++ command ∷ [] }

-- The end of an operation: the result, and one audit event.
abbrev pub audited : Text → Text → Text → Status → Option ErrorCode → Shell → Status × Shell
audited source action target result code s = (
  result,
  record s {
    journal =
        log_audit source action target (elim code [ none ↦ success | some c ↦ failure ]) code
          s.journal;
  },
)
