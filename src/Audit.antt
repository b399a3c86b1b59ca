-- ===== src/Audit.antt =====
-- internal/audit/logger.go, and the logAudit helper that every service repeats.
use mingyue_go.Base.{
  List, Option, Text, [], codes, if◌then◌else◌, none, some, suc, take, ℕ, ◌++◌, ◌==◌, ◌∷◌,
}
use mingyue_go.Errors.{ErrorCode, code_text, Status, ok, err, as_app}

pub record AuditEvent : Type 0 where
  -- 0 is the zero time.
  pub time : ℕ
  pub source : Text
  pub action : Text
  pub target : Text
  pub result : Text
  -- "" on success
  pub error_code : Text
  pub http_status : ℕ

-- A service's logger: none where it is nil, else the events that were handed to Log, the newest
-- last. The callers ignore the error that Log returns.
abbrev pub Journal : Type 0
Journal = Option (List AuditEvent)

abbrev pub success : Text
success = codes "success"

abbrev pub failure : Text
failure = codes "failure"

abbrev pub event : Text → Text → Text → Text → Option ErrorCode → AuditEvent
event source action target result code = record {
  time = 0;
  source = source;
  action = action;
  target = target;
  result = result;
  error_code = elim code [ none ↦ [] | some c ↦ code_text c ];
  http_status = 0;
}

-- logAudit: nothing is recorded without a logger.
unfoldable pub log_audit : Text → Text → Text → Text → Option ErrorCode → Journal → Journal
log_audit source action target result code none = none
log_audit source action target result code (some events) =
    some (events ++ event source action target result code ∷ [])

-- FileLogger.Log: an event with no time gets the present time.
unfoldable pub stamp : ℕ → AuditEvent → AuditEvent
stamp now e = if e.time == 0 then record e { time = now } else e

-- The lines of the log file after Log, where the write succeeds.
unfoldable pub log : ℕ → AuditEvent → List AuditEvent → List AuditEvent
unfolding stamp
log now e lines = lines ++ stamp now e ∷ []

-- dirOf: what stands before the last '/'; "" where there is none.
abbrev last_slash : ℕ → Option ℕ → Text → Option ℕ
last_slash i found [] = found
last_slash i found (c ∷ s) = last_slash (suc i) (if c == b'/' then some i else found) s

unfoldable pub dir_of : Text → Text
dir_of path = elim (last_slash 0 none path) [ none ↦ [] | some i ↦ take i path ]

-- The code that a client sees for a result, none on success.
unfoldable pub reported : Status → Option ErrorCode
unfolding as_app
reported (ok _) = none
reported (err e) = elim (as_app e) [ none ↦ none | some a ↦ some a.0 ]

abbrev pub verdict_word : Status → Text
verdict_word (ok _) = success
verdict_word (err e) = failure
