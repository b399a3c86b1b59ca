-- ===== src/Process.antt =====
-- internal/service/process/manager.go: pages of processes, and killing one. The system's answers
-- are the arguments: the process identifiers, which of them can still be read, and the signal.
pub mod Pages
pub mod Kill
pub mod Bounds
use mingyue_go.Base.{
  Bool, List, Option, Text, [], codes, drop, if◌then◌else◌, leb, length, ltb, none, some, take, ℕ,
  ◌%◌, ◌*◌, ◌++◌, ◌+◌, ◌-◌, ◌==◌, ◌^◌, ◌∷◌,
}
use mingyue_go.Errors.{
  ErrorCode, GoError, OsError, wrapped, not_found, internal, forbidden, os, lit, dec, Result, ok,
  err, Status, done, cause_is_esrch, is_permission,
}
use mingyue_go.Audit.{Journal, log_audit, success, failure}

-- domain.Process of internal/domain/process.go; the share of the processor in thousandths.
pub record ProcessInfo : Type 0 where
  pub pid : ℕ
  pub name : Text
  pub status : Text
  pub cpu : ℕ
  pub mem_rss : ℕ
  pub user : Text
  pub cmdline : Text

-- A negative limit or page acts as 0 does.
pub record ListOptions : Type 0 where
  pub limit : ℕ
  pub page : ℕ

-- What List returns, or the panic of a slice expression with a negative bound.
pub data Listing : Type 0 where
  listed : List ProcessInfo → ℕ → Listing
  list_error : GoError → Listing
  slice_panic : Listing

-- int on a 64-bit machine: a number from 0 to 2 ^ 64 - 1, negative from 2 ^ 63 on
abbrev pub wrap : ℕ → ℕ
wrap n = n % 2 ^ 64

abbrev pub is_negative : ℕ → Bool
is_negative n = leb (2 ^ 63) n

-- The processes that can still be read; one that has gone is skipped.
unfoldable pub infos : (ℕ → Result ProcessInfo) → List ℕ → List ProcessInfo
infos info [] = []
infos info (pid ∷ pids) = elim (info pid) [ err e ↦ infos info pids | ok p ↦ p ∷ infos info pids ]

-- The page, counted from 1
abbrev pub page_of : ListOptions → ℕ
page_of opts = if ltb opts.page 1 then 1 else opts.page

-- (page - 1) * opts.Limit, as int computes it
abbrev pub start_of : ListOptions → ℕ
start_of opts = wrap ((page_of opts - 1) * opts.limit)

-- pids[start:end] for a non-negative start below len(pids); an end that wrapped is negative, and
-- below the start.
abbrev pub slice : ListOptions → ℕ → List ℕ → Option (List ℕ)
slice opts start pids =
    let end = wrap (start + opts.limit) in
    if is_negative end
    then none
    else some
        (take ((if ltb (length pids) end then length pids else end) - start) (drop start pids))

-- List
unfoldable pub list_processes : Result (List ℕ) → (ℕ → Result ProcessInfo) → ListOptions → Listing
unfolding infos
list_processes answer info opts = elim answer [
  | err e ↦ list_error (wrapped internal (lit "failed to list processes" ∷ []) e)
  | ok pids ↦
      if opts.limit == 0
      then listed (infos info pids) (length pids)
      else if is_negative (start_of opts)
      then slice_panic
      else if leb (length pids) (start_of opts)
      then listed [] (length pids)
      else elim (slice opts (start_of opts) pids) [
        | none ↦ slice_panic
        | some window ↦ listed (infos info window) (length pids)
      ]
]

-- Get
unfoldable pub get_process : (ℕ → Result ProcessInfo) → ℕ → Result ProcessInfo
get_process info pid = elim (info pid) [
  | ok p ↦ ok p
  | err e ↦ err (wrapped not_found (lit "process " ∷ dec pid ∷ lit " not found" ∷ []) e)
]

-- The code of a signal that failed with `e`.
unfoldable pub kill_code : OsError → ErrorCode
kill_code e =
    if cause_is_esrch (some e)
    then not_found
    else if is_permission (os e)
    then forbidden
    else internal

-- The target of the audit event, with the decimal digits of the identifier
abbrev pub pid_target : (ℕ → Text) → ℕ → Text
pid_target digits pid = codes "pid:" ++ digits pid

-- Kill, where the signal has the given outcome
unfoldable pub kill : (ℕ → Text) → Option OsError → ℕ → Text → Journal → Status × Journal
unfolding kill_code
kill digits signal pid source journal = elim signal [
  | none ↦
      (done, log_audit source (codes "process.kill") (pid_target digits pid) success none journal)
  | some e ↦ (
    err (wrapped (kill_code e) (lit "failed to kill process " ∷ dec pid ∷ []) (os e)),
    log_audit source (codes "process.kill") (pid_target digits pid) failure (some (kill_code e))
        journal,
  )
]
