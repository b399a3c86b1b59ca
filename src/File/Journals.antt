-- ===== src/File/Journals.antt =====
-- internal/service/file/manager.go: the audit events of the operations.
use mingyue_go.Base.{Bool, List, Text, [], arith, inl, inr, some, true, ◌++◌, ◌∷◌, ◌≡◌}
use mingyue_go.Errors.{GoError, forbidden, Status, err, as_app}
use mingyue_go.Errors.Laws.{Result-cases}
use mingyue_go.Audit.{AuditEvent, event, log_audit, reported, verdict_word}
use mingyue_go.Path.{is_abs}
use mingyue_go.SafePath.Contained.{safe_path_refusal}
use mingyue_go.File.{Host, Manager}
use mingyue_go.File.Ops.{
  checked, mkdir, remove_path, move, copy, write, Request, run, action_of, target_of, mkdir_req,
  remove_req, move_req, copy_req, write_req,
}

-- The event that a request with this result should leave.
abbrev pub record_of : Text → Request → Status → AuditEvent
record_of source r st = event source (action_of r) (target_of r) (verdict_word st) (reported st)

module _ {W : Type 0} (m : Manager W) (rooted : is_abs m.root ≡ true) (h : Host W)
    (es : List AuditEvent) (j : h.journal ≡ some es) where
  refusal :
      (path : Text) {e : GoError}
      → checked m path h.world ≡ err e
      → reported (err e) ≡ some forbidden
  unfolding checked reported as_app
  refusal path k =
      ground (arith, safe_path_refusal (λ p. m.fs.eval_symlinks p h.world) m.root path rooted k)

  mkdir_journal :
      (path source : Text)
      → (mkdir m path source h).1.journal
        ≡ some (es ++ record_of source (mkdir_req path) (mkdir m path source h).0 ∷ [])
  mkdir_journal path source = elim (Result-cases (checked m path h.world)) [
    | inr (x, e) ↦ unfold mkdir log_audit in ground (arith, refusal path e)
    | inl (abs, e) ↦ unfold mkdir log_audit reported as_app in ground arith
  ]

  remove_path_journal :
      (path : Text) (recursive : Bool) (source : Text)
      → (remove_path m path recursive source h).1.journal
        ≡ some (
            es
            ++ record_of source
                (remove_req path recursive)
                (remove_path m path recursive source h).0
              ∷ [])
  remove_path_journal path recursive source = elim (Result-cases (checked m path h.world)) [
    | inr (x, e) ↦ unfold remove_path log_audit in ground (arith, refusal path e)
    | inl (abs, e) ↦ unfold remove_path log_audit reported as_app in ground arith
  ]

  write_journal :
      (path content source : Text)
      → (write m path content source h).1.journal
        ≡ some
            (es ++ record_of source (write_req path content) (write m path content source h).0 ∷ [])
  write_journal path content source = elim (Result-cases (checked m path h.world)) [
    | inr (x, e) ↦ unfold write log_audit in ground (arith, refusal path e)
    | inl (abs, e) ↦ unfold write log_audit reported as_app in ground arith
  ]

  move_journal :
      (src dst source : Text)
      → (move m src dst source h).1.journal
        ≡ some (es ++ record_of source (move_req src dst) (move m src dst source h).0 ∷ [])
  move_journal src dst source = elim (Result-cases (checked m src h.world)) [
    | inr (x, e) ↦ unfold move log_audit in ground (arith, refusal src e)
    | inl (a, e) ↦ elim (Result-cases (checked m dst h.world)) [
      | inr (x, d) ↦ unfold move log_audit in ground (arith, refusal dst d)
      | inl (b, d) ↦ unfold move log_audit reported as_app in ground arith
    ]
  ]

  copy_journal :
      (src dst source : Text)
      → (copy m src dst source h).1.journal
        ≡ some (es ++ record_of source (copy_req src dst) (copy m src dst source h).0 ∷ [])
  copy_journal src dst source = elim (Result-cases (checked m src h.world)) [
    | inr (x, e) ↦ unfold copy log_audit in ground (arith, refusal src e)
    | inl (a, e) ↦ elim (Result-cases (checked m dst h.world)) [
      | inr (x, d) ↦ unfold copy log_audit in ground (arith, refusal dst d)
      | inl (b, d) ↦ unfold copy log_audit reported as_app in ground arith
    ]
  ]

-- Under an absolute root and with a logger, each request that changes files appends one event: its
-- source, action and target, "success" with no code where the caller gets no error, else "failure"
-- with the code of the error that the caller gets.
pub run_journal :
    {W : Type 0} (m : Manager W)
    → is_abs m.root ≡ true
    → (r : Request) (source : Text) (h : Host W) (es : List AuditEvent) → h.journal ≡ some es
    → (run m r source h).1.journal ≡ some (es ++ record_of source r (run m r source h).0 ∷ [])
unfolding run
run_journal m rooted (mkdir_req path) source h es j = mkdir_journal m rooted h es j path source
run_journal m rooted (remove_req path recursive) source h es j =
    remove_path_journal m rooted h es j path recursive source
run_journal m rooted (move_req src dst) source h es j = move_journal m rooted h es j src dst source
run_journal m rooted (copy_req src dst) source h es j = copy_journal m rooted h es j src dst source
run_journal m rooted (write_req path content) source h es j =
    write_journal m rooted h es j path content source
