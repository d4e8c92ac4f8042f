-- ===== src/Review/Repair.antt =====
-- local_first_orchestrator/review.py: `SameTicketRepairCoordinator.apply`, what a review does to its
-- ticket.
use local_first_orchestrator.Ledger.Calls.{after_call}
use local_first_orchestrator.Base.{
  ℕ, String, Bool, true, false, not, ◌||◌, none, some, List, [], ◌∷◌, Result, ok, err, value_error,
  key_error, str_eq, leb, if◌then◌else◌, find_where, Host, contains, is_nil, insert_text,
}
use local_first_orchestrator.States.{
  CanonicalState, state_eq, needs_triage, local_review, accepted, repairing,
}
use local_first_orchestrator.Ledger.{Ledger, Ticket, Payload, flag, num, text, texts}
use local_first_orchestrator.Tickets.Lifecycle.{has_id, transition}
use local_first_orchestrator.Tickets.Attempts.{ensure_attempt}
use local_first_orchestrator.Review.Normalize.{
  ReviewFinding, CriterionResult, ReviewResult, with_status,
}
use local_first_orchestrator.Review.Records.{
  record_review, record_review_finding, set_criterion_status,
}

-- `ledger.get_ticket`
abbrev pub get_ticket : String → Ledger → Result Ticket × Ledger
get_ticket ticket db = elim (find_where (has_id ticket) db.tickets) [
  | none ↦ (err (key_error ticket), db)
  | some t ↦ (ok t, db)
]

abbrev pub covered_criteria : List ReviewFinding → List String
covered_criteria [] = []
covered_criteria (f ∷ fs) = f.criterion_id ∷ covered_criteria fs

-- `sorted(failed - covered)`
abbrev pub without : List String → List String → List String
without covered [] = []
without covered (s ∷ ss) =
    let rest = without covered ss in if contains s covered then rest else insert_text s rest

abbrev pub uncovered_failures : ReviewResult → List String
uncovered_failures review =
    without (covered_criteria review.findings) (with_status "fail" review.criterion_results)

-- The criteria that a review passes, one after the other
unfoldable pub accept_criteria :
    String → List CriterionResult → ℕ → Ledger → Result (Unit {0}) × Ledger
accept_criteria ticket [] now db = (ok tt, db)
accept_criteria ticket (c ∷ cs) now db = elim (str_eq c.status "pass") [
  | true ↦
      after_call (set_criterion_status ticket c.criterion_id "accepted" c.evidence now db)
        (λ _ db'. accept_criteria ticket cs now db')
  | false ↦ accept_criteria ticket cs now db
]

-- The loop over the findings: whether one was recorded before
unfoldable pub record_findings :
    String → ℕ → List ReviewFinding → ℕ → Bool → Ledger → Result Bool × Ledger
record_findings ticket number [] now repeated db = (ok repeated, db)
record_findings ticket number (f ∷ fs) now repeated db =
    after_call (record_review_finding ticket number f now db)
      (λ occurrence db'. record_findings ticket number fs now (repeated || leb 2 occurrence) db')

module _ (host : Host) (ticket : String) (number : ℕ) (review : ReviewResult) (now : ℕ) where
  -- The last call, and the string that is returned
  abbrev pub move : CanonicalState → Payload → String → Ledger → Result String × Ledger
  move target payload outcome db =
      after_call (transition host ticket target "controller" payload now db)
        (λ _ db'. (ok outcome, db'))

  -- `if not review.suggestions: ensure_attempt`
  abbrev pub close_attempt : Ledger → Result (Unit {0}) × Ledger
  close_attempt db =
      if is_nil review.suggestions then ensure_attempt ticket number now db else (ok tt, db)

  unfoldable pub pass : Ledger → Result String × Ledger
  unfolding transition
  pass db = after_call (close_attempt db) (λ _ db1.
      after_call (accept_criteria ticket review.criterion_results now db1)
        (λ _ db2. move accepted (("review_verdict", text "pass") ∷ []) "accepted" db2))

  unfoldable pub repair_or_triage : Bool → Ticket → Ledger → Result String × Ledger
  unfolding transition
  repair_or_triage repeated t db =
      if leb t.max_attempts number
      then move needs_triage
          (("review_verdict", text "repair")
            ∷ ("repeated_fingerprint", flag repeated)
            ∷ ("attempt_number", num number)
            ∷ [])
          "triage" db
      else move repairing (("review_verdict", text "repair") ∷ ("attempt_number", num number) ∷ [])
          "repair" db

  unfoldable pub send_back : Ledger → Result String × Ledger
  unfolding repair_or_triage
  send_back db = after_call (ensure_attempt ticket number now db) (λ _ db1.
      after_call (record_findings ticket number review.findings now false db1) (λ repeated db2.
        after_call (get_ticket ticket db2) (λ t db3. repair_or_triage repeated t db3)))

  unfoldable pub repair : Ledger → Result String × Ledger
  unfolding send_back transition
  repair db =
      if not (is_nil (uncovered_failures review))
      then move needs_triage
          (("review_verdict", text "repair")
            ∷ ("invalid_repair_missing_blocking_findings", texts (uncovered_failures review))
            ∷ [])
          "triage" db
      else (if is_nil review.findings
          then move accepted
              (("review_verdict", text "repair") ∷ ("downgraded_to_suggestions", flag true) ∷ [])
              "accepted" db
          else send_back db)

  -- After the review was recorded
  unfoldable pub decide : Ledger → Result String × Ledger
  unfolding pass repair transition
  decide db =
      if str_eq review.verdict "pass"
      then pass db
      else (if str_eq review.verdict "escalate"
          then move needs_triage (("review_verdict", text "escalate") ∷ []) "triage" db
          else repair db)

  unfoldable pub apply : Ledger → Result String × Ledger
  unfolding decide
  apply db = after_call (get_ticket ticket db) (λ t db1.
      if state_eq t.state needs_triage
      then (ok "triage", db1)
      else (if not (state_eq t.state local_review)
          then (err (value_error "review can only be applied from local_review"), db1)
          else after_call (record_review ticket number review now db1) (λ _ db2. decide db2)))
