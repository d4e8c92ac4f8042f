-- ===== src/Review/Records.antt =====
-- local_first_orchestrator/ledger.py: what the ledger keeps of a review.
use local_first_orchestrator.Base.{
  ℕ, String, Bool, true, not, ◌&&◌, ◌||◌, Option, none, some, [], ◌∷◌, Result, err, value_error,
  integrity_error, Tx, ◌>>=◌, ◌>>◌, pure, gets, modify, require, transaction, str_eq, ◌==◌,
  if◌then◌else◌, find_where, count_where, select_where, update_where,
}
use local_first_orchestrator.Ledger.{
  Ledger, Review, Finding, CriterionStatus, Payload, append_event, num, text,
}
use local_first_orchestrator.Tickets.Lifecycle.{ticket_event}
use local_first_orchestrator.Tickets.Attempts.{is_known}
use local_first_orchestrator.Review.Normalize.{ReviewFinding, ReviewResult}

abbrev of_attempt : String → ℕ → Review → Bool
of_attempt ticket number r = str_eq r.ticket_id ticket && r.attempt_number == number

-- INSERT OR REPLACE
unfoldable pub record_review : String → ℕ → ReviewResult → ℕ → Ledger → Result (Unit {0}) × Ledger
unfolding transaction append_event
record_review ticket number review now = transaction (do
  known ← gets (is_known ticket)
  require known integrity_error
  modify (λ db. record db {
    reviews =
        (record {
          ticket_id = ticket;
          attempt_number = number;
          verdict = review.verdict;
          payload = review.raw;
          created_at = now;
        })
        ∷ select_where (λ r. not (of_attempt ticket number r)) db.reviews;
  })
  _ ←
      append_event
        (ticket_event ticket "review_recorded" none none "local_reviewer"
          (("attempt_number", num number) ∷ ("verdict", text review.verdict) ∷ []))
        now
  pure tt)

abbrev is_repeat : String → String → Finding → Bool
is_repeat ticket fingerprint f = str_eq f.ticket_id ticket && str_eq f.fingerprint fingerprint

-- `finding.__dict__`, its names sorted
abbrev finding_payload : ReviewFinding → Payload
finding_payload f =
    ("criterion_id", text f.criterion_id)
    ∷ ("evidence", text f.evidence)
    ∷ ("file", text f.file)
    ∷ ("fingerprint", text f.fingerprint)
    ∷ ("minimal_repair", text f.minimal_repair)
    ∷ ("symbol", text f.symbol)
    ∷ ("verification", text f.verification)
    ∷ []

abbrev finding_row : String → ℕ → ReviewFinding → ℕ → Finding
finding_row ticket number f now = record {
  ticket_id = ticket;
  attempt_number = number;
  fingerprint = f.fingerprint;
  payload = finding_payload f;
  created_at = now;
}

-- The number of times that the finding has been recorded for the ticket
unfoldable pub record_review_finding : String → ℕ → ReviewFinding → ℕ → Ledger → Result ℕ × Ledger
unfolding transaction append_event
record_review_finding ticket number f now = transaction (do
  known ← gets (is_known ticket)
  require known integrity_error
  modify (λ db. record db { findings = finding_row ticket number f now ∷ db.findings })
  occurrence ← gets (λ db. count_where (is_repeat ticket f.fingerprint) db.findings)
  _ ←
      append_event
        (ticket_event ticket "review_finding_recorded" none none "local_reviewer" (
          ("attempt_number", num number)
          ∷ ("fingerprint", text f.fingerprint)
          ∷ ("occurrence", num occurrence)
          ∷ []))
        now
  pure occurrence)

abbrev pub of_criterion : String → String → CriterionStatus → Bool
of_criterion ticket criterion c = str_eq c.ticket_id ticket && str_eq c.criterion_id criterion

-- `previous is None or previous["status"] != status`
abbrev is_news : String → Option CriterionStatus → Bool
is_news status none = true
is_news status (some c) = not (str_eq c.status status)

abbrev upsert : CriterionStatus → Option CriterionStatus → Ledger → Ledger
upsert c none db = record db { criterion_statuses = c ∷ db.criterion_statuses }
upsert c (some _) db = record db {
  criterion_statuses =
      update_where (of_criterion c.ticket_id c.criterion_id) (λ _. c) db.criterion_statuses;
}

abbrev criterion_event : String → String
criterion_event status =
    if str_eq status "accepted" then "criterion_closed" else "criterion_reopened"

unfoldable pub write_criterion_status : CriterionStatus → ℕ → Tx Ledger (Unit {0})
unfolding append_event
write_criterion_status c now = do
  known ← gets (is_known c.ticket_id)
  require known integrity_error
  previous ← gets (λ db. find_where (of_criterion c.ticket_id c.criterion_id) db.criterion_statuses)
  modify (upsert c previous)
  (if is_news c.status previous
      then (do
        _ ←
            append_event
              (ticket_event c.ticket_id (criterion_event c.status) none none "controller"
                (("criterion_id", text c.criterion_id) ∷ ("evidence", text c.evidence) ∷ []))
              now
        pure tt)
      else pure tt)

unfoldable pub set_criterion_status :
    String → String → String → String → ℕ → Ledger → Result (Unit {0}) × Ledger
unfolding transaction write_criterion_status
set_criterion_status ticket criterion status evidence now db =
    if str_eq status "accepted" || str_eq status "open"
    then transaction
        (write_criterion_status
          (record {
            ticket_id = ticket;
            criterion_id = criterion;
            status = status;
            evidence = evidence;
            updated_at = now;
          })
          now)
        db
    else (err (value_error "unsupported criterion status"), db)

unfoldable pub criterion_status : String → String → Ledger → Option String
criterion_status ticket criterion db =
    elim (find_where (of_criterion ticket criterion) db.criterion_statuses) [
      | none ↦ none
      | some c ↦ some c.status
    ]
