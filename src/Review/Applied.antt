-- ===== src/Review/Applied.antt =====
-- local_first_orchestrator/review.py: `SameTicketRepairCoordinator.apply` on every path.
use local_first_orchestrator.Ledger.Calls.{pair_ok, after_call-ok}
use mathlib.Core.Path.{subst}
use mathlib.Core.Option.{some-injective}
use local_first_orchestrator.Base.{
  ℕ, String, ◌≡◌, ◌≢◌, ◌⊎◌, ◌<◌, ◌≤◌, ◌∙◌, refl, sym, ap, Bool, true, false, Bool-cases, inl, inr,
  some, Option-cases, [], ok, str_eq, eq_iff, leb, leb→le, leb→lt, Every, find_where, Host, is_nil,
}
use local_first_orchestrator.States.{
  CanonicalState, state_eq, state_eq→≡, needs_triage, local_review, accepted, repairing,
}
use local_first_orchestrator.Ledger.{Ledger, Ticket, Payload}
use local_first_orchestrator.Tickets.Lifecycle.{has_id, enter, transition}
use local_first_orchestrator.Tickets.Attempts.{ensure_attempt}
use local_first_orchestrator.Tickets.Transitions.{transition_outcome}
use local_first_orchestrator.Review.Normalize.{CriterionResult, ReviewResult, with_status}
use local_first_orchestrator.Review.Records.{record_review}
use local_first_orchestrator.Review.Repair.{
  get_ticket, without, covered_criteria, uncovered_failures, accept_criteria, record_findings, move,
  close_attempt, pass, repair_or_triage, send_back, repair, decide, apply,
}
use local_first_orchestrator.Review.Outcome.{
  passes, no_blockers, escalates, uncovered, last_attempt, IsSettled, is_accepted, is_triaged,
  is_repaired, IsLanded, is_nil-nil, is_nil-cons, without_none, none_failed,
}

module _ (host : Host) (ticket : String) (number : ℕ) (review : ReviewResult) (now : ℕ) where
  -- The last transition, for any reason that follows from the row's number of attempts.
  move-IsLanded :
      (target : CanonicalState) (payload : Payload) (outcome : String) (db : Ledger) {out : String}
      {new : Ledger}
      → ((row : Ticket)
          → find_where (has_id ticket) db.tickets ≡ some row
          → IsSettled review number (enter target now row) outcome)
      → move host ticket number review now target payload outcome db ≡ (ok out, new)
      → IsLanded review number ticket out new
  move-IsLanded target payload outcome db {out} {new} why h =
      let moved = transition host ticket target "controller" payload now db in
      let last = after_call-ok moved (λ _ db'. (ok outcome, db')) h in
      let same = pair_ok last.3 in
      let m =
        (transition_outcome host ticket target "controller" payload now db).1
          (ap (λ x. x.0) last.2) in
      let landed : moved.1 ≡ new = ap (λ x. x.1) last.2 ∙ same.1 in
      record {
        row = enter target now m.before;
        found =
            subst
              (λ (d : Ledger).
                find_where (has_id ticket) d.tickets ≡ some (enter target now m.before))
              landed m.is;
        settled =
            subst (IsSettled review number (enter target now m.before)) same.0 (why m.before m.was);
      }

  pass-IsLanded :
      (db : Ledger) {out : String} {new : Ledger}
      → review.verdict ≡ "pass"
      → pass host ticket number review now db ≡ (ok out, new)
      → IsLanded review number ticket out new
  unfolding pass
  pass-IsLanded db v h =
      let first = after_call-ok (close_attempt host ticket number review now db) _ h in
      let second =
        after_call-ok (accept_criteria ticket review.criterion_results now first.1) _ first.3 in
      move-IsLanded accepted _ "accepted" second.1 (λ row _. is_accepted refl refl (passes v))
        second.3

  get_ticket-found :
      (db : Ledger) {t : Ticket} {db' : Ledger}
      → get_ticket ticket db ≡ (ok t, db')
      → (find_where (has_id ticket) db.tickets ≡ some t) × (db ≡ db')
  get_ticket-found db h = elim (Option-cases (find_where (has_id ticket) db.tickets)) [
    | inl e ↦ absurd (let h' = ap (λ x. x.0) (rw (get_ticket, e) at h) in cc)
    | inr (r, e) ↦ let same = pair_ok (rw (get_ticket, e) at h) in (e ∙ ap some same.0, same.1)
  ]

  repair_or_triage-IsLanded :
      (repeated : Bool) (t : Ticket) (db : Ledger) {out : String} {new : Ledger}
      → find_where (has_id ticket) db.tickets ≡ some t
      → uncovered_failures review ≡ []
      → review.findings ≢ []
      → repair_or_triage host ticket number review now repeated t db ≡ (ok out, new)
      → IsLanded review number ticket out new
  unfolding repair_or_triage
  repair_or_triage-IsLanded repeated t db f covered blocked h =
      elim (Bool-cases (leb t.max_attempts number)) [
        | inl e ↦
            move-IsLanded needs_triage _ "triage" db
              (λ row g.
                let same = ap (λ (x : Ticket). x.max_attempts) (some-injective _ _ (sym f ∙ g)) in
                is_triaged refl refl (
                  last_attempt blocked
                    (subst (λ m. m ≤ number) same (leb→le t.max_attempts number e))))
              (rw e at h)
        | inr e ↦
            move-IsLanded repairing _ "repair" db
              (λ row g.
                let same = ap (λ (x : Ticket). x.max_attempts) (some-injective _ _ (sym f ∙ g)) in
                is_repaired refl refl covered blocked
                  (subst (λ m. number < m) same (leb→lt t.max_attempts number e)))
              (rw e at h)
      ]

  send_back-IsLanded :
      (db : Ledger) {out : String} {new : Ledger}
      → uncovered_failures review ≡ []
      → review.findings ≢ []
      → send_back host ticket number review now db ≡ (ok out, new)
      → IsLanded review number ticket out new
  unfolding send_back
  send_back-IsLanded db covered blocked h =
      let first = after_call-ok (ensure_attempt ticket number now db) _ h in
      let second =
        after_call-ok (record_findings ticket number review.findings now false first.1) _ first.3 in
      let third = after_call-ok (get_ticket ticket second.1) _ second.3 in
      let read = get_ticket-found second.1 third.2 in
      repair_or_triage-IsLanded second.0 third.0 third.1
        (subst (λ (d : Ledger). find_where (has_id ticket) d.tickets ≡ some third.0) read.1 read.0)
        covered blocked third.3

  no_failure :
      uncovered_failures review ≡ []
      → review.findings ≡ []
      → Every (λ (c : CriterionResult). c.status ≢ "fail") review.criterion_results
  no_failure covered none_found =
      let failed = with_status "fail" review.criterion_results in
      none_failed review.criterion_results (
        without_none failed
          (ap is_nil (subst (λ fs. without (covered_criteria fs) failed ≡ []) none_found covered)))

  repair-IsLanded :
      (db : Ledger) {out : String} {new : Ledger}
      → review.verdict ≢ "escalate"
      → repair host ticket number review now db ≡ (ok out, new)
      → IsLanded review number ticket out new
  unfolding repair
  repair-IsLanded db v h = elim (Bool-cases (is_nil (uncovered_failures review))) [
    | inr e ↦
        move-IsLanded needs_triage _ "triage" db
          (λ row _. is_triaged refl refl (uncovered (is_nil-cons _ e))) (rw e at h)
    | inl e ↦
        let covered = is_nil-nil (uncovered_failures review) e in
        elim (Bool-cases (is_nil review.findings)) [
          | inl f ↦
              let none_found = is_nil-nil review.findings f in
              move-IsLanded accepted _ "accepted" db
                (λ row _.
                  is_accepted refl refl (no_blockers v (no_failure covered none_found) none_found))
                (rw (e, f) at h)
          | inr f ↦ send_back-IsLanded db covered (is_nil-cons review.findings f) (rw (e, f) at h)
        ]
  ]

  decide-IsLanded :
      (db : Ledger) {out : String} {new : Ledger}
      → decide host ticket number review now db ≡ (ok out, new)
      → IsLanded review number ticket out new
  unfolding decide
  decide-IsLanded db h = elim (Bool-cases (str_eq review.verdict "pass")) [
    | inl p ↦ pass-IsLanded db ((eq_iff review.verdict "pass").0 p) (rw p at h)
    | inr p ↦ elim (Bool-cases (str_eq review.verdict "escalate")) [
      | inl e ↦
          move-IsLanded needs_triage _ "triage" db
            (λ row _. is_triaged refl refl (escalates ((eq_iff review.verdict "escalate").0 e)))
            (rw (p, e) at h)
      | inr e ↦
          repair-IsLanded db
            (λ v.
              let t : str_eq review.verdict "escalate" ≡ true =
                (eq_iff review.verdict "escalate").1 v in
              absurd (cc))
            (rw (p, e) at h)
    ]
  ]

-- A review that is applied without an exception finds the ticket waiting for triage, and then returns
-- "triage" and changes nothing; or finds it in local review, and then returns "accepted", "triage" or
-- "repair" with the ticket in that state: accepted only if the review passes, or does not escalate, names
-- no failed criterion and has no finding; sent to triage only if the review escalates, a failed criterion
-- has no finding, or there are findings and the attempt was the last; sent back for repair only with a
-- finding, each failed criterion having one, and an attempt left.
pub review_applied :
    (host : Host) (ticket : String) (number : ℕ) (review : ReviewResult) (now : ℕ) (db new : Ledger)
    (out : String)
    → apply host ticket number review now db ≡ (ok out, new)
    → (t : Ticket) × (find_where (has_id ticket) db.tickets ≡ some t)
      × (((t.state ≡ needs_triage) × (out ≡ "triage") × (new ≡ db))
          ⊎ ((t.state ≡ local_review) × IsLanded review number ticket out new))
unfolding apply
review_applied host ticket number review now db new out h =
    let first = after_call-ok (get_ticket ticket db) _ h in
    let read = get_ticket-found host ticket number review now db first.2 in
    let t = first.0 in
    (
      t,
      read.0,
      elim (Bool-cases (state_eq t.state needs_triage)) [
        | inl e ↦
            let same = pair_ok (rw e at first.3) in
            inl (state_eq→≡ t.state needs_triage e, sym same.0, sym same.1 ∙ sym read.1)
        | inr e ↦ elim (Bool-cases (state_eq t.state local_review)) [
          | inl f ↦
              let second =
                after_call-ok (record_review ticket number review now first.1) _
                  (rw (e, f) at first.3) in
              inr (
                state_eq→≡ t.state local_review f,
                decide-IsLanded host ticket number review now second.1 second.3,
              )
          | inr f ↦ absurd (let h' = ap (λ x. x.0) (rw (e, f) at first.3) in cc)
        ]
      ],
    )
