-- ===== src/Review/Outcome.antt =====
-- local_first_orchestrator/review.py: the ways in which `SameTicketRepairCoordinator.apply` leaves a ticket.
use local_first_orchestrator.Base.{
  ℕ, String, ◌≡◌, ◌≢◌, ◌<◌, ◌≤◌, refl, true, false, Bool-cases, inl, inr, some, List, [], ◌∷◌,
  str_eq, eq_iff, str_lt, Every, find_where, is_nil, insert_text,
}
use local_first_orchestrator.States.{needs_triage, accepted, repairing}
use local_first_orchestrator.Ledger.{Ledger, Ticket}
use local_first_orchestrator.Tickets.Lifecycle.{has_id}
use local_first_orchestrator.Review.Normalize.{CriterionResult, ReviewResult, with_status}
use local_first_orchestrator.Review.Repair.{without, uncovered_failures}

-- A review that leaves nothing to repair: it passes, or it names no failed criterion and no blocker.
pub data IsClean (review : ReviewResult) : Type 0 where
  passes : review.verdict ≡ "pass" → IsClean review
  no_blockers :
      review.verdict ≢ "escalate"
      → Every (λ (c : CriterionResult). c.status ≢ "fail") review.criterion_results
      → review.findings ≡ []
      → IsClean review

-- Why a person is asked: the reviewer wants it, a failed criterion has no finding, or there are findings
-- and this was the last attempt.
pub data IsStuck (review : ReviewResult) (number most : ℕ) : Type 0 where
  escalates : review.verdict ≡ "escalate" → IsStuck review number most
  uncovered : uncovered_failures review ≢ [] → IsStuck review number most
  last_attempt : review.findings ≢ [] → most ≤ number → IsStuck review number most

-- The string that is returned, with the state of the ticket's row and the reason for it.
pub data IsSettled (review : ReviewResult) (number : ℕ) (row : Ticket) (out : String) : Type 0 where
  is_accepted :
      out ≡ "accepted" → row.state ≡ accepted → IsClean review → IsSettled review number row out
  is_triaged :
      out ≡ "triage"
      → row.state ≡ needs_triage
      → IsStuck review number row.max_attempts
      → IsSettled review number row out
  is_repaired :
      out ≡ "repair"
      → row.state ≡ repairing
      → uncovered_failures review ≡ []
      → review.findings ≢ []
      → number < row.max_attempts
      → IsSettled review number row out

pub record IsLanded (review : ReviewResult) (number : ℕ) (ticket out : String) (new : Ledger)
    : Type 0 where
  pub row : Ticket
  pub found : find_where (has_id ticket) new.tickets ≡ some row
  pub settled : IsSettled review number row out

pub is_nil-nil : {A : Type 0} (xs : List A) → is_nil xs ≡ true → xs ≡ []
is_nil-nil [] h = refl
is_nil-nil (x ∷ xs) h = absurd (cc)

pub is_nil-cons : {A : Type 0} (xs : List A) → is_nil xs ≡ false → xs ≢ []
is_nil-cons [] h e = absurd (cc)
is_nil-cons (x ∷ xs) h e = cc

insert_text_nonempty : (s : String) (ts : List String) → is_nil (insert_text s ts) ≡ false
insert_text_nonempty s [] = refl
insert_text_nonempty s (t ∷ ts) = elim (Bool-cases (str_lt s t)) [
  | inl e ↦ rw e refl
  | inr e ↦ elim (Bool-cases (str_eq s t)) [ inl f ↦ rw (e, f) refl | inr f ↦ rw (e, f) refl ]
]

pub without_none : (ss : List String) → is_nil (without [] ss) ≡ true → ss ≡ []
without_none [] h = refl
without_none (s ∷ ss) h = let some_left = insert_text_nonempty s (without [] ss) in absurd (cc)

pub none_failed :
    (cs : List CriterionResult)
    → with_status "fail" cs ≡ []
    → Every (λ (c : CriterionResult). c.status ≢ "fail") cs
unfolding with_status
none_failed [] h = tt
none_failed (c ∷ cs) h = elim (Bool-cases (str_eq c.status "fail")) [
  | inl e ↦ absurd (let h' = rw e at h in cc)
  | inr e ↦ (
    λ is_fail.
        let e' : str_eq c.status "fail" ≡ true = (eq_iff c.status "fail").1 is_fail in absurd (cc),
    none_failed cs (rw e at h),
  )
]
