-- ===== src/Stages/Safety.antt =====
-- local_first_orchestrator/ledger.py: when `scheduler_reconciliation` lets a stage's effect be made again.
use mathlib.Core.Path.{subst}
use local_first_orchestrator.Base.{
  String, ◌≡◌, refl, sym, Bool, Bool-cases, true, false, not, ◌||◌, Option, none, some, ok,
  ok_injective, str_eq, eq_iff, is_null, is_null→none, coalesce, on_if, on_row, inl, inr, arith,
}
use local_first_orchestrator.Ledger.{
  Ledger, StageClaim, ClaimIdentity, CandidateIdentity, malformed, identified, ModelInvocation,
  InvocationStatus, started, finished, timed_out, process_error, malformed_output,
  RetryAuthorization, PaidReservation, ReservationStatus, in_flight, completed, released,
  unknown_outcome, provider_rejected,
}
use local_first_orchestrator.Stages.Claims.{is_finalized, get_claim}
use local_first_orchestrator.Stages.Reconciliation.{
  Decision, stage_family, last_invocation, retry_authorization, decide_invocation, decide_failed,
  board_pending, comment_pending, reservation_for, decide_reservation, no_identity,
}
use local_first_orchestrator.Stages.Decide.{
  decide_other, is_model_family, is_paid_family, decide_paid, after_model, decide_started,
  decide_identity, decide_claim, scheduler_reconciliation,
}
use local_first_orchestrator.Stages.Release.{is_redo, has_failed}

abbrev pub identity_of : Option CandidateIdentity → ClaimIdentity
identity_of (some (identified i)) = i
identity_of _ = no_identity

-- What lets the effect of a claim be made (again): no model's or provider's work is done twice.
pub data Permits (db : Ledger) (c : StageClaim) : Type 0 where
  never_started : c.side_effect_started_at ≡ none → Permits db c
  not_reserved :
      is_paid_family (stage_family c.stage) ≡ true
      → reservation_for c.claim_id db ≡ none
      → Permits db c
  rejected :
      (r : PaidReservation)
      → is_paid_family (stage_family c.stage) ≡ true
      → reservation_for c.claim_id db ≡ some r
      → r.status ≡ provider_rejected
      → r.provider_retryable ≡ some true
      → Permits db c
  repeat_authorized :
      (i : ModelInvocation) (a : RetryAuthorization)
      → stage_family c.stage ≡ "review"
      → last_invocation c.ticket_id (identity_of c.identity).attempt_number "review" db ≡ some i
      → has_failed i ≡ true
      → retry_authorization c.ticket_id
          (identity_of c.identity).attempt_number
          (coalesce (identity_of c.identity).implementation_diff_hash "")
          i.invocation_id
          db
        ≡ some a
      → Permits db c
  no_inference :
      is_model_family (stage_family c.stage) ≡ false
      → is_paid_family (stage_family c.stage) ≡ false
      → Permits db c

abbrev OnlyIfPermitted : Ledger → StageClaim → Decision → Type 0
OnlyIfPermitted db c d = is_redo d.action ≡ true → Permits db c

is_retryable : (o : Option Bool) → coalesce o false ≡ true → o ≡ some true
is_retryable none h = absurd (cc)
is_retryable (some true) h = refl
is_retryable (some false) h = absurd (cc)

reservation_guarded :
    (db : Ledger) (c : StageClaim) (r : PaidReservation)
    → is_paid_family (stage_family c.stage) ≡ true
    → reservation_for c.claim_id db ≡ some r
    → (s : ReservationStatus) → r.status ≡ s
    → is_redo (decide_reservation c r s).action ≡ true
    → Permits db c
reservation_guarded db c r paid f completed e h = absurd (cc)
reservation_guarded db c r paid f unknown_outcome e h = absurd (cc)
reservation_guarded db c r paid f in_flight e h = absurd (cc)
reservation_guarded db c r paid f released e h = absurd (cc)
reservation_guarded db c r paid f provider_rejected e h =
    on_if (OnlyIfPermitted db c) (coalesce r.provider_retryable false) _ _
      (λ y _. rejected r paid f e (is_retryable r.provider_retryable y)) (λ _ h. absurd (cc)) h

paid_guarded :
    (db : Ledger) (c : StageClaim)
    → is_paid_family (stage_family c.stage) ≡ true
    → OnlyIfPermitted db c (decide_paid c db)
unfolding decide_paid
paid_guarded db c paid =
    on_row (OnlyIfPermitted db c) (reservation_for c.claim_id db) _ _ (λ f _. not_reserved paid f)
      (λ r f. reservation_guarded db c r paid f r.status refl)

-- A model's stage without an invocation stops.
no_invocation :
    (db : Ledger) (c : StageClaim) (identity : ClaimIdentity) (family : String)
    → is_model_family family ≡ true
    → is_redo (after_model c identity family db).action ≡ false
unfolding decide_other
no_invocation db c identity family m =
    let stops : String → Type 0 = λ f. is_redo (after_model c identity f db).action ≡ false in
    elim (Bool-cases (str_eq "implementation" family)) [
      | inl e ↦ subst stops ((eq_iff "implementation" family).0 e) refl
      | inr n ↦ elim (Bool-cases (str_eq "review" family)) [
        | inl e ↦ subst stops ((eq_iff "review" family).0 e) refl
        | inr o ↦ subst stops ((eq_iff "triage" family).0 (ground arith)) refl
      ]
    ]

not_model :
    (db : Ledger) (c : StageClaim) (identity : ClaimIdentity)
    → is_model_family (stage_family c.stage) ≡ false
    → OnlyIfPermitted db c (after_model c identity (stage_family c.stage) db)
not_model db c identity m =
    on_if (OnlyIfPermitted db c) (is_paid_family (stage_family c.stage)) _ _
      (λ paid. paid_guarded db c paid) (λ p h. no_inference m p)

failed_guarded :
    (db : Ledger) (c : StageClaim) (i : ModelInvocation)
    → last_invocation c.ticket_id (identity_of c.identity).attempt_number (stage_family c.stage) db
      ≡ some i
    → has_failed i ≡ true
    → OnlyIfPermitted db c (decide_failed c (identity_of c.identity) (stage_family c.stage) i db)
unfolding decide_failed
failed_guarded db c i f failed =
    let identity = identity_of c.identity in
    on_if (OnlyIfPermitted db c) (not (str_eq (stage_family c.stage) "review")) _ _
      (λ _ h. absurd (cc))
      (λ r.
        let is_review = (eq_iff (stage_family c.stage) "review").0 (ground arith) in
        on_row (OnlyIfPermitted db c)
          (retry_authorization c.ticket_id identity.attempt_number
            (coalesce identity.implementation_diff_hash "") i.invocation_id db)
          _ _ (λ _ h. absurd (cc))
          (λ a g _. repeat_authorized i a is_review (rw is_review at f) failed g))

invocation_guarded :
    (db : Ledger) (c : StageClaim) (i : ModelInvocation)
    → last_invocation c.ticket_id (identity_of c.identity).attempt_number (stage_family c.stage) db
      ≡ some i
    → (s : InvocationStatus) → i.status ≡ s
    → OnlyIfPermitted db c
        (decide_invocation c (identity_of c.identity) (stage_family c.stage) i s db)
invocation_guarded db c i f finished e = λ h. absurd (cc)
invocation_guarded db c i f started e = λ h. absurd (cc)
invocation_guarded db c i f timed_out e = failed_guarded db c i f (rw e refl)
invocation_guarded db c i f process_error e = failed_guarded db c i f (rw e refl)
invocation_guarded db c i f malformed_output e = failed_guarded db c i f (rw e refl)

started_guarded :
    (db : Ledger) (c : StageClaim)
    → OnlyIfPermitted db c (decide_started c (identity_of c.identity) db)
unfolding decide_started
started_guarded db c =
    let family = stage_family c.stage in
    let identity = identity_of c.identity in
    on_if (OnlyIfPermitted db c) (is_model_family family) _ _
      (λ m.
        on_row (OnlyIfPermitted db c)
          (last_invocation c.ticket_id identity.attempt_number family db) _ _
          (λ _ h. let stopped = no_invocation db c identity family m in absurd (cc))
          (λ i f. invocation_guarded db c i f i.status refl))
      (λ n. not_model db c identity n)

identity_guarded :
    (db : Ledger) (c : StageClaim) (o : Option CandidateIdentity)
    → c.identity ≡ o
    → OnlyIfPermitted db c (decide_identity c o db)
identity_guarded db c none e =
    subst (λ o. OnlyIfPermitted db c (decide_started c (identity_of o) db)) e (started_guarded db c)
identity_guarded db c (some (identified i)) e =
    subst (λ o. OnlyIfPermitted db c (decide_started c (identity_of o) db)) e (started_guarded db c)
identity_guarded db c (some malformed) e = λ h. absurd (cc)

-- A claim whose effect may be made again: it is not finalized, its effect is not known to have ended, and it
-- has what permits it.
abbrev pub IsRepeatable : Ledger → StageClaim → Type 0
IsRepeatable db c =
    (is_finalized c.status ≡ false) × (c.side_effect_completed_at ≡ none) × Permits db c

claim_guarded :
    (db : Ledger) (c : StageClaim) → is_redo (decide_claim c db).action ≡ true → IsRepeatable db c
unfolding decide_claim
claim_guarded db c =
    let Q : Decision → Type 0 = λ d. is_redo d.action ≡ true → IsRepeatable db c in
    on_if Q (is_finalized c.status) _ _
      (λ _.
        on_if Q (board_pending c.ticket_id db || comment_pending c.ticket_id db) _ _
          (λ _ h. absurd (cc)) (λ _ h. absurd (cc)))
      (λ nf.
        on_if Q (not (is_null c.side_effect_completed_at)) _ _ (λ _ h. absurd (cc))
          (λ ne.
            let no_end = is_null→none c.side_effect_completed_at (ground arith) in
            on_if Q (is_null c.side_effect_started_at) _ _
              (λ ns _. (nf, no_end, never_started (is_null→none c.side_effect_started_at ns)))
              (λ _ h. (nf, no_end, identity_guarded db c c.identity refl h))))

-- Where `scheduler_reconciliation` decides that a claim's effect be retried or replayed, the claim is not
-- finalized, its effect is not recorded as ended, and one of these holds: the effect was never started; the stage
-- is a paid one and no call is reserved for the claim, or the provider rejected the call and said that it may be
-- retried; the stage is a review, its last invocation failed and there is an authorization to repeat it that is
-- not consumed; or the stage is of a family that calls neither a local model nor a paid one.
pub redo_permitted :
    (id : String) (db : Ledger) (c : StageClaim) (d : Decision)
    → get_claim id db ≡ some c
    → scheduler_reconciliation id db ≡ ok d
    → is_redo d.action ≡ true
    → IsRepeatable db c
unfolding scheduler_reconciliation
redo_permitted id db c d f e h =
    let same : decide_claim c db ≡ d = ok_injective (rw (scheduler_reconciliation, f) at e) in
    claim_guarded db c (subst (λ (x : Decision). is_redo x.action ≡ true) (sym same) h)
