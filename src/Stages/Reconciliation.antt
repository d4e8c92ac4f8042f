-- ===== src/Stages/Reconciliation.antt =====
-- local_first_orchestrator/reconciliation.py, and `scheduler_reconciliation` of ledger.py: what may be done
-- about a claim whose scheduler was lost.
use Prim.Native.String.{◌++◌}
use package.text.Mathlib.Text.{starts_with}
use local_first_orchestrator.Base.{
  ℕ, String, Bool, true, false, not, ◌&&◌, ◌||◌, Option, none, some, List, [], ◌∷◌, ◌==◌, ltb,
  str_eq, str_lt, coalesce, is_null, if◌then◌else◌, find_where, first_by,
}
use local_first_orchestrator.Ledger.{
  Ledger, StageClaim, ClaimIdentity, ModelInvocation, InvocationStatus, started, finished,
  timed_out, process_error, malformed_output, RetryAuthorization, Projection, Comment,
  DeliveryState, delivered, PaidReservation, ReservationStatus, in_flight, completed, released,
  unknown_outcome, provider_rejected, Payload, Value, null, num, text,
}

pub data ReconciliationState : Type 0 where
  not_started started_external_outcome_unknown external_effect_completed_local_incomplete
        local_stage_completion_recorded_downstream_incomplete fully_finalized :
      ReconciliationState

pub data ReconciliationAction : Type 0 where
  resume replay reconcile retry stop : ReconciliationAction

-- `SchedulerReconciliationDecision`
pub record Decision : Type 0 where
  pub claim_id : String
  pub ticket_id : String
  pub stage : String
  pub state : ReconciliationState
  pub action : ReconciliationAction
  pub evidence_kind : String
  pub reason : String
  pub evidence : Payload

abbrev pub decide :
    StageClaim → ReconciliationState → ReconciliationAction → String → String → Payload → Decision
decide c state action kind reason evidence = record {
  claim_id = c.claim_id;
  ticket_id = c.ticket_id;
  stage = c.stage;
  state = state;
  action = action;
  evidence_kind = kind;
  reason = reason;
  evidence = evidence;
}

abbrev families : List String
families =
    "implementation" ∷ "validation" ∷ "review" ∷ "repair_routing" ∷ "triage" ∷ "acceptance"
    ∷ "git_integration" ∷ "completion" ∷ []

abbrev first_family : String → List String → String
first_family stage [] = stage
first_family stage (p ∷ ps) =
    if str_eq stage p || starts_with stage (p ++ ":") then p else first_family stage ps

-- `_scheduler_stage_family`
unfoldable pub stage_family : String → String
stage_family stage = first_family stage families

abbrev pub is_open_intent : String → Projection → Bool
is_open_intent ticket p =
    str_eq p.ticket_id ticket && is_null p.acknowledged_at && is_null p.superseded_at

abbrev is_delivered : DeliveryState → Bool
is_delivered delivered = true
is_delivered _ = false

abbrev pub is_open_comment : String → Comment → Bool
is_open_comment ticket c = str_eq c.ticket_id ticket && not (is_delivered c.status)

abbrev pub board_pending : String → Ledger → Bool
board_pending ticket db = not (is_null (find_where (is_open_intent ticket) db.projections))

abbrev pub comment_pending : String → Ledger → Bool
comment_pending ticket db = not (is_null (find_where (is_open_comment ticket) db.comments))

abbrev pub no_identity : ClaimIdentity
no_identity = record {
  attempt_number = none;
  implementation_diff_hash = none;
  tranche_id = none;
  predecessor_tranche_id = none;
  successor_tranche_id = none;
}

-- ORDER BY started_at DESC, invocation_id DESC
abbrev later : ModelInvocation → ModelInvocation → Bool
later a b =
    ltb b.started_at a.started_at
    || a.started_at == b.started_at && str_lt b.invocation_id a.invocation_id

abbrev at_attempt : Option ℕ → ModelInvocation → Bool
at_attempt none i = true
at_attempt (some n) i = i.attempt_number == n

abbrev pub is_invocation : String → Option ℕ → String → ModelInvocation → Bool
is_invocation ticket attempt family i =
    str_eq i.ticket_id ticket && str_eq i.stage family && at_attempt attempt i

unfoldable pub last_invocation : String → Option ℕ → String → Ledger → Option ModelInvocation
last_invocation ticket attempt family db =
    first_by later (is_invocation ticket attempt family) db.invocations

-- `attempt_number=?`, of a value that may be NULL
abbrev equals : ℕ → Option ℕ → Bool
equals n none = false
equals n (some m) = n == m

abbrev authorizes : String → Option ℕ → String → String → RetryAuthorization → Bool
authorizes ticket attempt fingerprint invocation a =
    str_eq a.ticket_id ticket
    && equals a.attempt_number attempt
    && str_eq a.candidate_fingerprint fingerprint
    && str_eq a.failed_invocation_id invocation
    && is_null a.consumed_invocation_id

-- ORDER BY authorized_at DESC
abbrev newer : RetryAuthorization → RetryAuthorization → Bool
newer a b = ltb b.authorized_at a.authorized_at

unfoldable pub retry_authorization :
    String → Option ℕ → String → String → Ledger → Option RetryAuthorization
retry_authorization ticket attempt fingerprint invocation db =
    first_by newer (authorizes ticket attempt fingerprint invocation) db.retry_authorizations

abbrev status_text : InvocationStatus → String
status_text started = "started"
status_text finished = "completed"
status_text timed_out = "timeout"
status_text process_error = "process_error"
status_text malformed_output = "malformed_output"

abbrev invocation_evidence : ModelInvocation → Payload
invocation_evidence i =
    ("invocation_id", text i.invocation_id) ∷ ("status", text (status_text i.status)) ∷ []

-- An invocation that has ended without a result: a failed review may be repeated where it is authorized.
unfoldable pub decide_failed :
    StageClaim → ClaimIdentity → String → ModelInvocation → Ledger → Decision
unfolding retry_authorization
decide_failed c identity family i db =
    let terminal =
      decide c started_external_outcome_unknown stop "model_invocations"
        "model invocation ended terminally and requires explicit recovery policy"
        (invocation_evidence i) in
    if not (str_eq family "review")
    then terminal
    else elim (retry_authorization c.ticket_id identity.attempt_number
        (coalesce identity.implementation_diff_hash "") i.invocation_id db) [
          | none ↦ terminal
          | some a ↦
              decide c started_external_outcome_unknown replay "review_retry_authorizations"
                "failed review invocation has an exact unconsumed operator retry authorization"
                (("invocation_id", text i.invocation_id)
                  ∷ ("status", text (status_text i.status))
                  ∷ ("retry_authorization_id", text a.authorization_id)
                  ∷ [])
        ]

abbrev pub decide_invocation :
    StageClaim → ClaimIdentity → String → ModelInvocation → InvocationStatus → Ledger → Decision
decide_invocation c identity family i finished db =
    decide c external_effect_completed_local_incomplete reconcile "model_invocations"
      "model invocation completed; reconcile durable artifact/result into the scheduler stage"
      (invocation_evidence i)
decide_invocation c identity family i started db =
    decide c started_external_outcome_unknown stop "model_invocations"
      "model invocation outcome is unknown; automatic retry would risk duplicate inference"
      (invocation_evidence i)
decide_invocation c identity family i _ db = decide_failed c identity family i db

abbrev latest : PaidReservation → PaidReservation → Bool
latest a b = ltb b.created_at a.created_at

unfoldable pub reservation_for : String → Ledger → Option PaidReservation
reservation_for key db =
    first_by latest (λ (r : PaidReservation). str_eq r.request_key key) db.reservations

abbrev reservation_text : ReservationStatus → String
reservation_text in_flight = "in_flight"
reservation_text completed = "completed"
reservation_text released = "released"
reservation_text unknown_outcome = "unknown_outcome"
reservation_text provider_rejected = "provider_rejected"

abbrev pub or_null : {A : Type 0} → (A → Value) → Option A → Value
or_null f none = null
or_null f (some a) = f a

abbrev reservation_evidence : PaidReservation → Payload
reservation_evidence r =
    ("reservation_id", text r.id) ∷ ("status", text (reservation_text r.status)) ∷ []

abbrev rejection_evidence : PaidReservation → Payload
rejection_evidence r =
    ("reservation_id", text r.id)
    ∷ ("status", text (reservation_text r.status))
    ∷ ("provider_error_kind", or_null text r.provider_error_kind)
    ∷ ("provider_retry_after_at", or_null num r.provider_retry_after_at)
    ∷ ("provider_failure_count", num r.provider_failure_count)
    ∷ []

abbrev pub decide_reservation : StageClaim → PaidReservation → ReservationStatus → Decision
decide_reservation c r completed =
    decide c external_effect_completed_local_incomplete reconcile "paid_reservations"
      "paid reservation completed; reconcile the durable model-call response without provider reinvocation"
      (reservation_evidence r)
decide_reservation c r unknown_outcome =
    decide c started_external_outcome_unknown stop "paid_reservations"
      "paid provider outcome is ambiguous; automatic retry is forbidden" (reservation_evidence r)
decide_reservation c r in_flight =
    decide c started_external_outcome_unknown stop "paid_reservations"
      "paid provider outcome is ambiguous; automatic retry is forbidden" (reservation_evidence r)
decide_reservation c r released =
    decide c started_external_outcome_unknown stop "paid_reservations"
      "paid reservation is terminal and requires a new explicitly authorized request"
      (reservation_evidence r)
decide_reservation c r provider_rejected =
    if coalesce r.provider_retryable false
    then decide c started_external_outcome_unknown replay "paid_reservations"
        "provider explicitly rejected the paid call before execution; retry the same logical reservation after backoff"
        (rejection_evidence r)
    else decide c started_external_outcome_unknown stop "paid_reservations"
        "paid reservation is terminal and requires a new explicitly authorized request"
        (reservation_evidence r)
