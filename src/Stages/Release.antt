-- ===== src/Stages/Release.antt =====
-- local_first_orchestrator/ledger.py: an operator's release of an abandoned claim, and the deferral of a paid
-- claim that the provider has rejected.
use Prim.Native.String.{◌++◌}
use package.text.Mathlib.Text.{starts_with}
use local_first_orchestrator.Base.{
  ℕ, ◌+◌, ◌-◌, String, Bool, true, false, not, ◌&&◌, ◌||◌, Option, none, some, [], ◌∷◌, Result, ok,
  err, Error, value_error, key_error, permission_error, runtime_error, Tx, ◌>>=◌, ◌>>◌, pure, raise,
  gets, modify, require, transaction, leb, ltb, opt_eq, coalesce, is_null, is_blank, contains,
  if◌then◌else◌, Host,
}
use local_first_orchestrator.Ledger.{
  Ledger, StageClaim, Controller, CandidateIdentity, identified, ModelInvocation, started, finished,
  num, text, append_event,
}
use local_first_orchestrator.Comments.Outbox.{safe_comment_error}
use local_first_orchestrator.Tickets.Lifecycle.{ticket_event}
use local_first_orchestrator.Stages.Claims.{
  is_claim, is_claimed, update_claims, update_one, get_claim, read_back, not_owned,
}
use local_first_orchestrator.Stages.Reconciliation.{
  Decision, ReconciliationState, not_started, started_external_outcome_unknown,
  external_effect_completed_local_incomplete, local_stage_completion_recorded_downstream_incomplete,
  fully_finalized, ReconciliationAction, resume, replay, reconcile, retry, stop, last_invocation,
  retry_authorization, or_null,
}
use local_first_orchestrator.Stages.Decide.{scheduler_reconciliation}

-- An action that lets the effect be made again
abbrev pub is_redo : ReconciliationAction → Bool
is_redo retry = true
is_redo replay = true
is_redo _ = false

abbrev action_text : ReconciliationAction → String
action_text resume = "resume"
action_text replay = "replay"
action_text reconcile = "reconcile"
action_text retry = "retry"
action_text stop = "stop"

abbrev state_text : ReconciliationState → String
state_text not_started = "not_started"
state_text started_external_outcome_unknown = "started_external_outcome_unknown"
state_text external_effect_completed_local_incomplete = "external_effect_completed_local_incomplete"
state_text local_stage_completion_recorded_downstream_incomplete =
    "local_stage_completion_recorded_downstream_incomplete"
state_text fully_finalized = "fully_finalized"

-- `paused is None or not paused["paused"]`
abbrev pub is_running : Option Controller → Bool
is_running none = true
is_running (some c) = not c.paused

abbrev pub has_failed : ModelInvocation → Bool
has_failed i = elim i.status [ started ↦ false | finished ↦ false | _ ↦ true ]

-- The frozen identity of a review's candidate: its attempt and its fingerprint
abbrev pub review_identity : Option CandidateIdentity → Option (ℕ × String)
review_identity (some (identified i)) = elim i.attempt_number [
  | none ↦ none
  | some attempt ↦ elim i.implementation_diff_hash [
    | none ↦ none
    | some hash ↦ some (attempt, hash)
  ]
]
review_identity _ = none

-- `authorized_review_retry`
unfoldable pub is_authorized : StageClaim → ℕ → String → Ledger → Bool
unfolding last_invocation retry_authorization
is_authorized c attempt hash db = elim (last_invocation c.ticket_id (some attempt) "review" db) [
  | none ↦ false
  | some i ↦
      has_failed i
      && not (is_null (retry_authorization c.ticket_id (some attempt) hash i.invocation_id db))
]

abbrev pub is_review : StageClaim → Bool
is_review c = starts_with c.stage "review:"

unfoldable pub review_retry : StageClaim → Tx Ledger Bool
unfolding is_authorized
review_retry c = if not (is_review c) then pure false else elim (review_identity c.identity) [
  | none ↦ raise (permission_error "review claim recovery requires valid frozen candidate identity")
  | some (attempt, hash) ↦ gets (is_authorized c attempt hash)
]

abbrev not_safe : StageClaim → Decision → Error
not_safe c d =
    if is_review c
    then permission_error "review claim recovery requires unconsumed retry authorization"
    else permission_error ("scheduler claim recovery is not replay-safe: " ++ action_text d.action)

-- The lease is over; the clock is past 0.
abbrev pub abandon : ℕ → StageClaim → StageClaim
abandon now c = record c { lease_owner = none; lease_expires_at = some (now - 1); updated_at = now }

abbrev pub is_open_claim : String → StageClaim → Bool
is_open_claim id c = is_claim id c && is_claimed c.status

unfoldable pub release_claim :
    StageClaim → Decision → String → String → String → ℕ → Tx Ledger StageClaim
unfolding review_retry append_event
release_claim c d id operator reason now = do
  require (is_claimed c.status)
      (value_error "abandoned scheduler claim recovery requires a claimed stage")
  require (is_null c.side_effect_completed_at)
      (permission_error "completed scheduler side effects must be reconciled, not released")
  authorized ← review_retry c
  require (is_redo d.action || authorized) (not_safe c d)
  modify (update_claims (is_open_claim id) (abandon now))
  _ ←
      append_event
        (ticket_event c.ticket_id "scheduler_stage_claim_abandoned_released" none none operator (
          ("claim_id", text id)
          ∷ ("stage", text c.stage)
          ∷ ("reason", text reason)
          ∷ (
            "reconciliation_action",
            text (if authorized then "authorized_review_retry" else action_text d.action),
          )
          ∷ ("reconciliation_state", text (state_text d.state))
          ∷ ("previous_lease_owner", or_null text c.lease_owner)
          ∷ ("previous_lease_expires_at", or_null num c.lease_expires_at)
          ∷ []))
        now
  read_back id

unfoldable pub release_body : Decision → String → String → String → ℕ → Tx Ledger StageClaim
unfolding release_claim
release_body d id operator reason now = do
  controller ← gets (λ db. db.controller)
  require (not (is_running controller))
      (permission_error "abandoned scheduler claim recovery requires Local First paused")
  row ← gets (get_claim id)
  elim row [ none ↦ raise (key_error id) | some c ↦ release_claim c d id operator reason now ]

unfoldable pub release_abandoned_scheduler_claim :
    String → String → String → ℕ → Ledger → Result StageClaim × Ledger
unfolding transaction release_body scheduler_reconciliation
release_abandoned_scheduler_claim id operator reason now db =
    if is_blank operator || is_blank reason
    then (
      err (value_error "abandoned scheduler claim recovery requires operator identity and reason"),
      db,
    )
    else elim (scheduler_reconciliation id db) [
      | err e ↦ (err e, db)
      | ok d ↦ transaction (release_body d id operator reason now) db
    ]

abbrev pub defer_until : ℕ → String → ℕ → StageClaim → StageClaim
defer_until retry_after error now c = record c {
  lease_owner = none;
  lease_expires_at = some retry_after;
  last_error = some error;
  updated_at = now;
}

abbrev pub may_defer : String → String → StageClaim → Bool
may_defer id owner c =
    is_claim id c
    && is_claimed c.status
    && opt_eq c.lease_owner owner
    && is_null c.side_effect_completed_at

abbrev pub is_paid_stage : StageClaim → Bool
is_paid_stage c = contains c.stage ("paid_checkpoint" ∷ "paid_escalation" ∷ [])

abbrev no_paid_claim : Error
no_paid_claim = value_error "provider rejection defer requires a paid scheduler claim"

-- `int(lease_expires_at or 0) > now`
abbrev pub is_leased_to : String → ℕ → StageClaim → Bool
is_leased_to owner now c = opt_eq c.lease_owner owner && ltb now (coalesce c.lease_expires_at 0)

unfoldable pub defer_claim :
    Host → StageClaim → String → String → ℕ → String → String → ℕ → Tx Ledger StageClaim
unfolding append_event safe_comment_error
defer_claim host c id owner retry_after kind detail now = do
  require (is_paid_stage c) no_paid_claim
  require
      (is_claimed c.status
        && not (is_null c.side_effect_started_at)
        && is_null c.side_effect_completed_at)
      (value_error "paid scheduler claim is not safely deferrable")
  require (is_leased_to owner now c) not_owned
  update_one (may_defer id owner)
      (defer_until retry_after
        (safe_comment_error host ("provider_rejected:" ++ kind ++ ":" ++ detail) 500) now)
      (runtime_error "paid scheduler claim changed during provider defer")
  _ ←
      append_event
        (ticket_event c.ticket_id "scheduler_paid_provider_rejected_deferred" none none owner (
          ("claim_id", text id)
          ∷ ("stage", text c.stage)
          ∷ ("retry_after_at", num retry_after)
          ∷ ("error_kind", text kind)
          ∷ ("error_detail", text detail)
          ∷ []))
        now
  read_back id

unfoldable pub defer_body : Host → String → String → ℕ → String → String → ℕ → Tx Ledger StageClaim
unfolding defer_claim
defer_body host id owner retry_after kind detail now = do
  row ← gets (get_claim id)
  elim row [
    | none ↦ raise no_paid_claim
    | some c ↦ defer_claim host c id owner retry_after kind detail now
  ]

unfoldable pub defer_scheduler_paid_claim_after_provider_rejection :
    Host → String → String → ℕ → String → String → ℕ → Ledger → Result StageClaim × Ledger
unfolding transaction defer_body safe_comment_error
defer_scheduler_paid_claim_after_provider_rejection host id owner retry_after kind detail now =
    transaction (
      defer_body host id owner (if leb retry_after now then now + 1 else retry_after) kind
        (safe_comment_error host detail 1000) now)
