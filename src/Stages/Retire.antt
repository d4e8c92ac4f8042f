-- ===== src/Stages/Retire.antt =====
-- local_first_orchestrator/ledger.py: `retire_historical_scheduler_claim`, by which an operator ends a claim
-- that later states have made obsolete.
use Prim.Native.String.{◌++◌}
use package.text.Mathlib.Text.{starts_with}
use local_first_orchestrator.Base.{
  ℕ, String, Bool, true, false, not, ◌&&◌, ◌||◌, Option, none, some, [], ◌∷◌, Result, ok, err,
  Error, value_error, key_error, permission_error, runtime_error, Tx, ◌>>=◌, ◌>>◌, pure, raise,
  gets, require, transaction, str_eq, is_null, is_blank, decimal, if◌then◌else◌, find_where,
  at_most,
}
use local_first_orchestrator.States.{CanonicalState, state_eq, local_review, accepted, done}
use local_first_orchestrator.Ledger.{
  Ledger, Ticket, Review, RetiredAttempt, StageClaim, finalized, failed, text, append_event,
}
use local_first_orchestrator.Tickets.Lifecycle.{ticket_event, has_id}
use local_first_orchestrator.Stages.Claims.{
  is_claim, is_claimed, is_finalized, get_claim, read_back, update_one,
}
use local_first_orchestrator.Stages.Release.{is_running}

-- What is returned: the row, with `retirement_status` and `proof_kind`
pub data Retirement : Type 0 where
  already_finalized : StageClaim → Retirement
  retired : StageClaim → String → Retirement

-- Why a claim is obsolete, and whether its effect had not ended
pub record Proof : Type 0 where
  pub kind : String
  pub is_incomplete : Bool

abbrev in_state : (CanonicalState → Bool) → Option Ticket → Bool
in_state p none = false
in_state p (some t) = p t.state

abbrev has_advanced : CanonicalState → Bool
has_advanced s = state_eq s local_review || state_eq s accepted || state_eq s done

abbrev has_ended : CanonicalState → Bool
has_ended s = state_eq s accepted || state_eq s done

-- `advanced`: the ticket has gone on, and was reviewed.
abbrev pub was_reviewed : String → Ledger → Bool
was_reviewed ticket db =
    in_state has_advanced (find_where (has_id ticket) db.tickets)
    && not (is_null (find_where (λ (r : Review). str_eq r.ticket_id ticket) db.reviews))

-- `retired`
abbrev pub attempt_retired : String → String → Ledger → Bool
attempt_retired ticket stage db = not (
    is_null (
      find_where
        (λ (a : RetiredAttempt).
          str_eq a.ticket_id ticket
          && str_eq stage ("validation:" ++ decimal a.retired_attempt_number))
        db.retired_attempts))

-- `terminal`
abbrev pub review_applied : String → String → Ledger → Bool
review_applied ticket stage db =
    in_state has_ended (find_where (has_id ticket) db.tickets)
    && not (
        is_null (
          find_where
            (λ (r : Review).
              str_eq r.ticket_id ticket && str_eq stage ("review:" ++ decimal r.attempt_number))
            db.reviews))

abbrev when_proved : Bool → String → Option Proof
when_proved b kind = if b then some (record { kind = kind; is_incomplete = false }) else none

abbrev complete_proof : StageClaim → Ledger → Option Proof
complete_proof c db =
    if starts_with c.stage "validation:"
    then when_proved (attempt_retired c.ticket_id c.stage db) "retired_attempt"
    else (if starts_with c.stage "review:"
        then when_proved (review_applied c.ticket_id c.stage db) "terminal_review_applied"
        else none)

abbrev is_incomplete_claim : StageClaim → Bool
is_incomplete_claim c = is_null c.side_effect_completed_at || is_null c.result

abbrev no_evidence : Error
no_evidence =
    permission_error
      "historical scheduler claim retirement requires durable completed side-effect evidence"

unfoldable pub find_proof : StageClaim → Ledger → Result Proof
find_proof c db =
    if is_incomplete_claim c
    then (if str_eq c.stage "native_dependency_release" && was_reviewed c.ticket_id db
        then ok (record {
          kind = "advanced_review_superseded_dependency_release";
          is_incomplete = true;
        })
        else err no_evidence)
    else elim (complete_proof c db) [
      | none ↦ err (permission_error "scheduler claim has no supported terminal supersession proof")
      | some p ↦ ok p
    ]

abbrev pub may_discard : String → StageClaim → Bool
may_discard id c = is_claim id c && is_claimed c.status && is_null c.side_effect_completed_at

abbrev pub discard_claim : String → ℕ → StageClaim → StageClaim
discard_claim reason now c = record c {
  status = failed;
  lease_owner = none;
  lease_expires_at = none;
  last_error = some ("superseded historical stage: " ++ reason);
  finalized_at = some now;
  updated_at = now;
}

abbrev pub may_close : String → StageClaim → Bool
may_close id c = is_claim id c && is_claimed c.status && not (is_null c.side_effect_completed_at)

abbrev pub close_claim : ℕ → StageClaim → StageClaim
close_claim now c = record c {
  status = finalized;
  lease_owner = none;
  lease_expires_at = none;
  finalized_at = some now;
  updated_at = now;
}

abbrev pub changed : Error
changed = runtime_error "historical scheduler claim changed during retirement"

unfoldable pub end_claim : Bool → String → String → ℕ → Tx Ledger (Unit {0})
end_claim is_incomplete id reason now =
    if is_incomplete
    then update_one (may_discard id) (discard_claim reason now) changed
    else update_one (may_close id) (close_claim now) changed

unfoldable pub retire_claim : StageClaim → String → String → String → ℕ → Tx Ledger Retirement
unfolding find_proof end_claim append_event
retire_claim c id operator reason now = do
  require (is_claimed c.status)
      (value_error "historical scheduler claim retirement requires a claimed stage")
  require (at_most c.lease_expires_at now)
      (permission_error "historical scheduler claim retirement requires an expired lease")
  found ← gets (find_proof c)
  elim found [
    | err e ↦ raise e
    | ok proof ↦ (do
      end_claim proof.is_incomplete id reason now
      _ ←
          append_event
            (ticket_event c.ticket_id "scheduler_stage_historical_retired" none none operator (
              ("claim_id", text id)
              ∷ ("stage", text c.stage)
              ∷ ("reason", text reason)
              ∷ ("proof_kind", text proof.kind)
              ∷ []))
            now
      row ← read_back id
      pure (retired row proof.kind))
  ]

unfoldable pub retire_body : String → String → String → ℕ → Tx Ledger Retirement
unfolding retire_claim
retire_body id operator reason now = do
  controller ← gets (λ db. db.controller)
  require (not (is_running controller))
      (permission_error "historical scheduler claim retirement requires Local First paused")
  row ← gets (get_claim id)
  elim row [
    | none ↦ raise (key_error id)
    | some c ↦
        if is_finalized c.status
        then pure (already_finalized c)
        else retire_claim c id operator reason now
  ]

unfoldable pub retire_historical_scheduler_claim :
    String → String → String → ℕ → Ledger → Result Retirement × Ledger
unfolding transaction retire_body
retire_historical_scheduler_claim id operator reason now db =
    if is_blank operator || is_blank reason
    then (
      err (
          value_error
            "historical scheduler claim retirement requires operator identity and reason"),
      db,
    )
    else transaction (retire_body id operator reason now) db
