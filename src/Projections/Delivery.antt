-- ===== src/Projections/Delivery.antt =====
-- local_first_orchestrator/state_projection.py: the worker that tells the board the state of a ticket.
use Prim.Native.String.{◌++◌}
use local_first_orchestrator.Base.{
  ℕ, String, Bool, true, false, ◌&&◌, ◌||◌, not, Option, none, some, List, [], ◌∷◌, Result, ok, err,
  Error, key_error, value_error, permission_error, runtime_error, type_error, integrity_error,
  str_eq, opt_eq, ◌==◌, if◌then◌else◌, is_null, find_where, count_where, decimal, has_text,
  coalesce,
}
use local_first_orchestrator.States.{CanonicalState, state_eq, state_text, done}
use local_first_orchestrator.Ledger.{
  Ledger, Projection, Event, HermesReconciliation, RuntimeStage, Payload, num, text,
}
use local_first_orchestrator.Ledger.Identity.{of_ticket, is_generation}
use local_first_orchestrator.Projections.Outbox.{
  claim_next_state_projection, claim_state_projection, prepare_claimed_state_projection,
  acknowledge_state_projection, release_state_projection,
}
use local_first_orchestrator.Projections.Bundle.{has_ticket_id}

pub record BoardTask : Type 0 where
  pub status : String
  pub body : Option String

-- `BoardAdapter` over the state `B` of the remote board; `get_task` is not there on every adapter.
pub record BoardAdapter (B : Type 0) : Type 0 where
  pub set_state : String → CanonicalState → String → B → Result (Unit {0}) × B
  pub get_task : Option (String → B → Result BoardTask)

-- `StateProjectionDeliveryResult.status`
pub data DeliveryStatus : Type 0 where
  no_work delivered superseded : DeliveryStatus

-- `str(exc)`
abbrev pub error_text : Error → String
error_text (value_error s) = s
error_text (key_error s) = "'" ++ s ++ "'"
error_text (permission_error s) = s
error_text (runtime_error s) = s
error_text (type_error s) = s
error_text integrity_error = ""

-- The creation of the board task by the ticket, as it was acknowledged.
is_created : String → String → List Event → Projection → Bool
is_created ticket task events b =
    str_eq b.ticket_id ticket
    && str_eq b.operation "create_microticket"
    && not (is_null b.acknowledged_at)
    && is_null b.superseded_at
    && opt_eq b.external_task_id task
    && not (
        is_null (
          find_where (λ (e : Event). e.id == b.event_id && of_ticket ticket e && is_generation e)
            events))

-- The execution of the task was reconciled as one that had finished.
is_finished : String → String → HermesReconciliation → Bool
is_finished ticket task r =
    str_eq r.ticket_id ticket
    && str_eq r.external_task_id task
    && (str_eq r.run_status "done" || str_eq r.run_status "completed")
    && (opt_eq r.run_outcome "completed"
        || opt_eq r.run_outcome "success"
        || opt_eq r.run_outcome "succeeded")

abbrev handoff_marker : String
handoff_marker = "<!-- local-first-execution-handoff:v1 -->"

is_handed_off : Result BoardTask → Result Bool
is_handed_off (err e) = err e
is_handed_off (ok t) = ok (str_eq t.status "done" && has_text handoff_marker (coalesce t.body ""))

asks_board : {B : Type 0} → Option (String → B → Result BoardTask) → String → B → Result Bool
unfolding is_handed_off
asks_board none task board = ok false
asks_board (some get_task) task board = is_handed_off (get_task task board)

-- `_reconciled_generated_done_noop`
unfoldable pub is_done_noop :
    {B : Type 0} → BoardAdapter B → Ledger → B → String → String → CanonicalState → Result Bool
unfolding is_created is_finished asks_board
is_done_noop adapter db board ticket task state =
    if state_eq state done then ok false else elim (find_where (has_ticket_id ticket) db.tickets) [
      | none ↦ err (key_error ticket)
      | some t ↦
          if is_null t.external_id
            && count_where (is_created ticket task db.events) db.projections == 1
            && not (is_null (find_where (is_finished ticket task) db.reconciliations))
          then asks_board adapter.get_task task board
          else ok false
    ]

-- `record_runtime_stage`: a stage that the ticket has already is not written again.
unfoldable pub record_runtime_stage :
    String → String → Option Payload → Option ℕ → ℕ → Ledger → Bool × Ledger
record_runtime_stage ticket stage detail attempt_number now db =
    if is_null (
        find_where (λ (r : RuntimeStage). str_eq r.ticket_id ticket && str_eq r.stage stage)
          db.runtime_stages)
      && not (is_null (find_where (has_ticket_id ticket) db.tickets))
    then (
      true,
      record db {
        runtime_stages =
            (record {
              ticket_id = ticket;
              stage = stage;
              detail = detail;
              attempt_number = attempt_number;
              created_at = now;
            })
            ∷ db.runtime_stages;
      },
    )
    else (false, db)

-- What a call of the worker returns or raises, and the states after it.
abbrev pub Turn : Type 0 → Type 0
Turn B = Result DeliveryStatus × Ledger × B

module _ {B : Type 0} (adapter : BoardAdapter B) (worker_id : String) (lease_seconds now : ℕ) where
  -- After the board was told, or needed not be told.
  unfoldable pub acknowledged : String → ℕ → Ledger → B → Turn B
  acknowledged ticket event db board =
      let (acked, db') = acknowledge_state_projection ticket event worker_id now db in
      (
        if acked then ok delivered else err (runtime_error "state projection acknowledgement lost"),
        db',
        board,
      )

  unfoldable pub released : String → ℕ → Error → Ledger → B → Turn B
  released ticket event e db board =
      (err e, (release_state_projection ticket event worker_id (error_text e) now db).1, board)

  unfoldable pub after_call : String → ℕ → Ledger → Result (Unit {0}) × B → Turn B
  unfolding acknowledged released
  after_call ticket event db (ok _, board) = acknowledged ticket event db board
  after_call ticket event db (err e, board) = released ticket event e db board

  noop_stage : String → ℕ → String → CanonicalState → Ledger → Ledger
  unfolding record_runtime_stage
  noop_stage ticket event task state db =
      (record_runtime_stage ticket ("state_projection_generated_done_noop-" ++ decimal event)
        (some (
          ("event_id", num event)
          ∷ ("external_task_id", text task)
          ∷ ("state", text (state_text state))
          ∷ []))
        none now db).1

  -- With the answer whether the board is to be told.
  unfoldable pub tell : Projection → String → ℕ → String → Result Bool → Ledger → B → Turn B
  unfolding after_call noop_stage
  tell row ticket event task (err e) db board = released ticket event e db board
  tell row ticket event task (ok true) db board =
      acknowledged ticket event (noop_stage ticket event task row.state db) board
  tell row ticket event task (ok false) db board =
      after_call ticket event db (adapter.set_state task row.state row.idempotency_key board)

  -- After the gate.
  unfoldable pub deliver_row : String → ℕ → Result (Option Projection) → Ledger → B → Turn B
  unfolding tell is_done_noop
  deliver_row ticket event (err e) db board = (err e, db, board)
  deliver_row ticket event (ok none) db board = (ok superseded, db, board)
  deliver_row ticket event (ok (some row)) db board =
      let task = coalesce row.external_task_id "None" in
      tell row ticket event task (is_done_noop adapter db board ticket task row.state) db board

  unfoldable pub deliver_claimed : String → ℕ → Ledger → B → Turn B
  unfolding deliver_row
  deliver_claimed ticket event db board =
      let (row, db') = prepare_claimed_state_projection ticket event worker_id now db in
      deliver_row ticket event row db' board

  unfoldable pub deliver_one : Option String → Ledger → B → Turn B
  unfolding deliver_claimed
  deliver_one ticket db board =
      let (row, db') = claim_next_state_projection worker_id lease_seconds now ticket db in
      elim row [
        | none ↦ (ok no_work, db', board)
        | some p ↦ deliver_claimed p.ticket_id p.event_id db' board
      ]

  unfoldable pub deliver_ticket_event : String → ℕ → Ledger → B → Turn B
  unfolding deliver_claimed
  deliver_ticket_event ticket event db board =
      let (claimed, db') = claim_state_projection ticket event worker_id lease_seconds now db in
      if claimed then deliver_claimed ticket event db' board else (ok no_work, db', board)
