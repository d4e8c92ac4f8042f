-- ===== src/Triage/Enqueue.antt =====
-- local_first_orchestrator/ledger.py and triage.py: what queues the creation of a child's card on the board.
use Prim.Native.String.{◌++◌}
use local_first_orchestrator.Base.{
  ℕ, String, Bool, true, false, not, ◌&&◌, Option, none, some, [], ◌∷◌, Error, value_error,
  key_error, Tx, ◌>>=◌, ◌>>◌, gets, modify, require, ◌==◌, str_eq, is_null, contains, if◌then◌else◌,
  find_where, has_text, dumps, json_text, json_object, field,
}
use local_first_orchestrator.States.{draft}
use local_first_orchestrator.Contract.{MicroTicket}
use local_first_orchestrator.Contract.Serial.{contract}
use local_first_orchestrator.Contract.Encoded.{contract_fields}
use local_first_orchestrator.Ledger.{Ledger, Event, Projection, Payload, text}
use local_first_orchestrator.Projections.Bundle.{payload_eq}
use local_first_orchestrator.Tickets.Lifecycle.{has_id}

-- `triage_projection_key`
abbrev pub triage_projection_key : String → String
triage_projection_key ticket = "board-create:triage:v1:" ++ ticket

-- `HANDOFF_MARKER` and `HANDOFF_INSTRUCTIONS`
abbrev handoff_marker : String
handoff_marker = "<!-- local-first-execution-handoff:v1 -->"

abbrev handoff_instructions : String
handoff_instructions =
    handoff_marker
    ++ "\nLocal First owns validation, review, integration, and final completion for this task.\n"
    ++ "Implement and test the contract in the assigned workspace. When implementation is ready for Local First validation, move this Hermes task to Review with `hermes kanban request-review`.\n"
    ++ "Review is an implementation handoff only: do not claim that Local First validation, independent review, integration, or final completion has passed.\n"
    ++ "If the task is accidentally marked Done instead, Local First will treat that only as a recoverable implementation handoff and will still run its own validation and review gates.\n"
    ++ "Legacy recovery marker: `local-first-awaiting-reconciliation`.\n"

unfoldable pub attach_execution_handoff : String → String
unfolding has_text
attach_execution_handoff body =
    if has_text handoff_marker body then body else handoff_instructions ++ "\n" ++ body

-- The JSON text of a child's card
unfoldable pub child_contract : String → String → MicroTicket → String
unfolding dumps contract_fields contract
child_contract parent child ticket = dumps (
    json_object (
      field "kind" (json_text "triage_microticket") (
        field "orchestrator_ticket_id" (json_text child) (
          field "parent_ticket_id" (json_text parent) (
            field "projection_key" (json_text (triage_projection_key child))
              (contract_fields (contract ticket)))))))

-- `triage_child_payload`, its names in the order of the JSON text
unfoldable pub triage_child_payload : String → String → String → MicroTicket → Payload
unfolding child_contract attach_execution_handoff
triage_child_payload parent child title ticket =
    (
      "body",
      text (
          attach_execution_handoff (
            "<!-- local-first-orchestrator -->\n```local-first-contract\n"
            ++ child_contract parent child ticket
            ++ "\n```")),
    )
    ∷ ("orchestrator_ticket_id", text child)
    ∷ ("parent_ticket_id", text parent)
    ∷ ("projection_key", text (triage_projection_key child))
    ∷ ("title", text title)
    ∷ []

abbrev is_creation : String → Event → Bool
is_creation ticket e =
    str_eq e.entity_type "ticket"
    && str_eq e.entity_id ticket
    && contains e.event_type ("generated_microticket_created" ∷ "triage_child_created" ∷ [])

abbrev pub authorizes_creation : String → Option Event → Bool
authorizes_creation ticket none = false
authorizes_creation ticket (some e) = is_creation ticket e

abbrev pub create_intent : String → ℕ → Payload → String → ℕ → Projection
create_intent ticket event payload key now = record {
  ticket_id = ticket;
  event_id = event;
  operation = "create_microticket";
  state = draft;
  payload = payload;
  idempotency_key = key;
  external_task_id = none;
  queued_at = now;
  attempt_count = 0;
  lease_owner = none;
  lease_expires_at = none;
  next_attempt_at = none;
  last_error = none;
  terminal_error = none;
  acknowledged_at = none;
  superseded_at = none;
  superseded_by_event_id = none;
  supersession_reason = none;
}

abbrev pub is_row : String → ℕ → Projection → Bool
is_row ticket event p = str_eq p.ticket_id ticket && p.event_id == event

-- No row, or the one of this event
abbrev pub key_is_free : String → ℕ → Option Projection → Bool
key_is_free ticket event none = true
key_is_free ticket event (some p) = is_row ticket event p

abbrev conflict : Error
conflict = value_error "create projection conflicts"

abbrev pub is_same_intent : Payload → String → Projection → Bool
is_same_intent payload key p =
    str_eq p.operation "create_microticket"
    && payload_eq p.payload payload
    && str_eq p.idempotency_key key

-- `_enqueue_generated_create_projection_in_transaction`, whose result is not read here
unfoldable pub enqueue_create : String → ℕ → Payload → String → ℕ → Tx Ledger (Unit {0})
unfolding payload_eq
enqueue_create ticket event payload key now = do
  row ← gets (λ db. find_where (has_id ticket) db.tickets)
  require (not (is_null row)) (key_error ticket)
  source ← gets (λ db. find_where (λ (e : Event). e.id == event) db.events)
  require (authorizes_creation ticket source)
      (value_error "event is not an authorized microticket creation")
  taken ← gets (λ db. find_where (λ (p : Projection). str_eq p.idempotency_key key) db.projections)
  require (key_is_free ticket event taken) conflict
  queued ← gets (λ db. find_where (is_row ticket event) db.projections)
  elim queued [
    | some p ↦ require (is_same_intent payload key p) conflict
    | none ↦ modify (λ db. record db {
      projections = create_intent ticket event payload key now ∷ db.projections;
    })
  ]
