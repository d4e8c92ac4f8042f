-- ===== src/Ledger/Identity.antt =====
-- ledger.py: `_resolve_external_task_id_in_transaction`, the board identity of a ticket. A generated
-- ticket never falls back to its own id.
use Prim.Native.String.{String}
use package.text.Mathlib.Text.{starts_with}
use local_first_orchestrator.Base.{
  lower, ℕ, ◌+◌, Bool, true, ◌&&◌, ◌||◌, not, Option, none, some, List, [], ◌∷◌, Result, ok, err,
  key_error, value_error, str_eq, ltb, ◌==◌, is_null, if◌then◌else◌, find_where, select_where,
  first_by, Error,
}
use local_first_orchestrator.Ledger.Rows.{Ticket, Event, text, RuntimeStage, Projection, Payload}

abbrev pub is_generation : Event → Bool
is_generation e =
    str_eq e.event_type "generated_microticket_created"
    || str_eq e.event_type "generated_microticket_projection_recovered"

abbrev pub of_ticket : String → Event → Bool
of_ticket ticket e = str_eq e.entity_type "ticket" && str_eq e.entity_id ticket

-- `json_extract` of a member that is a text
abbrev pub member : String → Payload → Option String
member k [] = none
member k ((j, text v) ∷ m) = if str_eq j k then some v else member k m
member k ((j, v) ∷ m) = if str_eq j k then none else member k m

-- A member that is a text and not empty: `isinstance(value, str) and value`.
abbrev pub filled : Option String → Option String
filled none = none
filled (some s) = if str_eq s "" then none else some s

reconciled_terminal : String → List Event → Option String
reconciled_terminal ticket events =
    elim (find_where
      (λ e.
        of_ticket ticket e
        && str_eq e.event_type "terminal_projection_identity_reconciled"
        && not (is_null (member "original_external_task_id" e.payload)))
      events) [ none ↦ none | some e ↦ filled (member "original_external_task_id" e.payload) ]

abbrev detail_member : String → Option Payload → Option String
detail_member k none = none
detail_member k (some m) = member k m

-- NULL comes last in a descending order.
abbrev null_last : Option ℕ → ℕ
null_last none = 0
null_last (some n) = n + 1

-- ORDER BY attempt_number DESC, created_at DESC
abbrev later_stage : RuntimeStage → RuntimeStage → Bool
later_stage a b =
    ltb (null_last b.attempt_number) (null_last a.attempt_number)
    || null_last a.attempt_number == null_last b.attempt_number && ltb b.created_at a.created_at

-- SQLite's LIKE takes the letters from A to Z for the small ones.
repair_activation : String → List RuntimeStage → Option String
unfolding lower
repair_activation ticket stages =
    elim (first_by later_stage
      (λ r.
        str_eq r.ticket_id ticket
        && starts_with (lower r.stage) "generated-repair-activation-"
        && not (is_null (detail_member "external_task_id" r.detail)))
      stages) [ none ↦ none | some r ↦ filled (detail_member "external_task_id" r.detail) ]

-- The created board tasks that the ticket's generation events were acknowledged with.
abbrev created_for : String → List Event → Projection → Bool
created_for ticket events b =
    str_eq b.ticket_id ticket
    && str_eq b.operation "create_microticket"
    && not (is_null b.acknowledged_at)
    && is_null b.superseded_at
    && not (
        is_null
          (find_where (λ e. e.id == b.event_id && of_ticket ticket e && is_generation e) events))

created_ids : List Projection → List String
created_ids [] = []
created_ids (b ∷ bs) =
    let rest = created_ids bs in
    elim (filled b.external_task_id) [ none ↦ rest | some i ↦ i ∷ rest ]

-- Whether the set of the ids has one element.
all_same : String → List String → Bool
all_same i [] = true
all_same i (j ∷ js) = str_eq i j && all_same i js

abbrev conflict : Error
conflict = value_error "external_projection_identity_conflict"

unless_bound : Option String → String → Result String
unless_bound external_id task = if is_null external_id then ok task else err conflict

created_identity : Option String → List String → Result String
unfolding all_same
created_identity external_id [] = err (value_error "external_projection_identity_missing")
created_identity external_id (i ∷ is) =
    if all_same i is
    then elim external_id [
      | none ↦ ok i
      | some bound ↦ if str_eq bound i then ok i else err conflict
    ]
    else err conflict

generated_identity : Ticket → List Event → List RuntimeStage → List Projection → Result String
unfolding reconciled_terminal repair_activation created_ids unless_bound created_identity
generated_identity t events stages projections = elim (reconciled_terminal t.id events) [
  | some task ↦ unless_bound t.external_id task
  | none ↦ elim (repair_activation t.id stages) [
    | some task ↦ unless_bound t.external_id task
    | none ↦
        created_identity t.external_id
          (created_ids (select_where (created_for t.id events) projections))
  ]
]

-- `str(external_id or ticket_id)`
abbrev own_identity : Option String → String → String
own_identity none ticket = ticket
own_identity (some e) ticket = if str_eq e "" then ticket else e

unfoldable pub resolve_external_task_id :
    List Ticket → List Event → List RuntimeStage → List Projection → String → Result String
unfolding generated_identity
resolve_external_task_id tickets events stages projections ticket =
    elim (find_where (λ t. str_eq t.id ticket) tickets) [
      | none ↦ err (key_error ticket)
      | some t ↦
          if is_null (find_where (λ e. of_ticket ticket e && is_generation e) events)
          then ok (own_identity t.external_id t.id)
          else generated_identity t events stages projections
    ]
