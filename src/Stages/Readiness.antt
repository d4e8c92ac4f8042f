-- ===== src/Stages/Readiness.antt =====
-- local_first_orchestrator/ledger.py: the readiness of a ticket, checked (`evaluate_ticket_readiness`,
-- `admit_ticket_if_ready`) and applied as a scheduler's effect.
use local_first_orchestrator.Ledger.Calls.{after_call}
use local_first_orchestrator.Base.{
  ℕ, String, Bool, true, false, not, ◌&&◌, ◌||◌, Option, none, some, List, [], ◌∷◌, Result, ok, err,
  key_error, str_eq, coalesce, contains, if◌then◌else◌, find_where, sorted_set, Host,
}
use local_first_orchestrator.States.{CanonicalState, state_eq, draft, ready_local, accepted, done}
use local_first_orchestrator.Contract.{MicroTicket, patch_budget_policy}
use local_first_orchestrator.Contract.Serial.{budget_of}
use local_first_orchestrator.Contract.Readiness.{validate_ticket}
use local_first_orchestrator.Ledger.{
  Ledger, Ticket, RuntimeBinding, AcceptedEvidence, Payload, text,
}
use local_first_orchestrator.Tickets.Lifecycle.{has_id, transition}

-- `ticket_from_ledger` of controller.py. A NULL text is read as an empty one, which `validate_ticket`
-- refuses where it refuses, or fails on, None.
unfoldable pub ticket_from_ledger : Ticket → Result MicroTicket
ticket_from_ledger t = elim t.verification.commands [
  | none ↦ err (key_error "commands")
  | some commands ↦ ok (record {
    ticket_id = t.id;
    objective = coalesce t.objective "";
    criterion_ids = t.criterion_ids;
    primary_symbol = coalesce t.primary_symbol "";
    allowed_files = t.allowed_files;
    forbidden_changes = t.forbidden_changes;
    patch_budget = budget_of t.patch_budget;
    verification = record {
      commands = commands;
      working_directory = coalesce t.verification.working_directory ".";
      timeout_seconds = coalesce t.verification.timeout_seconds 60;
      output_limit = coalesce t.verification.output_limit 20000;
    };
    risk = coalesce t.risk "";
    review_required = t.review_required;
    max_attempts = t.max_attempts;
    dependencies = t.dependencies;
    new_test_files = t.new_test_files;
    create_files = t.create_files;
  })
]

-- `validate_ticket(ticket_from_ledger(row))` raises nothing.
unfoldable pub is_valid : Ticket → Bool
unfolding ticket_from_ledger
is_valid t = elim (ticket_from_ledger t) [
  | err e ↦ false
  | ok m ↦ elim (validate_ticket patch_budget_policy m) [ err e ↦ false | ok _ ↦ true ]
]

abbrev pub binding_of : String → Ledger → Option RuntimeBinding
binding_of ticket db = find_where (λ (b : RuntimeBinding). str_eq b.ticket_id ticket) db.bindings

abbrev pub accepted_commit : String → Ledger → Option String
accepted_commit ticket db =
    elim (find_where (λ (e : AcceptedEvidence). str_eq e.ticket_id ticket) db.accepted) [
      | none ↦ none
      | some e ↦ some e.accepted_commit_sha
    ]

-- The truth of a text that may be None
abbrev pub is_set : Option String → Bool
is_set none = false
is_set (some s) = not (str_eq s "")

-- `TicketReadinessResult`: its status, with the dependencies that it names
pub data TicketReadiness : Type 0 where
  missing_ticket ready wrong_state missing_runtime_binding invalid_runtime_binding invalid_ticket :
      TicketReadiness
  missing_dependency : String → TicketReadiness
  waiting_on_dependencies : List String → TicketReadiness

-- A dependency that is accepted, or done with the evidence of its acceptance
abbrev pub is_resolved : String → CanonicalState → Ledger → Bool
is_resolved dependency state db =
    state_eq state accepted || state_eq state done && is_set (accepted_commit dependency db)

abbrev waits_also : String → TicketReadiness → TicketReadiness
waits_also d (waiting_on_dependencies ds) = waiting_on_dependencies (d ∷ ds)
waits_also d ready = waiting_on_dependencies (d ∷ [])
waits_also d other = other

-- The loop over the dependencies
unfoldable pub check_dependencies : List String → Ledger → TicketReadiness
check_dependencies [] db = ready
check_dependencies (d ∷ ds) db =
    let rest = check_dependencies ds db in
    elim (find_where (has_id d) db.tickets) [
      | none ↦ missing_dependency d
      | some t ↦ if is_resolved d t.state db then rest else waits_also d rest
    ]

abbrev pub is_bound : RuntimeBinding → Bool
is_bound b = not (str_eq b.repository_path "" || str_eq b.starting_sha "")

unfoldable pub check_draft : Ticket → Ledger → TicketReadiness
unfolding check_dependencies is_valid
check_draft t db = elim (binding_of t.id db) [
  | none ↦ missing_runtime_binding
  | some b ↦
      if not (is_bound b)
      then invalid_runtime_binding
      else (if not (is_valid t)
          then invalid_ticket
          else (if contains t.id (sorted_set t.dependencies)
              then invalid_ticket
              else check_dependencies (sorted_set t.dependencies) db))
]

unfoldable pub evaluate_ticket_readiness : String → Ledger → TicketReadiness
unfolding check_draft
evaluate_ticket_readiness ticket db = elim (find_where (has_id ticket) db.tickets) [
  | none ↦ missing_ticket
  | some t ↦
      if state_eq t.state ready_local
      then ready
      else (if not (state_eq t.state draft) then wrong_state else check_draft t db)
]

abbrev pub satisfied : Payload
satisfied = ("reason", text "dependencies_satisfied") ∷ []

abbrev is_ready : TicketReadiness → Bool
is_ready ready = true
is_ready _ = false

abbrev is_state : CanonicalState → Option Ticket → Bool
is_state s none = false
is_state s (some t) = state_eq t.state s

unfoldable pub admit_ticket_if_ready : Host → String → ℕ → Ledger → Result TicketReadiness × Ledger
unfolding transition evaluate_ticket_readiness
admit_ticket_if_ready host ticket now db =
    let result = evaluate_ticket_readiness ticket db in
    if not (is_ready result) || is_state ready_local (find_where (has_id ticket) db.tickets)
    then (ok result, db)
    else after_call (transition host ticket ready_local "readiness" satisfied now db)
        (λ _ db'. (ok ready, db'))
