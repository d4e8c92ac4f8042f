-- ===== src/Projections/Examples.antt =====
-- The theorems on projections at concrete inputs: a ticket that has become ready.
use local_first_orchestrator.Base.{
  String, ◌≡◌, refl, false, ◌&&◌, none, some, List, [], ◌∷◌, ok, err, Host, Error, find_where, true,
}
use local_first_orchestrator.States.{CanonicalState, draft, ready_local}
use local_first_orchestrator.Ledger.{num, flag, Ledger, Ticket, Event, Projection, empty_ledger}
use local_first_orchestrator.Ledger.Identity.{resolve_external_task_id}
use local_first_orchestrator.Projections.Outbox.{
  is_intent, is_set_state, is_open, prepare_claimed_state_projection,
}
use local_first_orchestrator.Projections.Bundle.{enqueue_projection_bundle, new_intent, payload_eq}
use local_first_orchestrator.Projections.Complete.{IsBundled, IsSame, bundle_complete}
use local_first_orchestrator.Projections.Fresh.{IsCurrent, gate_outcome}
use local_first_orchestrator.Projections.Delivery.{BoardAdapter, deliver_claimed}
use local_first_orchestrator.Projections.Told.{ToldCurrent, told_only_current}

abbrev host : Host
host = record {
  digest = λ s. s;
  redact_error = λ s. s;
  redact_evidence = λ s. s;
  stable_error = λ s. s;
}

abbrev ticket : Ticket
ticket = record {
  id = "t1";
  external_id = some "card";
  parent_ticket_id = none;
  tranche_id = none;
  title = "a ticket";
  feature_id = none;
  depth = 0;
  objective = some "Return the sum of two numbers";
  criterion_ids = "c1" ∷ [];
  primary_symbol = some "a.py::add";
  allowed_files = "a.py" ∷ [];
  create_files = [];
  new_test_files = [];
  forbidden_changes = "b.py" ∷ [];
  patch_budget = record { max_files = none; max_changed_lines = none; exception_reason = none };
  verification = record {
    commands = some (("pytest" ∷ []) ∷ []);
    working_directory = none;
    timeout_seconds = none;
    output_limit = none;
  };
  risk = some "low";
  review_required = true;
  max_attempts = 2;
  dependencies = [];
  state = ready_local;
  lease_owner = none;
  lease_expires_at = none;
  created_at = 1;
  updated_at = 4;
}

abbrev readied : Event
readied = record {
  id = 1;
  entity_type = "ticket";
  entity_id = "t1";
  event_type = "state_transition";
  from_state = some draft;
  to_state = some ready_local;
  actor_id = "controller";
  payload = [];
  created_at = 4;
}

abbrev ready : Ledger
ready = record empty_ledger { tickets = ticket ∷ []; events = readied ∷ [] }

bundle_complete_example :
    (let r = enqueue_projection_bundle host "t1" 1 "state=ready_local" [] none 5 ready in
      ((x : Error) → r.0 ≡ err x → r.1 ≡ ready)
      × (r.0 ≡ ok tt → IsBundled host "t1" 1 ready_local r.1 × IsSame ready r.1))
unfolding find_where
bundle_complete_example =
    bundle_complete host "t1" 1 ready_local "state=ready_local" [] none 5 readied ready refl refl

abbrev leased_intent : Projection
leased_intent = record (new_intent "t1" 1 ready_local [] "card" 5) {
  lease_owner = some "worker";
  lease_expires_at = some 70;
  attempt_count = 1;
}

abbrev leased : Ledger
leased = record ready { projections = leased_intent ∷ [] }

gate_outcome_example :
    (let r = prepare_claimed_state_projection "t1" 1 "worker" 10 leased in
      ((x : Error) → r.0 ≡ err x → r.1 ≡ leased)
      × ((p : Projection) → r.0 ≡ ok (some p) → IsCurrent "t1" 1 "worker" 10 leased p r.1)
      × (r.0 ≡ ok none
          → (q : Projection) → find_where (is_intent "t1" 1) r.1.projections ≡ some q
          → (is_set_state q && is_open q) ≡ false))
gate_outcome_example = gate_outcome "t1" 1 "worker" 10 leased (tt, tt)

-- A board that keeps the states it is told.
abbrev adapter : BoardAdapter (List (String × CanonicalState))
adapter = record { set_state = λ task state key b. (ok tt, (task, state) ∷ b); get_task = none }

told_only_current_example :
    ToldCurrent adapter "worker" 60 10 "t1" 1 leased []
      (deliver_claimed adapter "worker" 60 10 "t1" 1 leased []).2
told_only_current_example = told_only_current adapter "worker" 60 10 "t1" 1 leased [] (tt, tt)

told_test : (deliver_claimed adapter "worker" 60 10 "t1" 1 leased []).2 ≡ ("card", ready_local) ∷ []
unfolding deliver_claimed prepare_claimed_state_projection find_where resolve_external_task_id
told_test = refl

-- The names of a payload are in no order.
payload_eq_test :
    payload_eq (("a", num 1) ∷ ("b", flag true) ∷ []) (("b", flag true) ∷ ("a", num 1) ∷ []) ≡ true
unfolding payload_eq
payload_eq_test = refl
