-- ===== src/Tickets/Examples.antt =====
-- The theorems on tickets at concrete inputs.
use local_first_orchestrator.Base.{
  ℕ, ◌+◌, ◌≤◌, String, ◌≡◌, refl, true, none, some, List, [], ◌∷◌, ok, err, Host, Error, arith,
  find_where, count_where, update_where,
}
use local_first_orchestrator.States.{draft, ready_local, implementing}
use local_first_orchestrator.Ledger.{Ledger, Ticket, empty_ledger}
use local_first_orchestrator.Ledger.Identity.{resolve_external_task_id}
use local_first_orchestrator.Projections.Outbox.{supersede_older}
use local_first_orchestrator.Tickets.Lifecycle.{has_id, transition}
use local_first_orchestrator.Tickets.Transitions.{IsMoved, transition_outcome}
use local_first_orchestrator.Tickets.Leases.{
  Call, claiming, recovering, claiming_one, perform_all, IsHeld, lease_excludes,
}
use local_first_orchestrator.Tickets.Attempts.{
  is_attempt, next_attempt_number, ensure_attempt, record_stage,
}
use local_first_orchestrator.Tickets.Numbers.{next_attempt_fresh}

abbrev host : Host
host = record {
  digest = λ s. s;
  redact_error = λ s. s;
  redact_evidence = λ s. s;
  stable_error = λ s. s;
}

abbrev ticket : Ticket
ticket = record {
  id = "t1";
  external_id = some "card";
  parent_ticket_id = none;
  tranche_id = none;
  title = "a ticket";
  feature_id = none;
  depth = 0;
  objective = some "Return the sum of two numbers";
  criterion_ids = "c1" ∷ [];
  primary_symbol = some "a.py::add";
  allowed_files = "a.py" ∷ [];
  create_files = [];
  new_test_files = [];
  forbidden_changes = "b.py" ∷ [];
  patch_budget = record { max_files = none; max_changed_lines = none; exception_reason = none };
  verification = record {
    commands = some (("pytest" ∷ []) ∷ []);
    working_directory = none;
    timeout_seconds = none;
    output_limit = none;
  };
  risk = some "low";
  review_required = true;
  max_attempts = 2;
  dependencies = [];
  state = draft;
  lease_owner = none;
  lease_expires_at = none;
  created_at = 1;
  updated_at = 1;
}

abbrev drafted : Ledger
drafted = record empty_ledger { tickets = ticket ∷ [] }

transition_outcome_example :
    (let r = transition host "t1" ready_local "controller" [] 9 drafted in
      ((x : Error) → r.0 ≡ err x → r.1 ≡ drafted)
      × (r.0 ≡ ok tt → IsMoved host "t1" ready_local 9 drafted r.1))
transition_outcome_example = transition_outcome host "t1" ready_local "controller" [] 9 drafted

transition_test : (transition host "t1" ready_local "controller" [] 9 drafted).0 ≡ ok tt
unfolding transition find_where count_where update_where resolve_external_task_id supersede_older
transition_test = refl

abbrev held_ticket : Ticket
held_ticket = record ticket {
  state = implementing;
  lease_owner = some "worker";
  lease_expires_at = some 100;
}

abbrev going : Ledger
going = record empty_ledger { tickets = held_ticket ∷ [] }

going-IsHeld : IsHeld "t1" held_ticket 100 going.tickets
unfolding find_where count_where
going-IsHeld = record { there = refl; only = omega arith; begun = refl; lease = refl }

abbrev calls : List Call
calls = claiming "other" 60 20 ∷ recovering 99 ∷ claiming_one "t1" "other" 60 99 ∷ []

lease_excludes_example :
    find_where (has_id "t1") (perform_all calls going).tickets ≡ some held_ticket
lease_excludes_example =
    lease_excludes "t1" held_ticket 100 calls going going-IsHeld
      (omega arith, (omega arith, (omega arith, tt)))

next_attempt_fresh_example :
    (find_where (is_attempt "t1" (next_attempt_number "t1" going)) going.attempts ≡ none)
    × (next_attempt_number "t1" (ensure_attempt "t1" (next_attempt_number "t1" going) 7 going).1
        ≡ next_attempt_number "t1" going + 1)
    × ((other : String) (number : ℕ)
        → next_attempt_number "t1" going
          ≤ next_attempt_number "t1" (ensure_attempt other number 7 going).1)
unfolding find_where
next_attempt_fresh_example = next_attempt_fresh "t1" 7 going refl

begun : (record_stage "t1" 1 "implementation" "key" 7 going).0 ≡ ok true
unfolding record_stage find_where
begun = refl
