-- ===== src/Triage/Examples.antt =====
-- The theorems on triage at concrete inputs.
use local_first_orchestrator.Base.{
  String, ◌≡◌, refl, true, false, none, some, List, [], ◌∷◌, Result, ok, err, value_error, Error,
  Host, find_where, count_where, update_where, select_where, is_nil, Every, count, strip, is_blank,
  lower, has_text, decimal,
}
use local_first_orchestrator.States.{needs_triage, accepted}
use local_first_orchestrator.Ledger.{TriageChild, Ledger, Ticket, empty_ledger}
use local_first_orchestrator.Ledger.Identity.{resolve_external_task_id}
use local_first_orchestrator.Projections.Outbox.{supersede_older}
use local_first_orchestrator.Tickets.Lifecycle.{has_id}
use local_first_orchestrator.Contract.{MicroTicket}
use local_first_orchestrator.Contract.Paths.{split, normalized_repository_path}
use local_first_orchestrator.Contract.Languages.{language_for, is_test_path, at_last_dot}
use local_first_orchestrator.Contract.Readiness.{validate_ticket}
use local_first_orchestrator.Contract.Serial.{contract, ticket_from_contract}
use local_first_orchestrator.Contract.Encoded.{contract_fields}
use local_first_orchestrator.Triage.Proposal.{
  TriagePayload, TriageResult, fingerprint_of, normalize_triage,
}
use local_first_orchestrator.Triage.Enqueue.{triage_child_payload}
use local_first_orchestrator.Triage.Children.{NewChild, is_child_of, unresolved}
use local_first_orchestrator.Triage.Create.{ids_of, create_triaged_children}
use local_first_orchestrator.Triage.Coordinator.{apply, check_proposal, resolve_parent}
use local_first_orchestrator.Triage.Matched.{Matched, HasChild}
use local_first_orchestrator.Triage.Repeated.{children_repeated}
use local_first_orchestrator.Triage.Resolved.{IsWaiting, IsResolved, resolve_parent_outcome}
use local_first_orchestrator.Triage.Checked.{normalized_passes}

abbrev host : Host
host = record {
  digest = λ s. s;
  redact_error = λ s. s;
  redact_evidence = λ s. s;
  stable_error = λ s. s;
}

-- A ticket that failed, with two criteria
abbrev parent : Ticket
parent = record {
  id = "t1";
  external_id = some "card";
  parent_ticket_id = none;
  tranche_id = none;
  title = "a ticket";
  feature_id = none;
  depth = 1;
  objective = some "Return the sum of two numbers";
  criterion_ids = "c1" ∷ "c2" ∷ [];
  primary_symbol = some "a.py::add";
  allowed_files = "a.py" ∷ [];
  create_files = [];
  new_test_files = "tests/test_a.py" ∷ [];
  forbidden_changes = "b.py" ∷ [];
  patch_budget = record { max_files = none; max_changed_lines = none; exception_reason = none };
  verification = record {
    commands = some (("pytest" ∷ []) ∷ []);
    working_directory = none;
    timeout_seconds = none;
    output_limit = none;
  };
  risk = some "low";
  review_required = true;
  max_attempts = 2;
  dependencies = [];
  state = needs_triage;
  lease_owner = none;
  lease_expires_at = none;
  created_at = 1;
  updated_at = 1;
}

abbrev child_ticket : MicroTicket
child_ticket = record {
  ticket_id = "child";
  objective = "Return the sum of two numbers";
  criterion_ids = "c1" ∷ [];
  primary_symbol = "a.py::add";
  allowed_files = "a.py" ∷ [];
  forbidden_changes = "b.py" ∷ [];
  patch_budget = record { max_files = 2; max_changed_lines = 180; exception_reason = none };
  verification = record {
    commands = ("pytest" ∷ []) ∷ [];
    working_directory = ".";
    timeout_seconds = 60;
    output_limit = 20000;
  };
  risk = "low";
  review_required = true;
  max_attempts = 2;
  dependencies = [];
  new_test_files = "tests/test_a.py" ∷ [];
  create_files = [];
}

abbrev child : NewChild
child = record {
  child_id = "t2";
  title = "a child";
  ticket = child_ticket;
  fingerprint = fingerprint_of host child_ticket ("c1" ∷ []);
}

abbrev failed : Ledger
failed = record empty_ledger {
  tickets = parent ∷ [];
  bindings =
      record {
        ticket_id = "t1";
        repository_path = "/repository";
        starting_sha = "abc";
        canonical_sha = none;
        ownership_verified = true;
        created_at = 1;
      }
      ∷ [];
}

abbrev divided : Result (List String) × Ledger
divided = create_triaged_children host "t1" (child ∷ []) "oversized_ticket" "too long" true 5 failed

-- The parent's only child is accepted.
abbrev settled : Ledger
settled = record empty_ledger {
  tickets =
      parent
      ∷ record parent { id = "t2"; parent_ticket_id = some "t1"; depth = 2; state = accepted }
      ∷ [];
}

abbrev parted : Ledger
parted = record failed {
  triage_children =
      record {
        parent_ticket_id = "t1";
        child_ticket_id = "t2";
        fingerprint = fingerprint_of host child_ticket ("c1" ∷ []);
        created_at = 5;
      }
      ∷ [];
}

there_test : is_nil (select_where (is_child_of "t1") parted.triage_children) ≡ false
unfolding select_where
there_test = refl

-- The same split, with a new id
abbrev redrawn : List NewChild
redrawn = record child { child_id = "t9" } ∷ []

children_repeated_example :
    (let r =
        create_triaged_children host "t1" redrawn "oversized_ticket" "too long" false 9 parted in
      (r.1 ≡ parted)
      × (r.0 ≡ ok ("t2" ∷ [])
          → Matched "t1" parted.triage_children redrawn ("t2" ∷ [])
            × Every
                (λ (row : TriageChild).
                  row.parent_ticket_id ≡ "t1" → HasChild redrawn row.fingerprint)
                parted.triage_children
            × (count redrawn ≡ count (select_where (is_child_of "t1") parted.triage_children))))
children_repeated_example =
    children_repeated host "t1" redrawn "oversized_ticket" "too long" false 9 parted there_test

repeated_test :
    (create_triaged_children host "t1" redrawn "oversized_ticket" "too long" false 9 parted).0
    ≡ ok ("t2" ∷ [])
unfolding create_triaged_children find_where select_where validate_ticket normalized_repository_path
    split has_text strip is_blank lower language_for is_test_path at_last_dot fingerprint_of
    contract contract_fields decimal triage_child_payload ids_of
repeated_test = refl

abbrev payload : TriagePayload
payload = record {
  classification = some " oversized_ticket";
  root_cause_evidence = some "too long";
  recommended_action = some "decompose";
  children = some (
      record {
        id = none;
        resolves_criteria = some ("c1" ∷ []);
        ticket = some (contract child_ticket);
      }
      ∷ []);
}

abbrev proposal : TriageResult
proposal = record {
  classification = "oversized_ticket";
  root_cause_evidence = "too long";
  recommended_action = "decompose";
  children =
      record {
        title = "child";
        resolves_criteria = "c1" ∷ [];
        ticket = child_ticket;
        fingerprint = fingerprint_of host child_ticket ("c1" ∷ []);
      }
      ∷ [];
}

found_test : find_where (has_id "t1") failed.tickets ≡ some parent
unfolding find_where
found_test = refl

normalized_test :
    normalize_triage host payload child_ticket 1 3 2 (some (unresolved parent failed)) ≡ ok proposal
unfolding create_triaged_children find_where select_where validate_ticket normalized_repository_path
    split has_text strip is_blank lower language_for is_test_path at_last_dot fingerprint_of
    contract contract_fields decimal triage_child_payload unresolved ticket_from_contract
    normalize_triage
normalized_test = refl

normalized_passes_example : check_proposal "t1" proposal failed ≡ ok tt
normalized_passes_example =
    normalized_passes host payload child_ticket "t1" parent failed proposal found_test
      normalized_test refl

-- A child may resolve criteria that its ticket does not name: then the fingerprint is not the ledger's, and
-- the proposal, which passes the checks, is refused.
abbrev wider : TriageResult
wider = record proposal {
  children =
      record {
        title = "child";
        resolves_criteria = "c1" ∷ "c2" ∷ [];
        ticket = child_ticket;
        fingerprint = fingerprint_of host child_ticket ("c1" ∷ "c2" ∷ []);
      }
      ∷ [];
}

wider_test :
    (apply host ("t2" ∷ []) "t1" wider true 5 failed).0
    ≡ err (value_error "triage child fingerprint does not match its contract")
unfolding create_triaged_children find_where select_where validate_ticket normalized_repository_path
    split has_text strip is_blank lower language_for is_test_path at_last_dot fingerprint_of
    contract contract_fields decimal triage_child_payload unresolved apply
wider_test = refl

resolve_parent_outcome_example :
    (let r = resolve_parent host "t1" 9 settled in
      ((x : Error) → r.0 ≡ err x → r.1 ≡ settled)
      × (r.0 ≡ ok false → r.1 ≡ settled)
      × (r.0 ≡ ok true → IsWaiting "t1" settled × IsResolved host "t1" 9 settled r.1))
resolve_parent_outcome_example = resolve_parent_outcome host "t1" 9 settled

resolved_test : (resolve_parent host "t1" 9 settled).0 ≡ ok true
unfolding resolve_parent find_where count_where update_where select_where resolve_external_task_id
    supersede_older
resolved_test = refl
