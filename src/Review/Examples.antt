-- ===== src/Review/Examples.antt =====
-- The theorems on reviews at concrete inputs.
use local_first_orchestrator.Base.{
  ◌≡◌, ◌≢◌, ◌≤◌, String, refl, List, [], ◌∷◌, err, ok, Host, is_blank, strip, true, Json, json_text,
  json_list, json_object, no_items, item, no_fields, field, members, Fields, none, len, count,
}
use local_first_orchestrator.Contract.{MicroTicket}
use local_first_orchestrator.Review.Normalize.{
  normalize_review, normalize_rest, read_findings, read_suggestions, ReviewResult, result_of,
  fields_of,
}
use local_first_orchestrator.Review.Scoped.{IsNormal}
use local_first_orchestrator.Review.Normal.{
  normalized_within_contract, findings_conserved, IsSorted,
}
use local_first_orchestrator.Review.Packet.{build, too_long, max_packet_chars, packet_of}
use local_first_orchestrator.Review.Bounded.{packet_within_bound}
use local_first_orchestrator.Base.{some, find_where, count_where, update_where, ap, Result, ◌⊎◌}
use local_first_orchestrator.States.{local_review, needs_triage}
use local_first_orchestrator.Ledger.{Ledger, Ticket, empty_ledger}
use local_first_orchestrator.Ledger.Identity.{resolve_external_task_id}
use local_first_orchestrator.Projections.Outbox.{supersede_older}
use local_first_orchestrator.Tickets.Lifecycle.{has_id, transition}
use local_first_orchestrator.Tickets.Attempts.{ensure_attempt}
use local_first_orchestrator.Review.Records.{record_review, record_review_finding}
use local_first_orchestrator.Review.Repair.{apply, record_findings}
use local_first_orchestrator.Review.Normalize.{read_criteria, with_status}
use local_first_orchestrator.Review.Outcome.{IsLanded}
use local_first_orchestrator.Review.Applied.{review_applied}

abbrev host : Host
host = record {
  digest = λ s. s;
  redact_error = λ s. s;
  redact_evidence = λ s. s;
  stable_error = λ s. s;
}

abbrev files : List (String × String)
files = ("a.py", "print(1)") ∷ []

packet_within_bound_example :
    (build host "{}" "+print(1)" files "passed" ≢ err too_long)
    × ((packet : String)
        → build host "{}" "+print(1)" files "passed" ≡ ok packet
        → len packet ≤ max_packet_chars)
packet_within_bound_example = packet_within_bound host "{}" "+print(1)" files "passed"

build_test :
    build host "{}" "+print(1)" files "passed" ≡ ok (packet_of "{}" "+print(1)" files "passed")
unfolding build is_blank
build_test = refl

abbrev ticket : MicroTicket
ticket = record {
  ticket_id = "t1";
  objective = "Return the sum of two numbers";
  criterion_ids = "c1" ∷ [];
  primary_symbol = "a.py::add";
  allowed_files = "a.py" ∷ [];
  forbidden_changes = "b.py" ∷ [];
  patch_budget = record { max_files = 2; max_changed_lines = 180; exception_reason = none };
  verification = record {
    commands = ("pytest" ∷ []) ∷ [];
    working_directory = ".";
    timeout_seconds = 60;
    output_limit = 20000;
  };
  risk = "low";
  review_required = true;
  max_attempts = 2;
  dependencies = [];
  new_test_files = [];
  create_files = [];
}

abbrev finding_fields : String → Fields
finding_fields file = field "severity" (json_text "blocking") (
    field "criterion_id" (json_text "c1") (
      field "file" (json_text file) (
        field "symbol" (json_text "add") (
          field "evidence" (json_text "returns a") (
            field "minimal_repair" (json_text "return a + b") (
              field "verification" (json_text "pytest")
                (field "fingerprint_input" (json_text "wrong sum") no_fields)))))))

-- One finding in the ticket's file, and one outside.
abbrev answer : Json
answer = json_object (
    field "verdict" (json_text " repair ") (
      field "criterion_results"
        (json_list (
          item
            (json_object (
              field "criterion_id" (json_text "c1") (
                field "status" (json_text "fail")
                  (field "evidence" (json_text "returns a") no_fields))))
            no_items))
        (field "suggestions" (json_list (item (json_text "name it sum") no_items)) (
          field "findings"
            (json_list (
              item (json_object (finding_fields "a.py"))
                (item (json_object (finding_fields "b.py")) no_items)))
            no_fields))))

abbrev list_at : String → List Json
list_at name = elim (members name (fields_of answer)) [ ok items ↦ items | err e ↦ [] ]

abbrev reviewed : ReviewResult
reviewed =
    result_of host ticket (fields_of answer) (list_at "criterion_results") (list_at "suggestions")
      (list_at "findings")

answer_is_let_through : normalize_review host answer ticket ≡ ok reviewed
unfolding normalize_review normalize_rest strip is_blank
answer_is_let_through = refl

normalized_within_contract_example : IsNormal ticket reviewed
normalized_within_contract_example =
    normalized_within_contract host answer ticket reviewed answer_is_let_through

findings_conserved_example :
    IsSorted host ticket (list_at "suggestions") (list_at "findings") reviewed
findings_conserved_example =
    findings_conserved host answer ticket reviewed (list_at "suggestions") (list_at "findings")
      answer_is_let_through refl refl

findings_test : count reviewed.findings ≡ 1
unfolding read_findings strip is_blank
findings_test = refl

suggestions_test : count reviewed.suggestions ≡ 2
unfolding read_findings read_suggestions strip is_blank
suggestions_test = refl

abbrev reviewed_ticket : Ticket
reviewed_ticket = record {
  id = "t1";
  external_id = some "card";
  parent_ticket_id = none;
  tranche_id = none;
  title = "a ticket";
  feature_id = none;
  depth = 0;
  objective = some "Return the sum of two numbers";
  criterion_ids = "c1" ∷ [];
  primary_symbol = some "a.py::add";
  allowed_files = "a.py" ∷ [];
  create_files = [];
  new_test_files = [];
  forbidden_changes = "b.py" ∷ [];
  patch_budget = record { max_files = none; max_changed_lines = none; exception_reason = none };
  verification = record {
    commands = some (("pytest" ∷ []) ∷ []);
    working_directory = none;
    timeout_seconds = none;
    output_limit = none;
  };
  risk = some "low";
  review_required = true;
  max_attempts = 2;
  dependencies = [];
  state = local_review;
  lease_owner = none;
  lease_expires_at = none;
  created_at = 1;
  updated_at = 1;
}

abbrev in_review : Ledger
in_review = record empty_ledger { tickets = reviewed_ticket ∷ [] }

abbrev applied : Result String × Ledger
applied = apply host "t1" 1 reviewed 9 in_review

applied_repairs : applied.0 ≡ ok "repair"
unfolding apply ensure_attempt record_review record_review_finding record_findings transition
    find_where count_where update_where resolve_external_task_id supersede_older read_findings
    read_criteria with_status strip is_blank
applied_repairs = refl

review_applied_example :
    (t : Ticket) × (find_where (has_id "t1") in_review.tickets ≡ some t)
    × (((t.state ≡ needs_triage) × (◌≡◌ {A = String} "repair" "triage") × (applied.1 ≡ in_review))
        ⊎ ((t.state ≡ local_review) × IsLanded reviewed 1 "t1" "repair" applied.1))
review_applied_example =
    review_applied host "t1" 1 reviewed 9 in_review applied.1 "repair"
      (ap (λ r. (r, applied.1)) applied_repairs)
