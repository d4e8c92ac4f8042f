-- ===== src/Contract/Examples.antt =====
-- Paths of a contract at concrete inputs.
use local_first_orchestrator.Contract.Serial.{contract, ticket_from_contract}
use local_first_orchestrator.Contract.Roundtrip.{ticket_from_contract-contract}
use local_first_orchestrator.Base.{
  String, ◌≡◌, ◌⊎◌, refl, some, none, Every, has_text, select_where, true, false, [], ◌∷◌, ok, ◌↔◌,
  strip, is_blank, lower,
}
use local_first_orchestrator.Contract.{MicroTicket, patch_budget_policy}
use local_first_orchestrator.Contract.Languages.{is_test_path, at_last_dot, language_for}
use local_first_orchestrator.Contract.Readiness.{validate_ticket}
use local_first_orchestrator.Contract.Ready.{IsReady}
use local_first_orchestrator.Contract.Validated.{validate_ticket_iff}
use local_first_orchestrator.Contract.Paths.{split, normalized_repository_path}
use local_first_orchestrator.Contract.Plain.{IsPlain, normalized_repository_path-IsPlain}

plain_test : normalized_repository_path "src/a.py" ≡ some "src/a.py"
unfolding normalized_repository_path split has_text select_where
plain_test = refl

above_test : normalized_repository_path "src/../a.py" ≡ none
unfolding normalized_repository_path split has_text select_where
above_test = refl

dot_test : normalized_repository_path "." ≡ some "."
unfolding normalized_repository_path split has_text select_where
dot_test = refl

normalized_repository_path-IsPlain_example :
    (◌≡◌ {A = String} "src/a.py" "src/a.py")
    × ((◌≡◌ {A = String} "src/a.py" ".") ⊎ Every IsPlain (split "src/a.py"))
normalized_repository_path-IsPlain_example =
    normalized_repository_path-IsPlain "src/a.py" "src/a.py" plain_test

abbrev ticket : MicroTicket
ticket = record {
  ticket_id = "t1";
  objective = "Return the sum of two numbers";
  criterion_ids = "c1" ∷ [];
  primary_symbol = "a.py::add";
  allowed_files = "a.py" ∷ [];
  forbidden_changes = "b.py" ∷ [];
  patch_budget = record { max_files = 2; max_changed_lines = 180; exception_reason = none };
  verification = record {
    commands = ("pytest" ∷ []) ∷ [];
    working_directory = ".";
    timeout_seconds = 60;
    output_limit = 20000;
  };
  risk = "low";
  review_required = true;
  max_attempts = 2;
  dependencies = [];
  new_test_files = "tests/test_a.py" ∷ [];
  create_files = [];
}

validate_ticket_iff_example :
    (validate_ticket patch_budget_policy ticket ≡ ok ticket) ↔ IsReady ticket
validate_ticket_iff_example = validate_ticket_iff ticket

ready_test : validate_ticket patch_budget_policy ticket ≡ ok ticket
unfolding validate_ticket normalized_repository_path split has_text select_where strip is_blank
    lower language_for is_test_path at_last_dot
ready_test = refl

no_test_test : is_test_path "src/a.py" ≡ false
unfolding is_test_path language_for at_last_dot split select_where lower has_text
no_test_test = refl

script_test : is_test_path "scripts/verify-all.ts" ≡ true
unfolding is_test_path language_for at_last_dot split select_where lower has_text
script_test = refl

spec_test : is_test_path "web/a.spec.tsx" ≡ true
unfolding is_test_path language_for at_last_dot split select_where lower has_text
spec_test = refl

abbrev slow_ticket : MicroTicket
slow_ticket = record ticket { verification = record ticket.verification { timeout_seconds = 600 } }

ticket_from_contract-contract_example :
    (ticket_from_contract (contract slow_ticket)
      ≡ ok (record slow_ticket {
        verification = record slow_ticket.verification {
          timeout_seconds = 60;
          output_limit = 20000;
        };
        create_files = [];
      }))
    × ((ticket_from_contract (contract slow_ticket) ≡ ok slow_ticket) ↔ (
        (slow_ticket.verification.timeout_seconds ≡ 60)
        × (slow_ticket.verification.output_limit ≡ 20000)
        × (slow_ticket.create_files ≡ [])))
ticket_from_contract-contract_example = ticket_from_contract-contract slow_ticket

slow_contract_test : ticket_from_contract (contract slow_ticket) ≡ ok ticket
unfolding contract ticket_from_contract
slow_contract_test = refl
