-- ===== src/Contract/Serial.antt =====
-- local_first_orchestrator/ticket.py and triage.py: a contract as a JSON object, and read back.
use local_first_orchestrator.Base.{
  ℕ, String, Bool, Option, none, some, List, [], Result, ok, err, value_error, coalesce, is_nil,
  if◌then◌else◌,
}
use local_first_orchestrator.Contract.{
  MicroTicket, PatchBudget, VerificationProfile, patch_budget_policy,
}

-- The objects that the JSON texts hold: a name that is missing is `none`. Their values have the types that
-- the dataclasses declare.
pub record BudgetContract : Type 0 where
  pub max_files : Option ℕ
  pub max_changed_lines : Option ℕ
  pub exception_reason : Option String

pub record VerificationContract : Type 0 where
  pub commands : Option (List (List String))
  pub working_directory : Option String
  pub timeout_seconds : Option ℕ
  pub output_limit : Option ℕ

pub record TicketContract : Type 0 where
  pub ticket_id : Option String
  pub objective : Option String
  pub criterion_ids : Option (List String)
  pub primary_symbol : Option String
  pub allowed_files : Option (List String)
  pub forbidden_changes : Option (List String)
  pub patch_budget : Option BudgetContract
  pub verification : Option VerificationContract
  pub risk : Option String
  pub review_required : Option Bool
  pub max_attempts : Option ℕ
  pub dependencies : Option (List String)
  pub new_test_files : Option (List String)
  pub create_files : Option (List String)

-- `patch_budget.__dict__`
abbrev pub budget_contract : PatchBudget → BudgetContract
budget_contract b = record {
  max_files = some b.max_files;
  max_changed_lines = some b.max_changed_lines;
  exception_reason = b.exception_reason;
}

abbrev pub verification_contract : VerificationProfile → VerificationContract
verification_contract v = record {
  commands = some v.commands;
  working_directory = some v.working_directory;
  timeout_seconds = some v.timeout_seconds;
  output_limit = some v.output_limit;
}

-- A name that is written only if there are files
abbrev pub if_any : List String → Option (List String)
if_any files = if is_nil files then none else some files

-- `MicroTicket.contract`
unfoldable pub contract : MicroTicket → TicketContract
contract t = record {
  ticket_id = some t.ticket_id;
  objective = some t.objective;
  criterion_ids = some t.criterion_ids;
  primary_symbol = some t.primary_symbol;
  allowed_files = some t.allowed_files;
  forbidden_changes = some t.forbidden_changes;
  patch_budget = some (budget_contract t.patch_budget);
  verification = some (verification_contract t.verification);
  risk = some t.risk;
  review_required = some t.review_required;
  max_attempts = some t.max_attempts;
  dependencies = some t.dependencies;
  new_test_files = if_any t.new_test_files;
  create_files = if_any t.create_files;
}

-- `PatchBudget(**budget)`
abbrev pub budget_of : BudgetContract → PatchBudget
budget_of b = record {
  max_files = coalesce b.max_files patch_budget_policy.normal_max_files;
  max_changed_lines = coalesce b.max_changed_lines patch_budget_policy.normal_max_changed_lines;
  exception_reason = b.exception_reason;
}

-- `raw[name]`, whose `KeyError` is raised again as a `TriageError`
abbrev with_field : {A B : Type 0} → Option A → (A → Result B) → Result B
with_field none k = err (value_error "child ticket contract is incomplete")
with_field (some a) k = k a

-- `_ticket_from_contract` of triage.py: the limits of the verification and `create_files` are not read.
unfoldable pub ticket_from_contract : TicketContract → Result MicroTicket
ticket_from_contract raw = with_field raw.patch_budget (λ budget.
    with_field raw.verification (λ verification. with_field raw.ticket_id (λ ticket_id.
      with_field raw.objective (λ objective. with_field raw.criterion_ids (λ criterion_ids.
        with_field raw.primary_symbol (λ primary_symbol.
          with_field raw.allowed_files (λ allowed_files.
            with_field raw.forbidden_changes (λ forbidden_changes.
              with_field verification.commands (λ commands. with_field raw.risk (λ risk.
                with_field raw.review_required (λ review_required.
                  with_field raw.max_attempts (λ max_attempts.
                    with_field raw.dependencies (λ dependencies. ok (record {
                      ticket_id = ticket_id;
                      objective = objective;
                      criterion_ids = criterion_ids;
                      primary_symbol = primary_symbol;
                      allowed_files = allowed_files;
                      forbidden_changes = forbidden_changes;
                      patch_budget = budget_of budget;
                      verification = record {
                        commands = commands;
                        working_directory = coalesce verification.working_directory ".";
                        timeout_seconds = 60;
                        output_limit = 20000;
                      };
                      risk = risk;
                      review_required = review_required;
                      max_attempts = max_attempts;
                      dependencies = dependencies;
                      new_test_files = coalesce raw.new_test_files [];
                      create_files = [];
                    }))))))))))))))
