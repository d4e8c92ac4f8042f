-- ===== src/Contract.antt =====
-- local_first_orchestrator/ticket.py, the contract of a ticket, and source_languages.py, its paths.
pub mod Paths
pub mod Plain
pub mod Languages
pub mod Readiness
pub mod Ready
pub mod Checks
pub mod Validated
pub mod Serial
pub mod Encoded
pub mod Roundtrip
mod Examples
use local_first_orchestrator.Base.{ℕ, String, Bool, Option, List, ◌++◌}

pub record PatchBudget : Type 0 where
  pub max_files : ℕ
  pub max_changed_lines : ℕ
  pub exception_reason : Option String

pub record VerificationProfile : Type 0 where
  pub commands : List (List String)
  pub working_directory : String
  pub timeout_seconds : ℕ
  pub output_limit : ℕ

pub record MicroTicket : Type 0 where
  pub ticket_id : String
  pub objective : String
  pub criterion_ids : List String
  pub primary_symbol : String
  pub allowed_files : List String
  pub forbidden_changes : List String
  pub patch_budget : PatchBudget
  pub verification : VerificationProfile
  pub risk : String
  pub review_required : Bool
  pub max_attempts : ℕ
  pub dependencies : List String
  pub new_test_files : List String
  pub create_files : List String

abbrev pub declared_ticket_paths : MicroTicket → List String
declared_ticket_paths t = t.allowed_files ++ t.create_files ++ t.new_test_files

pub record PatchBudgetPolicy : Type 0 where
  pub normal_max_files : ℕ
  pub normal_max_changed_lines : ℕ
  pub minimum_exception_reason_length : ℕ

-- `PATCH_BUDGET_POLICY`
abbrev pub patch_budget_policy : PatchBudgetPolicy
patch_budget_policy = record {
  normal_max_files = 2;
  normal_max_changed_lines = 180;
  minimum_exception_reason_length = 12;
}
