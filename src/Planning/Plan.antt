-- ===== src/Planning/Plan.antt =====
-- local_first_orchestrator/decomposition.py: features and their plans.
use local_first_orchestrator.Base.{
  ℕ, String, List, Host, dumps, Json, json_text, json_object, field, no_fields,
}
use local_first_orchestrator.Contract.{MicroTicket}
use local_first_orchestrator.Contract.Encoded.{list_json, texts_json}

pub record Criterion : Type 0 where
  pub id : String
  pub statement : String
  pub verification_hint : String

pub record FeatureContract : Type 0 where
  pub id : String
  pub title : String
  pub objective : String
  pub acceptance_criteria : List Criterion
  pub non_goals : List String
  pub invariants : List String
  pub constraints : List String
  pub source_revision : String

-- `c.__dict__`
abbrev criterion_json : Criterion → Json
criterion_json c = json_object (
    field "id" (json_text c.id) (
      field "statement" (json_text c.statement)
        (field "verification_hint" (json_text c.verification_hint) no_fields)))

-- `FeatureContract.contract_hash`
unfoldable pub contract_hash : Host → FeatureContract → String
unfolding dumps
contract_hash host f = host.digest (
    dumps (
      json_object (
        field "id" (json_text f.id) (
          field "title" (json_text f.title) (
            field "objective" (json_text f.objective) (
              field "acceptance_criteria" (list_json criterion_json f.acceptance_criteria) (
                field "non_goals" (texts_json f.non_goals) (
                  field "invariants" (texts_json f.invariants) (
                    field "constraints" (texts_json f.constraints)
                      (field "source_revision" (json_text f.source_revision) no_fields))))))))))

pub record Tranche : Type 0 where
  pub id : String
  pub ordinal : ℕ
  pub objective : String
  pub capabilities : List String
  pub criterion_ids : List String
  pub microtickets : List MicroTicket

-- `criterion_coverage` is a dictionary: its names are distinct.
pub record DecompositionPlan : Type 0 where
  pub plan_version : ℕ
  pub feature_id : String
  pub feature_contract_hash : String
  pub repo_base_sha : String
  pub repo_snapshot_hash : String
  pub architecture_decisions : List String
  pub criterion_coverage : List (String × List String)
  pub tranches : List Tranche
  pub scope_change_proposals : List String
  pub unresolved_questions : List String
  pub repository_identity : String
  pub repo_snapshot_manifest_json : String

pub record PlanValidator : Type 0 where
  pub max_active_tickets : ℕ
  pub max_files : ℕ
  pub max_lines : ℕ

-- The defaults of `PlanValidator`
abbrev pub default_validator : PlanValidator
default_validator = record { max_active_tickets = 4; max_files = 3; max_lines = 200 }
