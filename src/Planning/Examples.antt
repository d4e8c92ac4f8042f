-- ===== src/Planning/Examples.antt =====
-- The theorems on plans at concrete plans.
use local_first_orchestrator.Planning.Plan.{
  FeatureContract, contract_hash, Tranche, DecompositionPlan, default_validator,
}
use local_first_orchestrator.Planning.Validate.{
  is_active, locate, feature_reasons, active_reasons, validate,
}
use local_first_orchestrator.Planning.Valid.{IsFitting}
use local_first_orchestrator.Planning.Passed.{IsSound, validate_iff}
use local_first_orchestrator.Contract.Paths.{split, normalized_repository_path}
use local_first_orchestrator.Contract.Languages.{language_for, is_test_path, at_last_dot}
use local_first_orchestrator.Contract.Readiness.{validate_ticket}
use local_first_orchestrator.Base.{
  Host, ◌↔◌, find_where, has_text, select_where, strip, is_blank, lower, ◌≡◌, ◌⊎◌, refl, String,
  some, none, true, false, List, [], ◌∷◌,
}
use local_first_orchestrator.Contract.{MicroTicket}
use local_first_orchestrator.Planning.Graph.{Graph, graph_of, dfs, has_cycle}
use local_first_orchestrator.Planning.Search.{IsCyclic}
use local_first_orchestrator.Planning.Cycles.{cycle_found}

abbrev ticket : String → List String → MicroTicket
ticket id dependencies = record {
  ticket_id = id;
  objective = "Return the sum of two numbers";
  criterion_ids = "c1" ∷ [];
  primary_symbol = "a.py::add";
  allowed_files = "a.py" ∷ [];
  forbidden_changes = "b.py" ∷ [];
  patch_budget = record { max_files = 2; max_changed_lines = 180; exception_reason = none };
  verification = record {
    commands = ("pytest" ∷ []) ∷ [];
    working_directory = ".";
    timeout_seconds = 60;
    output_limit = 20000;
  };
  risk = "low";
  review_required = true;
  max_attempts = 2;
  dependencies = dependencies;
  new_test_files = [];
  create_files = [];
}

abbrev looped : Graph
looped =
    graph_of
      (ticket "t1" ("t2" ∷ "t0" ∷ []) ∷ ticket "t2" ("t3" ∷ []) ∷ ticket "t3" ("t1" ∷ []) ∷ [])

-- Two ways lead from one ticket to another.
abbrev shared : Graph
shared = graph_of (
    ticket "t1" ("t2" ∷ "t3" ∷ [])
    ∷ ticket "t2" ("t4" ∷ [])
    ∷ ticket "t3" ("t4" ∷ [])
    ∷ ticket "t4" []
    ∷ [])

cycle_found_example :
    ((has_cycle looped ≡ some true) × IsCyclic looped)
    ⊎ ((has_cycle looped ≡ some false) × ¬ IsCyclic looped)
cycle_found_example = cycle_found looped

looped_test : has_cycle looped ≡ some true
unfolding has_cycle dfs
looped_test = refl

shared_test : has_cycle shared ≡ some false
unfolding has_cycle dfs
shared_test = refl

abbrev host : Host
host = record {
  digest = λ s. s;
  redact_error = λ s. s;
  redact_evidence = λ s. s;
  stable_error = λ s. s;
}

abbrev feature : FeatureContract
feature = record {
  id = "f1";
  title = "sums";
  objective = "Add numbers";
  acceptance_criteria = record { id = "c1"; statement = "adds"; verification_hint = "" } ∷ [];
  non_goals = [];
  invariants = [];
  constraints = [];
  source_revision = "abc";
}

abbrev plan : DecompositionPlan
plan = record {
  plan_version = 1;
  feature_id = "f1";
  feature_contract_hash = contract_hash host feature;
  repo_base_sha = "abc";
  repo_snapshot_hash = "def";
  architecture_decisions = [];
  criterion_coverage = ("c1", "t1" ∷ "t2" ∷ []) ∷ [];
  tranches =
      record {
        id = "tranche";
        ordinal = 0;
        objective = "all of it";
        capabilities = [];
        criterion_ids = "c1" ∷ [];
        microtickets = ticket "t1" ("t2" ∷ []) ∷ ticket "t2" [] ∷ [];
      }
      ∷ [];
  scope_change_proposals = [];
  unresolved_questions = [];
  repository_identity = "repository";
  repo_snapshot_manifest_json = "{}";
}

validate_iff_example : ((validate host default_validator feature plan).passed ≡ true) ↔ (
    (active : Tranche) × (find_where is_active plan.tranches ≡ some active)
    × IsFitting host feature plan
    × IsSound default_validator feature plan active)
validate_iff_example = validate_iff host default_validator feature plan

passed_test : (validate host default_validator feature plan).passed ≡ true
unfolding validate feature_reasons active_reasons locate contract_hash has_cycle dfs validate_ticket
    normalized_repository_path split has_text select_where strip is_blank lower language_for
    is_test_path at_last_dot find_where
passed_test = refl
