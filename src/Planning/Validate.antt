-- ===== src/Planning/Validate.antt =====
-- local_first_orchestrator/decomposition.py: `PlanValidator.validate`, which collects the reasons against a
-- plan.
use local_first_orchestrator.Base.{
  String, Bool, false, not, ◌&&◌, ◌||◌, Option, none, some, List, [], ◌∷◌, ◌++◌, Result, ok, err,
  map, str_eq, ltb, ◌==◌, is_nil, contains, is_within, any_where, count, has_text, sorted_set,
  find_where, if◌then◌else◌, Host,
}
use local_first_orchestrator.Contract.{MicroTicket, patch_budget_policy}
use local_first_orchestrator.Contract.Readiness.{validate_ticket}
use local_first_orchestrator.Planning.Graph.{graph_of, has_cycle, lookup, keys}
use local_first_orchestrator.Planning.Plan.{
  Criterion, FeatureContract, contract_hash, Tranche, DecompositionPlan, PlanValidator,
}

pub record PlanValidationResult : Type 0 where
  pub passed : Bool
  pub reasons : List String

abbrev pub criteria_of : FeatureContract → List String
criteria_of f = map (λ (c : Criterion). c.id) f.acceptance_criteria

-- `if b: r.append(reason)`
abbrev pub reason_if : Bool → String → List String
reason_if b reason = if b then reason ∷ [] else []

-- A loop that appends for each element
abbrev pub for_each : {A : Type 0} → (A → List String) → List A → List String
for_each f [] = []
for_each f (x ∷ xs) = f x ++ for_each f xs

-- The reasons of several checks, in their order
abbrev pub gather : List (List String) → List String
gather [] = []
gather (r ∷ rs) = r ++ gather rs

abbrev pub ticket_ids : List MicroTicket → List String
ticket_ids = map (λ (t : MicroTicket). t.ticket_id)

abbrev pub has_ticket_id : String → MicroTicket → Bool
has_ticket_id id t = str_eq t.ticket_id id

-- `ticket_locations.get(id)`, the last tranche with such a ticket, with its first such ticket
unfoldable pub locate : String → List Tranche → Option (Tranche × MicroTicket)
locate id [] = none
locate id (tranche ∷ tranches) =
    let rest = locate id tranches in
    elim rest [
      | some place ↦ some place
      | none ↦ elim (find_where (has_ticket_id id) tranche.microtickets) [
        | none ↦ none
        | some ticket ↦ some (tranche, ticket)
      ]
    ]

abbrev pub place_checks : String → Tranche → MicroTicket → List (List String)
place_checks criterion tranche ticket =
    reason_if (not (contains criterion ticket.criterion_ids)) "criterion_ticket_mismatch"
    ∷ reason_if (not (contains criterion tranche.criterion_ids)) "criterion_tranche_mismatch"
    ∷ []

abbrev pub place_reasons : String → Option (Tranche × MicroTicket) → List String
place_reasons criterion none = "invalid_criterion_ticket_reference" ∷ []
place_reasons criterion (some (tranche, ticket)) = gather (place_checks criterion tranche ticket)

abbrev pub reference_reasons : String → List Tranche → String → List String
reference_reasons criterion tranches id = place_reasons criterion (locate id tranches)

abbrev pub covering_reasons : String → List Tranche → Option (List String) → List String
covering_reasons criterion tranches none = []
covering_reasons criterion tranches (some ids) =
    if is_nil ids
    then "invalid_criterion_coverage" ∷ []
    else for_each (reference_reasons criterion tranches) ids

abbrev pub coverage_reasons : DecompositionPlan → String → List String
coverage_reasons plan criterion =
    covering_reasons criterion plan.tranches (lookup criterion plan.criterion_coverage)

abbrev pub common : List String → List String → List String
common [] others = []
common (s ∷ ss) others = let rest = common ss others in if contains s others then s ∷ rest else rest

-- What is checked before the active tranche is looked for
abbrev pub feature_checks : Host → FeatureContract → DecompositionPlan → List (List String)
feature_checks host feature plan =
    let criteria = criteria_of feature in
    let coverage_keys = keys plan.criterion_coverage in
    reason_if (not (str_eq plan.feature_id feature.id)) "feature_mismatch"
    ∷ reason_if (not (str_eq plan.feature_contract_hash (contract_hash host feature)))
        "stale_feature_contract"
    ∷ reason_if (not (is_within criteria coverage_keys)) "criterion_uncovered"
    ∷ reason_if (not (is_within coverage_keys criteria)) "unknown_criterion"
    ∷ for_each (coverage_reasons plan) (sorted_set (common criteria coverage_keys))
    ∷ []

unfoldable pub feature_reasons : Host → FeatureContract → DecompositionPlan → List String
unfolding locate contract_hash
feature_reasons host feature plan = gather (feature_checks host feature plan)

abbrev pub is_active : Tranche → Bool
is_active t = t.ordinal == 0

abbrev pub over_budget : PlanValidator → MicroTicket → Bool
over_budget v t =
    ltb v.max_files t.patch_budget.max_files || ltb v.max_lines t.patch_budget.max_changed_lines

abbrev pub bad_dependency : List String → MicroTicket → Bool
bad_dependency ids t = not (is_within t.dependencies ids) || contains t.ticket_id t.dependencies

abbrev pub ready_checks :
    PlanValidator → List String → List String → MicroTicket → List (List String)
ready_checks v criteria ids t =
    reason_if (not (is_within t.criterion_ids criteria)) "unknown_criterion"
    ∷ reason_if (over_budget v t) "patch_budget_exceeded"
    ∷ reason_if (bad_dependency ids t) "invalid_dependency"
    ∷ []

abbrev pub ready_reasons :
    PlanValidator → List String → List String → MicroTicket → Result MicroTicket → List String
ready_reasons v criteria ids t (err e) = "invalid_microticket" ∷ []
ready_reasons v criteria ids t (ok u) = gather (ready_checks v criteria ids t)

abbrev pub ticket_reasons : PlanValidator → List String → List String → MicroTicket → List String
ticket_reasons v criteria ids t =
    ready_reasons v criteria ids t (validate_ticket patch_budget_policy t)

-- `any(dfs(n) for n in graph)`; the search does not run out of fuel.
abbrev pub finds_cycle : Option Bool → Bool
finds_cycle none = false
finds_cycle (some b) = b

abbrev pub unknown_reasons : List String → Tranche → List String
unknown_reasons criteria t =
    reason_if (not (is_within t.criterion_ids criteria)) "unknown_criterion"

abbrev pub changes_scope : MicroTicket → Bool
changes_scope t = has_text "scope-change" t.objective

-- What is checked of the active tranche
abbrev pub active_checks :
    PlanValidator → FeatureContract → DecompositionPlan → Tranche → List (List String)
active_checks v feature plan active =
    let criteria = criteria_of feature in
    let tickets = active.microtickets in
    reason_if (ltb v.max_active_tickets (count tickets)) "active_tranche_limit_exceeded"
    ∷ for_each (unknown_reasons criteria) plan.tranches
    ∷ for_each (ticket_reasons v criteria (ticket_ids tickets)) tickets
    ∷ reason_if (finds_cycle (has_cycle (graph_of tickets))) "dependency_cycle"
    ∷ reason_if (not (is_nil plan.scope_change_proposals) && any_where changes_scope tickets)
        "scope_expansion"
    ∷ reason_if (not (is_nil plan.unresolved_questions) && not (is_nil tickets)) "unresolved_choice"
    ∷ []

unfoldable pub active_reasons :
    PlanValidator → FeatureContract → DecompositionPlan → Tranche → List String
unfolding validate_ticket has_cycle has_text
active_reasons v feature plan active = gather (active_checks v feature plan active)

unfoldable pub validate :
    Host → PlanValidator → FeatureContract → DecompositionPlan → PlanValidationResult
unfolding feature_reasons active_reasons
validate host v feature plan =
    let first = feature_reasons host feature plan in
    elim (find_where is_active plan.tranches) [
      | none ↦ record { passed = false; reasons = first ++ ("invalid_microticket" ∷ []) }
      | some active ↦
          let all = first ++ active_reasons v feature plan active in
          record { passed = is_nil all; reasons = sorted_set all }
    ]
