-- ===== src/Planning/Passed.antt =====
-- local_first_orchestrator/decomposition.py: `PlanValidator.validate` passes the valid plans, and no other.
use mathlib.Core.Path.{subst}
use mathlib.Core.Option.{some-injective}
use local_first_orchestrator.Base.{
  ℕ, ◌≤◌, String, ◌≡◌, ◌⊎◌, ◌↔◌, ◌∙◌, refl, sym, Bool, Bool-cases, inl, inr, true, false, not, ◌&&◌,
  Option, none, some, List, [], ◌∷◌, ◌++◌, Result, ok, err, is_nil, contains, is_within, sorted_set,
  any_where, Every, ltb, count, find_where, Host, arith,
}
use local_first_orchestrator.Contract.{MicroTicket, patch_budget_policy}
use local_first_orchestrator.Contract.Readiness.{validate_ticket}
use local_first_orchestrator.Contract.Ready.{IsReady}
use local_first_orchestrator.Contract.Validated.{validate_ticket_iff, validated-IsReady}
use local_first_orchestrator.Contract.Checks.{Every-iff, any_where-Every}
use local_first_orchestrator.Planning.Graph.{graph_of, has_cycle}
use local_first_orchestrator.Planning.Search.{IsCyclic}
use local_first_orchestrator.Planning.Cycles.{cycle_found}
use local_first_orchestrator.Planning.Plan.{
  FeatureContract, Tranche, DecompositionPlan, PlanValidator,
}
use local_first_orchestrator.Planning.Validate.{
  criteria_of, ticket_ids, is_active, over_budget, bad_dependency, ready_checks, ready_reasons,
  ticket_reasons, finds_cycle, unknown_reasons, changes_scope, active_checks, active_reasons,
  feature_reasons, validate, PlanValidationResult,
}
use local_first_orchestrator.Planning.Reasons.{
  Clean, append-Clean, gather-Clean, reason_if-Clean, not_if-Clean, for_each-Clean,
}
use local_first_orchestrator.Planning.Valid.{IsFitting, feature_reasons_iff}

-- A ticket of the active tranche: ready, within the feature and the limits, and dependent on others of the tranche only
pub record IsFit (v : PlanValidator) (criteria ids : List String) (t : MicroTicket) : Type 0 where
  pub ready : IsReady t
  pub known : is_within t.criterion_ids criteria ≡ true
  pub few_files : t.patch_budget.max_files ≤ v.max_files
  pub few_lines : t.patch_budget.max_changed_lines ≤ v.max_lines
  pub inside : is_within t.dependencies ids ≡ true
  pub no_self : contains t.ticket_id t.dependencies ≡ false

pub record IsSound (v : PlanValidator) (feature : FeatureContract) (plan : DecompositionPlan)
    (active : Tranche) : Type 0 where
  pub few : count active.microtickets ≤ v.max_active_tickets
  pub known :
      Every (λ (t : Tranche). is_within t.criterion_ids (criteria_of feature) ≡ true) plan.tranches
  pub fit :
      Every (IsFit v (criteria_of feature) (ticket_ids active.microtickets)) active.microtickets
  pub acyclic : ¬ IsCyclic (graph_of active.microtickets)
  pub in_scope :
      (is_nil plan.scope_change_proposals ≡ true)
      ⊎ Every (λ t. changes_scope t ≡ false) active.microtickets
  pub settled : (is_nil plan.unresolved_questions ≡ true) ⊎ (is_nil active.microtickets ≡ true)

within_limits :
    (v : PlanValidator) (t : MicroTicket)
    → (over_budget v t ≡ false) ↔ (
        (t.patch_budget.max_files ≤ v.max_files) × (t.patch_budget.max_changed_lines ≤ v.max_lines))
within_limits v t = (λ h. (ground arith, ground arith), λ h. ground arith)

good_dependencies :
    (ids : List String) (t : MicroTicket)
    → (bad_dependency ids t ≡ false)
      ↔ ((is_within t.dependencies ids ≡ true) × (contains t.ticket_id t.dependencies ≡ false))
good_dependencies ids t = (λ h. (ground arith, ground arith), λ h. ground arith)

module _ (v : PlanValidator) (criteria ids : List String) (t : MicroTicket) where
  ready_checks_iff :
      IsReady t → Every Clean (ready_checks v criteria ids t) ↔ IsFit v criteria ids t
  ready_checks_iff ready =
      let a = not_if-Clean (is_within t.criterion_ids criteria) "unknown_criterion" in
      let b = reason_if-Clean (over_budget v t) "patch_budget_exceeded" in
      let c = reason_if-Clean (bad_dependency ids t) "invalid_dependency" in
      let limits = within_limits v t in
      let deps = good_dependencies ids t in
      (
        λ (h1, (h2, (h3, _))).
            let two = limits.0 (b.0 h2) in
            let both = deps.0 (c.0 h3) in
            record {
              ready = ready;
              known = a.0 h1;
              few_files = two.0;
              few_lines = two.1;
              inside = both.0;
              no_self = both.1;
            },
        λ f. (
          a.1 f.known,
          (b.1 (limits.1 (f.few_files, f.few_lines)), (c.1 (deps.1 (f.inside, f.no_self)), tt)),
        ),
      )

  ready_iff :
      (r : Result MicroTicket)
      → validate_ticket patch_budget_policy t ≡ r
      → Clean (ready_reasons v criteria ids t r) ↔ IsFit v criteria ids t
  ready_iff (err e) h = (
    λ x. absurd (cc),
    λ f. absurd (let valid = (validate_ticket_iff t).1 f.ready in let z = sym h ∙ valid in cc),
  )
  ready_iff (ok u) h =
      let all = gather-Clean (ready_checks v criteria ids t) in
      let one = ready_checks_iff (validated-IsReady t u h) in
      (λ x. one.0 (all.0 x), λ f. all.1 (one.1 f))

  ticket_reasons_iff : Clean (ticket_reasons v criteria ids t) ↔ IsFit v criteria ids t
  ticket_reasons_iff = ready_iff (validate_ticket patch_budget_policy t) refl

cycle_iff :
    (tickets : List MicroTicket)
    → (finds_cycle (has_cycle (graph_of tickets)) ≡ false) ↔ (¬ IsCyclic (graph_of tickets))
cycle_iff tickets = elim (cycle_found (graph_of tickets)) [
  | inl (found, cyclic) ↦ rw found (λ h. absurd (cc), λ n. absurd (n cyclic))
  | inr (none_found, acyclic) ↦ rw none_found (λ h. acyclic, λ n. refl)
]

scope_iff :
    (proposals : List String) (tickets : List MicroTicket)
    → ((not (is_nil proposals) && any_where changes_scope tickets) ≡ false)
      ↔ ((is_nil proposals ≡ true) ⊎ Every (λ t. changes_scope t ≡ false) tickets)
scope_iff proposals tickets =
    let each = any_where-Every changes_scope tickets in
    elim (Bool-cases (is_nil proposals)) [
      | inl e ↦ rw e (λ h. inl refl, λ h. refl)
      | inr e ↦ rw e (λ h. inr (each.0 h), λ h. elim h [ inl x ↦ absurd (cc) | inr y ↦ each.1 y ])
    ]

settled_iff : (a b : Bool) → ((not a && not b) ≡ false) ↔ ((a ≡ true) ⊎ (b ≡ true))
settled_iff true b = (λ h. inl refl, λ h. refl)
settled_iff false true = (λ h. inr refl, λ h. refl)
settled_iff false false =
    (λ h. absurd (cc), λ h. elim h [ inl x ↦ absurd (cc) | inr y ↦ absurd (cc) ])

active_reasons_iff :
    (v : PlanValidator) (feature : FeatureContract) (plan : DecompositionPlan) (active : Tranche)
    → Clean (active_reasons v feature plan active) ↔ IsSound v feature plan active
unfolding active_reasons
active_reasons_iff v feature plan active =
    let criteria = criteria_of feature in
    let tickets = active.microtickets in
    let ids = ticket_ids tickets in
    let all = gather-Clean (active_checks v feature plan active) in
    let a =
      reason_if-Clean (ltb v.max_active_tickets (count tickets)) "active_tranche_limit_exceeded" in
    let b = for_each-Clean (unknown_reasons criteria) plan.tranches in
    let known =
      Every-iff plan.tranches
        (λ t. not_if-Clean (is_within t.criterion_ids criteria) "unknown_criterion") in
    let c = for_each-Clean (ticket_reasons v criteria ids) tickets in
    let fit = Every-iff tickets (λ t. ticket_reasons_iff v criteria ids t) in
    let d = reason_if-Clean (finds_cycle (has_cycle (graph_of tickets))) "dependency_cycle" in
    let cycle = cycle_iff tickets in
    let e =
      reason_if-Clean (not (is_nil plan.scope_change_proposals) && any_where changes_scope tickets)
        "scope_expansion" in
    let scope = scope_iff plan.scope_change_proposals tickets in
    let f =
      reason_if-Clean (not (is_nil plan.unresolved_questions) && not (is_nil tickets))
        "unresolved_choice" in
    let choice = settled_iff (is_nil plan.unresolved_questions) (is_nil tickets) in
    (
      λ h.
          let (h1, (h2, (h3, (h4, (h5, (h6, _)))))) = all.0 h in
          record {
            few = at_most_iff.0 (a.0 h1);
            known = known.0 (b.0 h2);
            fit = fit.0 (c.0 h3);
            acyclic = cycle.0 (d.0 h4);
            in_scope = scope.0 (e.0 h5);
            settled = choice.0 (f.0 h6);
          },
      λ s. all.1 (
        a.1 (at_most_iff.1 s.few),
        (
          b.1 (known.1 s.known),
          (
            c.1 (fit.1 s.fit),
            (d.1 (cycle.1 s.acyclic), (e.1 (scope.1 s.in_scope), (f.1 (choice.1 s.settled), tt))),
          ),
        ),
      ),
    )
  where
    at_most_iff : {m n : ℕ} → (ltb m n ≡ false) ↔ (n ≤ m)
    at_most_iff = (λ h. ground arith, λ h. ground arith)

-- `validate` passes a plan exactly if it is of this feature and of the feature's current contract; each
-- criterion of the feature, and no other, is covered by at least one ticket, each of which is in a tranche, with
-- both naming the criterion; there is an active tranche, with not too many tickets, each of them ready, within the criteria
-- and the limits and dependent on other tickets of the tranche only; no tranche names a criterion that the
-- feature has not; the dependencies have no cycle; no ticket changes the scope where such changes are proposed;
-- and no question is open where there are tickets.
pub validate_iff :
    (host : Host) (v : PlanValidator) (feature : FeatureContract) (plan : DecompositionPlan)
    → ((validate host v feature plan).passed ≡ true) ↔ (
        (active : Tranche) × (find_where is_active plan.tranches ≡ some active)
        × IsFitting host feature plan
        × IsSound v feature plan active)
unfolding validate
validate_iff host v feature plan = by_active (find_where is_active plan.tranches) refl
  where
    by_active :
        (o : Option Tranche)
        → find_where is_active plan.tranches ≡ o
        → ((elim o as (λ _. PlanValidationResult) [
          | none ↦ record {
            passed = false;
            reasons = feature_reasons host feature plan ++ ("invalid_microticket" ∷ []);
          }
          | some active ↦
              let all = feature_reasons host feature plan ++ active_reasons v feature plan active in
              record { passed = is_nil all; reasons = sorted_set all }
        ]).passed
            ≡ true)
          ↔ ((active : Tranche) × (o ≡ some active)
              × IsFitting host feature plan
              × IsSound v feature plan active)
    by_active none e = (λ h. absurd (cc), λ x. absurd (cc))
    by_active (some active) e =
        let both =
          append-Clean (feature_reasons host feature plan) (active_reasons v feature plan active) in
        let fitting = feature_reasons_iff host feature plan in
        let sound = active_reasons_iff v feature plan active in
        (
          λ h. let two = both.0 h in (active, refl, fitting.0 two.0, sound.0 two.1),
          λ (a, same, f, s).
              let own = some-injective _ _ same in
              both.1 (fitting.1 f, sound.1 (subst (λ t. IsSound v feature plan t) (sym own) s)),
        )
