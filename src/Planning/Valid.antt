-- ===== src/Planning/Valid.antt =====
-- local_first_orchestrator/decomposition.py: the plans that `PlanValidator.validate` passes.
use mathlib.Core.Path.{subst}
use mathlib.Core.Option.{some-injective}
use local_first_orchestrator.Base.{
  String, ◌≡◌, ◌≢◌, ◌↔◌, ◌∙◌, refl, sym, ap, Bool-cases, inl, inr, true, false, Option, none, some,
  List, [], ◌∷◌, sorted_set, is_nil, contains, is_within, Every, str_eq, eq_iff, Host, arith,
}
use local_first_orchestrator.Contract.{MicroTicket}
use local_first_orchestrator.Contract.Checks.{Every-iff}
use local_first_orchestrator.Planning.Graph.{Graph, lookup, keys}
use local_first_orchestrator.Planning.Plan.{
  FeatureContract, contract_hash, Tranche, DecompositionPlan,
}
use local_first_orchestrator.Planning.Validate.{
  criteria_of, locate, place_checks, feature_checks, place_reasons, reference_reasons,
  covering_reasons, coverage_reasons, common, feature_reasons,
}
use local_first_orchestrator.Planning.Reasons.{
  Clean, gather-Clean, not_if-Clean, for_each-Clean, covered-Every,
}

-- A ticket that a criterion is covered by: it is in a tranche, and both name the criterion.
pub record IsPlaced (plan : DecompositionPlan) (criterion id : String) : Type 0 where
  pub tranche : Tranche
  pub ticket : MicroTicket
  pub place : locate id plan.tranches ≡ some (tranche, ticket)
  pub by_ticket : contains criterion ticket.criterion_ids ≡ true
  pub by_tranche : contains criterion tranche.criterion_ids ≡ true

-- A criterion with tickets, each of which covers it
pub record IsCovered (plan : DecompositionPlan) (criterion : String) : Type 0 where
  pub ids : List String
  pub listed : lookup criterion plan.criterion_coverage ≡ some ids
  pub any : is_nil ids ≡ false
  pub each : Every (IsPlaced plan criterion) ids

place_iff :
    (plan : DecompositionPlan) (criterion id : String) (o : Option (Tranche × MicroTicket))
    → locate id plan.tranches ≡ o
    → Clean (place_reasons criterion o) ↔ IsPlaced plan criterion id
place_iff plan criterion id none e = (λ h. absurd (cc), λ p. absurd (let q = sym e ∙ p.place in cc))
place_iff plan criterion id (some (tranche, ticket)) e =
    let both = gather-Clean (place_checks criterion tranche ticket) in
    let a = not_if-Clean (contains criterion ticket.criterion_ids) "criterion_ticket_mismatch" in
    let b = not_if-Clean (contains criterion tranche.criterion_ids) "criterion_tranche_mismatch" in
    (
      λ h.
          let two = both.0 h in
          record {
            tranche = tranche;
            ticket = ticket;
            place = e;
            by_ticket = a.0 two.0;
            by_tranche = b.0 two.1.0;
          },
      λ p.
          let same = some-injective _ _ (sym e ∙ p.place) in
          let in_ticket : contains criterion ticket.criterion_ids ≡ true =
            ap (λ (x : Tranche × MicroTicket). contains criterion x.1.criterion_ids) same
            ∙ p.by_ticket in
          let in_tranche : contains criterion tranche.criterion_ids ≡ true =
            ap (λ (x : Tranche × MicroTicket). contains criterion x.0.criterion_ids) same
            ∙ p.by_tranche in
          both.1 (a.1 in_ticket, (b.1 in_tranche, tt)),
    )

-- The reasons against the tickets of a criterion that the plan lists
covering_iff :
    (plan : DecompositionPlan) (criterion : String) (o : Option (List String))
    → lookup criterion plan.criterion_coverage ≡ o
    → o ≢ none
    → Clean (covering_reasons criterion plan.tranches o) ↔ IsCovered plan criterion
covering_iff plan criterion none e there = absurd (there refl)
covering_iff plan criterion (some []) e there = (
  λ h. absurd (cc),
  λ c. absurd (
      let same = some-injective _ _ (sym e ∙ c.listed) in
      let n = subst (λ x. is_nil x ≡ false) (sym same) c.any in cc),
)
covering_iff plan criterion (some (id ∷ ids)) e there =
    let all = for_each-Clean (reference_reasons criterion plan.tranches) (id ∷ ids) in
    let each =
      Every-iff (id ∷ ids) (λ i. place_iff plan criterion i (locate i plan.tranches) refl) in
    (
      λ h. record { ids = id ∷ ids; listed = e; any = refl; each = each.0 (all.0 h) },
      λ c.
          let same = some-injective _ _ (sym e ∙ c.listed) in
          all.1 (each.1 (subst (Every (IsPlaced plan criterion)) (sym same) c.each)),
    )

pub record IsFitting (host : Host) (feature : FeatureContract) (plan : DecompositionPlan)
    : Type 0 where
  pub same_feature : plan.feature_id ≡ feature.id
  pub current : plan.feature_contract_hash ≡ contract_hash host feature
  pub complete : is_within (criteria_of feature) (keys plan.criterion_coverage) ≡ true
  pub no_other : is_within (keys plan.criterion_coverage) (criteria_of feature) ≡ true
  pub covered : Every (IsCovered plan) (criteria_of feature)

is_listed : (g : Graph) (n : String) → contains n (keys g) ≡ true → lookup n g ≡ none → ⊥
is_listed [] n h e = cc
is_listed ((k, deps) ∷ g) n h e = elim (Bool-cases (str_eq k n)) [
  | inl same ↦ let found : some deps ≡ none = rw same at e in cc
  | inr other ↦ is_listed g n (ground arith) (rw other at e)
]

all_listed :
    (g : Graph) (ss : List String)
    → is_within ss (keys g) ≡ true
    → Every (λ s. lookup s g ≢ none) ss
all_listed g [] h = tt
all_listed g (s ∷ ss) h =
    let first : contains s (keys g) ≡ true = ground arith in
    (is_listed g s first, all_listed g ss (ground arith))

coverage_reasons_iff :
    (plan : DecompositionPlan) (ss : List String)
    → Every (λ s. lookup s plan.criterion_coverage ≢ none) ss
    → Every (λ s. Clean (coverage_reasons plan s)) ss ↔ Every (IsCovered plan) ss
coverage_reasons_iff plan [] h = (λ p. tt, λ p. tt)
coverage_reasons_iff plan (s ∷ ss) h =
    let first = covering_iff plan s (lookup s plan.criterion_coverage) refl h.0 in
    let rest = coverage_reasons_iff plan ss h.1 in
    (λ p. (first.0 p.0, rest.0 p.1), λ p. (first.1 p.0, rest.1 p.1))

pub feature_reasons_iff :
    (host : Host) (feature : FeatureContract) (plan : DecompositionPlan)
    → Clean (feature_reasons host feature plan) ↔ IsFitting host feature plan
unfolding feature_reasons
feature_reasons_iff host feature plan =
    let criteria = criteria_of feature in
    let names = keys plan.criterion_coverage in
    let all = gather-Clean (feature_checks host feature plan) in
    let a = not_if-Clean (str_eq plan.feature_id feature.id) "feature_mismatch" in
    let b =
      not_if-Clean (str_eq plan.feature_contract_hash (contract_hash host feature))
        "stale_feature_contract" in
    let c = not_if-Clean (is_within criteria names) "criterion_uncovered" in
    let d = not_if-Clean (is_within names criteria) "unknown_criterion" in
    let e = for_each-Clean (coverage_reasons plan) (sorted_set (common criteria names)) in
    let coverage = λ (within : is_within criteria names ≡ true).
      covered-Every (λ s. Clean (coverage_reasons plan s)) criteria names within in
    let meaning = λ (within : is_within criteria names ≡ true).
      coverage_reasons_iff plan criteria (all_listed plan.criterion_coverage criteria within) in
    (
      λ h.
          let (h1, (h2, (h3, (h4, (h5, _))))) = all.0 h in
          let within = c.0 h3 in
          record {
            same_feature = (eq_iff _ _).0 (a.0 h1);
            current = (eq_iff _ _).0 (b.0 h2);
            complete = within;
            no_other = d.0 h4;
            covered = (meaning within).0 ((coverage within).0 (e.0 h5));
          },
      λ f.
          let rest = e.1 ((coverage f.complete).1 ((meaning f.complete).1 f.covered)) in
          all.1 (
            a.1 ((eq_iff _ _).1 f.same_feature),
            (b.1 ((eq_iff _ _).1 f.current), (c.1 f.complete, (d.1 f.no_other, (rest, tt)))),
          ),
    )
