-- ===== src/Stages/Phases.antt =====
-- local_first_orchestrator/ledger.py: what a claim promises, in the abstract: its effect is started, ends and
-- is finalized once each, in this order.
use mathlib.Core.Path.{subst}
use mathlib.Core.Option.{some-injective}
use local_first_orchestrator.Base.{
  ℕ, String, ◌≡◌, ◌∙◌, refl, sym, ap, Bool, Bool-cases, inl, inr, true, Option, none, some, str_eq,
  eq_iff, if◌then◌else◌, find_where, find_where-some, find_where-update_where,
}
use local_first_orchestrator.Ledger.{Ledger, StageClaim, claimed, finalized, failed}
use local_first_orchestrator.Stages.Claims.{is_claim, get_claim, update_claims}

-- A claim that an operator retires before its effect ended is discarded, or broken off.
pub data Phase : Type 0 where
  absent waiting running effected ended discarded broken : Phase

abbrev pub open_phase : Option ℕ → Option ℕ → Phase
open_phase _ (some _) = effected
open_phase (some _) none = running
open_phase none none = waiting

abbrev pub failed_phase : Option ℕ → Option ℕ → Phase
failed_phase none none = discarded
failed_phase none (some _) = broken
failed_phase (some _) _ = broken

abbrev pub phase : StageClaim → Phase
phase c = elim c.status [
  | claimed ↦ open_phase c.side_effect_started_at c.side_effect_completed_at
  | finalized ↦ ended
  | failed ↦ failed_phase c.side_effect_started_at c.side_effect_completed_at
]

-- The abstract state: the phase of each claim
abbrev pub phase_of : Option StageClaim → Phase
phase_of none = absent
phase_of (some c) = phase c

unfoldable pub view : String → Ledger → Phase
view id db = phase_of (get_claim id db)

-- The abstract steps of one claim
pub data Step : Phase → Phase → Type 0 where
  stay : {p : Phase} → Step p p
  create : Step absent waiting
  begin : Step waiting running
  effect : Step running effected
  finish : Step effected ended
  discard : Step waiting discarded
  break_off : Step running broken

pub data Steps : Phase → Phase → Type 0 where
  here : {p : Phase} → Steps p p
  then_step : {p q r : Phase} → Steps p q → Step q r → Steps p r

-- An operation is refined by the abstract steps: it moves every claim along one of them at most.
pub record IsRefined (old new : Ledger) : Type 0 where
  pub step : (id : String) → Step (view id old) (view id new)

pub IsRefined-refl : (db : Ledger) → IsRefined db db
IsRefined-refl db = record { step = λ id. stay }

-- The rows of the claims are all that the view reads.
pub IsRefined-same : {old new : Ledger} → old.stage_claims ≡ new.stage_claims → IsRefined old new
unfolding view
IsRefined-same {old} {new} h = record {
  step = λ id. subst (λ cs. Step (view id old) (phase_of (find_where (is_claim id) cs))) h stay;
}

-- An update of the claims is refined if it moves each row that it changes along a step, and keeps its id.
pub update-IsRefined :
    (q : StageClaim → Bool) (g : StageClaim → StageClaim) (db : Ledger)
    → ((c : StageClaim) → (g c).claim_id ≡ c.claim_id)
    → ((c : StageClaim) (id : String)
        → get_claim id db ≡ some c
        → q c ≡ true
        → Step (phase c) (phase (g c)))
    → IsRefined db (update_claims q g db)
unfolding view
update-IsRefined q g db same moves = record {
  step = λ id.
      let found =
        find_where-update_where q g (is_claim id) db.stage_claims
          (λ c. ap (λ i. str_eq i id) (same c)) in
      rw found (moved id (get_claim id db) refl);
}
  where
    moved :
        (id : String) (o : Option StageClaim)
        → get_claim id db ≡ o
        → Step
            (phase_of o)
            (phase_of (elim o [ none ↦ none | some r ↦ some (if q r then g r else r) ]))
    moved id none e = stay
    moved id (some c) e = elim (Bool-cases (q c)) [
      | inl h ↦ rw h (moves c id e h)
      | inr h ↦ rw h stay
    ]

-- A claim that an id finds is the one that its own id finds.
pub own_claim :
    (db : Ledger) (c d : StageClaim) (id own : String)
    → get_claim id db ≡ some c
    → is_claim own c ≡ true
    → get_claim own db ≡ some d
    → c ≡ d
own_claim db c d id own found is_own found_own =
    let a = find_where-some (is_claim id) db.stage_claims found in
    let same : own ≡ id = sym ((eq_iff c.claim_id own).0 is_own) ∙ (eq_iff c.claim_id id).0 a in
    some-injective _ _ (sym found ∙ (ap (λ i. get_claim i db) (sym same) ∙ found_own))
