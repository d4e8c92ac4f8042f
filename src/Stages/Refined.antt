-- ===== src/Stages/Refined.antt =====
-- local_first_orchestrator/ledger.py: the operations on claims are refined by the abstract steps.
use mathlib.Core.Path.{subst}
use local_first_orchestrator.Base.{
  ℕ, String, ◌≡◌, refl, sym, Bool, Option-cases, inl, inr, true, false, not, ◌&&◌, ◌||◌, &&-true,
  ||-false, opt_eq, Option, none, some, List, is_null, is_null→none, if◌then◌else◌, arith,
  count_where, Ensures, Ensures-ok, Ensures-err, Ensures-require, Ensures-row, Ensures-if, ◌==◌,
}
use local_first_orchestrator.Ledger.{
  Ledger, StageClaim, ClaimStatus, claimed, finalized, failed, append_event,
}
use local_first_orchestrator.Stages.Claims.{
  is_claim, is_claimed, is_finalized, holds_lease, get_claim, read_back, has_begun, may_start,
  start_effect, begin_body, may_finalize, finalize, finalize_claim, complete_body, conflicts,
  holds_ticket,
}
use local_first_orchestrator.Stages.Phases.{
  Phase, ended, phase, open_phase, failed_phase, view, Step, begin, finish, IsRefined,
  IsRefined-refl, update-IsRefined, own_claim,
}

-- What follows an update of the claims leaves them alone.
pub IsRefined-after :
    {old mid new : Ledger}
    → mid.stage_claims ≡ new.stage_claims
    → IsRefined old mid
    → IsRefined old new
unfolding view
IsRefined-after {old} {mid} {new} h r = record {
  step = λ id.
      subst (λ cs. Step (view id old) (view id (record mid { stage_claims = cs }))) h (r.step id);
}

pub IsRefined-before :
    {old mid new : Ledger}
    → mid.stage_claims ≡ old.stage_claims
    → IsRefined mid new
    → IsRefined old new
unfolding view
IsRefined-before {old} {mid} {new} h r = record {
  step = λ id.
      subst (λ cs. Step (view id (record mid { stage_claims = cs })) (view id new)) h (r.step id);
}

pub read_back-Ensures :
    (P : Ledger → Type 0) (id : String) (s : Ledger)
    → P s
    → Ensures (λ (c : StageClaim). P) (read_back id s)
read_back-Ensures P id s p = elim (Option-cases (get_claim id s)) [
  | inl e ↦ rw (read_back, e) (Ensures-err _)
  | inr (c, e) ↦ rw (read_back, e) (Ensures-ok p)
]

-- A claimed row moves as the times of its effect do.
pub open-Step :
    (c d : StageClaim)
    → is_claimed c.status ≡ true
    → d.status ≡ c.status
    → Step
        (open_phase c.side_effect_started_at c.side_effect_completed_at)
        (open_phase d.side_effect_started_at d.side_effect_completed_at)
    → Step (phase c) (phase d)
open-Step c d h same step =
    let p = open_phase c.side_effect_started_at c.side_effect_completed_at in
    let q = open_phase d.side_effect_started_at d.side_effect_completed_at in
    let x = failed_phase c.side_effect_started_at c.side_effect_completed_at in
    let y = failed_phase d.side_effect_started_at d.side_effect_completed_at in
    subst (λ s. Step (phase c) (elim s [ claimed ↦ q | finalized ↦ ended | failed ↦ y ])) (sym same)
      (both c.status h p q x y step)
  where
    both :
        (s : ClaimStatus)
        → is_claimed s ≡ true
        → (p q x y : Phase) → Step p q
        → Step
            (elim s [ claimed ↦ p | finalized ↦ ended | failed ↦ x ])
            (elim s [ claimed ↦ q | finalized ↦ ended | failed ↦ y ])
    both claimed h p q x y step = step
    both finalized h p q x y step = absurd (cc)
    both failed h p q x y step = absurd (cc)

-- Both branches keep the claims.
kept_if :
    (b : Bool) (x y : Ledger) (cs : List StageClaim)
    → cs ≡ x.stage_claims
    → cs ≡ y.stage_claims
    → cs ≡ (if b then x else y).stage_claims
kept_if true x y cs hx hy = hx
kept_if false x y cs hx hy = hy

not_begun :
    (c : StageClaim)
    → has_begun c ≡ false
    → (c.side_effect_completed_at ≡ none) × (c.side_effect_started_at ≡ none)
not_begun c h =
    let f = is_finalized c.status in
    let e = not (is_null c.side_effect_completed_at) in
    let s = not (is_null c.side_effect_started_at) in
    let outer = ||-false (f || e) s h in
    let inner = ||-false f e outer.0 in
    (
      is_null→none c.side_effect_completed_at (ground arith),
      is_null→none c.side_effect_started_at (ground arith),
    )

pub holds-claimed :
    (owner : String) (now : ℕ) (c : StageClaim)
    → holds_lease owner now c ≡ true
    → is_claimed c.status ≡ true
holds-claimed owner now c h = ground arith

module _ (id owner : String) (now : ℕ) (db : Ledger) where
  start-Step :
      (row : StageClaim)
      → get_claim id db ≡ some row
      → has_begun row ≡ false
      → (c : StageClaim) (other : String) → get_claim other db ≡ some c
      → may_start id owner now c ≡ true
      → Step (phase c) (phase (start_effect now c))
  start-Step row found fresh c other f h =
      let a = is_claim id c in
      let b = holds_lease owner now c in
      let first = &&-true (a && b) (is_null c.side_effect_started_at) h in
      let second = &&-true a b first.0 in
      let same = own_claim db c row other id f second.0 found in
      let times = not_begun c (subst (λ r. has_begun r ≡ false) (sym same) fresh) in
      let no_end = times.0 in
      let no_start = times.1 in
      open-Step c (start_effect now c) (holds-claimed owner now c second.1) refl
        (rw (no_end, no_start) begin)

  pub begin_body-IsRefined : Ensures (λ (c : StageClaim). IsRefined db) (begin_body id owner now db)
  unfolding begin_body append_event
  begin_body-IsRefined =
      Ensures-row (get_claim id db) _ _ db (λ _. Ensures-err _)
        (λ c f.
          Ensures-if (has_begun c) _ _ db (λ _. Ensures-ok (IsRefined-refl db))
            (λ fresh.
              Ensures-require (count_where (may_start id owner now) db.stage_claims == 1) _ _ _
                (λ one. read_back-Ensures (IsRefined db) id _ (
                  IsRefined-after refl (
                    update-IsRefined (may_start id owner now) (start_effect now) db (λ c. refl)
                      (start-Step c f fresh))))))

  finish-Step :
      (encoded : String) (c : StageClaim)
      → may_finalize id owner now c ≡ true
      → Step (phase c) (phase (finalize encoded now c))
  finish-Step encoded c h =
      let a = is_claim id c in
      let b = holds_lease owner now c in
      let first = &&-true (a && b) (not (is_null c.side_effect_completed_at)) h in
      let second = &&-true a b first.0 in
      ended_step c.status c.side_effect_started_at c.side_effect_completed_at
        (holds-claimed owner now c second.1) (ground arith)
    where
      ended_step :
          (s : ClaimStatus) (a b : Option ℕ)
          → is_claimed s ≡ true
          → is_null b ≡ false
          → Step
              (elim s [ claimed ↦ open_phase a b | finalized ↦ ended | failed ↦ failed_phase a b ])
              ended
      ended_step claimed a none h n = absurd (cc)
      ended_step claimed a (some t) h n = finish
      ended_step finalized a b h n = absurd (cc)
      ended_step failed a b h n = absurd (cc)

  pub complete_body-IsRefined :
      (encoded : String)
      → Ensures (λ (c : StageClaim). IsRefined db) (complete_body id owner encoded now db)
  unfolding complete_body finalize_claim append_event
  complete_body-IsRefined encoded =
      Ensures-row (get_claim id db) _ _ db (λ _. Ensures-err _)
        (λ c f.
          Ensures-if (is_finalized c.status) _ _ db
            (λ _.
              Ensures-require (opt_eq c.result encoded) _ _ db
                (λ _. Ensures-ok (IsRefined-refl db)))
            (λ still_open.
              Ensures-require (not (is_null c.side_effect_completed_at)) _ _ db (λ effect_ended.
                Ensures-require (not (conflicts c.result encoded)) _ _ db (λ agrees.
                  Ensures-require (count_where (may_finalize id owner now) db.stage_claims == 1) _ _
                    _
                    (λ one. read_back-Ensures (IsRefined db) id _ (
                      IsRefined-after (kept_if (holds_ticket c.stage) _ _ _ refl refl) (
                        update-IsRefined (may_finalize id owner now) (finalize encoded now) db
                          (λ c. refl) (λ c other g h. finish-Step encoded c h))))))))
