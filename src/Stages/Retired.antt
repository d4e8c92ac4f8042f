-- ===== src/Stages/Retired.antt =====
-- local_first_orchestrator/ledger.py: the retirement of a claim, and the abstract steps.
use local_first_orchestrator.Base.{
  ℕ, String, ◌≡◌, refl, Bool, true, false, not, ◌&&◌, ◌||◌, &&-true, Option, none, some, is_null,
  is_blank, count_where, ◌==◌, at_most, Ensures, Ensures-ok, Ensures-err, Ensures-require,
  Ensures-check, Ensures-row, Ensures-if, Ensures-result, Ensures-bind, transaction-keeps, keeps-if,
  arith,
}
use local_first_orchestrator.Ledger.{
  Ledger, StageClaim, ClaimStatus, claimed, finalized, failed, append_event,
}
use local_first_orchestrator.Stages.Claims.{
  is_claim, is_claimed, is_finalized, get_claim, read_back,
}
use local_first_orchestrator.Stages.Release.{is_running}
use local_first_orchestrator.Stages.Retire.{
  Retirement, find_proof, may_discard, discard_claim, may_close, close_claim, end_claim,
  retire_claim, retire_body, retire_historical_scheduler_claim,
}
use local_first_orchestrator.Stages.Phases.{
  phase, open_phase, failed_phase, ended, Step, finish, discard, break_off, IsRefined,
  IsRefined-refl, update-IsRefined,
}
use local_first_orchestrator.Stages.Refined.{IsRefined-after, read_back-Ensures}

-- A claim whose effect has not ended is discarded or broken off; one whose effect has ended is finalized.
discard_step :
    (s : ClaimStatus) (a b : Option ℕ)
    → is_claimed s ≡ true
    → is_null b ≡ true
    → Step
        (elim s [ claimed ↦ open_phase a b | finalized ↦ ended | failed ↦ failed_phase a b ])
        (failed_phase a b)
discard_step claimed none none h n = discard
discard_step claimed (some u) none h n = break_off
discard_step claimed a (some t) h n = absurd (cc)
discard_step finalized a b h n = absurd (cc)
discard_step failed a b h n = absurd (cc)

close_step :
    (s : ClaimStatus) (a b : Option ℕ)
    → is_claimed s ≡ true
    → is_null b ≡ false
    → Step
        (elim s [ claimed ↦ open_phase a b | finalized ↦ ended | failed ↦ failed_phase a b ])
        ended
close_step claimed a none h n = absurd (cc)
close_step claimed a (some t) h n = finish
close_step finalized a b h n = absurd (cc)
close_step failed a b h n = absurd (cc)

module _ (id operator reason : String) (now : ℕ) (db : Ledger) where
  discard-Step :
      (c : StageClaim)
      → may_discard id c ≡ true
      → Step (phase c) (phase (discard_claim reason now c))
  discard-Step c h =
      let first =
        &&-true (is_claim id c && is_claimed c.status) (is_null c.side_effect_completed_at) h in
      let second = &&-true (is_claim id c) (is_claimed c.status) first.0 in
      discard_step c.status c.side_effect_started_at c.side_effect_completed_at second.1 first.1

  close-Step : (c : StageClaim) → may_close id c ≡ true → Step (phase c) (phase (close_claim now c))
  close-Step c h =
      let first =
        &&-true (is_claim id c && is_claimed c.status) (not (is_null c.side_effect_completed_at))
          h in
      let second = &&-true (is_claim id c) (is_claimed c.status) first.0 in
      close_step c.status c.side_effect_started_at c.side_effect_completed_at second.1
        (ground arith)

  end_claim-IsRefined :
      (is_incomplete : Bool)
      → Ensures
          (λ (_ : Unit {0}) (s : Ledger). IsRefined db s)
          (end_claim is_incomplete id reason now db)
  unfolding end_claim
  end_claim-IsRefined is_incomplete =
      Ensures-if is_incomplete _ _ db
        (λ _. Ensures-check (count_where (may_discard id) db.stage_claims == 1) _ _ (λ _.
          update-IsRefined (may_discard id) (discard_claim reason now) db (λ c. refl)
            (λ c other f h. discard-Step c h)))
        (λ _. Ensures-check (count_where (may_close id) db.stage_claims == 1) _ _ (λ _.
          update-IsRefined (may_close id) (close_claim now) db (λ c. refl)
            (λ c other f h. close-Step c h)))

  retire_claim-IsRefined :
      (c : StageClaim)
      → Ensures (λ (r : Retirement). IsRefined db) (retire_claim c id operator reason now db)
  unfolding retire_claim append_event
  retire_claim-IsRefined c = Ensures-require (is_claimed c.status) _ _ db (λ _.
      Ensures-require (at_most c.lease_expires_at now) _ _ db (λ _.
        Ensures-result (find_proof c db) _ _ db (λ e f. Ensures-err e)
          (λ proof f.
            Ensures-bind (end_claim proof.is_incomplete id reason now db) _
              (end_claim-IsRefined proof.is_incomplete)
              (λ _ s moved.
                Ensures-bind (read_back id _) _
                  (read_back-Ensures (IsRefined db) id _ (IsRefined-after refl moved))
                  (λ row s' r. Ensures-ok r)))))

  retire_body-IsRefined :
      Ensures (λ (r : Retirement). IsRefined db) (retire_body id operator reason now db)
  unfolding retire_body
  retire_body-IsRefined = Ensures-require (not (is_running db.controller)) _ _ db (λ _.
      Ensures-row (get_claim id db) _ _ db (λ _. Ensures-err _)
        (λ c f.
          Ensures-if (is_finalized c.status) _ _ db (λ _. Ensures-ok (IsRefined-refl db))
            (λ _. retire_claim-IsRefined c)))

  pub retire-IsRefined :
      IsRefined db (retire_historical_scheduler_claim id operator reason now db).1
  unfolding retire_historical_scheduler_claim
  retire-IsRefined =
      keeps-if (IsRefined db) (is_blank operator || is_blank reason) _ _ (λ _. IsRefined-refl db)
        (λ _.
          transaction-keeps (IsRefined db) (retire_body id operator reason now) db
            (IsRefined-refl db) retire_body-IsRefined)
