-- ===== src/Stages/Leases.antt =====
-- local_first_orchestrator/ledger.py: the operations that lease, release or defer a claim, and the abstract
-- steps.
use mathlib.Core.Path.{subst}
use local_first_orchestrator.Base.{
  ℕ, String, ◌≡◌, refl, ap, Bool, Bool-cases, inl, inr, not, ◌&&◌, ◌||◌, Option, none, some, ◌∷◌,
  str_eq, is_null, is_null→none, is_blank, eq_iff, find_where, count_where, first_by, Ensures,
  Ensures-ok, Ensures-err, Ensures-require, Ensures-row, keeps-if, keeps-result, Ensures-if,
  Ensures-bind, transaction-keeps, ◌==◌, Host, ltb,
}
use local_first_orchestrator.Ledger.{Ledger, StageClaim, append_event}
use local_first_orchestrator.Tickets.Lifecycle.{is_paused, older}
use local_first_orchestrator.Stages.Claims.{is_claim, is_claimed, get_claim, read_back}
use local_first_orchestrator.Stages.Effect.{
  older_claim, to_replay, is_candidate, reclaim, is_expired_claim, replay_claim, new_claim,
  insert_claim, claim_readiness_body, readiness_claim_id, claim_next_scheduler_readiness,
}
use local_first_orchestrator.Stages.Reconciliation.{Decision}
use local_first_orchestrator.Stages.Decide.{scheduler_reconciliation}
use local_first_orchestrator.Stages.Release.{
  is_redo, is_running, review_identity, is_review, review_retry, abandon, is_open_claim,
  release_claim, release_body, release_abandoned_scheduler_claim, defer_until, may_defer,
  is_paid_stage, is_leased_to, defer_claim, defer_body,
}
use local_first_orchestrator.Stages.Phases.{
  phase_of, view, Step, stay, create, IsRefined, IsRefined-refl, update-IsRefined,
}
use local_first_orchestrator.Stages.Refined.{IsRefined-after, read_back-Ensures, IsRefined-before}

-- A lease alone moves no phase.
replay_claim-IsRefined :
    (c : StageClaim) (owner : String) (lease_seconds now : ℕ) (db : Ledger)
    → Ensures (λ (o : Option StageClaim). IsRefined db) (replay_claim c owner lease_seconds now db)
unfolding replay_claim append_event
replay_claim-IsRefined c owner lease_seconds now db =
    let expired = is_expired_claim c.claim_id now in
    let moved =
      update-IsRefined expired (reclaim owner lease_seconds now) db (λ c. refl)
        (λ c id f h. stay) in
    Ensures-if (not (count_where expired db.stage_claims == 1)) _ _ _ (λ _. Ensures-ok moved)
      (λ _.
        Ensures-bind (read_back c.claim_id _) _
          (read_back-Ensures (IsRefined db) c.claim_id _ (IsRefined-after refl moved))
          (λ row s r. Ensures-ok r))

insert-IsRefined :
    (c : StageClaim) (db : Ledger)
    → get_claim c.claim_id db ≡ none
    → Step (phase_of none) (phase_of (some c))
    → IsRefined db (record db { stage_claims = c ∷ db.stage_claims })
unfolding view find_where
insert-IsRefined c db fresh step = record {
  step = λ id. elim (Bool-cases (is_claim id c)) [
    | inl e ↦
        let own = (eq_iff c.claim_id id).0 e in
        let none_yet = subst (λ i. get_claim i db ≡ none) own fresh in rw (e, none_yet) step
    | inr e ↦ rw e stay
  ];
}

insert_claim-IsRefined :
    (id ticket owner : String) (lease_seconds now : ℕ) (db : Ledger)
    → Ensures
        (λ (o : Option StageClaim). IsRefined db)
        (insert_claim id ticket owner lease_seconds now db)
unfolding insert_claim append_event
insert_claim-IsRefined id ticket owner lease_seconds now db =
    Ensures-require (is_null (get_claim id db)) _ _ db (λ fresh.
      Ensures-bind (read_back id _) _
        (read_back-Ensures (IsRefined db) id _ (
          IsRefined-after refl (
            insert-IsRefined (new_claim id ticket owner lease_seconds now) db
              (is_null→none (get_claim id db) fresh) create)))
        (λ row s r. Ensures-ok r))

claim_readiness_body-IsRefined :
    (host : Host) (owner : String) (lease_seconds now : ℕ) (only : Option String) (db : Ledger)
    → Ensures
        (λ (o : Option StageClaim). IsRefined db)
        (claim_readiness_body host owner lease_seconds now only db)
unfolding claim_readiness_body
claim_readiness_body-IsRefined host owner lease_seconds now only db =
    Ensures-if (is_paused db.controller) _ _ db (λ _. Ensures-ok (IsRefined-refl db))
      (λ _.
        Ensures-row (first_by older_claim (to_replay only now) db.stage_claims) _ _ db
          (λ _.
            Ensures-row (first_by older (is_candidate only db) db.tickets) _ _ db
              (λ _. Ensures-ok (IsRefined-refl db))
              (λ t f.
                insert_claim-IsRefined (readiness_claim_id host t.id) t.id owner lease_seconds now
                  db))
          (λ c f. replay_claim-IsRefined c owner lease_seconds now db))

pub claim_next-IsRefined :
    (host : Host) (owner : String) (lease_seconds now : ℕ) (only : Option String) (db : Ledger)
    → IsRefined db (claim_next_scheduler_readiness host owner lease_seconds now only db).1
unfolding claim_next_scheduler_readiness
claim_next-IsRefined host owner lease_seconds now only db =
    keeps-if (IsRefined db) (str_eq owner "" || ltb lease_seconds 1) _ _ (λ _. IsRefined-refl db)
      (λ _.
        transaction-keeps (IsRefined db) (claim_readiness_body host owner lease_seconds now only) db
          (IsRefined-refl db) (claim_readiness_body-IsRefined host owner lease_seconds now only db))

review_retry-same :
    (c : StageClaim) (db : Ledger) → Ensures (λ (b : Bool) (s : Ledger). s ≡ db) (review_retry c db)
unfolding review_retry
review_retry-same c db =
    Ensures-if (not (is_review c)) _ _ db (λ _. Ensures-ok refl)
      (λ _.
        Ensures-row (review_identity c.identity) _ _ db (λ _. Ensures-err _)
          (λ i f. Ensures-ok refl))

release_claim-IsRefined :
    (c : StageClaim) (d : Decision) (id operator reason : String) (now : ℕ) (db : Ledger)
    → Ensures (λ (c : StageClaim). IsRefined db) (release_claim c d id operator reason now db)
unfolding release_claim append_event
release_claim-IsRefined c d id operator reason now db =
    Ensures-require (is_claimed c.status) _ _ db (λ _.
      Ensures-require (is_null c.side_effect_completed_at) _ _ db (λ _.
        Ensures-bind (review_retry c db) _ (review_retry-same c db) (λ authorized s same.
          Ensures-require (is_redo d.action || authorized) _ _ s (λ _.
            read_back-Ensures (IsRefined db) id _ (
              IsRefined-before (ap (λ (x : Ledger). x.stage_claims) same) (
                IsRefined-after refl (
                  update-IsRefined (is_open_claim id) (abandon now) s (λ c. refl)
                    (λ c i f h. stay))))))))

release_body-IsRefined :
    (d : Decision) (id operator reason : String) (now : ℕ) (db : Ledger)
    → Ensures (λ (c : StageClaim). IsRefined db) (release_body d id operator reason now db)
unfolding release_body
release_body-IsRefined d id operator reason now db =
    Ensures-require (not (is_running db.controller)) _ _ db (λ _.
      Ensures-row (get_claim id db) _ _ db (λ _. Ensures-err _)
        (λ c f. release_claim-IsRefined c d id operator reason now db))

pub release-IsRefined :
    (id operator reason : String) (now : ℕ) (db : Ledger)
    → IsRefined db (release_abandoned_scheduler_claim id operator reason now db).1
unfolding release_abandoned_scheduler_claim
release-IsRefined id operator reason now db =
    keeps-if (IsRefined db) (is_blank operator || is_blank reason) _ _ (λ _. IsRefined-refl db)
      (λ _.
        keeps-result (IsRefined db) (scheduler_reconciliation id db) _ _ (λ _. IsRefined-refl db)
          (λ d.
            transaction-keeps (IsRefined db) (release_body d id operator reason now) db
              (IsRefined-refl db) (release_body-IsRefined d id operator reason now db)))

pub defer_body-IsRefined :
    (host : Host) (id owner : String) (retry_after : ℕ) (kind detail : String) (now : ℕ)
    (db : Ledger)
    → Ensures
        (λ (c : StageClaim). IsRefined db)
        (defer_body host id owner retry_after kind detail now db)
unfolding defer_body defer_claim append_event
defer_body-IsRefined host id owner retry_after kind detail now db =
    Ensures-row (get_claim id db) _ _ db (λ _. Ensures-err _)
      (λ c f. Ensures-require (is_paid_stage c) _ _ db (λ _.
        Ensures-require
          (is_claimed c.status
            && not (is_null c.side_effect_started_at)
            && is_null c.side_effect_completed_at)
          _ _ db
          (λ _. Ensures-require (is_leased_to owner now c) _ _ db (λ _.
            Ensures-require (count_where (may_defer id owner) db.stage_claims == 1) _ _ _ (λ _.
              read_back-Ensures (IsRefined db) id _ (
                IsRefined-after refl (
                  update-IsRefined (may_defer id owner) (defer_until retry_after _ now) db
                    (λ c. refl) (λ c i f h. stay))))))))
