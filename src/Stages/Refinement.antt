-- ===== src/Stages/Refinement.antt =====
-- local_first_orchestrator/ledger.py: any sequence of calls on the claims, and what each claim goes through.
use local_first_orchestrator.Base.{
  arith, Option-cases, inl, inr, ℕ, ◌+◌, String, List, [], ◌∷◌, Option, ◌≡◌, refl, Bool, true,
  false, not, ◌||◌, none, some, Host, transaction-keeps, ok, leb, if◌then◌else◌, is_null,
}
use local_first_orchestrator.Comments.Outbox.{safe_comment_error}
use local_first_orchestrator.Ledger.{
  Ledger, StageClaim, ClaimStatus, claimed, finalized, failed, append_event,
}
use local_first_orchestrator.Stages.Claims.{
  get_claim, has_begun, is_finalized, begin_body, begin_scheduler_claim_effect, complete_body,
  complete_scheduler_claim,
}
use local_first_orchestrator.Stages.Effect.{
  claim_next_scheduler_readiness, apply_body, apply_scheduler_readiness_effect,
}
use local_first_orchestrator.Stages.Release.{
  release_abandoned_scheduler_claim, defer_body,
  defer_scheduler_paid_claim_after_provider_rejection,
}
use local_first_orchestrator.Stages.Phases.{
  Phase, phase, open_phase, failed_phase, running, effected, ended, broken, view, Step, stay,
  create, begin, effect, finish, discard, break_off, Steps, here, then_step, IsRefined,
  IsRefined-refl,
}
use local_first_orchestrator.Stages.Refined.{begin_body-IsRefined, complete_body-IsRefined}
use local_first_orchestrator.Stages.Moves.{apply_body-IsRefined}
use local_first_orchestrator.Stages.Retire.{retire_historical_scheduler_claim}
use local_first_orchestrator.Stages.Retired.{retire-IsRefined}
use local_first_orchestrator.Stages.Leases.{
  claim_next-IsRefined, release-IsRefined, defer_body-IsRefined,
}

-- A call of the ledger, with the time at which it is made
pub data ClaimCall : Type 0 where
  claim_next : (owner : String) (lease_seconds now : ℕ) (only : Option String) → ClaimCall
  begin_effect : (id owner : String) (now : ℕ) → ClaimCall
  apply_effect : (id owner : String) (now : ℕ) → ClaimCall
  complete : (id owner encoded : String) (now : ℕ) → ClaimCall
  release : (id operator reason : String) (now : ℕ) → ClaimCall
  defer : (id owner : String) (retry_after : ℕ) (kind detail : String) (now : ℕ) → ClaimCall
  retire : (id operator reason : String) (now : ℕ) → ClaimCall

-- The ledger after a call, whether it returned or raised
abbrev pub after_claim_call : Host → ClaimCall → Ledger → Ledger
after_claim_call host (claim_next owner lease_seconds now only) db =
    (claim_next_scheduler_readiness host owner lease_seconds now only db).1
after_claim_call host (begin_effect id owner now) db =
    (begin_scheduler_claim_effect id owner now db).1
after_claim_call host (apply_effect id owner now) db =
    (apply_scheduler_readiness_effect host id owner now db).1
after_claim_call host (complete id owner encoded now) db =
    (complete_scheduler_claim id owner encoded now db).1
after_claim_call host (release id operator reason now) db =
    (release_abandoned_scheduler_claim id operator reason now db).1
after_claim_call host (defer id owner retry_after kind detail now) db =
    (defer_scheduler_paid_claim_after_provider_rejection host id owner retry_after kind detail now
      db).1
after_claim_call host (retire id operator reason now) db =
    (retire_historical_scheduler_claim id operator reason now db).1

unfoldable pub after_claim_calls : Host → List ClaimCall → Ledger → Ledger
after_claim_calls host [] db = db
after_claim_calls host (c ∷ cs) db = after_claim_calls host cs (after_claim_call host c db)

call-IsRefined :
    (host : Host) (c : ClaimCall) (db : Ledger) → IsRefined db (after_claim_call host c db)
unfolding begin_scheduler_claim_effect apply_scheduler_readiness_effect complete_scheduler_claim
    defer_scheduler_paid_claim_after_provider_rejection
call-IsRefined host (claim_next owner lease_seconds now only) db =
    claim_next-IsRefined host owner lease_seconds now only db
call-IsRefined host (begin_effect id owner now) db =
    transaction-keeps (IsRefined db) (begin_body id owner now) db (IsRefined-refl db)
      (begin_body-IsRefined id owner now db)
call-IsRefined host (apply_effect id owner now) db =
    transaction-keeps (IsRefined db) (apply_body host id owner now) db (IsRefined-refl db)
      (apply_body-IsRefined host id owner now db)
call-IsRefined host (complete id owner encoded now) db =
    transaction-keeps (IsRefined db) (complete_body id owner encoded now) db (IsRefined-refl db)
      (complete_body-IsRefined id owner now db encoded)
call-IsRefined host (release id operator reason now) db =
    release-IsRefined id operator reason now db
call-IsRefined host (retire id operator reason now) db = retire-IsRefined id operator reason now db
call-IsRefined host (defer id owner retry_after kind detail now) db =
    let later = if leb retry_after now then now + 1 else retry_after in
    let safe = safe_comment_error host detail 1000 in
    transaction-keeps (IsRefined db) (defer_body host id owner later kind safe now) db
      (IsRefined-refl db) (defer_body-IsRefined host id owner later kind safe now db)

-- Steps compose
step_first : {p q r : Phase} → Step p q → Steps q r → Steps p r
step_first s here = then_step here s
step_first s (then_step ss t) = then_step (step_first s ss) t

-- Whatever calls are made, in whatever order and at whatever times, each claim goes along the abstract steps:
-- it is created once, its effect is started at most once and only after that, ends at most once and only after
-- it was started, and only then is the claim finalized; a claim that an operator retires before its effect has ended
-- is discarded or broken off, and is then left alone. This holds of `claim_next_scheduler_readiness`,
-- `begin_scheduler_claim_effect`, `apply_scheduler_readiness_effect`, `complete_scheduler_claim`, the release of
-- an abandoned claim, the deferral of a paid one and the retirement of an obsolete one, of their calls that raise too.
pub claims_refined :
    (host : Host) (calls : List ClaimCall) (id : String) (db : Ledger)
    → Steps (view id db) (view id (after_claim_calls host calls db))
unfolding after_claim_calls
claims_refined host [] id db = here
claims_refined host (c ∷ cs) id db =
    step_first ((call-IsRefined host c db).step id)
      (claims_refined host cs id (after_claim_call host c db))

-- A phase in which the effect has been started
abbrev pub has_run : Phase → Bool
has_run running = true
has_run effected = true
has_run ended = true
has_run broken = true
has_run _ = false

Step-has_run : {p q : Phase} → Step p q → has_run p ≡ true → has_run q ≡ true
Step-has_run stay h = h
Step-has_run create h = absurd (cc)
Step-has_run begin h = refl
Step-has_run effect h = refl
Step-has_run finish h = refl
Step-has_run discard h = absurd (cc)
Step-has_run break_off h = refl

Steps-has_run : {p q : Phase} → Steps p q → has_run p ≡ true → has_run q ≡ true
Steps-has_run here h = h
Steps-has_run (then_step ss s) h = Step-has_run s (Steps-has_run ss h)

begun : (c : StageClaim) → has_run (phase c) ≡ true → has_begun c ≡ true
begun c h = by_status c.status c.side_effect_started_at c.side_effect_completed_at h
  where
    by_status :
        (s : ClaimStatus) (a b : Option ℕ)
        → has_run
            (elim s [ claimed ↦ open_phase a b | finalized ↦ ended | failed ↦ failed_phase a b ])
          ≡ true
        → (is_finalized s || not (is_null b) || not (is_null a)) ≡ true
    by_status claimed a (some t) h = refl
    by_status claimed (some u) none h = refl
    by_status claimed none none h = absurd (cc)
    by_status finalized a b h = refl
    by_status failed none none h = absurd (cc)
    by_status failed none (some t) h = refl
    by_status failed (some u) none h = refl
    by_status failed (some u) (some t) h = refl

-- Beginning a claim whose effect has been started hands its row back and writes nothing.
begin_again :
    (id owner : String) (now : ℕ) (db : Ledger)
    → has_run (view id db) ≡ true
    → (c : StageClaim) × (get_claim id db ≡ some c)
      × (begin_scheduler_claim_effect id owner now db ≡ (ok c, db))
unfolding begin_scheduler_claim_effect begin_body append_event view
begin_again id owner now db h = elim (Option-cases (get_claim id db)) [
  | inl f ↦ absurd (let h' = rw f at h in cc)
  | inr (c, f) ↦
      let has : has_run (phase c) ≡ true = rw f at h in
      (c, f, let going = begun c has in ground (arith, f, going))
]

-- A claim whose effect has been started stays so through any sequence of the seven calls
-- `claim_next_scheduler_readiness`, `begin_scheduler_claim_effect`, `apply_scheduler_readiness_effect`,
-- `complete_scheduler_claim`, the release of an abandoned claim, the deferral of a paid one and the retirement of an
-- obsolete one. Beginning its effect after them, under any name and at any time, returns the claim's row as it
-- stands and changes nothing in the ledger. The operations that set a claim's start back to null or delete the claim
-- are not among the seven.
pub started_once :
    (host : Host) (calls : List ClaimCall) (id owner : String) (now : ℕ) (db : Ledger)
    → has_run (view id db) ≡ true
    → (let later = after_claim_calls host calls db in
        (has_run (view id later) ≡ true)
        × ((c : StageClaim) × (get_claim id later ≡ some c)
            × (begin_scheduler_claim_effect id owner now later ≡ (ok c, later))))
started_once host calls id owner now db h =
    let still = Steps-has_run (claims_refined host calls id db) h in
    (still, begin_again id owner now (after_claim_calls host calls db) still)
