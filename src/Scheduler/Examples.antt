-- ===== src/Scheduler/Examples.antt =====
-- The theorems on the scheduler's tick at concrete inputs.
use local_first_orchestrator.Base.{
  ℕ, ◌+◌, ◌<◌, String, ◌≡◌, ◌≢◌, refl, true, some, [], ◌∷◌, List, ok,
}
use local_first_orchestrator.Ledger.{empty_ledger}
use local_first_orchestrator.Scheduler.Tick.{claimed, claim_scheduler_tick}
use local_first_orchestrator.Scheduler.Exclusive.{
  Call, claiming, releasing, pausing, perform_all, granted, tick_exclusive,
}

abbrev calls : List Call
calls = claiming "b" "two" 30 40 ∷ releasing "b" "two" 50 ∷ pausing true "operator" "stop" 51 ∷ []

first_claim : (claim_scheduler_tick "a" "one" 60 10 empty_ledger).0 ≡ ok claimed
unfolding claim_scheduler_tick
first_claim = refl

tick_exclusive_example :
    (let later = perform_all calls (claim_scheduler_tick "a" "one" 60 10 empty_ledger).1 in
      (later.tick_lease ≡ some (granted "a" "one" 60 10))
      × ((owner' token' : String) (lease_seconds' now' : ℕ)
          → now' < 10 + 60
          → (claim_scheduler_tick owner' token' lease_seconds' now' later).0 ≢ ok claimed))
tick_exclusive_example =
    tick_exclusive "a" "one" 60 10 empty_ledger calls first_claim (refl, (refl, (refl, tt)))
