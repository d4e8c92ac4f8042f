-- ===== src/Scheduler/Exclusive.antt =====
-- local_first_orchestrator/ledger.py: between the claim of a tick and its release, or the end of its
-- lease, no other scheduler claims a tick.
use local_first_orchestrator.Base.{
  ℕ, ◌+◌, ◌<◌, String, ◌≡◌, ◌≢◌, refl, ap, ◌∙◌, Bool, true, false, not, some, List, [], ◌∷◌, ok,
  Every, arith, ltb, Bool-cases, inl, inr,
}
use local_first_orchestrator.Ledger.{Ledger, TickLease}
use local_first_orchestrator.Tickets.Lifecycle.{is_paused, set_pause}
use local_first_orchestrator.Scheduler.Tick.{
  claimed, claim_scheduler_tick, release_scheduler_tick, is_own, is_running, is_accepted,
}

pub data Call : Type 0 where
  claiming : String → String → ℕ → ℕ → Call
  releasing : String → String → ℕ → Call
  pausing : Bool → String → String → ℕ → Call

abbrev pub perform : Call → Ledger → Ledger
perform (claiming owner token lease_seconds now) db =
    (claim_scheduler_tick owner token lease_seconds now db).1
perform (releasing owner token now) db = (release_scheduler_tick owner token now db).1
perform (pausing stop actor reason now) db = (set_pause stop actor reason now db).1

unfoldable pub perform_all : List Call → Ledger → Ledger
perform_all [] db = db
perform_all (c ∷ cs) db = perform_all cs (perform c db)

-- The calls that are made by others before the lease ends: claims, and releases with another token.
abbrev pub is_foreign : TickLease → Call → Bool
is_foreign l (claiming owner token lease_seconds now) = ltb now l.lease_expires_at
is_foreign l (releasing owner token now) = not (is_own owner token (some l))
is_foreign l (pausing stop actor reason now) = true

module _ (l : TickLease) where
  claim-keeps :
      (owner token : String) (lease_seconds now : ℕ) (db : Ledger)
      → db.tick_lease ≡ some l
      → ltb now l.lease_expires_at ≡ true
      → (claim_scheduler_tick owner token lease_seconds now db).1 ≡ db
  unfolding claim_scheduler_tick
  claim-keeps owner token lease_seconds now db h early =
      elim (Bool-cases (is_accepted owner token lease_seconds)) [
        | inr e ↦ rw e refl
        | inl e ↦ elim (Bool-cases (is_paused db.controller)) [
          | inl p ↦ rw (e, p) refl
          | inr p ↦ rw (e, p, h) (rw early refl)
        ]
      ]

  release-keeps :
      (owner token : String) (now : ℕ) (db : Ledger)
      → db.tick_lease ≡ some l
      → is_own owner token (some l) ≡ false
      → (release_scheduler_tick owner token now db).1 ≡ db
  unfolding release_scheduler_tick
  release-keeps owner token now db h other = rw h (rw other refl)

  not_claimed :
      (owner token : String) (lease_seconds now : ℕ) (db : Ledger)
      → db.tick_lease ≡ some l
      → ltb now l.lease_expires_at ≡ true
      → (claim_scheduler_tick owner token lease_seconds now db).0 ≢ ok claimed
  unfolding claim_scheduler_tick
  not_claimed owner token lease_seconds now db h early c =
      elim (Bool-cases (is_accepted owner token lease_seconds)) [
        | inr e ↦ let k = rw e at c in cc
        | inl e ↦ elim (Bool-cases (is_paused db.controller)) [
          | inl p ↦ let k = rw (e, p) at c in cc
          | inr p ↦ let k = rw (e, p, h) at c in let k' = rw early at k in cc
        ]
      ]

  perform-keeps :
      (c : Call) (db : Ledger)
      → is_foreign l c ≡ true
      → db.tick_lease ≡ some l
      → (perform c db).tick_lease ≡ some l
  unfolding set_pause
  perform-keeps (claiming owner token lease_seconds now) db f h =
      ap (λ d. d.tick_lease) (claim-keeps owner token lease_seconds now db h f) ∙ h
  perform-keeps (releasing owner token now) db f h =
      ap (λ d. d.tick_lease) (release-keeps owner token now db h (ground arith)) ∙ h
  perform-keeps (pausing stop actor reason now) db f h = h

  perform_all-keeps :
      (cs : List Call) (db : Ledger)
      → Every (λ c. is_foreign l c ≡ true) cs
      → db.tick_lease ≡ some l
      → (perform_all cs db).tick_lease ≡ some l
  unfolding perform_all
  perform_all-keeps [] db f h = h
  perform_all-keeps (c ∷ cs) db f h =
      perform_all-keeps cs (perform c db) f.1 (perform-keeps c db f.0 h)

abbrev pub granted : String → String → ℕ → ℕ → TickLease
granted owner token lease_seconds now = record {
  lease_owner = owner;
  lease_token = token;
  lease_expires_at = now + lease_seconds;
  updated_at = now;
}

claim-granted :
    (owner token : String) (lease_seconds now : ℕ) (db : Ledger)
    → (claim_scheduler_tick owner token lease_seconds now db).0 ≡ ok claimed
    → (claim_scheduler_tick owner token lease_seconds now db).1.tick_lease
      ≡ some (granted owner token lease_seconds now)
unfolding claim_scheduler_tick
claim-granted owner token lease_seconds now db c =
    elim (Bool-cases (is_accepted owner token lease_seconds)) [
      | inr e ↦ let k = rw e at c in absurd (cc)
      | inl e ↦ elim (Bool-cases (is_paused db.controller)) [
        | inl p ↦ let k = rw (e, p) at c in absurd (cc)
        | inr p ↦ elim (Bool-cases (is_running db.tick_lease now)) [
          | inl r ↦ let k = rw (e, p, r) at c in absurd (cc)
          | inr r ↦ rw (e, p, r) refl
        ]
      ]
    ]

-- After a scheduler has claimed a tick, and any claims by whomever before the lease ends, releases with
-- another owner or token, pauses and resumptions, its lease is still there, and until it ends no call
-- that claims a tick succeeds.
pub tick_exclusive :
    (owner token : String) (lease_seconds now : ℕ) (db : Ledger) (cs : List Call)
    → (claim_scheduler_tick owner token lease_seconds now db).0 ≡ ok claimed
    → Every (λ c. is_foreign (granted owner token lease_seconds now) c ≡ true) cs
    → (let later = perform_all cs (claim_scheduler_tick owner token lease_seconds now db).1 in
        (later.tick_lease ≡ some (granted owner token lease_seconds now))
        × ((owner' token' : String) (lease_seconds' now' : ℕ)
            → now' < now + lease_seconds
            → (claim_scheduler_tick owner' token' lease_seconds' now' later).0 ≢ ok claimed))
tick_exclusive owner token lease_seconds now db cs c foreign =
    let l = granted owner token lease_seconds now in
    let kept =
      perform_all-keeps l cs _ foreign (claim-granted owner token lease_seconds now db c) in
    (
      kept,
      λ owner' token' lease_seconds' now' early.
          not_claimed l owner' token' lease_seconds' now' _ kept (ground arith),
    )
