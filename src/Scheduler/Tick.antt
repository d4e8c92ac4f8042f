-- ===== src/Scheduler/Tick.antt =====
-- local_first_orchestrator/ledger.py: the lease under which a scheduler runs one tick.
use local_first_orchestrator.Base.{
  ℕ, ◌+◌, String, Bool, true, false, ◌&&◌, ◌||◌, not, Option, none, some, [], ◌∷◌, Result, Tx,
  ◌>>=◌, ◌>>◌, pure, gets, modify, transaction, require, value_error, str_eq, ltb, leb,
  if◌then◌else◌,
}
use local_first_orchestrator.Ledger.{Ledger, TickLease, append_event, plain_event, num, flag}
use local_first_orchestrator.Tickets.Lifecycle.{is_paused}

pub data TickClaim : Type 0 where
  paused busy claimed : TickClaim

-- `current is not None and current["lease_expires_at"] > now`
abbrev pub is_running : Option TickLease → ℕ → Bool
is_running none now = false
is_running (some l) now = ltb now l.lease_expires_at

-- `current is not None and current["lease_expires_at"] <= now`
abbrev was_left : Option TickLease → ℕ → Bool
was_left none now = false
was_left (some l) now = leb l.lease_expires_at now

write_lease : String → String → ℕ → ℕ → Tx Ledger TickClaim
unfolding append_event
write_lease owner token lease_seconds now = do
  current ← gets (λ db. db.tick_lease)
  modify (λ db. record db {
    tick_lease = some (record {
      lease_owner = owner;
      lease_token = token;
      lease_expires_at = now + lease_seconds;
      updated_at = now;
    });
  })
  _ ←
      append_event
        (plain_event "controller" "scheduler" "scheduler_tick_claimed" owner (
          ("lease_expires_at", num (now + lease_seconds))
          ∷ ("recovered", flag (was_left current now))
          ∷ []))
        now
  pure claimed

unfoldable pub claim_tick_body : String → String → ℕ → ℕ → Tx Ledger TickClaim
unfolding write_lease
claim_tick_body owner token lease_seconds now = do
  stopped ← gets (λ db. is_paused db.controller)
  running ← gets (λ db. is_running db.tick_lease now)
  (if stopped
      then pure paused
      else (if running then pure busy else write_lease owner token lease_seconds now))

-- `lease_seconds` is not negative here.
abbrev pub is_accepted : String → String → ℕ → Bool
is_accepted owner token lease_seconds =
    not (str_eq owner "" || str_eq token "" || leb lease_seconds 0)

unfoldable pub claim_scheduler_tick : String → String → ℕ → ℕ → Ledger → Result TickClaim × Ledger
unfolding transaction claim_tick_body
claim_scheduler_tick owner token lease_seconds now = transaction (do
  require (is_accepted owner token lease_seconds)
      (value_error "scheduler tick requires an owner, token, and positive lease")
  claim_tick_body owner token lease_seconds now)

abbrev pub is_own : String → String → Option TickLease → Bool
is_own owner token none = false
is_own owner token (some l) = str_eq l.lease_owner owner && str_eq l.lease_token token

unfoldable pub release_tick_body : String → String → ℕ → Tx Ledger Bool
unfolding append_event
release_tick_body owner token now = do
  own ← gets (λ db. is_own owner token db.tick_lease)
  (if own
      then (modify (λ db. record db { tick_lease = none })
          >> append_event (plain_event "controller" "scheduler" "scheduler_tick_released" owner [])
              now
          >>= λ _. pure true)
      else pure false)

unfoldable pub release_scheduler_tick : String → String → ℕ → Ledger → Result Bool × Ledger
unfolding transaction release_tick_body
release_scheduler_tick owner token now = transaction (release_tick_body owner token now)
