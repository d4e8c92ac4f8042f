-- ===== src/Gateway/Worker.antt =====
-- local_first_orchestrator/gateway_notification.py: the worker that sends one notification at a time.
use Prim.Native.String.{◌++◌}
use local_first_orchestrator.Base.{
  ℕ, zero, suc, ◌+◌, String, Bool, true, false, Option, none, some, Result, ok, err, runtime_error,
  if◌then◌else◌, Host, ℤ, pos, negsuc, decimal,
}
use local_first_orchestrator.Ledger.{Ledger, Notification}
use local_first_orchestrator.Gateway.Outbox.{
  recover_expired_leases, claim_next_gateway_notification, mark_delivered, mark_retryable,
  mark_delivery_unknown, mark_permanently_failed,
}

-- How a run of `hermes send` ends: `TimeoutExpired`, another exception of the runner, or an exit with
-- the return code, whether the output is a JSON object whose `ok` is false, and the stripped text of
-- `stderr or stdout`.
pub data Sent : Type 0 where
  timed_out raised : Sent
  exited : ℤ → Bool → String → Sent

pub data Status : Type 0 where
  no_work delivered retryable delivery_unknown permanently_failed : Status

abbrev int_text : ℤ → String
int_text (pos n) = decimal n
int_text (negsuc n) = "-" ++ decimal (n + 1)

-- What a call returns or raises (`none`: the runner's exception escapes it), and the states after it.
abbrev pub Turn : Type 0 → Type 0
Turn B = Option (Result Status) × Ledger × B

abbrev unless_lost : {B : Type 0} → Bool × Ledger → String → B → Turn B
unless_lost (marked, db) lost board =
    (some (if marked then ok delivery_unknown else err (runtime_error lost)), db, board)

module _ {B : Type 0} (host : Host) (send : String → String → B → Sent × B) (worker_id : String)
    (lease_seconds retry_delay_seconds now : ℕ) where
  -- Exit status 0, and no word of failure in the output
  unfoldable pub succeeded : String → Bool × Ledger → B → Turn B
  succeeded id (true, db) board = (some (ok delivered), db, board)
  succeeded id (false, db) board =
      unless_lost
        (mark_delivery_unknown host id worker_id
          "hermes send returned success but delivery lease was no longer finalizable" now db)
        "gateway notification delivery lost its lease and ambiguity could not be recorded" board

  unfoldable pub retried : String → String → Ledger → B → Turn B
  retried id error db board = (
    some (ok retryable),
    (mark_retryable host id worker_id error (some (now + retry_delay_seconds)) now db).1,
    board,
  )

  abbrev failure : ℤ → String → String
  failure code output = "hermes send failed with status " ++ int_text code ++ ": " ++ output

  -- After the run has ended.
  unfoldable pub settle : String → Sent → Ledger → B → Turn B
  unfolding succeeded retried
  settle id timed_out db board =
      unless_lost
        (mark_delivery_unknown host id worker_id
          "hermes send timed out after delivery may have started" now db)
        "gateway notification timeout could not be durably marked ambiguous" board
  settle id raised db board = (none, db, board)
  settle id (exited (pos zero) true output) db board =
      retried id "hermes send returned unsuccessful JSON" db board
  settle id (exited (pos zero) false output) db board =
      succeeded id (mark_delivered id worker_id now db) board
  settle id (exited (pos (suc (suc zero))) unsuccessful output) db board = (
    some (ok permanently_failed),
    (mark_permanently_failed host id worker_id (failure (pos 2) output) now db).1,
    board,
  )
  settle id (exited code unsuccessful output) db board = retried id (failure code output) db board

  -- After the claim.
  unfoldable pub send_claimed : Result (Option Notification) → Ledger → B → Turn B
  unfolding settle
  send_claimed (err e) db board = (some (err e), db, board)
  send_claimed (ok none) db board = (some (ok no_work), db, board)
  send_claimed (ok (some row)) db board =
      let (sent, board') = send row.target row.payload board in
      settle row.operation_id sent db board'

  unfoldable pub deliver_one : Ledger → B → Turn B
  unfolding send_claimed
  deliver_one db board =
      let db' = (recover_expired_leases now db).1 in
      let (row, db'') = claim_next_gateway_notification worker_id lease_seconds now db' in
      send_claimed row db'' board
