-- ===== src/Gateway/Settled.antt =====
-- gateway_notification.py, ledger.py: a notification that was sent, has failed or may have been sent is
-- left alone by the workers.
use local_first_orchestrator.Base.{
  ℕ, String, ◌≡◌, refl, Bool, true, false, Option, none, some, arith, Result, ok, err, zero, suc,
  pos, negsuc, find_where, first_by, find_where-update_where, update_where, Host, ◌||◌, keeps-row,
  keeps-if, List, [], ◌∷◌, str_eq, leb,
}
use local_first_orchestrator.Ledger.{
  Ledger, Notification, DeliveryState, delivered, permanently_failed, delivery_unknown,
}
use local_first_orchestrator.Gateway.Outbox.{
  has_operation, claim_oldest, claim_next_gateway_notification, mark_delivered, mark_retryable,
  mark_delivery_unknown, mark_permanently_failed, recover_expired_leases, is_due, older,
}
use local_first_orchestrator.Gateway.Worker.{
  Sent, timed_out, raised, exited, settle, send_claimed, deliver_one, succeeded, retried,
}

abbrev pub is_settled : DeliveryState → Bool
is_settled delivered = true
is_settled permanently_failed = true
is_settled delivery_unknown = true
is_settled _ = false

-- The outbox holds the settled row under its operation id.
pub record Holds (id : String) (n : Notification) (db : Ledger) : Type 0 where
  pub there : find_where (has_operation id) db.notifications ≡ some n
  pub settled : is_settled n.status ≡ true

module _ (id : String) (n : Notification) where
  untouched :
      (q : Notification → Bool) (g : Notification → Notification) (db : Ledger)
      → Holds id n db
      → ((x : Notification) → has_operation id (g x) ≡ has_operation id x)
      → q n ≡ false
      → Holds id n (record db { notifications = update_where q g db.notifications })
  untouched q g db h same other = record {
    there =
        rw (find_where-update_where q g (has_operation id) db.notifications same)
          (rw (h.there) (rw other));
    settled = h.settled;
  }

  claim_oldest-Holds :
      (owner : String) (lease now : ℕ) (db : Ledger)
      → Holds id n db
      → Holds id n (claim_oldest owner lease now db).1
  unfolding claim_oldest
  claim_oldest-Holds owner lease now db h =
      keeps-row (Holds id n) (first_by older (is_due now) db.notifications) _ _ h
        (λ next _. untouched _ _ db h (λ x. refl) (ground (arith, h.settled)))

  claim_next-Holds :
      (owner : String) (lease now : ℕ) (db : Ledger)
      → Holds id n db
      → Holds id n (claim_next_gateway_notification owner lease now db).1
  unfolding claim_next_gateway_notification
  claim_next-Holds owner lease now db h =
      keeps-if (Holds id n) (str_eq owner "" || leb lease 0) _ _ (λ _. h)
        (λ _. claim_oldest-Holds owner lease now db h)

  unless_delivered :
      (st : DeliveryState) (x y : Bool × Ledger)
      → Holds id n x.1
      → Holds id n y.1
      → Holds id n (elim st as (λ _. Bool × Ledger) [ delivered ↦ x | _ ↦ y ]).1
  unless_delivered delivered x y hx hy = hx
  unless_delivered _ x y hx hy = hy

  mark_delivered-Holds :
      (op owner : String) (now : ℕ) (db : Ledger)
      → Holds id n db
      → Holds id n (mark_delivered op owner now db).1
  unfolding mark_delivered
  mark_delivered-Holds op owner now db h =
      keeps-row (Holds id n) (find_where (has_operation op) db.notifications) _ _ h λ r _.
        unless_delivered r.status _ _ h (untouched _ _ db h (λ x. refl) (ground (arith, h.settled)))

  mark_retryable-Holds :
      (host : Host) (op owner error : String) (next : Option ℕ) (now : ℕ) (db : Ledger)
      → Holds id n db
      → Holds id n (mark_retryable host op owner error next now db).1
  unfolding mark_retryable
  mark_retryable-Holds host op owner error next now db h =
      untouched _ _ db h (λ x. refl) (ground (arith, h.settled))

  mark_delivery_unknown-Holds :
      (host : Host) (op owner error : String) (now : ℕ) (db : Ledger)
      → Holds id n db
      → Holds id n (mark_delivery_unknown host op owner error now db).1
  unfolding mark_delivery_unknown
  mark_delivery_unknown-Holds host op owner error now db h =
      untouched _ _ db h (λ x. refl) (ground (arith, h.settled))

  mark_permanently_failed-Holds :
      (host : Host) (op owner error : String) (now : ℕ) (db : Ledger)
      → Holds id n db
      → Holds id n (mark_permanently_failed host op owner error now db).1
  unfolding mark_permanently_failed
  mark_permanently_failed-Holds host op owner error now db h =
      untouched _ _ db h (λ x. refl) (ground (arith, h.settled))

  recover-Holds :
      (now : ℕ) (db : Ledger) → Holds id n db → Holds id n (recover_expired_leases now db).1
  unfolding recover_expired_leases
  recover-Holds now db h = untouched _ _ db h (λ x. refl) (ground (arith, h.settled))

  module _ {B : Type 0} (host : Host) (send : String → String → B → Sent × B) (worker : String)
      (lease retry now : ℕ) where
    succeeded-Holds :
        (op : String) (m : Bool × Ledger) (board : B)
        → Holds id n m.1
        → Holds id n (succeeded host send worker lease retry now op m board).1
    unfolding succeeded
    succeeded-Holds op (true, db) board h = h
    succeeded-Holds op (false, db) board h = mark_delivery_unknown-Holds host op worker _ now db h

    settle-Holds :
        (op : String) (s : Sent) (db : Ledger) (board : B)
        → Holds id n db
        → Holds id n (settle host send worker lease retry now op s db board).1
    unfolding settle retried
    settle-Holds op timed_out db board h = mark_delivery_unknown-Holds host op worker _ now db h
    settle-Holds op raised db board h = h
    settle-Holds op (exited (pos zero) true out) db board h =
        mark_retryable-Holds host op worker _ _ now db h
    settle-Holds op (exited (pos zero) false out) db board h =
        succeeded-Holds op _ board (mark_delivered-Holds op worker now db h)
    settle-Holds op (exited (pos (suc zero)) u out) db board h =
        mark_retryable-Holds host op worker _ _ now db h
    settle-Holds op (exited (pos (suc (suc zero))) u out) db board h =
        mark_permanently_failed-Holds host op worker _ now db h
    settle-Holds op (exited (pos (suc (suc (suc k)))) u out) db board h =
        mark_retryable-Holds host op worker _ _ now db h
    settle-Holds op (exited (negsuc k) u out) db board h =
        mark_retryable-Holds host op worker _ _ now db h

    send_claimed-Holds :
        (r : Result (Option Notification)) (db : Ledger) (board : B)
        → Holds id n db
        → Holds id n (send_claimed host send worker lease retry now r db board).1
    unfolding send_claimed
    send_claimed-Holds (err e) db board h = h
    send_claimed-Holds (ok none) db board h = h
    send_claimed-Holds (ok (some row)) db board h =
        let s = send row.target row.payload board in settle-Holds row.operation_id s.0 db s.1 h

    pub deliver_one-Holds :
        (db : Ledger) (board : B)
        → Holds id n db
        → Holds id n (deliver_one host send worker lease retry now db board).1
    unfolding deliver_one
    deliver_one-Holds db board h =
        let db' = (recover_expired_leases now db).1 in
        let claimed = claim_next_gateway_notification worker lease now db' in
        send_claimed-Holds claimed.0 claimed.1 board
          (claim_next-Holds worker lease now db' (recover-Holds now db h))

-- A call of a worker, with its arguments and clock
pub record Call : Type 0 where
  pub worker_id : String
  pub lease_seconds : ℕ
  pub retry_delay_seconds : ℕ
  pub now : ℕ

module _ {B : Type 0} (host : Host) (send : String → String → B → Sent × B) where
  abbrev pub turn : Call → Ledger × B → Ledger × B
  turn c s =
      let t =
        deliver_one host send c.worker_id c.lease_seconds c.retry_delay_seconds c.now s.0 s.1 in
      (t.1, t.2)

  unfoldable pub turns : List Call → Ledger × B → Ledger × B
  turns [] s = s
  turns (c ∷ cs) s = turns cs (turn c s)

  -- However the command ends, a notification that was sent, has failed for good, or may have been sent
  -- before its worker timed out or was lost, keeps its row through any turns of any workers.
  pub settled_notification_stays :
      (cs : List Call) (db : Ledger) (board : B) (id : String) (n : Notification)
      → Holds id n db
      → Holds id n (turns cs (db, board)).0
  unfolding turns
  settled_notification_stays [] db board id n h = h
  settled_notification_stays (c ∷ cs) db board id n h =
      let t = turn c (db, board) in
      settled_notification_stays cs t.0 t.1 id n (
        deliver_one-Holds id n host send c.worker_id c.lease_seconds c.retry_delay_seconds c.now db
          board h)
