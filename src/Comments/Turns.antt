-- ===== src/Comments/Turns.antt =====
-- comment_delivery.py: a turn of the worker keeps what each step on the outbox keeps.
use local_first_orchestrator.Base.{
  ℕ, String, Bool, true, false, Option, none, some, Result, ok, err, Host, ltb, leb, if◌then◌else◌,
  ◌&&◌,
}
use local_first_orchestrator.Ledger.{Ledger, Comment}
use local_first_orchestrator.Comments.Outbox.{
  claim_next_comment, mark_comment_delivered, mark_comment_retryable,
  mark_comment_permanently_failed, recover_expired_comment_leases, resolve_claimed_comment_target,
}
use local_first_orchestrator.Comments.Delivery.{
  CommentAdapter, CommentDeliveryPolicy, Outcome, returned, crashed, ambiguous, failed,
  MarkerLookup, found, not_found, unavailable, unsupported, settle, defer, reconcile, address,
  deliver_claimed, deliver_one, Turn,
}

-- Every step that a worker takes on the outbox keeps `P`.
pub record IsKept (P : Ledger → Type 0) : Type 0 where
  pub claim :
      (owner : String) (lease now : ℕ) (ticket : Option String) (db : Ledger)
      → P db
      → P (claim_next_comment owner lease now ticket db).1
  pub delivered :
      (id owner : String) (now : ℕ) (db : Ledger)
      → P db
      → P (mark_comment_delivered id owner now db).1
  pub retryable :
      (host : Host) (id owner error : String) (next : Option ℕ) (now limit : ℕ) (db : Ledger)
      → P db
      → P (mark_comment_retryable host id owner error next now limit db).1
  pub failed_for_good :
      (host : Host) (id owner error : String) (now limit : ℕ) (db : Ledger)
      → P db
      → P (mark_comment_permanently_failed host id owner error now limit db).1
  pub recovered :
      (host : Host) (now : ℕ) (reason ticket : Option String) (db : Ledger)
      → P db
      → P (recover_expired_comment_leases host now reason ticket db).1
  pub retargeted :
      (id owner : String) (now : ℕ) (db : Ledger)
      → P db
      → P (resolve_claimed_comment_target id owner now db).1

module _ {B : Type 0} (P : Ledger → Type 0) (k : IsKept P) (host : Host)
    (adapter : CommentAdapter B) (policy : CommentDeliveryPolicy) (worker : String) (now : ℕ) where
  if-kept : (b : Bool) (x y : Turn B) → P x.1 → P y.1 → P (if b then x else y).1
  if-kept true x y px py = px
  if-kept false x y px py = py

  pub settle-kept :
      (row : Comment) (o : Outcome) (db : Ledger) (board : B)
      → P db
      → P (settle host adapter policy worker now row o db board).1
  unfolding settle
  settle-kept row returned db board p = k.delivered row.operation_id worker now db p
  settle-kept row crashed db board p = p
  settle-kept row (ambiguous e) db board p = k.retryable host row.operation_id worker e _ now _ db p
  settle-kept row (failed e) db board p =
      if-kept (ltb row.attempt_count policy.max_attempts) _ _
        (k.retryable host row.operation_id worker e _ now _ db p)
        (k.failed_for_good host row.operation_id worker e now _ db p)

  pub defer-kept :
      (row : Comment) (reason : String) (db : Ledger) (board : B)
      → P db
      → P (defer host adapter policy worker now row reason db board).1
  unfolding defer
  defer-kept row reason db board p =
      if-kept (leb policy.max_attempts row.attempt_count) _ _
        (k.failed_for_good host row.operation_id worker reason now _ db p)
        (k.retryable host row.operation_id worker reason _ now _ db p)

  pub reconcile-kept :
      (row : Comment) (task : String) (m : MarkerLookup) (db : Ledger) (board : B)
      → P db
      → P (reconcile host adapter policy worker now row task m db board).1
  unfolding reconcile
  reconcile-kept row task found db board p = k.delivered row.operation_id worker now db p
  reconcile-kept row task not_found db board p =
      let o = adapter.deliver_comment task row.payload row.idempotency_key board in
      settle-kept row o.0 db o.1 p
  reconcile-kept row task unavailable db board p = defer-kept row _ db board p
  reconcile-kept row task unsupported db board p = defer-kept row _ db board p

  address-kept :
      (row : Comment) (t : Result String) (db : Ledger) (board : B)
      → P db
      → P (address host adapter policy worker now row t db board).1
  unfolding address
  address-kept row (ok task) db board p = reconcile-kept row task _ db board p
  address-kept row (err e) db board p = k.failed_for_good host row.operation_id worker _ now _ db p

  deliver_claimed-kept :
      (row : Option Comment) (db : Ledger) (board : B)
      → P db
      → P (deliver_claimed host adapter policy worker now row db board).1
  unfolding deliver_claimed
  deliver_claimed-kept none db board p = p
  deliver_claimed-kept (some row) db board p =
      let r = resolve_claimed_comment_target row.operation_id worker now db in
      address-kept row r.0 r.1 board (k.retargeted row.operation_id worker now db p)

  pub deliver_one-kept :
      (ticket : Option String) (db : Ledger) (board : B)
      → P db
      → P (deliver_one host adapter policy worker now ticket db board).1
  unfolding deliver_one
  deliver_one-kept ticket db board p =
      if-kept (policy.writes_enabled && adapter.writes_enabled) _ _
        (let db' = (recover_expired_comment_leases host now none ticket db).1 in
          let claimed = claim_next_comment worker policy.lease_seconds now ticket db' in
          deliver_claimed-kept claimed.0 claimed.1 board (
            k.claim worker policy.lease_seconds now ticket db'
              (k.recovered host now none ticket db p)))
        p
