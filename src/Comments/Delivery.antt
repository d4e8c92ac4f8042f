-- ===== src/Comments/Delivery.antt =====
-- local_first_orchestrator/comment_delivery.py: the worker that delivers one comment at a time.
use Prim.Native.String.{◌++◌}
use local_first_orchestrator.Base.{
  ℕ, ◌+◌, ◌-◌, ◌*◌, ◌^◌, min, String, Bool, ◌&&◌, Option, none, some, Result, ok, err, Host, Error,
  value_error, key_error, permission_error, runtime_error, type_error, integrity_error, ltb, leb,
  if◌then◌else◌,
}
use local_first_orchestrator.Ledger.{Ledger, Comment}
use local_first_orchestrator.Comments.Outbox.{
  recover_expired_comment_leases, claim_next_comment, resolve_claimed_comment_target,
  mark_comment_delivered, mark_comment_retryable, mark_comment_permanently_failed,
  safe_comment_error,
}

-- `MarkerLookup`; a lookup that raises, or answers something else, counts as `unavailable`.
pub data MarkerLookup : Type 0 where
  found not_found unavailable unsupported : MarkerLookup

-- How a call of `deliver_comment` ends: it returns, or it raises `AmbiguousCommentDelivery`,
-- `CommentDeliveryCrash` or another exception with the text given.
pub data Outcome : Type 0 where
  returned crashed : Outcome
  ambiguous failed : String → Outcome

-- `CommentAdapter` over the state `B` of the remote board.
pub record CommentAdapter (B : Type 0) : Type 0 where
  pub writes_enabled : Bool
  pub find_comment_marker : String → String → B → MarkerLookup
  pub deliver_comment : String → String → String → B → Outcome × B

pub record CommentDeliveryPolicy : Type 0 where
  pub lease_seconds : ℕ
  pub max_attempts : ℕ
  pub base_retry_delay : ℕ
  pub max_retry_delay : ℕ
  pub error_length_limit : ℕ
  pub writes_enabled : Bool

-- `__post_init__`: what is refused otherwise. No field is negative here.
abbrev pub is_accepted : CommentDeliveryPolicy → Bool
is_accepted p =
    leb 1 p.lease_seconds
    && leb 1 p.max_attempts
    && leb p.base_retry_delay p.max_retry_delay
    && leb 1 p.error_length_limit

pub data DeliveryStatus : Type 0 where
  no_work delivered reconciled_delivered reconciliation_deferred retry_scheduled : DeliveryStatus
  permanently_failed writes_disabled : DeliveryStatus

pub record CommentDeliveryResult : Type 0 where
  pub status : DeliveryStatus
  pub operation_id : Option String
  pub attempt_count : Option ℕ
  pub next_attempt_at : Option ℕ
  pub error : Option String

abbrev pub bare : DeliveryStatus → CommentDeliveryResult
bare status = record {
  status = status;
  operation_id = none;
  attempt_count = none;
  next_attempt_at = none;
  error = none;
}

abbrev pub report : DeliveryStatus → Comment → Option ℕ → Option String → CommentDeliveryResult
report status row next_attempt_at error = record {
  status = status;
  operation_id = some row.operation_id;
  attempt_count = some row.attempt_count;
  next_attempt_at = next_attempt_at;
  error = error;
}

abbrev pub marker : String → String
marker operation_id = "<!-- local-first-comment:" ++ operation_id ++ " -->"

-- `min(max_retry_delay, base_retry_delay * 2 ** (attempt_count - 1))`. A claimed row has
-- `attempt_count >= 1`, so the subtraction does not stop at 0.
unfoldable pub retry_delay : CommentDeliveryPolicy → ℕ → ℕ
retry_delay p attempt_count = min p.max_retry_delay (p.base_retry_delay * 2 ^ (attempt_count - 1))

-- `str(exc)` of what `resolve_claimed_comment_target` raises
abbrev error_text : Error → String
error_text (value_error s) = s
error_text (key_error s) = "'" ++ s ++ "'"
error_text (permission_error s) = s
error_text (runtime_error s) = s
error_text (type_error s) = s
error_text integrity_error = ""

-- What a call of the worker returns (`none`: a `CommentDeliveryCrash` escapes it), and the states.
abbrev pub Turn : Type 0 → Type 0
Turn B = Option CommentDeliveryResult × Ledger × B

module _ {B : Type 0} (host : Host) (adapter : CommentAdapter B) (policy : CommentDeliveryPolicy)
    (worker_id : String) (now : ℕ) where
  abbrev limit : ℕ
  limit = policy.error_length_limit

  -- After `deliver_comment` has ended.
  unfoldable pub settle : Comment → Outcome → Ledger → B → Turn B
  unfolding retry_delay
  settle row crashed db board = (none, db, board)
  settle row returned db board = (
    some (report delivered row none none),
    (mark_comment_delivered row.operation_id worker_id now db).1,
    board,
  )
  settle row (ambiguous error) db board =
      let next = now + policy.base_retry_delay in
      (
        some (
            report reconciliation_deferred row (some next)
              (some (safe_comment_error host error limit))),
        (mark_comment_retryable host row.operation_id worker_id error (some next) now limit db).1,
        board,
      )
  settle row (failed error) db board =
      if ltb row.attempt_count policy.max_attempts
      then (let next = now + retry_delay policy row.attempt_count in
          (
            some (
                report retry_scheduled row (some next)
                  (some (safe_comment_error host error limit))),
            (mark_comment_retryable host row.operation_id worker_id error (some next) now limit
                db).1,
            board,
          ))
      else (
        some (report permanently_failed row none (some (safe_comment_error host error limit))),
        (mark_comment_permanently_failed host row.operation_id worker_id error now limit db).1,
        board,
      )

  -- Where the lookup did not answer the question.
  unfoldable pub defer : Comment → String → Ledger → B → Turn B
  defer row reason db board =
      if leb policy.max_attempts row.attempt_count
      then (
        some (report permanently_failed row none (some (safe_comment_error host reason limit))),
        (mark_comment_permanently_failed host row.operation_id worker_id reason now limit db).1,
        board,
      )
      else (let next = now + policy.base_retry_delay in
          (
            some (report reconciliation_deferred row (some next) none),
            (mark_comment_retryable host row.operation_id worker_id reason (some next) now limit
                db).1,
            board,
          ))

  -- After the lookup.
  unfoldable pub reconcile : Comment → String → MarkerLookup → Ledger → B → Turn B
  unfolding settle defer
  reconcile row task found db board = (
    some (report reconciled_delivered row none none),
    (mark_comment_delivered row.operation_id worker_id now db).1,
    board,
  )
  reconcile row task not_found db board =
      let (outcome, board') = adapter.deliver_comment task row.payload row.idempotency_key board in
      settle row outcome db board'
  reconcile row task unavailable db board =
      defer row "reconciliation unavailable: unavailable" db board
  reconcile row task unsupported db board =
      defer row "reconciliation unavailable: unsupported" db board

  -- After the board identity was asked for.
  unfoldable pub address : Comment → Result String → Ledger → B → Turn B
  unfolding reconcile
  address row (ok task) db board =
      reconcile row task (adapter.find_comment_marker task (marker row.operation_id) board) db board
  address row (err e) db board =
      let reason = safe_comment_error host (error_text e) limit in
      (
        some (report permanently_failed row none (some reason)),
        (mark_comment_permanently_failed host row.operation_id worker_id reason now limit db).1,
        board,
      )

  -- After a row was claimed.
  unfoldable pub deliver_claimed : Option Comment → Ledger → B → Turn B
  unfolding address
  deliver_claimed none db board = (some (bare no_work), db, board)
  deliver_claimed (some row) db board =
      let (target, db') = resolve_claimed_comment_target row.operation_id worker_id now db in
      address row target db' board

  -- `CommentDeliveryWorker.deliver_one`
  unfoldable pub deliver_one : Option String → Ledger → B → Turn B
  unfolding deliver_claimed
  deliver_one ticket db board =
      if policy.writes_enabled && adapter.writes_enabled
      then (let db' = (recover_expired_comment_leases host now none ticket db).1 in
          let (row, db'') = claim_next_comment worker_id policy.lease_seconds now ticket db' in
          deliver_claimed row db'' board)
      else (some (bare writes_disabled), db, board)
