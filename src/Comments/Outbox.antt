-- ===== src/Comments/Outbox.antt =====
-- local_first_orchestrator/ledger.py: the outbox of evidence comments. Its operations raise nothing
-- after they have written, so each is a function on the ledger.
use local_first_orchestrator.Base.{
  ℕ, ◌+◌, String, Bool, true, false, ◌&&◌, ◌||◌, Option, none, some, List, Result, ok, err,
  key_error, permission_error, ◌==◌, str_eq, str_lt, ltb, opt_eq, due, at_most, after, coalesce,
  if◌then◌else◌, find_where, count_where, select_where, update_where, first_by, map, Host,
  take_chars,
}
use local_first_orchestrator.Ledger.{
  Ledger, Comment, DeliveryState, pending, delivering, retryable, delivered, permanently_failed,
}
use local_first_orchestrator.Ledger.Identity.{resolve_external_task_id}

abbrev pub is_delivering : DeliveryState → Bool
is_delivering delivering = true
is_delivering _ = false

-- status IN ('pending', 'retryable')
abbrev pub is_waiting : DeliveryState → Bool
is_waiting pending = true
is_waiting retryable = true
is_waiting _ = false

abbrev pub has_operation : String → Comment → Bool
has_operation id c = str_eq c.operation_id id

-- `? IS NULL OR ticket_id = ?`
abbrev pub for_ticket : Option String → Comment → Bool
for_ticket none c = true
for_ticket (some t) c = str_eq c.ticket_id t

abbrev pub is_due : ℕ → Comment → Bool
is_due now c = is_waiting c.status && due c.next_attempt_at now

-- The row is being delivered by `owner` under a lease that runs.
abbrev pub is_owned : String → String → ℕ → Comment → Bool
is_owned id owner now c =
    has_operation id c
    && is_delivering c.status
    && opt_eq c.lease_owner owner
    && after c.lease_expires_at now

abbrev pub claim : String → ℕ → ℕ → Comment → Comment
claim owner lease_seconds now c = record c {
  status = delivering;
  lease_owner = some owner;
  lease_expires_at = some (now + lease_seconds);
  attempt_count = c.attempt_count + 1;
  updated_at = now;
}

-- The rows that an UPDATE meets, and the table after it.
abbrev pub update : (Comment → Bool) → (Comment → Comment) → Ledger → Bool × Ledger
update q g db =
    (count_where q db.comments == 1, record db { comments = update_where q g db.comments })

unfoldable pub claim_comment : String → String → ℕ → ℕ → Ledger → Bool × Ledger
claim_comment id owner lease_seconds now =
    update (λ c. has_operation id c && is_due now c) (claim owner lease_seconds now)

-- ORDER BY created_at, operation_id
abbrev pub older : Comment → Comment → Bool
older a b =
    ltb a.created_at b.created_at
    || a.created_at == b.created_at && str_lt a.operation_id b.operation_id

abbrev pub is_claimable : ℕ → Option String → Comment → Bool
is_claimable now ticket c = is_due now c && for_ticket ticket c

-- The row that is read back after the claim.
abbrev pub is_latest_claim : String → ℕ → Comment → Bool
is_latest_claim owner now c =
    opt_eq c.lease_owner owner && is_delivering c.status && c.updated_at == now

abbrev pub lower_id : Comment → Comment → Bool
lower_id a b = str_lt a.operation_id b.operation_id

abbrev pub claim_row : String → String → ℕ → ℕ → Ledger → Ledger
claim_row id owner lease_seconds now db = (claim_comment id owner lease_seconds now db).1

unfoldable pub claim_next_comment :
    String → ℕ → ℕ → Option String → Ledger → Option Comment × Ledger
unfolding claim_comment
claim_next_comment owner lease_seconds now ticket db =
    elim (first_by older (is_claimable now ticket) db.comments) [
      | none ↦ (none, db)
      | some next ↦
          let db' = claim_row next.operation_id owner lease_seconds now db in
          (first_by lower_id (is_latest_claim owner now) db'.comments, db')
    ]

-- What `mark_comment_delivered` writes.
abbrev pub deliver : String → ℕ → Comment → Comment
deliver owner now c = record c {
  status = delivered;
  delivered_at = some now;
  updated_at = now;
  lease_owner = none;
  lease_expires_at = none;
  next_attempt_at = none;
  last_error = none;
  terminal_owner = some owner;
}

unfoldable pub mark_comment_delivered : String → String → ℕ → Ledger → Bool × Ledger
mark_comment_delivered id owner now db = elim (find_where (has_operation id) db.comments) [
  | none ↦ (false, db)
  | some c ↦
      let owned = is_owned id owner now c in
      let updated = update (is_owned id owner now) (deliver owner now) db in
      elim c.status [
        | delivered ↦ (opt_eq c.terminal_owner owner, db)
        | _ ↦ if owned then updated else (false, db)
      ]
]

-- `_safe_comment_error`
unfoldable pub safe_comment_error : Host → String → ℕ → String
safe_comment_error host error limit = take_chars limit (host.redact_error error)

abbrev pub retry : String → Option ℕ → ℕ → Comment → Comment
retry error next_attempt_at now c = record c {
  status = retryable;
  last_error = some error;
  lease_owner = none;
  lease_expires_at = none;
  next_attempt_at = some (coalesce next_attempt_at now);
  updated_at = now;
  delivered_at = none;
  terminal_owner = none;
}

unfoldable pub mark_comment_retryable :
    Host → String → String → String → Option ℕ → ℕ → ℕ → Ledger → Bool × Ledger
unfolding safe_comment_error
mark_comment_retryable host id owner error next_attempt_at now error_limit =
    update (is_owned id owner now)
      (retry (safe_comment_error host error error_limit) next_attempt_at now)

abbrev pub fail : String → String → ℕ → Comment → Comment
fail error owner now c = record c {
  status = permanently_failed;
  last_error = some error;
  lease_owner = none;
  lease_expires_at = none;
  next_attempt_at = none;
  updated_at = now;
  terminal_owner = some owner;
}

unfoldable pub mark_comment_permanently_failed :
    Host → String → String → String → ℕ → ℕ → Ledger → Bool × Ledger
unfolding safe_comment_error
mark_comment_permanently_failed host id owner error now error_limit db =
    elim (find_where (has_operation id) db.comments) [
      | none ↦ (false, db)
      | some c ↦
          let updated =
            update (is_owned id owner now)
              (fail (safe_comment_error host error error_limit) owner now) db in
          elim c.status [ permanently_failed ↦ (opt_eq c.terminal_owner owner, db) | _ ↦ updated ]
    ]

abbrev pub is_expired : ℕ → Option String → Comment → Bool
is_expired now ticket c =
    is_delivering c.status && at_most c.lease_expires_at now && for_ticket ticket c

abbrev pub release : Option String → ℕ → Comment → Comment
release reason now c = record c {
  status = retryable;
  lease_owner = none;
  lease_expires_at = none;
  next_attempt_at = some now;
  last_error = elim reason [ none ↦ c.last_error | some e ↦ some e ];
  updated_at = now;
}

unfoldable pub recover_expired_comment_leases :
    Host → ℕ → Option String → Option String → Ledger → List String × Ledger
unfolding safe_comment_error
recover_expired_comment_leases host now reason ticket db = (
  map (λ c. c.operation_id) (select_where (is_expired now ticket) db.comments),
  record db {
    comments =
        update_where (is_expired now ticket)
          (release (elim reason [ none ↦ none | some e ↦ some (safe_comment_error host e 500) ])
            now)
          db.comments;
  },
)

-- A row is retargeted only for the owner that is delivering it. What raises has written nothing.
unfoldable pub resolve_claimed_comment_target :
    String → String → ℕ → Ledger → Result String × Ledger
resolve_claimed_comment_target id owner now db = elim (find_where (has_operation id) db.comments) [
  | none ↦ (err (key_error id), db)
  | some c ↦
      if is_delivering c.status && opt_eq c.lease_owner owner
      then elim (resolve_external_task_id db.tickets db.events db.runtime_stages db.projections
          c.ticket_id) [
            | err e ↦ (err e, db)
            | ok target ↦ (
              ok target,
              record db {
                comments =
                    update_where (has_operation id)
                      (λ d. record d { external_task_id = target; updated_at = now }) db.comments;
              },
            )
          ]
      else (err (permission_error "comment delivery is not owned"), db)
]
