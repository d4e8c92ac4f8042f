-- ===== src/Comments/Once.antt =====
-- local_first_orchestrator/comment_delivery.py: a comment is posted once, however often its delivery
-- is begun, on a board whose lookup can be trusted.
use local_first_orchestrator.Base.{
  ℕ, ◌+◌, ◌≤◌, String, ◌≡◌, refl, sym, Bool, true, false, ◌&&◌, str_eq, if◌then◌else◌, to_nat,
  Option, Option-cases, none, some, List, [], ◌∷◌, Host, arith, Every, Every-update_where,
  update_where, keeps-result, &&-true, ◌∙◌, Every-first_by, leb, ltb, Result, ok, err, keeps-row,
  keeps-if, find_where, first_by, Bool-cases, inl, inr, opt_eq, eq_iff,
}
use local_first_orchestrator.Ledger.{Ledger, Comment, delivered, permanently_failed, DeliveryState}
use local_first_orchestrator.Ledger.Identity.{resolve_external_task_id}
use local_first_orchestrator.Comments.Outbox.{
  has_operation, claim_comment, claim_next_comment, mark_comment_delivered, mark_comment_retryable,
  mark_comment_permanently_failed, recover_expired_comment_leases, resolve_claimed_comment_target,
  is_owned, is_delivering, is_claimable, older, claim_row, lower_id, is_latest_claim,
}
use local_first_orchestrator.Comments.Delivery.{
  CommentAdapter, CommentDeliveryPolicy, Outcome, returned, crashed, ambiguous, failed,
  MarkerLookup, found, not_found, unavailable, unsupported, settle, defer, reconcile, address,
  deliver_claimed, deliver_one, Turn, marker,
}
use local_first_orchestrator.Comments.Turns.{IsKept, deliver_one-kept}
use local_first_orchestrator.Comments.Runs.{Call, turn, turns}

-- A property of the columns that no operation of the worker writes.
pub record IsStable (P : Comment → Type 0) : Type 0 where
  pub stable : (c d : Comment) → c.operation_id ≡ d.operation_id → c.payload ≡ d.payload → P c → P d

module _ (P : Comment → Type 0) (st : IsStable P) where
  AllRows : Ledger → Type 0
  AllRows db = Every P db.comments

  written :
      (q : Comment → Bool) (g : Comment → Comment) (db : Ledger)
      → ((x : Comment) → (x.operation_id ≡ (g x).operation_id) × (x.payload ≡ (g x).payload))
      → AllRows db
      → AllRows (record db { comments = update_where q g db.comments })
  unfolding AllRows
  written q g db same h =
      Every-update_where P q g db.comments (λ x. st.stable x (g x) (same x).0 (same x).1) h

  unless_delivered :
      (s : DeliveryState) (x y : Bool × Ledger)
      → AllRows x.1
      → AllRows y.1
      → AllRows (elim s as (λ _. Bool × Ledger) [ delivered ↦ x | _ ↦ y ]).1
  unless_delivered delivered x y hx hy = hx
  unless_delivered _ x y hx hy = hy

  unless_failed :
      (s : DeliveryState) (x y : Bool × Ledger)
      → AllRows x.1
      → AllRows y.1
      → AllRows (elim s as (λ _. Bool × Ledger) [ permanently_failed ↦ x | _ ↦ y ]).1
  unless_failed permanently_failed x y hx hy = hx
  unless_failed _ x y hx hy = hy

  rows_kept : IsKept AllRows
  unfolding claim_next_comment mark_comment_delivered mark_comment_retryable
      mark_comment_permanently_failed recover_expired_comment_leases resolve_claimed_comment_target
      claim_comment
  rows_kept = record {
    claim = λ owner lease now ticket db h.
        keeps-row AllRows (first_by older (is_claimable now ticket) db.comments) _ _ h
          (λ next _. written _ _ db (λ x. (refl, refl)) h);
    delivered = λ id owner now db h.
        keeps-row AllRows (find_where (has_operation id) db.comments) _ _ h λ r _.
          unless_delivered r.status _ _ h (
            keeps-if AllRows (is_owned id owner now r) _ _
              (λ _. written _ _ db (λ x. (refl, refl)) h) (λ _. h));
    retryable = λ host id owner error next now limit db h. written _ _ db (λ x. (refl, refl)) h;
    failed_for_good = λ host id owner error now limit db h.
        keeps-row AllRows (find_where (has_operation id) db.comments) _ _ h
          λ r _. unless_failed r.status _ _ h (written _ _ db (λ x. (refl, refl)) h);
    recovered = λ host now reason ticket db h. written _ _ db (λ x. (refl, refl)) h;
    retargeted = λ id owner now db h.
        keeps-row AllRows (find_where (has_operation id) db.comments) _ _ h λ r _.
          keeps-if AllRows (is_delivering r.status && opt_eq r.lease_owner owner) _ _
            (λ _.
              keeps-result AllRows
                (resolve_external_task_id db.tickets db.events db.runtime_stages db.projections
                  r.ticket_id)
                _ _ (λ _. h) (λ _. written _ _ db (λ x. (refl, refl)) h))
            (λ _. h);
  }

-- What the worker relies on: `carries` tells whether a text holds a marker, and `posts` counts the
-- comments of a task that hold it. The lookup answers `not_found` only where there is none, and a
-- delivery, however it ends, adds one comment with the text given at most.
pub record IsTruthful {B : Type 0} (adapter : CommentAdapter B) (carries : String → String → Bool)
    (posts : String → String → B → ℕ) : Type 0 where
  pub lookup :
      (task m : String) (b : B)
      → adapter.find_comment_marker task m b ≡ not_found
      → posts task m b ≡ 0
  pub deliver :
      (task payload key task' m : String) (b : B)
      → posts task' m (adapter.deliver_comment task payload key b).1
        ≤ posts task' m b + to_nat (str_eq task task' && carries payload m)

-- A payload carries no marker but that of its own comment.
abbrev pub IsMarked : (String → String → Bool) → Comment → Type 0
IsMarked carries c = (id : String) → carries c.payload (marker id) ≡ true → c.operation_id ≡ id

IsMarked-IsStable : (carries : String → String → Bool) → IsStable (IsMarked carries)
IsMarked-IsStable carries = record { stable = λ c d own text h id t. sym own ∙ h id (rw text t) }

module _ {B : Type 0} (host : Host) (adapter : CommentAdapter B) (carries : String → String → Bool)
    (posts : String → String → B → ℕ) (ok_board : IsTruthful adapter carries posts) where
  -- No task holds two comments with the same marker.
  abbrev Single : B → Type 0
  Single b = (task id : String) → posts task (marker id) b ≤ 1

  module _ (policy : CommentDeliveryPolicy) (worker : String) (now : ℕ) where
    if-Single : (b : Bool) (x y : Turn B) → Single x.2 → Single y.2 → Single (if b then x else y).2
    if-Single true x y hx hy = hx
    if-Single false x y hx hy = hy

    settle-Single :
        (row : Comment) (o : Outcome) (db : Ledger) (board : B)
        → Single board
        → Single (settle host adapter policy worker now row o db board).2
    unfolding settle
    settle-Single row returned db board s = s
    settle-Single row crashed db board s = s
    settle-Single row (ambiguous e) db board s = s
    settle-Single row (failed e) db board s =
        if-Single (ltb row.attempt_count policy.max_attempts) _ _ s s

    defer-Single :
        (row : Comment) (reason : String) (db : Ledger) (board : B)
        → Single board
        → Single (defer host adapter policy worker now row reason db board).2
    unfolding defer
    defer-Single row reason db board s =
        if-Single (leb policy.max_attempts row.attempt_count) _ _ s s

    delivery-Single :
        (row : Comment) (task : String) (board : B)
        → IsMarked carries row
        → adapter.find_comment_marker task (marker row.operation_id) board ≡ not_found
        → Single board
        → Single (adapter.deliver_comment task row.payload row.idempotency_key board).1
    delivery-Single row task board own absent s task' id =
        let bound = ok_board.deliver task row.payload row.idempotency_key task' (marker id) board in
        elim (Bool-cases (str_eq task task' && carries row.payload (marker id))) [
          | inr other ↦ let k = rw other at bound in omega (arith, s task' id)
          | inl same ↦
              let k = rw same at bound in
              let both = &&-true _ _ same in
              let zero_before = ok_board.lookup task (marker row.operation_id) board absent in
              let moved : posts task' (marker id) board ≡ 0 =
                rw (sym ((eq_iff task task').0 both.0), sym (own id both.1)) zero_before in
              omega arith
        ]

    reconcile-Single :
        (row : Comment) (task : String) (m : MarkerLookup) (db : Ledger) (board : B)
        → IsMarked carries row
        → adapter.find_comment_marker task (marker row.operation_id) board ≡ m
        → Single board
        → Single (reconcile host adapter policy worker now row task m db board).2
    unfolding reconcile
    reconcile-Single row task found db board own e s = s
    reconcile-Single row task not_found db board own e s =
        let o = adapter.deliver_comment task row.payload row.idempotency_key board in
        settle-Single row o.0 db o.1 (delivery-Single row task board own e s)
    reconcile-Single row task unavailable db board own e s = defer-Single row _ db board s
    reconcile-Single row task unsupported db board own e s = defer-Single row _ db board s

    address-Single :
        (row : Comment) (t : Result String) (db : Ledger) (board : B)
        → IsMarked carries row
        → Single board
        → Single (address host adapter policy worker now row t db board).2
    unfolding address
    address-Single row (ok task) db board own s = reconcile-Single row task _ db board own refl s
    address-Single row (err e) db board own s = s

    deliver_claimed-Single :
        (row : Option Comment) (db : Ledger) (board : B)
        → ((c : Comment) → row ≡ some c → IsMarked carries c)
        → Single board
        → Single (deliver_claimed host adapter policy worker now row db board).2
    unfolding deliver_claimed
    deliver_claimed-Single none db board own s = s
    deliver_claimed-Single (some row) db board own s =
        let r = resolve_claimed_comment_target row.operation_id worker now db in
        address-Single row r.0 r.1 board (own row refl) s

    claimed_row :
        (P : Comment → Type 0) (k : IsStable P) (ticket : Option String) (db : Ledger) {c : Comment}
        → AllRows P k db
        → (claim_next_comment worker policy.lease_seconds now ticket db).0 ≡ some c
        → P c
    unfolding claim_next_comment AllRows
    claimed_row P k ticket db h e =
        elim (Option-cases (first_by older (is_claimable now ticket) db.comments)) [
          | inl f ↦ absurd (cc)
          | inr (next, f) ↦
              let db' = claim_row next.operation_id worker policy.lease_seconds now db in
              Every-first_by P lower_id (is_latest_claim worker now) db'.comments
                (written P k _ _ db (λ x. (refl, refl)) h) (rw (claim_next_comment, f) at e)
        ]

    turn-Single :
        (ticket : Option String) (db : Ledger) (board : B)
        → Every (IsMarked carries) db.comments
        → Single board
        → Single (deliver_one host adapter policy worker now ticket db board).2
    unfolding deliver_one AllRows
    turn-Single ticket db board own s =
        let k = rows_kept (IsMarked carries) (IsMarked-IsStable carries) in
        let db' = (recover_expired_comment_leases host now none ticket db).1 in
        let claimed = claim_next_comment worker policy.lease_seconds now ticket db' in
        if-Single (policy.writes_enabled && adapter.writes_enabled) _ _
          (deliver_claimed-Single claimed.0 claimed.1 board
            (λ c e.
              claimed_row (IsMarked carries) (IsMarked-IsStable carries) ticket db'
                (k.recovered host now none ticket db own) e)
            s)
          s

  -- A board whose lookup finds what is there, and whose delivery adds one comment at most: if no task
  -- holds two comments with the marker of the same operation, and each queued payload carries no
  -- marker but its own, then no task does after any turns of any workers, with failures, crashes and
  -- ambiguous deliveries among them.
  pub posted_once :
      (cs : List Call) (db : Ledger) (board : B)
      → Every (IsMarked carries) db.comments
      → ((task id : String) → posts task (marker id) board ≤ 1)
      → (task id : String) → posts task (marker id) (turns host adapter cs (db, board)).1 ≤ 1
  unfolding turns AllRows
  posted_once [] db board own s = s
  posted_once (c ∷ cs) db board own s =
      let k = rows_kept (IsMarked carries) (IsMarked-IsStable carries) in
      let t = turn host adapter c (db, board) in
      posted_once cs t.0 t.1
        (deliver_one-kept _ k host adapter c.policy c.worker_id c.now c.ticket db board own)
        (turn-Single c.policy c.worker_id c.now c.ticket db board own s)
