-- ===== src/Comments/Settled.antt =====
-- ledger.py, comment_delivery.py: a comment that was delivered or has failed for good is left alone.
use local_first_orchestrator.Base.{
  ℕ, String, ◌≡◌, ◌∙◌, sym, refl, inl, inr, Bool, true, false, Option, some, arith, eq_iff,
  find_where, first_by, find_where-update_where, find_where-some, Bool-cases, update_where, Host,
  ◌&&◌, keeps-row, keeps-if, keeps-result, opt_eq, &&-true,
}
use local_first_orchestrator.Ledger.{Ledger, Comment, DeliveryState, delivered, permanently_failed}
use local_first_orchestrator.Ledger.Identity.{resolve_external_task_id}
use local_first_orchestrator.Comments.Outbox.{
  has_operation, claim_comment, claim_next_comment, mark_comment_delivered, mark_comment_retryable,
  mark_comment_permanently_failed, recover_expired_comment_leases, resolve_claimed_comment_target,
  is_owned, is_delivering, is_claimable, older,
}

abbrev pub is_settled : DeliveryState → Bool
is_settled delivered = true
is_settled permanently_failed = true
is_settled _ = false

-- The outbox holds the settled row `c` under its operation id.
pub record Holds (id : String) (c : Comment) (db : Ledger) : Type 0 where
  pub there : find_where (has_operation id) db.comments ≡ some c
  pub settled : is_settled c.status ≡ true

module _ (id : String) (c : Comment) where
  -- An update that does not meet the row leaves it as it is.
  untouched :
      (q : Comment → Bool) (g : Comment → Comment) (db : Ledger)
      → Holds id c db
      → ((x : Comment) → has_operation id (g x) ≡ has_operation id x)
      → q c ≡ false
      → Holds id c (record db { comments = update_where q g db.comments })
  untouched q g db h same other = record {
    there =
        rw (find_where-update_where q g (has_operation id) db.comments same)
          (rw (h.there) (rw other));
    settled = h.settled;
  }

  unless_delivered :
      (st : DeliveryState) (x y : Bool × Ledger)
      → Holds id c x.1
      → Holds id c y.1
      → Holds id c (elim st as (λ _. Bool × Ledger) [ delivered ↦ x | _ ↦ y ]).1
  unless_delivered delivered x y hx hy = hx
  unless_delivered _ x y hx hy = hy

  unless_failed :
      (st : DeliveryState) (x y : Bool × Ledger)
      → Holds id c x.1
      → Holds id c y.1
      → Holds id c (elim st as (λ _. Bool × Ledger) [ permanently_failed ↦ x | _ ↦ y ]).1
  unless_failed permanently_failed x y hx hy = hx
  unless_failed _ x y hx hy = hy

  pub claim_comment-Holds :
      (op owner : String) (lease now : ℕ) (db : Ledger)
      → Holds id c db
      → Holds id c (claim_comment op owner lease now db).1
  unfolding claim_comment
  claim_comment-Holds op owner lease now db h =
      untouched _ _ db h (λ x. refl) (ground (arith, h.settled))

  pub claim_next_comment-Holds :
      (owner : String) (lease now : ℕ) (ticket : Option String) (db : Ledger)
      → Holds id c db
      → Holds id c (claim_next_comment owner lease now ticket db).1
  unfolding claim_next_comment
  claim_next_comment-Holds owner lease now ticket db h =
      keeps-row (Holds id c) (first_by older (is_claimable now ticket) db.comments) _ _ h
        (λ next _. claim_comment-Holds next.operation_id owner lease now db h)

  pub mark_comment_delivered-Holds :
      (op owner : String) (now : ℕ) (db : Ledger)
      → Holds id c db
      → Holds id c (mark_comment_delivered op owner now db).1
  unfolding mark_comment_delivered
  mark_comment_delivered-Holds op owner now db h =
      keeps-row (Holds id c) (find_where (has_operation op) db.comments) _ _ h λ r _.
        unless_delivered r.status _ _ h (
          keeps-if (Holds id c) (is_owned op owner now r) _ _
            (λ _. untouched _ _ db h (λ x. refl) (ground (arith, h.settled))) (λ _. h))

  pub mark_comment_retryable-Holds :
      (host : Host) (op owner error : String) (next : Option ℕ) (now limit : ℕ) (db : Ledger)
      → Holds id c db
      → Holds id c (mark_comment_retryable host op owner error next now limit db).1
  unfolding mark_comment_retryable
  mark_comment_retryable-Holds host op owner error next now limit db h =
      untouched _ _ db h (λ x. refl) (ground (arith, h.settled))

  pub mark_comment_permanently_failed-Holds :
      (host : Host) (op owner error : String) (now limit : ℕ) (db : Ledger)
      → Holds id c db
      → Holds id c (mark_comment_permanently_failed host op owner error now limit db).1
  unfolding mark_comment_permanently_failed
  mark_comment_permanently_failed-Holds host op owner error now limit db h =
      keeps-row (Holds id c) (find_where (has_operation op) db.comments) _ _ h λ r _.
        unless_failed r.status _ _ h (untouched _ _ db h (λ x. refl) (ground (arith, h.settled)))

  pub recover-Holds :
      (host : Host) (now : ℕ) (reason ticket : Option String) (db : Ledger)
      → Holds id c db
      → Holds id c (recover_expired_comment_leases host now reason ticket db).1
  unfolding recover_expired_comment_leases
  recover-Holds host now reason ticket db h =
      untouched _ _ db h (λ x. refl) (ground (arith, h.settled))

  retarget_other :
      (op : String) (r : Comment) (db : Ledger)
      → Holds id c db
      → find_where (has_operation op) db.comments ≡ some r
      → is_delivering r.status ≡ true
      → has_operation op c ≡ false
  retarget_other op r db h found' going = elim (Bool-cases (has_operation op c)) [
    | inr other ↦ other
    | inl same ↦
        let own = find_where-some (has_operation id) db.comments h.there in
        let e : op ≡ id =
          sym ((eq_iff c.operation_id op).0 same) ∙ (eq_iff c.operation_id id).0 own in
        let one : some r ≡ some c = sym found' ∙ rw e h.there in ground (arith, h.settled)
  ]

  pub resolve-Holds :
      (op owner : String) (now : ℕ) (db : Ledger)
      → Holds id c db
      → Holds id c (resolve_claimed_comment_target op owner now db).1
  unfolding resolve_claimed_comment_target
  resolve-Holds op owner now db h =
      keeps-row (Holds id c) (find_where (has_operation op) db.comments) _ _ h λ r found'.
        keeps-if (Holds id c) (is_delivering r.status && opt_eq r.lease_owner owner) _ _
          (λ mine.
            keeps-result (Holds id c)
              (resolve_external_task_id db.tickets db.events db.runtime_stages db.projections
                r.ticket_id)
              _ _ (λ _. h)
              (λ _.
                untouched _ _ db h (λ x. refl)
                  (retarget_other op r db h found' (&&-true _ _ mine).0)))
          (λ _. h)
