-- ===== src/Gateway/Claim.antt =====
-- local_first_orchestrator/ledger.py: which notification a claim hands out.
use local_first_orchestrator.Base.{
  ℕ, ◌≤◌, String, ◌⊎◌, ◌↔◌, inl, inr, due, str_lt, str_lt_trans, str_lt_asym, ◌+◌, Every,
  Every-weaken, Option-cases, find_where, find_where-update_where, first_by-IsFirst, first_by-none,
  ◌∙◌, ◌≡◌, refl, true, false, none, some, arith, eq_refl, count_where, first_by, first_by_unique,
  first_by-satisfies, read_back, count_where-and, &&-true,
}
use local_first_orchestrator.Ledger.{pending, retryable, delivering, Ledger, Notification}
use local_first_orchestrator.Comments.Outbox.{is_waiting}
use local_first_orchestrator.Comments.Claim.{waiting_idle, waits_iff, due_iff}
use local_first_orchestrator.Gateway.Outbox.{
  has_operation, claim_oldest, claim, is_due, older, is_named, is_latest_claim, lower_id,
}

-- A notification that may be claimed: it waits, and no later time is set for its next attempt.
abbrev pub IsDue : ℕ → Notification → Type 0
IsDue now n =
    ((n.status ≡ pending) ⊎ (n.status ≡ retryable))
    × ((t : ℕ) → n.next_attempt_at ≡ some t → t ≤ now)

is_due-IsDue : (now : ℕ) (n : Notification) → (is_due now n ≡ true) ↔ IsDue now n
is_due-IsDue now n = (
  λ h.
      let both = &&-true (is_waiting n.status) (due n.next_attempt_at now) h in
      ((waits_iff n.status).0 both.0, (due_iff n.next_attempt_at now).0 both.1),
  λ h. rw ((waits_iff n.status).1 h.0, (due_iff n.next_attempt_at now).1 h.1) refl,
)

-- `n` was created first, or with the lower id in the same second.
abbrev pub IsNotAfter : Notification → Notification → Type 0
IsNotAfter n m =
    (n.created_at ≤ m.created_at)
    × (n.created_at ≡ m.created_at → str_lt m.operation_id n.operation_id ≡ false)

older-IsNotAfter : (n m : Notification) → older m n ≡ false → IsNotAfter n m
older-IsNotAfter n m h = ground arith

older_trans : (a b c : Notification) → older a b ≡ false → older b c ≡ false → older a c ≡ false
older_trans a b c p q =
    let rest = str_lt_trans a.operation_id b.operation_id c.operation_id in ground arith

older_asym : (a b : Notification) → older a b ≡ true → older b a ≡ false
older_asym a b p = let rest = str_lt_asym a.operation_id b.operation_id in ground arith

-- A notification under the lease that a claim gives it
abbrev pub leased : String → ℕ → ℕ → Notification → Notification
leased owner lease_seconds now n = record n {
  status = delivering;
  lease_owner = some owner;
  lease_expires_at = some (now + lease_seconds);
  attempt_count = n.attempt_count + 1;
  updated_at = now;
}

-- What a claim hands out: `n`, the first due row, leased to the owner.
pub record Handed (owner : String) (lease_seconds now : ℕ) (db : Ledger) (n : Notification)
    : Type 0 where
  pub stored : find_where (has_operation n.operation_id) db.notifications ≡ some n
  pub due_now : IsDue now n
  pub first : Every (λ m. IsDue now m → IsNotAfter n m) db.notifications
  pub handed : (claim_oldest owner lease_seconds now db).0 ≡ some (leased owner lease_seconds now n)
  pub written :
      find_where
        (has_operation n.operation_id)
        (claim_oldest owner lease_seconds now db).1.notifications
      ≡ some (leased owner lease_seconds now n)

module _ (owner : String) (lease_seconds now : ℕ) (db : Ledger)
    (distinct : (id : String) → count_where (has_operation id) db.notifications ≤ 1) where
  claimed-Handed :
      (n : Notification)
      → count_where (is_latest_claim owner now) db.notifications ≡ 0
      → first_by older (is_due now) db.notifications ≡ some n
      → Handed owner lease_seconds now db n
  unfolding claim_oldest
  claimed-Handed n idle e =
      let id = n.operation_id in
      let rows = db.notifications in
      let is_now : is_due now n ≡ true =
        first_by-satisfies (λ n. is_due now n ≡ true) older (is_due now) rows (λ x t. t) e in
      let waits : is_waiting n.status ≡ true = (&&-true _ _ is_now).0 in
      let one : count_where (is_named id) rows ≤ 1 =
        (let k = count_where-and (has_operation id) (λ n. is_waiting n.status) rows in
          omega (arith, distinct id)) in
      let named : is_named id n ≡ true = rw (eq_refl id, waits) refl in
      let there =
        first_by_unique older (is_due now) (has_operation id) rows e (eq_refl id) (distinct id) in
      record {
        stored = there;
        due_now = (is_due-IsDue now n).0 is_now;
        first =
            Every-weaken rows
              (λ m before due. older-IsNotAfter n m (before ((is_due-IsDue now m).1 due)))
              (first_by-IsFirst older (is_due now) older_trans older_asym rows e);
        handed =
            rw (claim_oldest, e)
              (read_back lower_id (is_latest_claim owner now) (is_named id)
                (claim owner lease_seconds now) rows idle one
                (first_by_unique older (is_due now) (is_named id) rows e named one)
                (rw (eq_refl owner) (ground arith)) (ground (arith, waiting_idle n.status waits)));
        written =
            rw (claim_oldest, e)
              (find_where-update_where (is_named id) (claim owner lease_seconds now)
                  (has_operation id) rows (λ _. refl)
                ∙ rw (there, named) refl);
      }

-- Where the operation ids are distinct, and no row of the owner that is being delivered was written in
-- the same second: either no notification is due (pending or retryable, with no later time set for its next attempt),
-- and a claim finds nothing and changes nothing; or it hands out a notification of the table that is due, and was
-- created no later than any other that is due, with no lower id among those created in the same second. What it hands
-- out, and the table then holds, is that row in delivery under a lease of the owner, with one attempt more.
pub claim_hands_out_oldest :
    (owner : String) (lease_seconds now : ℕ) (db : Ledger)
    → ((id : String) → count_where (has_operation id) db.notifications ≤ 1)
    → count_where (is_latest_claim owner now) db.notifications ≡ 0
    → ((claim_oldest owner lease_seconds now db ≡ (none, db))
        × Every (λ n. ¬ IsDue now n) db.notifications)
      ⊎ ((n : Notification) × Handed owner lease_seconds now db n)
unfolding claim_oldest
claim_hands_out_oldest owner lease_seconds now db distinct idle =
    elim (Option-cases (first_by older (is_due now) db.notifications)) [
      | inl e ↦ inl (
        rw (claim_oldest, e) refl,
        Every-weaken db.notifications
            (λ m no due. let yes = (is_due-IsDue now m).1 due in absurd (cc))
            (first_by-none older (is_due now) db.notifications e),
      )
      | inr (n, e) ↦ inr (n, claimed-Handed owner lease_seconds now db distinct n idle e)
    ]
