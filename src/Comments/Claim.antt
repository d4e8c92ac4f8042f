-- ===== src/Comments/Claim.antt =====
-- local_first_orchestrator/ledger.py: which comment a claim hands out.
use mathlib.Core.Option.{some-injective}
use local_first_orchestrator.Base.{
  ℕ, ◌+◌, ◌≤◌, String, ◌≡◌, ◌⊎◌, ◌↔◌, ◌∙◌, inl, inr, refl, true, false, ◌&&◌, Option, none, some,
  arith, eq_refl, eq_iff, count_where, first_by, first_by_unique, first_by-satisfies, read_back,
  count_where-and, &&-true, due, str_lt, str_lt_trans, str_lt_asym, Every, Every-weaken,
  Option-cases, find_where, find_where-update_where, first_by-IsFirst, first_by-none,
}
use local_first_orchestrator.Ledger.{
  Ledger, Comment, DeliveryState, pending, retryable, delivering, delivered, permanently_failed,
  delivery_unknown,
}
use local_first_orchestrator.Comments.Outbox.{
  is_waiting, is_delivering, has_operation, claim_next_comment, claim, is_due, older, is_claimable,
  is_latest_claim, lower_id, for_ticket,
}

pub waiting_idle : (s : DeliveryState) → is_waiting s ≡ true → is_delivering s ≡ false
waiting_idle s h = ground arith

-- A comment that may be claimed, for one ticket or for any: it waits, no later time is set for its next attempt, and
-- it is the ticket's.
abbrev pub IsDue : ℕ → Option String → Comment → Type 0
IsDue now ticket n =
    ((n.status ≡ pending) ⊎ (n.status ≡ retryable))
    × ((t : ℕ) → n.next_attempt_at ≡ some t → t ≤ now)
    × ((t : String) → ticket ≡ some t → n.ticket_id ≡ t)

pub waits_iff : (s : DeliveryState) → (is_waiting s ≡ true) ↔ ((s ≡ pending) ⊎ (s ≡ retryable))
waits_iff pending = (λ _. inl refl, λ _. refl)
waits_iff retryable = (λ _. inr refl, λ _. refl)
waits_iff delivering = (λ h. absurd (cc), λ h. absurd (ground arith))
waits_iff delivered = (λ h. absurd (cc), λ h. absurd (ground arith))
waits_iff permanently_failed = (λ h. absurd (cc), λ h. absurd (ground arith))
waits_iff delivery_unknown = (λ h. absurd (cc), λ h. absurd (ground arith))

pub due_iff : (o : Option ℕ) (now : ℕ) → (due o now ≡ true) ↔ ((t : ℕ) → o ≡ some t → t ≤ now)
due_iff none now = (λ _ t e. absurd (cc), λ _. refl)
due_iff (some u) now = (
  λ h t e. let same : u ≡ t = some-injective _ _ e in ground arith,
  λ h. let low = h u refl in ground arith,
)

ticket_iff :
    (ticket : Option String) (n : Comment)
    → (for_ticket ticket n ≡ true) ↔ ((t : String) → ticket ≡ some t → n.ticket_id ≡ t)
ticket_iff none n = (λ _ t e. absurd (cc), λ _. refl)
ticket_iff (some u) n = (
  λ h t e. let same : u ≡ t = some-injective _ _ e in (eq_iff n.ticket_id u).0 h ∙ same,
  λ h. (eq_iff n.ticket_id u).1 (h u refl),
)

is_claimable-IsDue :
    (now : ℕ) (ticket : Option String) (n : Comment)
    → (is_claimable now ticket n ≡ true) ↔ IsDue now ticket n
is_claimable-IsDue now ticket n = (
  λ h.
      let all = &&-true (is_due now n) (for_ticket ticket n) h in
      let both = &&-true (is_waiting n.status) (due n.next_attempt_at now) all.0 in
      (
        (waits_iff n.status).0 both.0,
        (due_iff n.next_attempt_at now).0 both.1,
        (ticket_iff ticket n).0 all.1,
      ),
  λ h.
      rw
        (
          (waits_iff n.status).1 h.0,
          (due_iff n.next_attempt_at now).1 h.1,
          (ticket_iff ticket n).1 h.2,
        )
        refl,
)

-- `n` was created first, or with the lower id in the same second.
abbrev pub IsNotAfter : Comment → Comment → Type 0
IsNotAfter n m =
    (n.created_at ≤ m.created_at)
    × (n.created_at ≡ m.created_at → str_lt m.operation_id n.operation_id ≡ false)

older-IsNotAfter : (n m : Comment) → older m n ≡ false → IsNotAfter n m
older-IsNotAfter n m h = ground arith

older_trans : (a b c : Comment) → older a b ≡ false → older b c ≡ false → older a c ≡ false
older_trans a b c p q =
    let rest = str_lt_trans a.operation_id b.operation_id c.operation_id in ground arith

older_asym : (a b : Comment) → older a b ≡ true → older b a ≡ false
older_asym a b p = let rest = str_lt_asym a.operation_id b.operation_id in ground arith

-- A comment under the lease that a claim gives it
abbrev pub leased : String → ℕ → ℕ → Comment → Comment
leased owner lease_seconds now n = record n {
  status = delivering;
  lease_owner = some owner;
  lease_expires_at = some (now + lease_seconds);
  attempt_count = n.attempt_count + 1;
  updated_at = now;
}

-- What a claim hands out: `n`, the first due row, leased to the owner.
pub record Handed (owner : String) (lease_seconds now : ℕ) (ticket : Option String) (db : Ledger)
    (n : Comment) : Type 0 where
  pub stored : find_where (has_operation n.operation_id) db.comments ≡ some n
  pub due_now : IsDue now ticket n
  pub first : Every (λ m. IsDue now ticket m → IsNotAfter n m) db.comments
  pub handed :
      (claim_next_comment owner lease_seconds now ticket db).0
      ≡ some (leased owner lease_seconds now n)
  pub written :
      find_where
        (has_operation n.operation_id)
        (claim_next_comment owner lease_seconds now ticket db).1.comments
      ≡ some (leased owner lease_seconds now n)

module _ (owner : String) (lease_seconds now : ℕ) (ticket : Option String) (db : Ledger)
    (distinct : (id : String) → count_where (has_operation id) db.comments ≤ 1) where
  claimed-Handed :
      (n : Comment)
      → count_where (is_latest_claim owner now) db.comments ≡ 0
      → first_by older (is_claimable now ticket) db.comments ≡ some n
      → Handed owner lease_seconds now ticket db n
  unfolding claim_next_comment
  claimed-Handed n idle e =
      let id = n.operation_id in
      let rows = db.comments in
      let is_now : is_claimable now ticket n ≡ true =
        first_by-satisfies (λ n. is_claimable now ticket n ≡ true) older (is_claimable now ticket)
          rows (λ x t. t) e in
      let is_due_now : is_due now n ≡ true = (&&-true _ _ is_now).0 in
      let waits : is_waiting n.status ≡ true = (&&-true _ _ is_due_now).0 in
      let is_named = λ (c : Comment). has_operation id c && is_due now c in
      let one : count_where is_named rows ≤ 1 =
        (let k = count_where-and (has_operation id) (is_due now) rows in
          omega (arith, distinct id)) in
      let named : is_named n ≡ true = rw (eq_refl id) is_due_now in
      let there =
        first_by_unique older (is_claimable now ticket) (has_operation id) rows e (eq_refl id)
          (distinct id) in
      record {
        stored = there;
        due_now = (is_claimable-IsDue now ticket n).0 is_now;
        first =
            Every-weaken rows
              (λ m before due.
                older-IsNotAfter n m (before ((is_claimable-IsDue now ticket m).1 due)))
              (first_by-IsFirst older (is_claimable now ticket) older_trans older_asym rows e);
        handed =
            rw (claim_next_comment, e)
              (read_back lower_id (is_latest_claim owner now) is_named
                (claim owner lease_seconds now) rows idle one
                (first_by_unique older (is_claimable now ticket) is_named rows e named one)
                (rw (eq_refl owner) (ground arith)) (ground (arith, waiting_idle n.status waits)));
        written =
            rw (claim_next_comment, e)
              (find_where-update_where is_named (claim owner lease_seconds now) (has_operation id)
                  rows (λ _. refl)
                ∙ rw (there, named) refl);
      }

-- Where the operation ids are distinct, and no row of the owner that is being delivered was written in
-- the same second: either no comment is due (pending or retryable, with no later time set for its next attempt,
-- and of the ticket where one is named), and a claim finds nothing and changes nothing; or it hands out a comment of the table that is due, and was
-- created no later than any other that is due, with no lower id among those created in the same second. What it hands
-- out, and the table then holds, is that row in delivery under a lease of the owner, with one attempt more.
pub claim_next_hands_out_oldest :
    (owner : String) (lease_seconds now : ℕ) (ticket : Option String) (db : Ledger)
    → ((id : String) → count_where (has_operation id) db.comments ≤ 1)
    → count_where (is_latest_claim owner now) db.comments ≡ 0
    → ((claim_next_comment owner lease_seconds now ticket db ≡ (none, db))
        × Every (λ n. ¬ IsDue now ticket n) db.comments)
      ⊎ ((n : Comment) × Handed owner lease_seconds now ticket db n)
unfolding claim_next_comment
claim_next_hands_out_oldest owner lease_seconds now ticket db distinct idle =
    elim (Option-cases (first_by older (is_claimable now ticket) db.comments)) [
      | inl e ↦ inl (
        rw (claim_next_comment, e) refl,
        Every-weaken db.comments
            (λ m no due. let yes = (is_claimable-IsDue now ticket m).1 due in absurd (cc))
            (first_by-none older (is_claimable now ticket) db.comments e),
      )
      | inr (n, e) ↦ inr (n, claimed-Handed owner lease_seconds now ticket db distinct n idle e)
    ]
