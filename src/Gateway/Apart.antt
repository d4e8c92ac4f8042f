-- ===== src/Gateway/Apart.antt =====
-- local_first_orchestrator/ledger.py: two claims, of one worker or of two.
use mathlib.Core.Option.{some-injective}
use local_first_orchestrator.Base.{
  ℕ, ◌≤◌, String, ◌≡◌, ◌≢◌, ◌∙◌, ◌⊎◌, inl, inr, refl, sym, ap, some, count_where, count_where-keep,
  first_by, find_where, Option-cases,
}
use local_first_orchestrator.Ledger.{
  DeliveryState, Ledger, Notification, pending, retryable, delivering,
}
use local_first_orchestrator.Gateway.Outbox.{
  has_operation, claim_oldest, claim, is_due, older, is_named, is_latest_claim,
}
use local_first_orchestrator.Gateway.Claim.{Handed, claim_hands_out_oldest}

count_where-claim :
    (owner : String) (lease_seconds now : ℕ) (db : Ledger) (id : String)
    → count_where (has_operation id) (claim_oldest owner lease_seconds now db).1.notifications
      ≡ count_where (has_operation id) db.notifications
unfolding claim_oldest
count_where-claim owner lease_seconds now db id =
    elim (Option-cases (first_by older (is_due now) db.notifications)) [
      | inl e ↦ rw (claim_oldest, e) refl
      | inr (n, e) ↦
          rw (claim_oldest, e)
            (count_where-keep (is_named n.operation_id) (claim owner lease_seconds now)
              (has_operation id) db.notifications (λ _. refl))
    ]

delivering_idle : (s : DeliveryState) → s ≡ delivering → ¬ ((s ≡ pending) ⊎ (s ≡ retryable))
delivering_idle s e (inl f) = absurd (cc)
delivering_idle s e (inr f) = absurd (cc)

-- The row that was handed out is found again by its id, and is in delivery.
Handed-is_delivering :
    (owner : String) (lease_seconds now : ℕ) (db : Ledger) (n m : Notification)
    → Handed owner lease_seconds now db n
    → find_where
        (has_operation n.operation_id)
        (claim_oldest owner lease_seconds now db).1.notifications
      ≡ some m
    → m.status ≡ delivering
Handed-is_delivering owner lease_seconds now db n m h e =
    ap (λ (x : Notification). x.status) (some-injective _ _ (sym e ∙ h.written))

-- Where the operation ids are distinct, and neither claim finds another row in delivery of its owner that was
-- written in the same second: a claim that follows another one, of the same worker or of another and at any time, is
-- not handed the notification that the first was handed.
pub claims_apart :
    (owner owner' : String) (lease_seconds lease_seconds' now now' : ℕ) (db : Ledger)
    (n n' : Notification)
    → ((id : String) → count_where (has_operation id) db.notifications ≤ 1)
    → count_where (is_latest_claim owner now) db.notifications ≡ 0
    → count_where
        (is_latest_claim owner' now')
        (claim_oldest owner lease_seconds now db).1.notifications
      ≡ 0
    → (claim_oldest owner lease_seconds now db).0 ≡ some n
    → (claim_oldest owner' lease_seconds' now' (claim_oldest owner lease_seconds now db).1).0
      ≡ some n'
    → n.operation_id ≢ n'.operation_id
claims_apart owner owner' lease_seconds lease_seconds' now now' db n n' distinct idle idle' got got'
      same =
    let after = (claim_oldest owner lease_seconds now db).1 in
    let distinct' : (id : String) → count_where (has_operation id) after.notifications ≤ 1 =
      λ id. rw (count_where-claim owner lease_seconds now db id) (distinct id) in
    elim (claim_hands_out_oldest owner lease_seconds now db distinct idle) [
      | inl (nothing, _) ↦ let e = sym (ap (λ r. r.0) nothing) ∙ got in absurd (cc)
      | inr (m, h) ↦
          elim (claim_hands_out_oldest owner' lease_seconds' now' after distinct' idle') [
            | inl (nothing, _) ↦ let e = sym (ap (λ r. r.0) nothing) ∙ got' in absurd (cc)
            | inr (m', h') ↦
                let id : m.operation_id ≡ n.operation_id =
                  ap (λ (x : Notification). x.operation_id)
                    (some-injective _ _ (sym h.handed ∙ got)) in
                let id' : m'.operation_id ≡ n'.operation_id =
                  ap (λ (x : Notification). x.operation_id)
                    (some-injective _ _ (sym h'.handed ∙ got')) in
                let one : m.operation_id ≡ m'.operation_id = id ∙ same ∙ sym id' in
                delivering_idle m'.status
                  (Handed-is_delivering owner lease_seconds now db m m' h
                    (ap (λ i. find_where (has_operation i) after.notifications) one ∙ h'.stored))
                  h'.due_now.0
          ]
    ]
