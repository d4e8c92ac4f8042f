-- ===== src/Gateway/Examples.antt =====
-- The theorems on notifications at concrete inputs.
use mathlib.Core.Path.{subst}
use local_first_orchestrator.Base.{
  Bool-cases, str_eq, eq_iff, inl, inr, ◌≤◌, ℕ, ◌+◌, String, Every, ◌⊎◌, ◌≡◌, ◌≢◌, refl, false,
  none, some, List, [], ◌∷◌, Host, arith, find_where, count_where, first_by, update_where, pos,
}
use local_first_orchestrator.Ledger.{
  Ledger, Notification, empty_ledger, pending, delivering, delivery_unknown,
}
use local_first_orchestrator.Gateway.Outbox.{has_operation, is_latest_claim, claim_oldest}
use local_first_orchestrator.Gateway.Worker.{Sent, exited}
use local_first_orchestrator.Gateway.Settled.{Call, turns, Holds, settled_notification_stays}
use local_first_orchestrator.Gateway.Apart.{claims_apart}
use local_first_orchestrator.Gateway.Claim.{IsDue, Handed, leased, claim_hands_out_oldest}

abbrev host : Host
host = record {
  digest = λ s. s;
  redact_error = λ s. s;
  redact_evidence = λ s. s;
  stable_error = λ s. s;
}

abbrev queued : Notification
queued = record {
  operation_id = "b";
  ticket_id = "t1";
  failure_fingerprint = "fingerprint";
  terminal_generation = 1;
  target = "operator";
  idempotency_key = "key";
  payload = "a ticket is blocked";
  status = pending;
  attempt_count = 0;
  lease_owner = none;
  lease_expires_at = none;
  next_attempt_at = none;
  last_error = none;
  created_at = 3;
  updated_at = 3;
  delivered_at = none;
  terminal_owner = none;
  superseded_at = none;
}

abbrev waiting : Ledger
waiting = record empty_ledger { notifications = queued ∷ [] }

claim_hands_out_oldest_example :
    ((claim_oldest "worker" 60 5 waiting ≡ (none, waiting))
      × Every (λ n. ¬ IsDue 5 n) waiting.notifications)
    ⊎ ((n : Notification) × Handed "worker" 60 5 waiting n)
unfolding count_where
claim_hands_out_oldest_example =
    claim_hands_out_oldest "worker" 60 5 waiting (λ id. ground arith) refl

abbrev newer : Notification
newer = record queued { operation_id = "a"; created_at = 4 }

abbrev two_waiting : Ledger
two_waiting = record waiting { notifications = newer ∷ queued ∷ [] }

abbrev first_handed : Notification
first_handed = leased "worker" 60 5 queued

abbrev second_handed : Notification
second_handed = leased "other" 60 5 newer

two_ids : (id : String) → count_where (has_operation id) two_waiting.notifications ≤ 1
unfolding count_where
two_ids id = elim (Bool-cases (str_eq "a" id)) [
  | inl e ↦
      let same : "a" ≡ id = (eq_iff "a" id).0 e in
      subst (λ i. count_where (has_operation i) two_waiting.notifications ≤ 1) same (ground arith)
  | inr e ↦ ground arith
]

first_claim_test : (claim_oldest "worker" 60 5 two_waiting).0 ≡ some first_handed
unfolding claim_oldest first_by update_where
first_claim_test = refl

second_claim_test :
    (claim_oldest "other" 60 5 (claim_oldest "worker" 60 5 two_waiting).1).0 ≡ some second_handed
unfolding claim_oldest first_by update_where
second_claim_test = refl

no_other_test :
    count_where (is_latest_claim "other" 5) (claim_oldest "worker" 60 5 two_waiting).1.notifications
    ≡ 0
unfolding claim_oldest first_by update_where count_where
no_other_test = refl

claims_apart_example : first_handed.operation_id ≢ second_handed.operation_id
unfolding count_where
claims_apart_example =
    claims_apart "worker" "other" 60 60 5 5 two_waiting first_handed second_handed two_ids refl
      no_other_test first_claim_test second_claim_test

-- Without the hypothesis on the second: a row that the same worker began to deliver in this second, and
-- was lost with, is handed out in place of the row that is claimed.
abbrev begun : Notification
begun = record queued {
  operation_id = "a";
  status = delivering;
  lease_owner = some "worker";
  lease_expires_at = some 65;
  attempt_count = 1;
  updated_at = 5;
}

read_back_test :
    (claim_oldest "worker" 60 5 (record waiting { notifications = queued ∷ begun ∷ [] })).0
    ≡ some begun
unfolding claim_oldest first_by update_where
read_back_test = refl

abbrev lost : Notification
lost = record queued { status = delivery_unknown; attempt_count = 1 }

abbrev settled : Ledger
settled = record empty_ledger { notifications = lost ∷ [] }

lost-Holds : Holds "b" lost settled
unfolding find_where
lost-Holds = record { there = refl; settled = refl }

abbrev send : String → String → ℕ → Sent × ℕ
send target payload sent = (exited (pos 0) false "", sent + 1)

abbrev calls : List Call
calls =
    (record { worker_id = "worker"; lease_seconds = 60; retry_delay_seconds = 30; now = 100 }) ∷ []

settled_notification_stays_example : Holds "b" lost (turns host send calls (settled, 0)).0
settled_notification_stays_example =
    settled_notification_stays host send calls settled 0 "b" lost lost-Holds
