-- ===== src/Governor/Replay.antt =====
-- usage_governor.py: through every operation, a call that completed, was released or has an unknown outcome stays so.
use local_first_orchestrator.Base.{
  ℕ, ◌+◌, String, ◌≡◌, refl, inl, inr, Bool, true, false, not, ◌&&◌, Option, none, some, arith,
  str_eq, is_blank, Bool-cases, find_where, transaction-keeps, Ensures, Ensures-ok, Ensures-err,
  Ensures-require, Ensures-if, Ensures-row, due, Ensures-bind, is_null, Ensures-require_first, Host,
  ◌==◌, coalesce, take_chars, if◌then◌else◌, pure, ◌>>◌,
}
use local_first_orchestrator.Ledger.{
  Ledger, PaidPurpose, ReservationStatus, PaidReservation, PaidApproval, Notification, in_flight,
  completed, released, unknown_outcome, provider_rejected, append_event,
}
use local_first_orchestrator.Governor.Requests.{
  Reservation, budget_of, is_request, has_id, is_exhausted, is_in_flight, is_provider_rejected,
  set_status, approves,
}
use local_first_orchestrator.Governor.Alerts.{
  Alert, enqueue_alert, alert_row, queue_alert, is_complete, has_authority, same_alert,
  mark_alerted,
}
use local_first_orchestrator.Governor.Authorize.{
  authorize_body, authorize_existing, authorize_new, retry_rejected, authorize,
}
use local_first_orchestrator.Governor.Settle.{
  Finish, finish, finish_body, finish_status, Rejection, record_rejection, reject_body, reject,
  rejected_reservation, or_now, wants_alert, alert_of, call_of,
}
use local_first_orchestrator.Governor.Approve.{approve, approve_body, approval_key}
use local_first_orchestrator.Governor.Budget.{IsSound}
use local_first_orchestrator.Governor.Ended.{
  HasEnded, HasEnded-frame, HasEnded-update, HasEnded-reserve, not_it, is_final,
}

module _ (f : String) (p : PaidPurpose) (key : String) (st : ReservationStatus) where
  abbrev Ended : Ledger → Type 0
  Ended = HasEnded f p key st

  pub retry_rejected-HasEnded :
      (r : PaidReservation) (f' : String) (p' : PaidPurpose) (key' : String) (now : ℕ) (db : Ledger)
      → is_final st ≡ true
      → Ended db
      → Ensures (λ _. Ended) (retry_rejected r f' p' key' now db)
  unfolding retry_rejected append_event
  retry_rejected-HasEnded r f' p' key' now db fin h =
      Ensures-require (coalesce r.provider_retryable false) _ _ _ λ _.
        Ensures-require (due r.provider_retry_after_at now) _ _ _ λ _.
          Ensures-row (budget_of f' db) _ _ _ (λ _. Ensures-err _)
            λ b _.
              Ensures-if (is_exhausted f' p' b db) _ _ _ (λ _. Ensures-err _)
                λ _. Ensures-ok (
                  HasEnded-frame f p key st _ _
                    (HasEnded-update f p key st
                      (λ x. has_id r.id x && is_provider_rejected x.status)
                      (set_status in_flight none now) db h (λ x. refl)
                      (inl (ground (arith, h.status))))
                    refl)

  pub authorize_existing-HasEnded :
      (status : ReservationStatus) (r : PaidReservation) (f' : String) (p' : PaidPurpose)
      (key' : String) (now : ℕ) (db : Ledger)
      → is_final st ≡ true
      → Ended db
      → Ensures (λ _. Ended) (authorize_existing status r f' p' key' now db)
  unfolding authorize_existing
  authorize_existing-HasEnded in_flight r f' p' key' now db fin h = Ensures-ok h
  authorize_existing-HasEnded completed r f' p' key' now db fin h = Ensures-ok h
  authorize_existing-HasEnded released r f' p' key' now db fin h = Ensures-err _
  authorize_existing-HasEnded unknown_outcome r f' p' key' now db fin h = Ensures-err _
  authorize_existing-HasEnded provider_rejected r f' p' key' now db fin h =
      retry_rejected-HasEnded r f' p' key' now db fin h

  pub authorize-HasEnded :
      (f' : String) (p' : PaidPurpose) (key' fresh : String) (now : ℕ) (db : Ledger)
      → is_final st ≡ true
      → Ended db
      → Ended (authorize f' p' key' fresh now db).1
  unfolding authorize authorize_body authorize_new append_event
  authorize-HasEnded f' p' key' fresh now db fin h =
      transaction-keeps Ended (authorize_body f' p' key' fresh now) db h (
        Ensures-require (not (is_blank key')) _ _ _ λ _.
          Ensures-row (find_where (is_request f' p' key') db.reservations) _ _ _
            (λ absent.
              Ensures-row (budget_of f' db) _ _ _ (λ _. Ensures-err _)
                λ b _.
                  Ensures-if (is_exhausted f' p' b db) _ _ _ (λ _. Ensures-err _)
                    λ _.
                      Ensures-require_first (is_null (find_where (has_id fresh) db.reservations)) _
                        _ _ _
                        λ _. Ensures-ok (
                          HasEnded-frame f p key st _ _
                            (HasEnded-reserve f p key st f' p' key' fresh now db h absent) refl))
            (λ r _. authorize_existing-HasEnded r.status r f' p' key' now db fin h))

  pub finish-HasEnded :
      (e : Finish) (v : Reservation) (reason : Option String) (now : ℕ) (db : Ledger)
      → IsSound db
      → is_final st ≡ true
      → Ended db
      → Ended (finish e v reason now db).1
  unfolding finish finish_body append_event
  finish-HasEnded e v reason now db s fin h =
      transaction-keeps Ended (finish_body e v reason now) db h (
        Ensures-row (find_where (has_id v.reservation_id) db.reservations) _ _ _
          (λ _. Ensures-err _)
          λ r it. Ensures-require (is_in_flight r.status) _ _ _ λ flying. Ensures-ok (
            HasEnded-frame f p key st _ _
              (HasEnded-update f p key st (has_id v.reservation_id)
                (set_status (finish_status e) reason now) db h (λ x. refl)
                (inl (not_it f p key st v.reservation_id r db h s fin it flying)))
              refl))

  pub queue_alert-HasEnded :
      (old : Option Notification) (row : Notification) (db : Ledger)
      → Ended db
      → Ensures (λ _. Ended) (queue_alert old row db)
  queue_alert-HasEnded none row db h = Ensures-ok (HasEnded-frame f p key st _ _ h refl)
  queue_alert-HasEnded (some old) row db h = elim (Bool-cases (same_alert old row)) [
    | inl same ↦ rw same (Ensures-ok h)
    | inr other ↦ rw other (Ensures-err _)
  ]

  pub enqueue_alert-HasEnded :
      (host : Host) (a : Alert) (now : ℕ) (db : Ledger)
      → Ended db
      → Ensures (λ _. Ended) (enqueue_alert host a now db)
  unfolding enqueue_alert append_event
  enqueue_alert-HasEnded host a now db h = Ensures-require (is_complete a) _ _ _ λ _.
      Ensures-require (has_authority a db) _ _ _ λ _.
        let row = alert_row host a now in
        let old =
          find_where (λ (n : Notification). str_eq n.operation_id row.operation_id)
            db.notifications in
        Ensures-bind (queue_alert old row db) _ (queue_alert-HasEnded old row db h) λ _ db' h'.
          Ensures-ok (
            HasEnded-frame f p key st _ _
              (HasEnded-update f p key st (has_id a.reservation_id) (mark_alerted now) db' h'
                (λ x. refl) (inr refl))
              refl)

  after_alert :
      (b : Bool) (host : Host) (a : Alert) (now n : ℕ) (db : Ledger)
      → Ended db
      → Ensures (λ _. Ended) (((if b then enqueue_alert host a now else pure tt) >> pure n) db)
  after_alert b host a now n db h =
      Ensures-bind ((if b then enqueue_alert host a now else pure tt) db) _
        (Ensures-if b _ _ _ (λ _. enqueue_alert-HasEnded host a now db h) (λ _. Ensures-ok h))
        (λ _ _ h'. Ensures-ok h')

  pub record_rejection-HasEnded :
      (host : Host) (r : PaidReservation) (v : Reservation) (x : Rejection) (now : ℕ) (db : Ledger)
      (h : Ended db)
      → has_id v.reservation_id h.row ≡ false
      → Ensures (λ _. Ended) (record_rejection host r v x now db)
  unfolding record_rejection append_event
  record_rejection-HasEnded host r v x now db h other =
      let n = r.provider_failure_count + 1 in
      let detail = take_chars 2000 (host.redact_error x.detail) in
      let g = rejected_reservation x detail n (or_now r.provider_first_failure_at now) now in
      let h' =
        HasEnded-update f p key st (has_id v.reservation_id) g db h (λ y. refl) (inl other) in
      after_alert (wants_alert x r n) host (alert_of x v n) now n _
        (HasEnded-frame f p key st _ _ h' refl)

  pub reject-HasEnded :
      (host : Host) (v : Reservation) (x : Rejection) (now : ℕ) (db : Ledger)
      → IsSound db
      → is_final st ≡ true
      → Ended db
      → Ended (reject host v x now db).1
  unfolding reject reject_body
  reject-HasEnded host v x now db s fin h =
      transaction-keeps Ended (reject_body host v x now) db h (
        Ensures-row (find_where (has_id v.reservation_id) db.reservations) _ _ _
          (λ _. Ensures-err _)
          λ r it. Ensures-require (is_in_flight r.status) _ _ _ λ flying.
            Ensures-row (find_where (call_of x.model_call_id v.reservation_id) db.model_calls) _ _ _
              (λ _. Ensures-err _)
              λ c _. Ensures-require (is_in_flight c.status) _ _ _ λ _.
                record_rejection-HasEnded host r v x now db h
                  (not_it f p key st v.reservation_id r db h s fin it flying))

  pub approve-HasEnded :
      (f' : String) (p' : PaidPurpose) (actor reason key' : String) (calls : ℕ) (fresh : String)
      (now : ℕ) (db : Ledger)
      → Ended db
      → Ended (approve f' p' actor reason key' calls fresh now db).1
  unfolding approve approve_body append_event
  approve-HasEnded f' p' actor reason key' calls fresh now db h =
      transaction-keeps Ended (approve_body f' p' actor reason key' calls fresh now) db h (
        Ensures-require (calls == 1 && not (is_blank reason) && not (is_blank key')) _ _ _ λ _.
          Ensures-row (find_where (approval_key key') db.approvals) _ _ _
            (λ _.
              Ensures-require_first
                (is_null (find_where (λ (a : PaidApproval). str_eq a.id fresh) db.approvals)) _ _ _
                _ (λ _. Ensures-ok (HasEnded-frame f p key st _ _ h refl)))
            (λ a _. Ensures-require (approves f' p' a) _ _ _ (λ _. Ensures-ok h)))
