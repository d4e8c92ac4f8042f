-- ===== src/Governor/Settling.antt =====
-- usage_governor.py: ending a reservation, rejecting it and approving calls keep the budget.
use local_first_orchestrator.Base.{
  ℕ, ◌+◌, ◌≤◌, String, ◌≡◌, refl, inl, inr, Bool, true, not, ◌&&◌, Option, none, some, ◌∷◌, arith,
  str_eq, is_blank, Bool-cases, find_where, count_where, sum_where, count_where-update_where,
  count_where-keep, to_nat, transaction-keeps, Ensures, Ensures-ok, Ensures-err, Ensures-require,
  Ensures-if, Ensures-row, Ensures-bind, is_null, Ensures-require_first, Host, ◌==◌, take_chars,
  if◌then◌else◌, pure, ◌>>◌,
}
use local_first_orchestrator.Ledger.{
  Ledger, PaidPurpose, PaidReservation, PaidApproval, Notification, append_event,
}
use local_first_orchestrator.Governor.Requests.{
  Reservation, used, approved_calls, spends, for_purpose, has_id, is_in_flight, set_status,
  update_reservation, approves,
}
use local_first_orchestrator.Governor.Alerts.{
  Alert, enqueue_alert, alert_row, queue_alert, is_complete, has_authority, same_alert,
  mark_alerted,
}
use local_first_orchestrator.Governor.Settle.{
  Finish, finish, finish_body, finish_status, Rejection, record_rejection, reject_body, reject,
  rejected_reservation, or_now, wants_alert, alert_of, call_of,
}
use local_first_orchestrator.Governor.Approve.{approve, approve_body, new_approval, approval_key}
use local_first_orchestrator.Governor.Budget.{IsSound, IsSound-frame}

-- An update of one reservation that spends no more than before.
lower-IsSound :
    (q : PaidReservation → Bool) (g : PaidReservation → PaidReservation) (r : PaidReservation)
    (db : Ledger)
    → IsSound db
    → count_where q db.reservations ≤ 1
    → find_where q db.reservations ≡ some r
    → ((i : String) (x : PaidReservation) → has_id i (g x) ≡ has_id i x)
    → ((f : String) (p : PaidPurpose) → to_nat (spends f p (g r)) ≤ to_nat (spends f p r))
    → IsSound (update_reservation q g db)
unfolding used approved_calls
lower-IsSound q g r db s once it same less = record {
  ids = λ i. rw (count_where-keep q g (has_id i) db.reservations (same i)) (s.ids i);
  within = λ f p b found. omega (
    arith,
    count_where-update_where q g (spends f p) db.reservations once it,
    less f p,
    s.within f p b found,
  );
}

in_flight_spends :
    (f : String) (p : PaidPurpose) (r : PaidReservation) (b : Bool)
    → is_in_flight r.status ≡ true
    → to_nat (for_purpose f p r && b) ≤ to_nat (spends f p r)
in_flight_spends f p r b h = ground arith

finish_body-IsSound :
    (e : Finish) (v : Reservation) (reason : Option String) (now : ℕ) (db : Ledger)
    → IsSound db
    → Ensures (λ _. IsSound) (finish_body e v reason now db)
unfolding finish_body append_event
finish_body-IsSound e v reason now db s =
    Ensures-row (find_where (has_id v.reservation_id) db.reservations) _ _ _ (λ _. Ensures-err _)
      λ r it. Ensures-require (is_in_flight r.status) _ _ _ λ flying. Ensures-ok (
        IsSound-frame _ _
          (lower-IsSound (has_id v.reservation_id) (set_status (finish_status e) reason now) r db s
            (s.ids v.reservation_id) it (λ i x. refl) (λ f p. in_flight_spends f p r _ flying))
          refl refl refl)

-- Ending a reservation (`complete`, `release`, `unknown`) keeps reservation ids distinct and every
-- budget respected, also where it raises.
pub finish-IsSound :
    (e : Finish) (v : Reservation) (reason : Option String) (now : ℕ) (db : Ledger)
    → IsSound db
    → IsSound (finish e v reason now db).1
unfolding finish
finish-IsSound e v reason now db s =
    transaction-keeps IsSound (finish_body e v reason now) db s
      (finish_body-IsSound e v reason now db s)

-- An update that changes neither ids nor what is spent.
keep-IsSound :
    (q : PaidReservation → Bool) (g : PaidReservation → PaidReservation) (db : Ledger)
    → IsSound db
    → ((i : String) (x : PaidReservation) → has_id i (g x) ≡ has_id i x)
    → ((f : String) (p : PaidPurpose) (x : PaidReservation) → spends f p (g x) ≡ spends f p x)
    → IsSound (update_reservation q g db)
unfolding used approved_calls
keep-IsSound q g db s same keep = record {
  ids = λ i. rw (count_where-keep q g (has_id i) db.reservations (same i)) (s.ids i);
  within = λ f p b found.
      rw (count_where-keep q g (spends f p) db.reservations (keep f p)) (s.within f p b found);
}

queue_alert-IsSound :
    (old : Option Notification) (row : Notification) (db : Ledger)
    → IsSound db
    → Ensures (λ _. IsSound) (queue_alert old row db)
queue_alert-IsSound none row db s = Ensures-ok (IsSound-frame _ _ s refl refl refl)
queue_alert-IsSound (some old) row db s = elim (Bool-cases (same_alert old row)) [
  | inl same ↦ rw same (Ensures-ok s)
  | inr other ↦ rw other (Ensures-err _)
]

enqueue_alert-IsSound :
    (host : Host) (a : Alert) (now : ℕ) (db : Ledger)
    → IsSound db
    → Ensures (λ _. IsSound) (enqueue_alert host a now db)
unfolding enqueue_alert append_event
enqueue_alert-IsSound host a now db s = Ensures-require (is_complete a) _ _ _ λ _.
    Ensures-require (has_authority a db) _ _ _ λ _.
      let row = alert_row host a now in
      let old =
        find_where (λ (n : Notification). str_eq n.operation_id row.operation_id)
          db.notifications in
      Ensures-bind (queue_alert old row db) _ (queue_alert-IsSound old row db s) λ _ db' s'.
        Ensures-ok (
          IsSound-frame _ _
            (keep-IsSound (has_id a.reservation_id) (mark_alerted now) db' s' (λ i x. refl)
              (λ f p x. refl))
            refl refl refl)

rejected_lower :
    (x : Rejection) (d : String) (n t now : ℕ) (r : PaidReservation) (f : String) (p : PaidPurpose)
    → to_nat (spends f p (rejected_reservation x d n t now r)) ≤ to_nat (spends f p r)
rejected_lower x d n t now r f p = ground arith

after_alert :
    (b : Bool) (host : Host) (a : Alert) (now n : ℕ) (db : Ledger)
    → IsSound db
    → Ensures (λ _. IsSound) (((if b then enqueue_alert host a now else pure tt) >> pure n) db)
after_alert b host a now n db s =
    Ensures-bind ((if b then enqueue_alert host a now else pure tt) db) _
      (Ensures-if b _ _ _ (λ _. enqueue_alert-IsSound host a now db s) (λ _. Ensures-ok s))
      (λ _ _ s'. Ensures-ok s')

record_rejection-IsSound :
    (host : Host) (r : PaidReservation) (v : Reservation) (x : Rejection) (now : ℕ) (db : Ledger)
    → IsSound db
    → find_where (has_id v.reservation_id) db.reservations ≡ some r
    → Ensures (λ _. IsSound) (record_rejection host r v x now db)
unfolding record_rejection append_event
record_rejection-IsSound host r v x now db s it =
    let n = r.provider_failure_count + 1 in
    let detail = take_chars 2000 (host.redact_error x.detail) in
    let g = rejected_reservation x detail n (or_now r.provider_first_failure_at now) now in
    let s' =
      lower-IsSound (has_id v.reservation_id) g r db s (s.ids v.reservation_id) it (λ i y. refl)
        (rejected_lower x detail n (or_now r.provider_first_failure_at now) now r) in
    after_alert (wants_alert x r n) host (alert_of x v n) now n _
      (IsSound-frame _ _ s' refl refl refl)

reject_body-IsSound :
    (host : Host) (v : Reservation) (x : Rejection) (now : ℕ) (db : Ledger)
    → IsSound db
    → Ensures (λ _. IsSound) (reject_body host v x now db)
unfolding reject_body
reject_body-IsSound host v x now db s =
    Ensures-row (find_where (has_id v.reservation_id) db.reservations) _ _ _ (λ _. Ensures-err _)
      λ r it. Ensures-require (is_in_flight r.status) _ _ _ λ _.
        Ensures-row (find_where (call_of x.model_call_id v.reservation_id) db.model_calls) _ _ _
          (λ _. Ensures-err _)
          λ c _.
            Ensures-require (is_in_flight c.status) _ _ _
              (λ _. record_rejection-IsSound host r v x now db s it)

-- Recording that the provider rejected a call (`provider_rejected`, with its alert) keeps reservation
-- ids distinct and every budget respected, also where it raises.
pub reject-IsSound :
    (host : Host) (v : Reservation) (x : Rejection) (now : ℕ) (db : Ledger)
    → IsSound db
    → IsSound (reject host v x now db).1
unfolding reject
reject-IsSound host v x now db s =
    transaction-keeps IsSound (reject_body host v x now) db s
      (reject_body-IsSound host v x now db s)

approval-IsSound :
    (a : PaidApproval) (db : Ledger)
    → IsSound db
    → IsSound (record db { approvals = a ∷ db.approvals })
unfolding used approved_calls sum_where
approval-IsSound a db s = record {
  ids = s.ids;
  within = λ f p b found. omega (arith, s.within f p b found);
}

approve_body-IsSound :
    (f : String) (p : PaidPurpose) (actor reason key : String) (calls : ℕ) (fresh : String)
    (now : ℕ) (db : Ledger)
    → IsSound db
    → Ensures (λ _. IsSound) (approve_body f p actor reason key calls fresh now db)
unfolding approve_body append_event
approve_body-IsSound f p actor reason key calls fresh now db s =
    Ensures-require (calls == 1 && not (is_blank reason) && not (is_blank key)) _ _ _ λ _.
      Ensures-row (find_where (approval_key key) db.approvals) _ _ _
        (λ _.
          Ensures-require_first
            (is_null (find_where (λ (a : PaidApproval). str_eq a.id fresh) db.approvals)) _ _ _ _
            λ _. Ensures-ok (
              IsSound-frame _ _
                (approval-IsSound (new_approval fresh f p actor reason key calls now) db s) refl
                refl refl))
        (λ a _. Ensures-require (approves f p a) _ _ _ (λ _. Ensures-ok s))

-- Approving calls keeps reservation ids distinct and every budget respected, also where it raises.
pub approve-IsSound :
    (f : String) (p : PaidPurpose) (actor reason key : String) (calls : ℕ) (fresh : String)
    (now : ℕ) (db : Ledger)
    → IsSound db
    → IsSound (approve f p actor reason key calls fresh now db).1
unfolding approve
approve-IsSound f p actor reason key calls fresh now db s =
    transaction-keeps IsSound (approve_body f p actor reason key calls fresh now) db s
      (approve_body-IsSound f p actor reason key calls fresh now db s)
