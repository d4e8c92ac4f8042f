-- ===== src/PaidModel/Lost.antt =====
-- local_first_orchestrator/paid_model.py: a process that is lost after the governor has completed a
-- reservation and before the response is stored.
use local_first_orchestrator.Base.{
  ℕ, ◌≤◌, String, ◌≡◌, ap, false, Option, some, ok, err, value_error, find_where, find_where_unique,
  count_where, Host, is_blank, arith, eq_refl,
}
use local_first_orchestrator.Ledger.{
  Ledger, PaidPurpose, PaidReservation, ModelCall, in_flight, completed,
}
use local_first_orchestrator.Governor.Requests.{Reservation, has_id, is_request}
use local_first_orchestrator.Governor.Authorize.{authorize, reservation_of}
use local_first_orchestrator.Governor.Settle.{finish, unknown}
use local_first_orchestrator.PaidModel.Invoke.{
  Packet, RunnerOutcome, Route, for_reservation, give_up, resume, dispatch, invoke,
}

authorize_completed :
    (f : String) (p : PaidPurpose) (key fresh : String) (now : ℕ) (r : PaidReservation)
    (db : Ledger)
    → is_blank key ≡ false
    → find_where (is_request f p key) db.reservations ≡ some r
    → r.status ≡ completed
    → authorize f p key fresh now db ≡ (ok (reservation_of r.id f p key), db)
unfolding authorize
authorize_completed f p key fresh now r db filled found st = ground (arith, found, st)

finish_completed :
    (v : Reservation) (reason : Option String) (now : ℕ) (r : PaidReservation) (db : Ledger)
    → find_where (has_id v.reservation_id) db.reservations ≡ some r
    → r.status ≡ completed
    → finish unknown v reason now db ≡ (err (value_error "reservation is not in flight"), db)
unfolding finish
finish_completed v reason now r db found st = ground (arith, found, st)

-- Where the request's reservation has completed and its call is still in flight, which is what a process
-- leaves that is lost between the two, `invoke` raises `ValueError`, and not `PaidInvocationError`, and
-- changes nothing, so that every later call does the same; the provider is not reached.
pub lost_response_raises :
    {B : Type 0} (host : Host) (route : Route) (runner : Packet → B → RunnerOutcome × B)
    (key : String) (packet : Packet) (now : ℕ) (feature : String) (purpose : PaidPurpose)
    (reservation_id call_id : String) (meanwhile : Ledger → Ledger) (r : PaidReservation)
    (c : ModelCall) (db : Ledger) (board : B)
    → is_blank key ≡ false
    → find_where (is_request feature purpose key) db.reservations ≡ some r
    → count_where (has_id r.id) db.reservations ≤ 1
    → r.status ≡ completed
    → find_where (for_reservation r.id) db.model_calls ≡ some c
    → c.status ≡ in_flight
    → invoke host route runner key packet now feature purpose reservation_id call_id meanwhile db
        board
      ≡ (err (value_error "reservation is not in flight"), db, board)
unfolding invoke dispatch resume give_up
lost_response_raises host route runner key packet now feature purpose reservation_id call_id
      meanwhile r c db board filled found one st call going =
    let own =
      find_where_unique (is_request feature purpose key) (has_id r.id) db.reservations found
        (eq_refl r.id) one in
    let v = reservation_of r.id feature purpose key in
    let lost = finish_completed v (some "recovered in-flight model call") now r db own st in
    rw (authorize_completed feature purpose key reservation_id now r db filled found st) (
      rw (dispatch, call)
        (rw (going, resume, give_up, lost)
          (ap (λ x. (err (value_error "reservation is not in flight"), x.1, board)) lost)))
