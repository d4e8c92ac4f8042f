-- ===== src/Governor/Runs.antt =====
-- usage_governor.py: any sequence of the governor's operations.
use local_first_orchestrator.Base.{
  ℕ, ◌+◌, ◌≤◌, ◌<◌, ◌&&◌, String, str_eq, ◌≡◌, refl, true, false, Option, List, [], ◌∷◌, Host, ok,
  err, permission_error, find_where, some, none, is_blank, arith,
}
use local_first_orchestrator.Ledger.{
  Ledger, Budget, PaidPurpose, ReservationStatus, unknown_outcome,
}
use local_first_orchestrator.Governor.Requests.{
  Reservation, purpose_eq, used, approved_calls, budget_of, limit_for, is_request, has_id,
}
use local_first_orchestrator.Governor.Authorize.{authorize, new_reservation}
use local_first_orchestrator.Governor.New.{
  authorize-reserved, used-reserved, approved-reserved, used_other-reserved, again-reserved,
}
use local_first_orchestrator.Governor.Settle.{Finish, finish, Rejection, reject}
use local_first_orchestrator.Governor.Approve.{approve}
use local_first_orchestrator.Governor.Budget.{IsSound, authorize-IsSound}
use local_first_orchestrator.Governor.Settling.{finish-IsSound, reject-IsSound, approve-IsSound}
use local_first_orchestrator.Governor.Ended.{HasEnded, is_final}
use local_first_orchestrator.Governor.Replay.{
  authorize-HasEnded, finish-HasEnded, reject-HasEnded, approve-HasEnded,
}

-- A call of the governor, with its arguments and the clock and identifier that it draws.
pub data Operation : Type 0 where
  authorizing : String → PaidPurpose → String → String → ℕ → Operation
  finishing : Finish → Reservation → Option String → ℕ → Operation
  rejecting : Reservation → Rejection → ℕ → Operation
  approving : String → PaidPurpose → String → String → String → ℕ → String → ℕ → Operation

abbrev pub perform : Host → Operation → Ledger → Ledger
perform host (authorizing f p key fresh now) db = (authorize f p key fresh now db).1
perform host (finishing e v reason now) db = (finish e v reason now db).1
perform host (rejecting v x now) db = (reject host v x now db).1
perform host (approving f p actor reason key calls fresh now) db =
    (approve f p actor reason key calls fresh now db).1

unfoldable pub perform_all : Host → List Operation → Ledger → Ledger
perform_all host [] db = db
perform_all host (op ∷ ops) db = perform_all host ops (perform host op db)

perform-IsSound :
    (host : Host) (op : Operation) (db : Ledger) → IsSound db → IsSound (perform host op db)
perform-IsSound host (authorizing f p key fresh now) db s = authorize-IsSound f p key fresh now db s
perform-IsSound host (finishing e v reason now) db s = finish-IsSound e v reason now db s
perform-IsSound host (rejecting v x now) db s = reject-IsSound host v x now db s
perform-IsSound host (approving f p actor reason key calls fresh now) db s =
    approve-IsSound f p actor reason key calls fresh now db s

pub perform_all-IsSound :
    (host : Host) (ops : List Operation) (db : Ledger)
    → IsSound db
    → IsSound (perform_all host ops db)
unfolding perform_all
perform_all-IsSound host [] db s = s
perform_all-IsSound host (op ∷ ops) db s =
    perform_all-IsSound host ops (perform host op db) (perform-IsSound host op db s)

-- From a ledger with distinct reservation ids and no budget overdrawn, after any calls of
-- `authorize`, `complete`, `release`, `unknown`, `provider_rejected` and `approve`, succeeding or
-- raising, no feature has more calls in flight, completed or of unknown outcome for a purpose than
-- the limit of its budget for the purpose and the calls approved for it together.
pub budget_respected :
    (host : Host) (ops : List Operation) (db : Ledger) (f : String) (p : PaidPurpose) (b : Budget)
    → IsSound db
    → budget_of f (perform_all host ops db) ≡ some b
    → used f p (perform_all host ops db)
      ≤ limit_for p b + approved_calls f p (perform_all host ops db)
budget_respected host ops db f p b s found = (perform_all-IsSound host ops db s).within f p b found

module _ (f : String) (p : PaidPurpose) (key : String) (st : ReservationStatus) where
  perform-HasEnded :
      (host : Host) (op : Operation) (db : Ledger)
      → IsSound db
      → is_final st ≡ true
      → HasEnded f p key st db
      → HasEnded f p key st (perform host op db)
  perform-HasEnded host (authorizing f' p' key' fresh now) db s fin h =
      authorize-HasEnded f p key st f' p' key' fresh now db fin h
  perform-HasEnded host (finishing e v reason now) db s fin h =
      finish-HasEnded f p key st e v reason now db s fin h
  perform-HasEnded host (rejecting v x now) db s fin h =
      reject-HasEnded f p key st host v x now db s fin h
  perform-HasEnded host (approving f' p' actor reason key' calls fresh now) db s fin h =
      approve-HasEnded f p key st f' p' actor reason key' calls fresh now db h

  -- A request whose call has completed, was released or has an unknown outcome keeps a reservation
  -- of that status through any later calls of the governor.
  pub ended_stays :
      (host : Host) (ops : List Operation) (db : Ledger)
      → IsSound db
      → is_final st ≡ true
      → HasEnded f p key st db
      → HasEnded f p key st (perform_all host ops db)
  unfolding perform_all
  ended_stays host [] db s fin h = h
  ended_stays host (op ∷ ops) db s fin h =
      ended_stays host ops (perform host op db) (perform-IsSound host op db s) fin
        (perform-HasEnded host op db s fin h)

authorize_unknown :
    (f : String) (p : PaidPurpose) (key fresh : String) (now : ℕ) (db : Ledger)
    → is_blank key ≡ false
    → HasEnded f p key unknown_outcome db
    → authorize f p key fresh now db
      ≡ (err (permission_error "paid invocation has unknown outcome and must not be repeated"), db)
unfolding authorize
authorize_unknown f p key fresh now db filled h = ground (arith, h.found, h.status)

-- Once the outcome of a call is unknown, its request is never authorized again: after any later calls
-- of the governor, `authorize` with the request's key raises `PermissionError` and changes nothing.
pub unknown_never_repeated :
    (host : Host) (ops : List Operation) (db : Ledger) (f : String) (p : PaidPurpose)
    (key fresh : String) (now : ℕ)
    → IsSound db
    → is_blank key ≡ false
    → HasEnded f p key unknown_outcome db
    → authorize f p key fresh now (perform_all host ops db) ≡ (
      err (permission_error "paid invocation has unknown outcome and must not be repeated"),
      perform_all host ops db,
    )
unknown_never_repeated host ops db f p key fresh now s filled h =
    authorize_unknown f p key fresh now (perform_all host ops db) filled
      (ended_stays f p key unknown_outcome host ops db s refl h)

-- A request without a reservation, under a key that is not blank, an unused identifier and a budget. If the calls
-- in flight, completed or of unknown outcome for the purpose have reached the budget's limit and the approved calls
-- together, `authorize` raises and the ledger is as before: the event `paid_budget_exhausted` is not kept. If they are
-- fewer, it returns a reservation of the request under the identifier; one row in flight is added to the
-- reservations and nothing but it and the events changes; the purpose has used one call more, which the limit and the
-- approved calls still allow, and no other purpose or feature has; and authorizing the same request again, at any time and
-- with any other identifier, returns the same reservation and changes nothing.
pub authorize_new_outcome :
    (f : String) (p : PaidPurpose) (key fresh again : String) (now later : ℕ) (b : Budget)
    (db : Ledger)
    → is_blank key ≡ false
    → find_where (is_request f p key) db.reservations ≡ none
    → find_where (has_id fresh) db.reservations ≡ none
    → budget_of f db ≡ some b
    → (let limit = limit_for p b + approved_calls f p db in
        let r = authorize f p key fresh now db in
        let v : Reservation = record {
          reservation_id = fresh;
          feature_id = f;
          purpose = p;
          request_key = key;
        } in
        (limit ≤ used f p db
          → r ≡ (err (permission_error "paid budget exhausted; needs_checkpoint"), db))
        × (used f p db < limit
            → (r.0 ≡ ok v)
              × (r.1 ≡ record db {
                reservations = new_reservation fresh f p key now ∷ db.reservations;
                events = r.1.events;
              })
              × (used f p r.1 ≡ used f p db + 1)
              × (used f p r.1 ≤ limit_for p b + approved_calls f p r.1)
              × ((g : String) (q : PaidPurpose)
                  → (str_eq f g && purpose_eq p q) ≡ false
                  → used g q r.1 ≡ used g q db)
              × (authorize f p key again later r.1 ≡ (ok v, r.1))))
unfolding authorize
authorize_new_outcome f p key fresh again now later b db filled absent new found =
    (λ full. ground arith, given)
  where
    given :
        used f p db < limit_for p b + approved_calls f p db
        → (let r = authorize f p key fresh now db in
            let v : Reservation = record {
              reservation_id = fresh;
              feature_id = f;
              purpose = p;
              request_key = key;
            } in
            (r.0 ≡ ok v)
            × (r.1 ≡ record db {
              reservations = new_reservation fresh f p key now ∷ db.reservations;
              events = r.1.events;
            })
            × (used f p r.1 ≡ used f p db + 1)
            × (used f p r.1 ≤ limit_for p b + approved_calls f p r.1)
            × ((g : String) (q : PaidPurpose)
                → (str_eq f g && purpose_eq p q) ≡ false
                → used g q r.1 ≡ used g q db)
            × (authorize f p key again later r.1 ≡ (ok v, r.1)))
    given less =
        let e = authorize-reserved f p key fresh now b db filled absent new found less in
        let more = used-reserved f p key fresh now db in
        let same = approved-reserved f p key fresh now db in
        rw e (
          refl,
          refl,
          more,
          omega arith,
          used_other-reserved f p key fresh now db,
          again-reserved f p key fresh now again later db filled,
        )
