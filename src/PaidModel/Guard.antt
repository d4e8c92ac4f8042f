-- ===== src/PaidModel/Guard.antt =====
-- local_first_orchestrator/paid_model.py: when the provider may be reached, and what a lost answer does.
use mathlib.Core.List.{Mem, mem-cons_self, mem-cons_of_mem}
use local_first_orchestrator.Base.{
  arith, List, [], ◌∷◌, eq_iff, is_null→none, ℕ, String, ◌≡◌, ◌⊎◌, inl, inr, refl, Bool, true,
  false, Option-cases, none, some, Result, ok, err, Error, find_where, count_where, Host, is_null,
  if◌then◌else◌, Bool-cases, ◌==◌, str_eq,
}
use local_first_orchestrator.Ledger.{
  Ledger, PaidPurpose, ModelCall, ReservationStatus, in_flight, completed, released,
  unknown_outcome, provider_rejected,
}
use local_first_orchestrator.Governor.Requests.{Reservation}
use local_first_orchestrator.Governor.Authorize.{authorize}
use local_first_orchestrator.Governor.Settle.{finish, complete, unknown, reject}
use local_first_orchestrator.PaidModel.Invoke.{
  Packet, RunnerOutcome, proposed, rejection, ambiguous, Route, Outcome, for_reservation, give_up,
  conclude, run, resume, begin, dispatch, invoke, is_retryable_call, collides,
}

-- Both branches after a ledger operation leave the provider as it is.
same_board :
    {A B : Type 0} (r : Result A) (d : Error → Ledger) (x : A → Result String) (y : A → Ledger)
    (board : B)
    → (elim r as (λ _. Outcome B) [ err e ↦ (err e, d e, board) | ok a ↦ (x a, y a, board) ]).2
      ≡ board
same_board (ok a) d x y board = refl
same_board (err e) d x y board = refl

give_up-board :
    {B : Type 0} (v : Reservation) (reason : String) (which : ModelCall → Bool) (now : ℕ)
    (db : Ledger) (board : B)
    → (give_up v reason which now db board).2 ≡ board
unfolding give_up
give_up-board v reason which now db board =
    same_board (finish unknown v (some reason) now db).0 _ _ _ board

no_collision :
    (id reservation : String) (calls : List ModelCall)
    → find_where (collides id reservation) calls ≡ none
    → find_where (for_reservation reservation) calls ≡ none
unfolding find_where
no_collision id reservation [] h = refl
no_collision id reservation (c ∷ cs) h = ground (arith, no_collision id reservation cs)

-- A call of the table that the provider has rejected
abbrev pub IsRejected : String → List ModelCall → Type 0
IsRejected id calls = (d : ModelCall) × Mem d calls × (d.id ≡ id) × (d.status ≡ provider_rejected)

IsRejected-row :
    (id : String) (calls : List ModelCall)
    → count_where (is_retryable_call id) calls ≡ 1
    → IsRejected id calls
unfolding count_where
IsRejected-row id [] h = absurd (omega arith)
IsRejected-row id (c ∷ cs) h = elim (Bool-cases (is_retryable_call id c)) [
  | inl e ↦
      let same : str_eq c.id id ≡ true = ground arith in
      (c, mem-cons_self, (eq_iff c.id id).0 same, ground arith)
  | inr e ↦
      let (d, m, i, st) = IsRejected-row id cs (ground arith) in (d, mem-cons_of_mem c m, i, st)
]

module _ {B : Type 0} (host : Host) (route : Route) (runner : Packet → B → RunnerOutcome × B)
    (key : String) (packet : Packet) (now : ℕ) where
  conclude-board :
      (v : Reservation) (call_id : String) (o : RunnerOutcome) (db : Ledger) (board : B)
      → (conclude host route runner key packet now v call_id o db board).2 ≡ board
  unfolding conclude
  conclude-board v call_id (proposed response) db board =
      same_board (finish complete v none now db).0 _ _ _ board
  conclude-board v call_id (rejection kind detail seconds retryable) db board =
      same_board (reject host v _ now db).0 _ _ _ board
  conclude-board v call_id (ambiguous name) db board = give_up-board v _ _ now db board

  run-board :
      (v : Reservation) (call_id : String) (db : Ledger) (board : B)
      → (run host route runner key packet now v call_id db board).2 ≡ (runner packet board).1
  unfolding run
  run-board v call_id db board =
      conclude-board v call_id (runner packet board).0 db (runner packet board).1

  -- The provider is as it was, or was reached once.
  abbrev Reached : B → B → Type 0
  Reached board board' = (board' ≡ board) ⊎ (board' ≡ (runner packet board).1)

  if-Reached :
      (b : Bool) (x y : Outcome B) (board : B)
      → Reached board x.2
      → Reached board y.2
      → Reached board (if b then x else y).2
  if-Reached true x y board hx hy = hx
  if-Reached false x y board hx hy = hy

  -- A recorded call lets the provider be reached only where it is one that the provider has rejected, and is so
  -- when it is claimed again.
  resume-board :
      (v : Reservation) (c : ModelCall) (st : ReservationStatus) (meanwhile : Ledger → Ledger)
      (db : Ledger) (board : B)
      → ((resume host route runner key packet now v c st meanwhile db board).2 ≡ board)
        ⊎ ((st ≡ provider_rejected)
            × (count_where (is_retryable_call c.id) (meanwhile db).model_calls ≡ 1)
            × ((resume host route runner key packet now v c st meanwhile db board).2
                ≡ (runner packet board).1))
  unfolding resume
  resume-board v c completed meanwhile db board = elim (Option-cases c.response_artifact) [
    | inl e ↦ inl (rw e refl)
    | inr (response, e) ↦ elim (Bool-cases (str_eq response "")) [
      | inl f ↦ inl (rw e (rw f refl))
      | inr f ↦ inl (rw e (rw f refl))
    ]
  ]
  resume-board v c provider_rejected meanwhile db board =
      elim (Bool-cases (count_where (is_retryable_call c.id) (meanwhile db).model_calls == 1)) [
        | inl e ↦ inr (refl, ground arith, rw e (run-board v c.id _ board))
        | inr e ↦ inl (rw e refl)
      ]
  resume-board v c in_flight meanwhile db board = inl (give_up-board v _ _ now db board)
  resume-board v c unknown_outcome meanwhile db board = inl refl
  resume-board v c released meanwhile db board = inl refl

  -- What allows the provider to be reached. Either the reservation has no call when the ledger is read, and still
  -- none when the call is inserted, after what other processes commit in between; or it has a call that the provider
  -- has rejected, and the table then still holds the call with this status.
  abbrev pub IsFree : Reservation → (Ledger → Ledger) → Ledger → Type 0
  IsFree v meanwhile db =
      ((find_where (for_reservation v.reservation_id) db.model_calls ≡ none)
        × (find_where (for_reservation v.reservation_id) (meanwhile db).model_calls ≡ none))
      ⊎ ((c : ModelCall) × (find_where (for_reservation v.reservation_id) db.model_calls ≡ some c)
          × (c.status ≡ provider_rejected)
          × IsRejected c.id (meanwhile db).model_calls)

  dispatch-board :
      (feature : String) (purpose : PaidPurpose) (call_id : String) (meanwhile : Ledger → Ledger)
      (r : Result Reservation) (db : Ledger) (board : B)
      → (let board' =
            (dispatch host route runner key packet now feature purpose call_id meanwhile r db
              board).2 in
          (board' ≡ board)
          ⊎ ((v : Reservation) × (r ≡ ok v)
              × IsFree v meanwhile db
              × (board' ≡ (runner packet board).1)))
  unfolding dispatch begin
  dispatch-board feature purpose call_id meanwhile (err e) db board = inl refl
  dispatch-board feature purpose call_id meanwhile (ok v) db board =
      elim (Option-cases (find_where (for_reservation v.reservation_id) db.model_calls)) [
        | inr (c, e) ↦ elim (resume-board v c c.status meanwhile db board) [
          | inl same ↦ inl (rw (dispatch, e) same)
          | inr (st, one, told) ↦ inr (
            v,
            refl,
            inr (c, e, st, IsRejected-row c.id (meanwhile db).model_calls one),
            rw (dispatch, e) told,
          )
        ]
        | inl e ↦
            let db' = meanwhile db in
            elim (Bool-cases
              (is_null (find_where (collides call_id v.reservation_id) db'.model_calls))) [
                | inl f ↦ inr (
                  v,
                  refl,
                  inl (e, no_collision call_id v.reservation_id db'.model_calls (is_null→none _ f)),
                  rw (dispatch, e) (rw (begin, f) (run-board v call_id _ board)),
                )
                | inr f ↦ inl (rw (dispatch, e) (rw (begin, f) (give_up-board v _ _ now db' board)))
              ]
      ]

  -- A call of `invoke` reaches the provider once at most, and only where `authorize` has returned a
  -- reservation and one of two things holds. The reservation has no call when the ledger is read, and still none
  -- after what other processes commit before the call is inserted (`meanwhile`). Or it has a call that the provider has
  -- rejected, and after what they commit before it is claimed again the table still holds that call as rejected.
  pub provider_reached_only_if_IsFree :
      (feature : String) (purpose : PaidPurpose) (reservation_id call_id : String)
      (meanwhile : Ledger → Ledger) (db : Ledger) (board : B)
      → (let board' =
            (invoke host route runner key packet now feature purpose reservation_id call_id
              meanwhile db board).2 in
          (board' ≡ board)
          ⊎ ((v : Reservation) × ((authorize feature purpose key reservation_id now db).0 ≡ ok v)
              × IsFree v meanwhile (authorize feature purpose key reservation_id now db).1
              × (board' ≡ (runner packet board).1)))
  unfolding invoke
  provider_reached_only_if_IsFree feature purpose reservation_id call_id meanwhile db board =
      let a = authorize feature purpose key reservation_id now db in
      dispatch-board feature purpose call_id meanwhile a.0 a.1 board
