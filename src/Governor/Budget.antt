-- ===== src/Governor/Budget.antt =====
-- usage_governor.py: the budget holds through every operation.
use local_first_orchestrator.Base.{
  ℕ, ◌+◌, ◌≤◌, String, ◌≡◌, ◌∙◌, refl, ap, sym, inl, inr, Bool, true, false, not, ◌&&◌, none, some,
  ◌∷◌, arith, eq_iff, str_eq, is_blank, Bool-cases, leb→lt, eq_refl, is_null, is_null→none,
  Ensures-require_first, &&-true, find_where, count_where, count_where-update_where,
  count_where-keep, find_where-some, count_where-find_none, find_where_unique, count_where-and,
  to_nat, transaction-keeps, Ensures, Ensures-ok, Ensures-err, Ensures-require, Ensures-if,
  Ensures-row, due, coalesce,
}
use native.Mathlib.Nat.{le_trans}
use local_first_orchestrator.Ledger.{
  Ledger, Budget, PaidPurpose, ReservationStatus, PaidReservation, in_flight, completed, released,
  unknown_outcome, provider_rejected, append_event,
}
use local_first_orchestrator.Governor.Requests.{
  used, approved_calls, budget_of, limit_for, spends, for_purpose, is_request, has_id, purpose_eq,
  is_exhausted, is_provider_rejected, set_status, update_reservation,
}
use local_first_orchestrator.Governor.Authorize.{
  authorize_body, authorize_existing, authorize_new, retry_rejected, authorize, new_reservation,
}

-- Reservations have different ids, and no feature has more calls under way or spent for a purpose
-- than its budget and the approvals for that purpose allow.
pub record IsSound (db : Ledger) : Type 0 where
  pub ids : (i : String) → count_where (has_id i) db.reservations ≤ 1
  pub within :
      (f : String) (p : PaidPurpose) (b : Budget)
      → budget_of f db ≡ some b
      → used f p db ≤ limit_for p b + approved_calls f p db

pub purpose_eq→eq : (p q : PaidPurpose) → purpose_eq p q ≡ true → p ≡ q
purpose_eq→eq p q h = ground arith

-- A row that spends for `f` and `p` and was made for `f'` and `p'` identifies the two.
spends_for :
    (f f' : String) (p p' : PaidPurpose) (r : PaidReservation)
    → for_purpose f p r ≡ true
    → for_purpose f' p' r ≡ true
    → (f ≡ f') × (p ≡ p')
spends_for f f' p p' r h h' = ground (
  arith,
  eq_iff r.feature_id f,
  eq_iff r.feature_id f',
  purpose_eq→eq r.purpose p,
  purpose_eq→eq r.purpose p',
)

-- Only the three tables matter.
pub IsSound-frame :
    (db d : Ledger)
    → IsSound db
    → d.reservations ≡ db.reservations
    → d.budgets ≡ db.budgets
    → d.approvals ≡ db.approvals
    → IsSound d
unfolding used approved_calls
IsSound-frame db d s rs bs as' = record {
  ids = λ i. rw rs (s.ids i);
  within = λ f p b found. rw (rs, as') (s.within f p b (rw bs at found));
}

-- One more reservation fits where the budget is not exhausted.
module _ (f : String) (p : PaidPurpose) (b : Budget) (db : Ledger) (s : IsSound db) where
  room :
      budget_of f db ≡ some b
      → is_exhausted f p b db ≡ false
      → (g : String) (q : PaidPurpose) (c : Budget) → budget_of g db ≡ some c
      → (r : PaidReservation) → for_purpose f p r ≡ true
      → used g q db + to_nat (spends g q r) ≤ limit_for q c + approved_calls g q db
  room found free g q c found' r own = elim (Bool-cases (spends g q r)) [
    | inr free' ↦ rw free' (omega (arith, s.within g q c found'))
    | inl spent ↦
        let same = spends_for g f q p r (&&-true _ _ spent).0 own in
        let one : some c ≡ some b = sym found' ∙ ap (λ x. budget_of x db) same.0 ∙ found in
        let c_eq : c ≡ b = cc in rw (spent, same.0, same.1, c_eq) (omega (arith, leb→lt _ _ free))
  ]

reserve-IsSound :
    (f : String) (p : PaidPurpose) (key id : String) (now : ℕ) (b : Budget) (db : Ledger)
    → IsSound db
    → budget_of f db ≡ some b
    → is_exhausted f p b db ≡ false
    → find_where (has_id id) db.reservations ≡ none
    → IsSound (record db { reservations = new_reservation id f p key now ∷ db.reservations })
unfolding count_where used approved_calls
reserve-IsSound f p key id now b db s found free fresh = record {
  ids = λ i. elim (Bool-cases (str_eq id i)) [
    | inl same ↦ rw same (
        omega (
          arith,
          count_where-find_none (has_id i) db.reservations (rw (← (eq_iff id i).0 same) fresh),
        ))
    | inr other ↦ rw other (omega (arith, s.ids i))
  ];
  within = λ g q c found'.
      let row = new_reservation id f p key now in
      let own : for_purpose f p row ≡ true = ground (arith, eq_iff f f) in
      omega (arith, room f p b db s found free g q c found' row own);
}

retry-IsSound :
    (f : String) (p : PaidPurpose) (key : String) (now : ℕ) (r : PaidReservation) (b : Budget)
    (db : Ledger)
    → IsSound db
    → budget_of f db ≡ some b
    → is_exhausted f p b db ≡ false
    → find_where (is_request f p key) db.reservations ≡ some r
    → r.status ≡ provider_rejected
    → IsSound (
        update_reservation
          (λ x. has_id r.id x && is_provider_rejected x.status)
          (set_status in_flight none now)
          db)
unfolding used approved_calls
retry-IsSound f p key now r b db s found free at_key status = record {
  ids = λ i. rw (count_where-keep q g (has_id i) db.reservations (λ x. refl)) (s.ids i);
  within = λ h w c found'.
      let own : for_purpose f p r ≡ true =
        (&&-true _ _ (find_where-some (is_request f p key) db.reservations at_key)).0 in
      let once : count_where q db.reservations ≤ 1 =
        le_trans
          (count_where-and (has_id r.id) (λ x. is_provider_rejected x.status) db.reservations)
          (s.ids r.id) in
      let meets : q r ≡ true = rw (status, eq_refl r.id) in
      let it = find_where_unique (is_request f p key) q db.reservations at_key meets once in
      omega (
        arith,
        count_where-update_where q g (spends h w) db.reservations once it,
        room f p b db s found free h w c found' (g r) own,
      );
}
  where
    q : PaidReservation → Bool
    q x = has_id r.id x && is_provider_rejected x.status

    g : PaidReservation → PaidReservation
    g = set_status in_flight none now

retry_rejected-IsSound :
    (r : PaidReservation) (f : String) (p : PaidPurpose) (key : String) (now : ℕ) (db : Ledger)
    → IsSound db
    → find_where (is_request f p key) db.reservations ≡ some r
    → r.status ≡ provider_rejected
    → Ensures (λ _. IsSound) (retry_rejected r f p key now db)
unfolding retry_rejected append_event
retry_rejected-IsSound r f p key now db s at_key status =
    Ensures-require (coalesce r.provider_retryable false) _ _ _ λ _.
      Ensures-require (due r.provider_retry_after_at now) _ _ _ λ _.
        Ensures-row (budget_of f db) _ _ _ (λ _. Ensures-err _)
          λ b found.
            Ensures-if (is_exhausted f p b db) _ _ _ (λ _. Ensures-err _)
              λ free. Ensures-ok (
                IsSound-frame _ _ (retry-IsSound f p key now r b db s found free at_key status) refl
                  refl refl)

authorize_existing-IsSound :
    (status : ReservationStatus) (r : PaidReservation) (f : String) (p : PaidPurpose) (key : String)
    (now : ℕ) (db : Ledger)
    → IsSound db
    → find_where (is_request f p key) db.reservations ≡ some r
    → r.status ≡ status
    → Ensures (λ _. IsSound) (authorize_existing status r f p key now db)
unfolding authorize_existing
authorize_existing-IsSound in_flight r f p key now db s at_key st = Ensures-ok s
authorize_existing-IsSound completed r f p key now db s at_key st = Ensures-ok s
authorize_existing-IsSound released r f p key now db s at_key st = Ensures-err _
authorize_existing-IsSound unknown_outcome r f p key now db s at_key st = Ensures-err _
authorize_existing-IsSound provider_rejected r f p key now db s at_key st =
    retry_rejected-IsSound r f p key now db s at_key st

authorize_new-IsSound :
    (f : String) (p : PaidPurpose) (key fresh : String) (now : ℕ) (db : Ledger)
    → IsSound db
    → Ensures (λ _. IsSound) (authorize_new f p key fresh now db)
unfolding authorize_new append_event
authorize_new-IsSound f p key fresh now db s =
    Ensures-row (budget_of f db) _ _ _ (λ _. Ensures-err _)
      λ b found.
        Ensures-if (is_exhausted f p b db) _ _ _ (λ _. Ensures-err _)
          λ free.
            Ensures-require_first (is_null (find_where (has_id fresh) db.reservations)) _ _ _ _
              λ new. Ensures-ok (
                IsSound-frame _ _
                  (reserve-IsSound f p key fresh now b db s found free (is_null→none _ new)) refl
                  refl refl)

authorize_body-IsSound :
    (f : String) (p : PaidPurpose) (key fresh : String) (now : ℕ) (db : Ledger)
    → IsSound db
    → Ensures (λ _. IsSound) (authorize_body f p key fresh now db)
unfolding authorize_body
authorize_body-IsSound f p key fresh now db s = Ensures-require (not (is_blank key)) _ _ _ λ _.
    Ensures-row (find_where (is_request f p key) db.reservations) _ _ _
      (λ _. authorize_new-IsSound f p key fresh now db s)
      (λ r at_key. authorize_existing-IsSound r.status r f p key now db s at_key refl)

-- `authorize` keeps reservation ids distinct and every budget respected, whether it returns a
-- reservation or raises.
pub authorize-IsSound :
    (f : String) (p : PaidPurpose) (key fresh : String) (now : ℕ) (db : Ledger)
    → IsSound db
    → IsSound (authorize f p key fresh now db).1
unfolding authorize
authorize-IsSound f p key fresh now db s =
    transaction-keeps IsSound (authorize_body f p key fresh now) db s
      (authorize_body-IsSound f p key fresh now db s)
