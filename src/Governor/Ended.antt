-- ===== src/Governor/Ended.antt =====
-- usage_governor.py: a call that completed, was released or has an unknown outcome stays so.
use local_first_orchestrator.Base.{
  ℕ, String, ◌≡◌, ◌∙◌, sym, inl, inr, Bool, true, false, none, some, ◌∷◌, arith, eq_iff, Bool-cases,
  find_where, find_where-update_where, find_where_unique, ◌⊎◌, if◌then◌else◌,
}
use local_first_orchestrator.Ledger.{
  Ledger, PaidPurpose, ReservationStatus, PaidReservation, completed, released, unknown_outcome,
}
use local_first_orchestrator.Governor.Requests.{
  is_request, has_id, is_in_flight, update_reservation,
}
use local_first_orchestrator.Governor.Authorize.{new_reservation}
use local_first_orchestrator.Governor.Budget.{IsSound, purpose_eq→eq}

abbrev pub is_final : ReservationStatus → Bool
is_final completed = true
is_final released = true
is_final unknown_outcome = true
is_final _ = false

is_request-eq :
    (f : String) (p : PaidPurpose) (key : String) (r : PaidReservation)
    → is_request f p key r ≡ true
    → (r.feature_id ≡ f) × (r.purpose ≡ p) × (r.request_key ≡ key)
is_request-eq f p key r h =
    ground (arith, eq_iff r.feature_id f, eq_iff r.request_key key, purpose_eq→eq r.purpose p)

module _ (f : String) (p : PaidPurpose) (key : String) (st : ReservationStatus) where
  -- The request has a reservation, which has come to its end by `st`.
  pub record HasEnded (db : Ledger) : Type 0 where
    pub row : PaidReservation
    pub found : find_where (is_request f p key) db.reservations ≡ some row
    pub status : row.status ≡ st

  pub HasEnded-frame : (db d : Ledger) → HasEnded db → d.reservations ≡ db.reservations → HasEnded d
  HasEnded-frame db d h e = record { row = h.row; found = rw e h.found; status = h.status }

  -- An update that leaves the row alone, or at least its status.
  pub HasEnded-update :
      (q : PaidReservation → Bool) (g : PaidReservation → PaidReservation) (db : Ledger)
      (h : HasEnded db)
      → ((x : PaidReservation) → is_request f p key (g x) ≡ is_request f p key x)
      → (q h.row ≡ false) ⊎ ((g h.row).status ≡ h.row.status)
      → HasEnded (update_reservation q g db)
  HasEnded-update q g db h same keeps = record {
    row = if q h.row then g h.row else h.row;
    found = rw (find_where-update_where q g (is_request f p key) db.reservations same) (rw h.found);
    status = status keeps;
  }
    where
      status :
          (q h.row ≡ false) ⊎ ((g h.row).status ≡ h.row.status)
          → (if q h.row then g h.row else h.row).status ≡ st
      status (inl e) = rw e h.status
      status (inr e) = elim (Bool-cases (q h.row)) [
        | inl t ↦ rw t (e ∙ h.status)
        | inr t ↦ rw t h.status
      ]

  -- The row is not the one that a search by id finds in flight.
  pub not_it :
      (id : String) (r : PaidReservation) (db : Ledger) (h : HasEnded db)
      → IsSound db
      → is_final st ≡ true
      → find_where (has_id id) db.reservations ≡ some r
      → is_in_flight r.status ≡ true
      → has_id id h.row ≡ false
  not_it id r db h s fin it flying = elim (Bool-cases (has_id id h.row)) [
    | inr other ↦ other
    | inl same ↦
        let again =
          find_where_unique (is_request f p key) (has_id id) db.reservations h.found same
            (s.ids id) in
        let e : some h.row ≡ some r = sym again ∙ it in ground (arith, h.status)
  ]

  pub HasEnded-reserve :
      (f' : String) (p' : PaidPurpose) (key' id : String) (now : ℕ) (db : Ledger)
      → HasEnded db
      → find_where (is_request f' p' key') db.reservations ≡ none
      → HasEnded (record db { reservations = new_reservation id f' p' key' now ∷ db.reservations })
  unfolding find_where
  HasEnded-reserve f' p' key' id now db h absent =
      let row = new_reservation id f' p' key' now in
      record {
        row = h.row;
        found = elim (Bool-cases (is_request f p key row)) [
          | inr other ↦ rw other h.found
          | inl same ↦
              let parts = is_request-eq f p key row same in
              let gone : find_where (is_request f p key) db.reservations ≡ none =
                rw (← parts.0, ← parts.1, ← parts.2) absent in
              cc (gone, h.found)
        ];
        status = h.status;
      }
