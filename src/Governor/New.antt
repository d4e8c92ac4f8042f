-- ===== src/Governor/New.antt =====
-- usage_governor.py: `authorize` of a request that has no reservation, and of one that has just been given its own.
use local_first_orchestrator.Base.{
  ℕ, ◌+◌, ◌<◌, ◌&&◌, String, str_eq, ◌≡◌, refl, true, false, [], ◌∷◌, ok, find_where, none, some,
  is_blank, eq_refl, arith, count_where,
}
use local_first_orchestrator.Ledger.{
  Ledger, Budget, PaidPurpose, last_event_id, event_of, plain_event, text, append_event,
  architecture, integration_checkpoint, escalation,
}
use local_first_orchestrator.Governor.Requests.{
  purpose_eq, purpose_text, used, approved_calls, budget_of, limit_for, is_request, has_id,
}
use local_first_orchestrator.Governor.Authorize.{authorize, new_reservation, reservation_of}

-- The ledger after a new reservation
abbrev pub reserved : String → PaidPurpose → String → String → ℕ → Ledger → Ledger
reserved f p key fresh now db = record db {
  reservations = new_reservation fresh f p key now ∷ db.reservations;
  events =
      event_of
        (plain_event "feature" f "paid_reserved" "governor" (
          ("reservation_id", text fresh)
          ∷ ("purpose", text (purpose_text p))
          ∷ ("request_key", text key)
          ∷ []))
        (last_event_id db.events + 1) now
      ∷ db.events;
}

module _ (f : String) (p : PaidPurpose) (key fresh : String) (now : ℕ) where
  pub authorize-reserved :
      (b : Budget) (db : Ledger)
      → is_blank key ≡ false
      → find_where (is_request f p key) db.reservations ≡ none
      → find_where (has_id fresh) db.reservations ≡ none
      → budget_of f db ≡ some b
      → used f p db < limit_for p b + approved_calls f p db
      → authorize f p key fresh now db
        ≡ (ok (reservation_of fresh f p key), reserved f p key fresh now db)
  unfolding authorize append_event
  authorize-reserved b db filled absent new found less = ground arith

  same_purpose : (q : PaidPurpose) → purpose_eq q q ≡ true
  same_purpose architecture = refl
  same_purpose integration_checkpoint = refl
  same_purpose escalation = refl

  pub used-reserved : (db : Ledger) → used f p (reserved f p key fresh now db) ≡ used f p db + 1
  unfolding used count_where
  used-reserved db = rw (eq_refl f, same_purpose p) (omega arith)

  pub used_other-reserved :
      (db : Ledger) (g : String) (q : PaidPurpose)
      → (str_eq f g && purpose_eq p q) ≡ false
      → used g q (reserved f p key fresh now db) ≡ used g q db
  unfolding used count_where
  used_other-reserved db g q other = rw other (omega arith)

  pub approved-reserved :
      (db : Ledger) → approved_calls f p (reserved f p key fresh now db) ≡ approved_calls f p db
  unfolding approved_calls
  approved-reserved db = refl

  first :
      (db : Ledger)
      → find_where (is_request f p key) (reserved f p key fresh now db).reservations
        ≡ some (new_reservation fresh f p key now)
  unfolding find_where
  first db = rw (eq_refl f, same_purpose p, eq_refl key) refl

  -- The request that was just authorized is found, and returned again.
  pub again-reserved :
      (again : String) (later : ℕ) (db : Ledger)
      → is_blank key ≡ false
      → authorize f p key again later (reserved f p key fresh now db)
        ≡ (ok (reservation_of fresh f p key), reserved f p key fresh now db)
  unfolding authorize
  again-reserved again later db filled = ground (arith, first db)
