-- ===== src/Tickets/Numbers.antt =====
-- local_first_orchestrator/ledger.py: attempt numbers are not used twice, and neither are stage keys.
use local_first_orchestrator.Base.{
  ℕ, ◌+◌, ◌≤◌, ◌<◌, String, ◌≡◌, true, none, some, List, [], ◌∷◌, arith, find_where, Bool-cases,
  inl, inr, eq_refl, Option-cases,
}
use local_first_orchestrator.Ledger.{Ledger, Attempt}
use local_first_orchestrator.Tickets.Attempts.{
  is_attempt, ensure_attempt, last_attempt, next_attempt_number, is_known,
}

below_last :
    (ticket : String) (number : ℕ) (rows : List Attempt) {a : Attempt}
    → find_where (is_attempt ticket number) rows ≡ some a
    → number ≤ last_attempt ticket rows
unfolding find_where last_attempt
below_last ticket number [] h = absurd (cc)
below_last ticket number (r ∷ rows) h = elim (Bool-cases (is_attempt ticket number r)) [
  | inl e ↦ ground arith
  | inr e ↦ let rest = below_last ticket number rows (rw e at h) in ground arith
]

last_attempt_grows :
    (ticket other : String) (number now : ℕ) (db : Ledger)
    → last_attempt ticket db.attempts
      ≤ last_attempt ticket (ensure_attempt other number now db).1.attempts
unfolding ensure_attempt last_attempt
last_attempt_grows ticket other number now db = ground arith

last_attempt_recorded :
    (ticket : String) (next now : ℕ) (db : Ledger)
    → find_where (is_attempt ticket next) db.attempts ≡ none
    → is_known ticket db ≡ true
    → last_attempt ticket db.attempts < next
    → last_attempt ticket (ensure_attempt ticket next now db).1.attempts ≡ next
unfolding ensure_attempt last_attempt
last_attempt_recorded ticket next now db absent known less =
    rw (absent, known, eq_refl ticket) (ground arith)

-- The number of the next attempt at a ticket is not the number of an attempt that was recorded for it.
-- Once the attempt is recorded, where the ticket exists, the next number is one more, and no recording
-- of an attempt, at whichever ticket, makes the next number smaller.
pub next_attempt_fresh :
    (ticket : String) (now : ℕ) (db : Ledger)
    → is_known ticket db ≡ true
    → (find_where (is_attempt ticket (next_attempt_number ticket db)) db.attempts ≡ none)
      × (next_attempt_number ticket (ensure_attempt ticket (next_attempt_number ticket db) now db).1
          ≡ next_attempt_number ticket db + 1)
      × ((other : String) (number : ℕ)
          → next_attempt_number ticket db
            ≤ next_attempt_number ticket (ensure_attempt other number now db).1)
unfolding next_attempt_number
next_attempt_fresh ticket now db known =
    let next = last_attempt ticket db.attempts + 1 in
    let absent : find_where (is_attempt ticket next) db.attempts ≡ none =
      elim (Option-cases (find_where (is_attempt ticket next) db.attempts)) [
        | inl e ↦ e
        | inr (a, e) ↦ let k = below_last ticket next db.attempts e in absurd (omega arith)
      ] in
    (
      absent,
      (let k = last_attempt_recorded ticket next now db absent known (omega arith) in omega arith),
      λ other number. let k = last_attempt_grows ticket other number now db in omega arith,
    )
