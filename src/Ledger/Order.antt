-- ===== src/Ledger/Order.antt =====
-- ledger.py: the event log is in the order of the events' ids, so the first event found is the newest.
use local_first_orchestrator.Base.{
  ℕ, ◌+◌, ◌≤◌, ◌<◌, ◌≡◌, refl, Bool, true, some, List, [], ◌∷◌, arith, Ensures, Ensures-ok, Every,
  find_where, Bool-cases, inl, inr,
}
use local_first_orchestrator.Ledger.{Ledger, Event, NewEvent, append_event, last_event_id}

-- Each event's id is larger than the ids of the events before it.
abbrev pub IsDescending : List Event → Type 0
IsDescending [] = Unit
IsDescending (e ∷ es) = Every (λ (x : Event). x.id < e.id) es × IsDescending es

below :
    (m n : ℕ) (es : List Event)
    → m ≤ n
    → Every (λ (x : Event). x.id < m) es
    → Every (λ (x : Event). x.id ≤ n) es
below m n [] le h = tt
below m n (e ∷ es) le h = (omega (arith, h.0), below m n es le h.1)

at_most_last :
    (es : List Event) → IsDescending es → Every (λ (x : Event). x.id < last_event_id es + 1) es
at_most_last [] h = tt
at_most_last (e ∷ es) h = (omega arith, wider es h.0)
  where
    wider :
        (xs : List Event)
        → Every (λ (x : Event). x.id < e.id) xs
        → Every (λ (x : Event). x.id < e.id + 1) xs
    wider [] h = tt
    wider (x ∷ xs) h = (omega (arith, h.0), wider xs h.1)

-- Appending an event keeps the order of the log.
pub append_event-IsDescending :
    (n : NewEvent) (now : ℕ) (db : Ledger)
    → IsDescending db.events
    → Ensures (λ _ (db' : Ledger). IsDescending db'.events) (append_event n now db)
unfolding append_event
append_event-IsDescending n now db h = Ensures-ok (at_most_last db.events h, h)

module _ (p : Event → Bool) where
  vacuous :
      (n : ℕ) (es : List Event)
      → Every (λ (x : Event). x.id ≤ n) es
      → Every (λ (x : Event). p x ≡ true → x.id ≤ n) es
  vacuous n [] h = tt
  vacuous n (e ∷ es) h = ((λ _. h.0), vacuous n es h.1)

  -- The first event that meets a test is the newest that does.
  pub newest_first :
      (es : List Event) (n : ℕ)
      → IsDescending es
      → ((e : Event) → find_where p es ≡ some e → e.id ≤ n)
      → Every (λ (x : Event). p x ≡ true → x.id ≤ n) es
  unfolding find_where
  newest_first [] n d h = tt
  newest_first (e ∷ es) n d h = elim (Bool-cases (p e)) [
    | inl t ↦
        let first : e.id ≤ n = h e (rw t refl) in
        ((λ _. first), vacuous n es (below e.id n es first d.0))
    | inr t ↦ ((λ u. absurd (cc)), newest_first es n d.1 (λ x f. h x (rw t f)))
  ]
