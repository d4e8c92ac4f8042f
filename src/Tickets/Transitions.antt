-- ===== src/Tickets/Transitions.antt =====
-- local_first_orchestrator/ledger.py: `transition` moves a ticket along an allowed edge and queues what
-- the board is to be told, in one transaction.
use local_first_orchestrator.Base.{
  ℕ, ◌+◌, String, ◌≡◌, refl, true, none, some, List, ◌∷◌, ok, err, Host, Error, arith, find_where,
  find_where-some, count_where, update_where, find_where-update_where, Ensures, Ensures-ok,
  Ensures-err, Ensures-require, Ensures-row, Ensures-if, Ensures-weaken, transaction-ensures,
  transaction_rollback, ◌==◌,
}
use local_first_orchestrator.States.{
  CanonicalState, state_eq, is_allowed, is_projectable, validate_transition,
}
use local_first_orchestrator.Ledger.{
  Ledger, event_of, Ticket, Event, Payload, append_event, last_event_id,
}
use local_first_orchestrator.Projections.Bundle.{has_event_id}
use local_first_orchestrator.Projections.Complete.{IsBundled, enqueue_bundle-IsBundled}
use local_first_orchestrator.Tickets.Lifecycle.{
  ticket_event, has_id, is_in, enter, update, transition, transition_body, transition_from,
}

state_eq_refl : (s : CanonicalState) → state_eq s s ≡ true
state_eq_refl s = ground arith

newest_found : (e : Event) (es : List Event) → find_where (has_event_id e.id) (e ∷ es) ≡ some e
unfolding find_where
newest_found e es = ground arith

-- The ticket had a state from which the target may be entered, and has entered it; where the board is
-- told of the target, the bundle of the newest event is queued.
pub record IsMoved (host : Host) (ticket : String) (target : CanonicalState) (now : ℕ)
    (old new : Ledger) : Type 0 where
  pub before : Ticket
  pub was : find_where (has_id ticket) old.tickets ≡ some before
  pub legal : is_allowed before.state target ≡ true
  pub is : find_where (has_id ticket) new.tickets ≡ some (enter target now before)
  pub told :
      is_projectable target ≡ true → IsBundled host ticket (last_event_id old.events + 1) target new
  pub claims : new.stage_claims ≡ old.stage_claims

module _ (host : Host) (ticket : String) (target : CanonicalState) (actor : String)
    (payload : Payload) (now : ℕ) where
  entered :
      (t : Ticket) (db : Ledger)
      → find_where (has_id ticket) db.tickets ≡ some t
      → find_where
          (has_id ticket)
          (update_where (is_in ticket t.state) (enter target now) db.tickets)
        ≡ some (enter target now t)
  entered t db f =
      let own = find_where-some (has_id ticket) db.tickets f in
      rw
        (find_where-update_where (is_in ticket t.state) (enter target now) (has_id ticket)
          db.tickets (λ x. refl))
        (rw f (rw (own, state_eq_refl t.state) refl))

  pub transition_from-IsMoved :
      (t : Ticket) (db : Ledger)
      → find_where (has_id ticket) db.tickets ≡ some t
      → Ensures
          (λ _. IsMoved host ticket target now db)
          (transition_from host t.state ticket target actor payload now db)
  unfolding transition_from validate_transition append_event find_where
  transition_from-IsMoved t db f =
      let moved = update (is_in ticket t.state) (enter target now) db in
      let event = last_event_id db.events + 1 in
      let written =
        event_of (ticket_event ticket "state_transition" (some t.state) (some target) actor payload)
          event now in
      Ensures-require (is_allowed t.state target) _ _ db (λ legal.
        Ensures-require (count_where (is_in ticket t.state) db.tickets == 1) _ _ moved (λ one.
          Ensures-if (is_projectable target) _ _ _
            (λ _.
              Ensures-weaken _
                (λ _ s b. record {
                  before = t;
                  was = f;
                  legal = legal;
                  is = rw b.1.tickets (entered t db f);
                  told = λ _. b.0;
                  claims = b.1.claims;
                })
                (enqueue_bundle-IsBundled host ticket event target _ payload none now written _
                  (newest_found written db.events) refl))
            (λ silent. Ensures-ok (record {
              before = t;
              was = f;
              legal = legal;
              is = entered t db f;
              told = λ p. absurd (cc);
              claims = refl;
            }))))

  transition_body-IsMoved :
      (db : Ledger)
      → Ensures
          (λ _. IsMoved host ticket target now db)
          (transition_body host ticket target actor payload now db)
  unfolding transition_body
  transition_body-IsMoved db =
      Ensures-row (find_where (has_id ticket) db.tickets) _ _ db (λ _. Ensures-err _)
        (λ t f. transition_from-IsMoved t db f)

-- A call of `transition` either raises, and the ledger is as before; or it returns, and then the ticket
-- is there, its state was one from which the target may be entered, it has the target as its state and
-- is otherwise as it was but for `updated_at`, and if the board is told of the target, the intent and
-- the comment of the newest event are queued, the intent tells the target, and no older intent of the
-- ticket is open. No claim on a stage has changed.
pub transition_outcome :
    (host : Host) (ticket : String) (target : CanonicalState) (actor : String) (payload : Payload)
    (now : ℕ) (db : Ledger)
    → (let r = transition host ticket target actor payload now db in
        ((x : Error) → r.0 ≡ err x → r.1 ≡ db)
        × (r.0 ≡ ok tt → IsMoved host ticket target now db r.1))
unfolding transition
transition_outcome host ticket target actor payload now db =
    let body = transition_body host ticket target actor payload now in
    (
      λ x h. transaction_rollback body db h,
      λ h.
          transaction-ensures (λ _. IsMoved host ticket target now db) body db
            (transition_body-IsMoved host ticket target actor payload now db) h,
    )
