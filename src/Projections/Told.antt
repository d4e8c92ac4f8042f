-- ===== src/Projections/Told.antt =====
-- local_first_orchestrator/state_projection.py: the board is told a state only where no newer state event
-- of the ticket is in the ledger.
use local_first_orchestrator.Base.{
  ℕ, String, ◌≡◌, ◌⊎◌, inl, inr, refl, ap, ◌∙◌, Bool, true, false, Option, none, some, Result, ok,
  err, coalesce,
}
use local_first_orchestrator.Ledger.{Ledger, Projection}
use local_first_orchestrator.Ledger.Order.{IsDescending}
use local_first_orchestrator.Projections.Outbox.{prepare_claimed_state_projection}
use local_first_orchestrator.Projections.Fresh.{IsCurrent, gate_outcome}
use local_first_orchestrator.Projections.Delivery.{
  BoardAdapter, tell, deliver_row, deliver_claimed, acknowledged, released, after_call,
}

module _ {B : Type 0} (adapter : BoardAdapter B) (worker : String) (lease_seconds now : ℕ) where
  -- The board is as it was, or was told the state of the row.
  abbrev Told : Projection → String → B → B → Type 0
  Told p task board board' =
      (board' ≡ board) ⊎ (board' ≡ (adapter.set_state task p.state p.idempotency_key board).1)

  -- The board is as it was, or was told the state of the intent, which was current.
  abbrev pub ToldCurrent : String → ℕ → Ledger → B → B → Type 0
  ToldCurrent ticket event db board board' =
      (board' ≡ board)
      ⊎ ((p : Projection) × (task : String) × (IsCurrent ticket event worker now db p
            (prepare_claimed_state_projection ticket event worker now db).1)
          × (p.external_task_id ≡ some task)
          × (board' ≡ (adapter.set_state task p.state p.idempotency_key board).1))

  after_call-board :
      (ticket : String) (event : ℕ) (db : Ledger) (r : Result (Unit {0}) × B)
      → (after_call adapter worker lease_seconds now ticket event db r).2 ≡ r.1
  unfolding after_call acknowledged released
  after_call-board ticket event db (ok _, board) = refl
  after_call-board ticket event db (err e, board) = refl

  tell-Told :
      (p : Projection) (ticket : String) (event : ℕ) (task : String) (noop : Result Bool)
      (db : Ledger) (board : B)
      → Told p task board
          (tell adapter worker lease_seconds now p ticket event task noop db board).2
  unfolding tell released acknowledged
  tell-Told p ticket event task (err e) db board = inl refl
  tell-Told p ticket event task (ok true) db board = inl refl
  tell-Told p ticket event task (ok false) db board = inr (after_call-board ticket event db _)

  -- Where the event log is in order, a delivery of a claimed intent either leaves the board as it is, or
  -- has told it the state of the intent, at the board identity of the ticket and with the intent's
  -- idempotency key; then the intent was neither acknowledged nor superseded, the worker's lease on it
  -- ran, and no state event of the ticket was newer than the intent's.
  pub told_only_current :
      (ticket : String) (event : ℕ) (db : Ledger) (board : B)
      → IsDescending db.events
      → ToldCurrent ticket event db board
          (deliver_claimed adapter worker lease_seconds now ticket event db board).2
  unfolding deliver_claimed deliver_row
  told_only_current ticket event db board d =
      go (prepare_claimed_state_projection ticket event worker now db).0 refl
    where
      go :
          (r : Result (Option Projection))
          → (prepare_claimed_state_projection ticket event worker now db).0 ≡ r
          → ToldCurrent ticket event db board
              (deliver_row adapter worker lease_seconds now ticket event r
                (prepare_claimed_state_projection ticket event worker now db).1
                board).2
      go (err e) h = inl refl
      go (ok none) h = inl refl
      go (ok (some p)) h =
          let current = (gate_outcome ticket event worker now db d).1 p h in
          elim (tell-Told p ticket event (coalesce p.external_task_id "None") _ _ board) [
            | inl same ↦ inl same
            | inr told ↦ inr (
              p,
              current.target,
              current,
              current.addressed,
              told
                  ∙ ap (λ t. (adapter.set_state t p.state p.idempotency_key board).1)
                      (ap (λ o. coalesce o "None") current.addressed),
            )
          ]
