-- ===== src/Triage/Resolved.antt =====
-- local_first_orchestrator/triage.py: what `resolve_parent` makes of a ticket whose children are over.
use local_first_orchestrator.Base.{
  ℕ, String, ◌≡◌, refl, Bool, true, false, not, ◌||◌, ||-false, some, Result, ok, err, Error,
  is_nil, find_where, select_where, any_where, on_if, on_row, Host, arith,
}
use local_first_orchestrator.States.{CanonicalState, state_eq, needs_triage, blocked, ready_local}
use local_first_orchestrator.Ledger.{Ledger, Ticket}
use local_first_orchestrator.Tickets.Lifecycle.{has_id}
use local_first_orchestrator.Tickets.Transitions.{IsMoved, transition_outcome}
use local_first_orchestrator.Triage.Children.{all_where}
use local_first_orchestrator.Triage.Coordinator.{
  is_child, is_rejected, is_settled, parent_is_paused, moved, resolve_parent,
}

-- Why the parent moves
pub data IsResolved (host : Host) (parent : String) (now : ℕ) (old new : Ledger) : Type 0 where
  child_rejected :
      any_where is_rejected (select_where (is_child parent) old.tickets) ≡ true
      → IsMoved host parent blocked now old new
      → IsResolved host parent now old new
  children_settled :
      is_nil (select_where (is_child parent) old.tickets) ≡ false
      → all_where is_settled (select_where (is_child parent) old.tickets) ≡ true
      → IsMoved host parent ready_local now old new
      → IsResolved host parent now old new

-- A parent that waits for triage, none of whose children goes on
abbrev pub IsWaiting : String → Ledger → Type 0
IsWaiting parent db =
    (p : Ticket) × (find_where (has_id parent) db.tickets ≡ some p)
    × (state_eq p.state needs_triage ≡ true)
    × (parent_is_paused parent db ≡ false)

abbrev Outcome : Host → String → ℕ → Ledger → Result Bool × Ledger → Type 0
Outcome host parent now db r =
    ((x : Error) → r.0 ≡ err x → r.1 ≡ db)
    × (r.0 ≡ ok false → r.1 ≡ db)
    × (r.0 ≡ ok true → IsWaiting parent db × IsResolved host parent now db r.1)

unchanged :
    (host : Host) (parent : String) (now : ℕ) (db : Ledger)
    → Outcome host parent now db (ok false, db)
unchanged host parent now db = (λ x h. refl, λ h. refl, λ h. absurd (cc))

-- The call of `transition`
moved_outcome :
    (host : Host) (parent : String) (now : ℕ) (db : Ledger) (target : CanonicalState)
    (r : Result (Unit {0}) × Ledger)
    → ((x : Error) → r.0 ≡ err x → r.1 ≡ db) × (r.0 ≡ ok tt → IsMoved host parent target now db r.1)
    → IsWaiting parent db
    → (IsMoved host parent target now db r.1 → IsResolved host parent now db r.1)
    → Outcome host parent now db (moved r)
moved_outcome host parent now db target (ok tt, s) out waits why =
    (λ x h. absurd (cc), λ h. absurd (cc), λ h. (waits, why (out.1 refl)))
moved_outcome host parent now db target (err e, s) out waits why =
    (λ x h. out.0 e refl, λ h. absurd (cc), λ h. absurd (cc))

-- `resolve_parent` raises, or returns false, and leaves the ledger as it is; or it returns true, and then the
-- parent waited for triage, each of its children is accepted, done or rejected, and the parent has moved as
-- `transition` says: to blocked, where a child is rejected, and else to ready_local, where there are children
-- and all are accepted or done.
pub resolve_parent_outcome :
    (host : Host) (parent : String) (now : ℕ) (db : Ledger)
    → (let r = resolve_parent host parent now db in
        ((x : Error) → r.0 ≡ err x → r.1 ≡ db)
        × (r.0 ≡ ok false → r.1 ≡ db)
        × (r.0 ≡ ok true → IsWaiting parent db × IsResolved host parent now db r.1))
unfolding resolve_parent
resolve_parent_outcome host parent now db =
    let P : Result Bool × Ledger → Type 0 = Outcome host parent now db in
    let children = select_where (is_child parent) db.tickets in
    let same = unchanged host parent now db in
    on_row P (find_where (has_id parent) db.tickets) _ _
      (λ _. (λ x h. refl, λ h. absurd (cc), λ h. absurd (cc)))
      (λ p f.
        on_if P (not (state_eq p.state needs_triage) || parent_is_paused parent db) _ _ (λ _. same)
          (λ goes.
            let both =
              ||-false (not (state_eq p.state needs_triage)) (parent_is_paused parent db) goes in
            let waits : IsWaiting parent db = (p, f, ground arith, both.1) in
            on_if P (is_nil children) _ _ (λ _. same)
              (λ some_child.
                on_if P (any_where is_rejected children) _ _
                  (λ lost.
                    moved_outcome host parent now db blocked _
                      (transition_outcome host parent blocked "controller" _ now db) waits
                      (λ m. child_rejected lost m))
                  (λ none_lost.
                    on_if P (all_where is_settled children) _ _
                      (λ all.
                        moved_outcome host parent now db ready_local _
                          (transition_outcome host parent ready_local "controller" _ now db) waits
                          (λ m. children_settled some_child all m))
                      (λ _. same)))))
