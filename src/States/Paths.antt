-- ===== src/States/Paths.antt =====
-- What holds along every path of allowed transitions (states.py).
use local_first_orchestrator.Base.{
  Bool, true, false, List, [], ◌∷◌, ◌≡◌, ◌⊎◌, ◌||◌, inl, inr, refl, arith, Bool-cases,
}
use local_first_orchestrator.States.{
  CanonicalState, draft, needs_architecture, ready_local, implementing, verifying, local_review,
  repairing, accepted, needs_human_test, needs_checkpoint, needs_triage, blocked, done, rejected,
  reverted, is_allowed, contains,
}

-- A ticket goes from state to state by transitions that `validate_transition` lets pass.
infix 40 ◌⟶*◌
pub data ◌⟶*◌ : CanonicalState → CanonicalState → Type 0 where
  here : {s : CanonicalState} → s ⟶* s
  via : {s u : CanonicalState} (t : CanonicalState) → is_allowed s t ≡ true → t ⟶* u → s ⟶* u

-- The states that a path enters.
abbrev pub trail : {s u : CanonicalState} → s ⟶* u → List CanonicalState
trail here = []
trail (via t a p) = t ∷ trail p

abbrev pub is_terminal : CanonicalState → Bool
is_terminal done = true
is_terminal rejected = true
is_terminal reverted = true
is_terminal _ = false

terminal_stays : (s t : CanonicalState) → is_terminal s ≡ true → is_allowed s t ≡ false
unfolding is_allowed
terminal_stays s t h = ground arith

terminal_stuck : {s t : CanonicalState} → is_terminal s ≡ true → s ⟶* t → s ≡ t
terminal_stuck h here = refl
terminal_stuck {s} h (via t a p) = cc (terminal_stays s t h)

repairing⟶*rejected : repairing ⟶* rejected
unfolding is_allowed
repairing⟶*rejected = via needs_triage refl (via rejected refl here)

to_rejected : (s : CanonicalState) → is_terminal s ≡ false → s ⟶* rejected
unfolding is_allowed
to_rejected draft h = via rejected refl here
to_rejected needs_architecture h = via rejected refl here
to_rejected needs_checkpoint h = via rejected refl here
to_rejected needs_triage h = via rejected refl here
to_rejected blocked h = via rejected refl here
to_rejected ready_local h = via blocked refl (via rejected refl here)
to_rejected implementing h = via blocked refl (via rejected refl here)
to_rejected verifying h = via blocked refl (via rejected refl here)
to_rejected needs_human_test h = via blocked refl (via rejected refl here)
to_rejected local_review h = via needs_triage refl (via rejected refl here)
to_rejected accepted h = via needs_checkpoint refl (via rejected refl here)
to_rejected repairing h = repairing⟶*rejected
to_rejected done h = cc
to_rejected rejected h = cc
to_rejected reverted h = cc

-- Every state is of one of two kinds. Either it is terminal (`done`, `rejected`, `reverted`), and
-- every path of allowed transitions from it ends where it began; or it is not, and some path of
-- allowed transitions leads from it to `rejected`.
pub terminal_or_rejectable :
    (s : CanonicalState)
    → ((is_terminal s ≡ true) × ((t : CanonicalState) → s ⟶* t → s ≡ t))
      ⊎ ((is_terminal s ≡ false) × (s ⟶* rejected))
terminal_or_rejectable s = elim (Bool-cases (is_terminal s)) [
  | inl h ↦ inl (h, λ t p. terminal_stuck h p)
  | inr h ↦ inr (h, to_rejected s h)
]

-- The states before the gates that stand in front of `done`.
abbrev pub is_open : CanonicalState → Bool
is_open accepted = false
is_open needs_human_test = false
is_open needs_checkpoint = false
is_open done = false
is_open _ = true

abbrev gated : List CanonicalState → Bool
gated l = contains l accepted || contains l needs_checkpoint

-- One step from an open state keeps it open or enters a gate.
open_step :
    (s t : CanonicalState)
    → is_open s ≡ true
    → is_allowed s t ≡ true
    → (is_open t ≡ true) ⊎ (t ≡ accepted) ⊎ (t ≡ needs_checkpoint)
unfolding is_allowed
open_step s t o a = ground arith

-- A path of allowed transitions that reaches `done` from a state before the gates (that is, from any
-- state other than `accepted`, `needs_human_test`, `needs_checkpoint` and `done`) enters `accepted`
-- or `needs_checkpoint` on its way.
pub done_needs_gate :
    {s : CanonicalState} (p : s ⟶* done)
    → is_open s ≡ true
    → (contains (trail p) accepted || contains (trail p) needs_checkpoint) ≡ true
done_needs_gate here o = cc
done_needs_gate {s} (via t a p) o = elim (open_step s t o a) [
  | inl still ↦ ground (arith, done_needs_gate p still)
  | inr (inl e) ↦ ground arith
  | inr (inr e) ↦ ground arith
]
