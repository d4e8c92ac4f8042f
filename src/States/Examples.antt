-- ===== src/States/Examples.antt =====
-- The theorems on paths of transitions at concrete states.
use local_first_orchestrator.Base.{true, false, ◌≡◌, ◌⊎◌, refl, ◌||◌}
use local_first_orchestrator.States.{
  CanonicalState, ready_local, implementing, verifying, accepted, needs_checkpoint, blocked, done,
  rejected, is_allowed, contains,
}
use local_first_orchestrator.States.Paths.{
  ◌⟶*◌, here, via, trail, is_terminal, terminal_or_rejectable, done_needs_gate,
}

terminal_or_rejectable_example :
    ((is_terminal blocked ≡ true) × ((t : CanonicalState) → blocked ⟶* t → blocked ≡ t))
    ⊎ ((is_terminal blocked ≡ false) × (blocked ⟶* rejected))
terminal_or_rejectable_example = terminal_or_rejectable blocked

straight : ready_local ⟶* done
unfolding is_allowed
straight = via implementing refl (via verifying refl (via accepted refl (via done refl here)))

done_needs_gate_example :
    (contains (trail straight) accepted || contains (trail straight) needs_checkpoint) ≡ true
done_needs_gate_example = done_needs_gate straight refl
