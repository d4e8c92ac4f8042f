-- ===== src/States.antt =====
-- local_first_orchestrator/states.py: the canonical states of a ticket and the allowed transitions.
pub mod Paths
mod Examples
use Prim.Native.String.{◌++◌}
use local_first_orchestrator.Base.{Bool, true, false, List, [], ◌∷◌, if◌then◌else◌, ◌||◌}
use local_first_orchestrator.Base.{Tx, Error, value_error, require, String, ◌==◌, ℕ, ◌≡◌, arith}

pub data CanonicalState : Type 0 where
  draft needs_architecture ready_local implementing verifying local_review repairing :
      CanonicalState
  accepted needs_human_test needs_checkpoint needs_triage blocked done rejected : CanonicalState
  reverted : CanonicalState

-- The position of a member in the enumeration, by which states are compared.
abbrev pub ordinal : CanonicalState → ℕ
ordinal draft = 0
ordinal needs_architecture = 1
ordinal ready_local = 2
ordinal implementing = 3
ordinal verifying = 4
ordinal local_review = 5
ordinal repairing = 6
ordinal accepted = 7
ordinal needs_human_test = 8
ordinal needs_checkpoint = 9
ordinal needs_triage = 10
ordinal blocked = 11
ordinal done = 12
ordinal rejected = 13
ordinal reverted = 14

-- `CanonicalState.value`
abbrev pub state_text : CanonicalState → String
state_text draft = "draft"
state_text needs_architecture = "needs_architecture"
state_text ready_local = "ready_local"
state_text implementing = "implementing"
state_text verifying = "verifying"
state_text local_review = "local_review"
state_text repairing = "repairing"
state_text accepted = "accepted"
state_text needs_human_test = "needs_human_test"
state_text needs_checkpoint = "needs_checkpoint"
state_text needs_triage = "needs_triage"
state_text blocked = "blocked"
state_text done = "done"
state_text rejected = "rejected"
state_text reverted = "reverted"

abbrev pub state_eq : CanonicalState → CanonicalState → Bool
state_eq s t = ordinal s == ordinal t

pub State-discrete : Discrete CanonicalState
State-discrete = hlevel

pub state_eq→≡ : (s t : CanonicalState) → state_eq s t ≡ true → s ≡ t
state_eq→≡ s t h = ground arith

abbrev pub contains : List CanonicalState → CanonicalState → Bool
contains [] t = false
contains (s ∷ ss) t = state_eq s t || contains ss t

-- `_ALLOWED`
unfoldable pub allowed : CanonicalState → List CanonicalState
allowed draft = needs_architecture ∷ ready_local ∷ blocked ∷ rejected ∷ []
allowed needs_architecture = ready_local ∷ blocked ∷ rejected ∷ []
allowed ready_local = implementing ∷ blocked ∷ []
allowed implementing = verifying ∷ repairing ∷ needs_triage ∷ blocked ∷ []
allowed verifying = local_review ∷ accepted ∷ repairing ∷ needs_triage ∷ blocked ∷ []
allowed local_review = accepted ∷ repairing ∷ needs_checkpoint ∷ needs_triage ∷ []
allowed repairing = implementing ∷ needs_triage ∷ blocked ∷ []
allowed accepted = done ∷ needs_human_test ∷ needs_checkpoint ∷ reverted ∷ []
allowed needs_human_test = done ∷ repairing ∷ needs_checkpoint ∷ blocked ∷ []
allowed needs_checkpoint = done ∷ repairing ∷ needs_triage ∷ blocked ∷ rejected ∷ []
allowed needs_triage =
    ready_local ∷ local_review ∷ repairing ∷ needs_checkpoint ∷ blocked ∷ rejected ∷ []
allowed blocked = draft ∷ ready_local ∷ needs_triage ∷ repairing ∷ rejected ∷ []
allowed done = []
allowed rejected = []
allowed reverted = []

unfoldable pub is_allowed : CanonicalState → CanonicalState → Bool
unfolding allowed
is_allowed current target = contains (allowed current) target

unfoldable pub validate_transition {ℓ} :
    {S : Type ℓ} → CanonicalState → CanonicalState → Tx S (Unit {0})
unfolding is_allowed
validate_transition current target =
    require (is_allowed current target)
      (value_error (state_text current ++ " -> " ++ state_text target ++ " is not allowed"))

-- `Ledger._PROJECTABLE_STATES`
unfoldable pub is_projectable : CanonicalState → Bool
is_projectable needs_architecture = true
is_projectable ready_local = true
is_projectable accepted = true
is_projectable needs_human_test = true
is_projectable needs_checkpoint = true
is_projectable needs_triage = true
is_projectable blocked = true
is_projectable done = true
is_projectable rejected = true
is_projectable reverted = true
is_projectable local_review = true
is_projectable _ = false
