-- ===== src/Contract/Ready.antt =====
-- local_first_orchestrator/readiness.py: the contracts that `validate_ticket` accepts.
use local_first_orchestrator.Base.{
  ◌≤◌, String, ◌≡◌, ◌≢◌, ◌⊎◌, true, false, some, List, [], ◌∷◌, contains, has_text, strip, lower,
  len, count, Every,
}
use local_first_orchestrator.Contract.{MicroTicket, PatchBudget, declared_ticket_paths}
use local_first_orchestrator.Contract.Paths.{normalized_repository_path}
use local_first_orchestrator.Contract.Languages.{is_test_path}
use local_first_orchestrator.Contract.Readiness.{vague_words}

-- No text is in the list twice.
abbrev pub Distinct : List String → Type 0
Distinct [] = Unit
Distinct (s ∷ ss) = (contains s ss ≡ false) × Distinct ss

-- Within the normal budget, or with a reason of some length why not
pub data IsBudgeted (b : PatchBudget) : Type 0 where
  normal : b.max_files ≤ 2 → b.max_changed_lines ≤ 180 → IsBudgeted b
  excepted :
      (reason : String) → b.exception_reason ≡ some reason → 12 ≤ len (strip reason) → IsBudgeted b

pub record IsReady (t : MicroTicket) : Type 0 where
  pub objective : 12 ≤ len (strip t.objective)
  pub concrete : Every (λ w. has_text w (lower (strip t.objective)) ≡ false) vague_words
  pub criteria : t.criterion_ids ≢ []
  pub symbol : has_text "::" t.primary_symbol ≡ true
  pub declares : declared_ticket_paths t ≢ []
  pub disjoint : Distinct (declared_ticket_paths t)
  pub few : count (declared_ticket_paths t) ≤ t.patch_budget.max_files
  pub safe : Every (λ p. normalized_repository_path p ≡ some p) (declared_ticket_paths t)
  pub tests : Every (λ p. is_test_path p ≡ true) t.new_test_files
  pub forbidden : t.forbidden_changes ≢ []
  pub commands : t.verification.commands ≢ []
  pub risk : (t.risk ≡ "low") ⊎ ((t.risk ≡ "medium") ⊎ (t.risk ≡ "high"))
  pub attempts : (1 ≤ t.max_attempts) × (t.max_attempts ≤ 2)
  pub budget : IsBudgeted t.patch_budget
