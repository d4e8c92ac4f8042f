-- ===== src/Contract/Readiness.antt =====
-- local_first_orchestrator/readiness.py: `validate_ticket`, whether a contract is ready to be worked on.
use local_first_orchestrator.Base.{
  String, Bool, true, false, not, ◌&&◌, ◌||◌, Option, none, some, List, [], ◌∷◌, Result, ok, err,
  value_error, ltb, leb, ◌==◌, str_eq, is_null, contains, has_text, strip, lower, len,
  if◌then◌else◌, any_where, is_nil, count,
}
use local_first_orchestrator.Contract.{
  MicroTicket, PatchBudget, PatchBudgetPolicy, declared_ticket_paths,
}
use local_first_orchestrator.Contract.Paths.{normalized_repository_path}
use local_first_orchestrator.Contract.Languages.{is_supported_source, is_test_path}

-- `if refused: raise ReadinessError(message)`, and what follows it
abbrev pub refuse_if : {A : Type 0} → Bool → String → Result A → Result A
refuse_if true message rest = err (value_error message)
refuse_if false message rest = rest

abbrev pub vague_words : List String
vague_words =
    "improve" ∷ "clean up" ∷ "fix things" ∷ "as needed" ∷ "etc" ∷ "all files" ∷ "anything" ∷ []

abbrev pub has_any : List String → String → Bool
has_any words text = any_where (λ w. has_text w text) words

-- `set(values)`
abbrev pub distinct : List String → List String
distinct [] = []
distinct (s ∷ ss) = let rest = distinct ss in if contains s ss then rest else s ∷ rest

abbrev pub is_vague : MicroTicket → Bool
is_vague t = ltb (len (strip t.objective)) 12 || has_any vague_words (lower (strip t.objective))

abbrev pub is_unbounded : MicroTicket → Bool
is_unbounded t =
    is_nil t.criterion_ids || str_eq t.primary_symbol "" || not (has_text "::" t.primary_symbol)

abbrev pub overlaps : List String → Bool
overlaps paths = not (count (distinct paths) == count paths)

abbrev pub is_unsafe : String → Bool
is_unsafe path = is_null (normalized_repository_path path)

abbrev pub is_no_test : String → Bool
is_no_test path = not (is_supported_source path) || not (is_test_path path)

abbrev pub is_unchecked : MicroTicket → Bool
is_unchecked t = is_nil t.forbidden_changes || is_nil t.verification.commands

abbrev pub is_bad_risk : MicroTicket → Bool
is_bad_risk t =
    not (contains t.risk ("low" ∷ "medium" ∷ "high" ∷ []))
    || not (leb 1 t.max_attempts && leb t.max_attempts 2)

abbrev pub is_broad : PatchBudgetPolicy → PatchBudget → Bool
is_broad policy b =
    ltb policy.normal_max_files b.max_files
    || ltb policy.normal_max_changed_lines b.max_changed_lines

abbrev pub has_no_reason : PatchBudgetPolicy → Option String → Bool
has_no_reason policy none = true
has_no_reason policy (some reason) =
    str_eq reason "" || ltb (len (strip reason)) policy.minimum_exception_reason_length

-- A second `raise` after the check of the paths is never reached.
unfoldable pub validate_ticket : PatchBudgetPolicy → MicroTicket → Result MicroTicket
validate_ticket policy t =
    let paths = declared_ticket_paths t in
    let budget = t.patch_budget in
    refuse_if (is_vague t) "objective is missing, vague, or unsafe" (
      refuse_if (is_unbounded t) "criterion IDs and a bounded primary symbol are required" (
        refuse_if (is_nil paths) "declared files exceed bounded patch budget" (
          refuse_if (overlaps paths) "declared file categories must not overlap" (
            refuse_if (ltb budget.max_files (count paths))
              "declared files exceed bounded patch budget"
              (refuse_if (any_where is_unsafe paths)
                "declared files must be explicit normalized repository-relative files"
                (refuse_if (any_where is_no_test t.new_test_files)
                  "new files must be supported test artifacts"
                  (refuse_if (is_unchecked t)
                    "forbidden changes and allowlisted verification commands are required"
                    (refuse_if (is_bad_risk t) "risk and maximum two attempts are required" (
                      refuse_if
                        (is_broad policy budget && has_no_reason policy budget.exception_reason)
                        "broader patch budget requires a bounded exception reason" (ok t))))))))))
