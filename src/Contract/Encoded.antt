-- ===== src/Contract/Encoded.antt =====
-- local_first_orchestrator/ticket.py: a contract as a JSON value, for `json.dumps`.
use local_first_orchestrator.Base.{
  ℕ, String, Option, none, some, List, [], ◌∷◌, decimal, Json, json_null, json_bool, json_number,
  json_text, json_list, json_object, Items, no_items, item, Fields, no_fields, field,
}
use local_first_orchestrator.Contract.Serial.{BudgetContract, VerificationContract, TicketContract}

abbrev pub number : ℕ → Json
number n = json_number (decimal n)

abbrev items_of : {A : Type 0} → (A → Json) → List A → Items
items_of f [] = no_items
items_of f (a ∷ more) = item (f a) (items_of f more)

abbrev pub list_json : {A : Type 0} → (A → Json) → List A → Json
list_json f values = json_list (items_of f values)

abbrev pub texts_json : List String → Json
texts_json = list_json json_text

abbrev or_null : Option String → Json
or_null none = json_null
or_null (some s) = json_text s

-- A member that is there
abbrev member : {A : Type 0} → String → (A → Json) → Option A → Fields → Fields
member name f none rest = rest
member name f (some a) rest = field name (f a) rest

abbrev budget_json : BudgetContract → Json
budget_json b = json_object (
    member "max_files" number b.max_files (
      member "max_changed_lines" number b.max_changed_lines
        (field "exception_reason" (or_null b.exception_reason) no_fields)))

abbrev verification_json : VerificationContract → Json
verification_json v = json_object (
    member "commands" (list_json texts_json) v.commands (
      member "working_directory" json_text v.working_directory (
        member "timeout_seconds" number v.timeout_seconds
          (member "output_limit" number v.output_limit no_fields))))

unfoldable pub contract_fields : TicketContract → Fields
contract_fields c = member "ticket_id" json_text c.ticket_id (
    member "objective" json_text c.objective (
      member "criterion_ids" texts_json c.criterion_ids (
        member "primary_symbol" json_text c.primary_symbol (
          member "allowed_files" texts_json c.allowed_files (
            member "forbidden_changes" texts_json c.forbidden_changes (
              member "patch_budget" budget_json c.patch_budget (
                member "verification" verification_json c.verification (
                  member "risk" json_text c.risk (
                    member "review_required" json_bool c.review_required (
                      member "max_attempts" number c.max_attempts (
                        member "dependencies" texts_json c.dependencies (
                          member "create_files" texts_json c.create_files (
                            member "new_test_files" texts_json c.new_test_files
                              no_fields)))))))))))))
