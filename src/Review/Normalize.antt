-- ===== src/Review/Normalize.antt =====
-- local_first_orchestrator/review.py: `normalize_review`, which keeps of a reviewer's answer what the
-- ticket's contract covers.
use Prim.Native.String.{[] as empty}
use Prim.Native.String.{◌++◌ as append}
use local_first_orchestrator.Base.{
  String, Bool, not, ◌&&◌, ◌||◌, Option, some, List, [], ◌∷◌, ◌++◌, Result, ok, err, value_error,
  str_eq, if◌then◌else◌, strip, Host, Json, json_text, json_object, Fields, no_fields, get, members,
  contains, is_within,
}
use local_first_orchestrator.Contract.{MicroTicket, declared_ticket_paths}

pub record ReviewFinding : Type 0 where
  pub criterion_id : String
  pub file : String
  pub symbol : String
  pub evidence : String
  pub minimal_repair : String
  pub verification : String
  pub fingerprint : String

-- An element of `criterion_results`
pub record CriterionResult : Type 0 where
  pub criterion_id : String
  pub status : String
  pub evidence : String

pub record ReviewResult : Type 0 where
  pub verdict : String
  pub criterion_results : List CriterionResult
  pub findings : List ReviewFinding
  pub suggestions : List String
  pub raw : Fields

-- `_text`, of a value that may be missing
abbrev pub text_of : Option Json → String
text_of (some (json_text s)) = strip s
text_of _ = empty

abbrev pub text_at : String → Fields → String
text_at name fields = text_of (get name fields)

-- `bool(text)`
abbrev pub is_filled : String → Bool
is_filled s = not (str_eq s empty)

abbrev pub is_verdict : String → Bool
is_verdict s = str_eq s "pass" || str_eq s "repair" || str_eq s "escalate"

abbrev pub is_status : String → Bool
is_status s = str_eq s "pass" || str_eq s "fail"

abbrev separated : List String → String
separated [] = empty
separated (s ∷ []) = s
separated (s ∷ t ∷ rest) = append s (append "\u{1f}" (separated (t ∷ rest)))

unfoldable pub failure_fingerprint :
    Host → String → String → String → String → String → String → String
failure_fingerprint host ticket stage criterion file symbol error =
    host.digest
      (separated (ticket ∷ stage ∷ criterion ∷ file ∷ symbol ∷ host.stable_error error ∷ []))

abbrev pub in_contract : MicroTicket → CriterionResult → Bool
in_contract ticket c =
    contains c.criterion_id ticket.criterion_ids && is_status c.status && is_filled c.evidence

abbrev pub result_at : Fields → CriterionResult
result_at fields = record {
  criterion_id = text_at "criterion_id" fields;
  status = text_at "status" fields;
  evidence = text_at "evidence" fields;
}

-- The loop over `criterion_results`
unfoldable pub read_criteria : MicroTicket → List Json → List CriterionResult
read_criteria ticket [] = []
read_criteria ticket (json_object fields ∷ items) =
    let rest = read_criteria ticket items in
    if in_contract ticket (result_at fields) then result_at fields ∷ rest else rest
read_criteria ticket (_ ∷ items) = read_criteria ticket items

-- The criteria of the results with a status
unfoldable pub with_status : String → List CriterionResult → List String
with_status status [] = []
with_status status (c ∷ cs) =
    let rest = with_status status cs in
    if str_eq c.status status then c.criterion_id ∷ rest else rest

-- `passed_criteria != set(ticket.criterion_ids)`, negated
abbrev pub all_passed : MicroTicket → List CriterionResult → Bool
all_passed ticket criteria =
    let passed = with_status "pass" criteria in
    is_within passed ticket.criterion_ids && is_within ticket.criterion_ids passed

unfoldable pub read_suggestions : List Json → List String
read_suggestions [] = []
read_suggestions (json_text s ∷ items) =
    let rest = read_suggestions items in if is_filled (strip s) then strip s ∷ rest else rest
read_suggestions (_ ∷ items) = read_suggestions items

abbrev pub in_scope : MicroTicket → ReviewFinding → Bool
in_scope ticket f =
    contains f.criterion_id ticket.criterion_ids
    && contains f.file (declared_ticket_paths ticket)
    && is_filled f.symbol
    && is_filled f.evidence
    && is_filled f.minimal_repair
    && is_filled f.verification

abbrev pub finding_at : Host → MicroTicket → Fields → ReviewFinding
finding_at host ticket fields =
    let criterion = text_at "criterion_id" fields in
    let file = text_at "file" fields in
    let symbol = text_at "symbol" fields in
    record {
      criterion_id = criterion;
      file = file;
      symbol = symbol;
      evidence = text_at "evidence" fields;
      minimal_repair = text_at "minimal_repair" fields;
      verification = text_at "verification" fields;
      fingerprint =
          failure_fingerprint host ticket.ticket_id "review" criterion file symbol
            (text_at "fingerprint_input" fields);
    }

-- `valid`
abbrev pub is_blocking : Host → MicroTicket → Fields → Bool
is_blocking host ticket fields =
    str_eq (text_at "severity" fields) "blocking"
    && in_scope ticket (finding_at host ticket fields)
    && is_filled (text_at "fingerprint_input" fields)

abbrev pub downgraded : String
downgraded = "review finding downgraded: malformed or outside ticket criterion/file scope"

-- The loop over `findings`: the findings, and the suggestions that it adds
unfoldable pub read_findings : Host → MicroTicket → List Json → List ReviewFinding × List String
read_findings host ticket [] = ([], [])
read_findings host ticket (json_object fields ∷ items) =
    let rest = read_findings host ticket items in
    if is_blocking host ticket fields
    then (finding_at host ticket fields ∷ rest.0, rest.1)
    else (rest.0, downgraded ∷ rest.1)
read_findings host ticket (_ ∷ items) = read_findings host ticket items

-- `payload if isinstance(payload, dict) else {}`
abbrev pub fields_of : Json → Fields
fields_of (json_object fields) = fields
fields_of _ = no_fields

abbrev pub missing_pass : MicroTicket → String → List CriterionResult → Bool
missing_pass ticket verdict criteria = str_eq verdict "pass" && not (all_passed ticket criteria)

abbrev pub result_of :
    Host → MicroTicket → Fields → List Json → List Json → List Json → ReviewResult
result_of host ticket raw criteria suggestions findings =
    let read = read_findings host ticket findings in
    record {
      verdict = text_at "verdict" raw;
      criterion_results = read_criteria ticket criteria;
      findings = read.0;
      suggestions = read_suggestions suggestions ++ read.1;
      raw = raw;
    }

-- `normalize_review` after the verdict and the criteria were read
unfoldable pub normalize_rest : Host → MicroTicket → Fields → List Json → Result ReviewResult
normalize_rest host ticket raw criteria =
    if missing_pass ticket (text_at "verdict" raw) (read_criteria ticket criteria)
    then err (value_error "pass review must include pass evidence for every criterion")
    else elim (members "suggestions" raw) [
      | err e ↦ err e
      | ok suggestions ↦ elim (members "findings" raw) [
        | err e ↦ err e
        | ok findings ↦ ok (result_of host ticket raw criteria suggestions findings)
      ]
    ]

unfoldable pub normalize_review : Host → Json → MicroTicket → Result ReviewResult
unfolding normalize_rest
normalize_review host payload ticket =
    let raw = fields_of payload in
    if is_verdict (text_at "verdict" raw)
    then elim (members "criterion_results" raw) [
      | err e ↦ err e
      | ok criteria ↦ normalize_rest host ticket raw criteria
    ]
    else err (value_error "review verdict must be pass, repair, or escalate")
