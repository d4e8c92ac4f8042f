-- ===== src/Review/Normal.antt =====
-- local_first_orchestrator/review.py: `normalize_review` on every answer.
use local_first_orchestrator.Base.{
  String, ℕ, ◌≡◌, ◌∙◌, ◌+◌, refl, sym, Bool-cases, inl, inr, true, false, List, [], ◌∷◌, ◌++◌, ok,
  arith, Host, Json, json_null, json_bool, json_number, json_text, json_list, json_object, Fields,
  members, ok_injective, count, Result-cases,
}
use mathlib.Core.Path.{subst}
use local_first_orchestrator.Contract.{MicroTicket}
use local_first_orchestrator.Review.Normalize.{
  ReviewResult, text_at, is_verdict, read_criteria, is_blocking, read_findings, fields_of,
  missing_pass, result_of, normalize_rest, normalize_review, read_suggestions,
}
use local_first_orchestrator.Review.Sorted.{Sorts, read_findings-Sorts}
use local_first_orchestrator.Review.Scoped.{
  IsNormal, read_criteria-IsCovered, read_findings-IsScoped, missing_pass-Every,
}

-- The lists that an answer is read from, where it is let through.
record IsRead (host : Host) (ticket : MicroTicket) (raw : Fields) (r : ReviewResult) : Type 0 where
  verdict : is_verdict (text_at "verdict" raw) ≡ true
  criteria : List Json
  suggestions : List Json
  findings : List Json
  covers : missing_pass ticket (text_at "verdict" raw) (read_criteria ticket criteria) ≡ false
  has_suggestions : members "suggestions" raw ≡ ok suggestions
  has_findings : members "findings" raw ≡ ok findings
  is : result_of host ticket raw criteria suggestions findings ≡ r

module _ (host : Host) (ticket : MicroTicket) {r : ReviewResult} where
  rest-IsRead :
      (raw : Fields) (criteria : List Json)
      → is_verdict (text_at "verdict" raw) ≡ true
      → normalize_rest host ticket raw criteria ≡ ok r
      → IsRead host ticket raw r
  unfolding normalize_rest
  rest-IsRead raw criteria v h =
      elim (Bool-cases
        (missing_pass ticket (text_at "verdict" raw) (read_criteria ticket criteria))) [
          | inl e ↦ absurd (let h' = rw e at h in cc)
          | inr e ↦ elim (Result-cases (members "suggestions" raw)) [
            | inl (x, f) ↦ absurd (let h' = rw (e, f) at h in cc)
            | inr (ss, f) ↦ elim (Result-cases (members "findings" raw)) [
              | inl (x, g) ↦ absurd (let h' = rw (e, f, g) at h in cc)
              | inr (fs, g) ↦ record {
                verdict = v;
                criteria = criteria;
                suggestions = ss;
                findings = fs;
                covers = e;
                has_suggestions = f;
                has_findings = g;
                is = ok_injective (rw (e, f, g) at h);
              }
            ]
          ]
        ]

  review-IsRead :
      (payload : Json)
      → normalize_review host payload ticket ≡ ok r
      → IsRead host ticket (fields_of payload) r
  unfolding normalize_review
  review-IsRead payload h =
      let raw = fields_of payload in
      elim (Bool-cases (is_verdict (text_at "verdict" raw))) [
        | inl v ↦ elim (Result-cases (members "criterion_results" raw)) [
          | inl (x, f) ↦ absurd (let h' = rw (v, f) at h in cc)
          | inr (cs, f) ↦ rest-IsRead raw cs v (rw (v, f) at h)
        ]
        | inr v ↦ absurd (let h' = rw v at h in cc)
      ]

-- A review that is let through has one of the three verdicts; each of its results is about a criterion
-- of the ticket, passes or fails it, and has evidence; each of its findings is about a criterion and a
-- declared file of the ticket and has a symbol, evidence, a repair and a verification; and if its
-- verdict is to pass, each criterion of the ticket has a result that passes it.
pub normalized_within_contract :
    (host : Host) (payload : Json) (ticket : MicroTicket) (r : ReviewResult)
    → normalize_review host payload ticket ≡ ok r
    → IsNormal ticket r
normalized_within_contract host payload ticket r h =
    let read = review-IsRead host ticket payload h in
    subst (IsNormal ticket) read.is (record {
      verdict = read.verdict;
      criteria = read_criteria-IsCovered ticket read.criteria;
      findings = read_findings-IsScoped ticket host read.findings;
      passed =
          missing_pass-Every ticket (text_at "verdict" (fields_of payload))
            (read_criteria ticket read.criteria) read.covers;
    })

-- The members of a list that are objects.
abbrev pub objects : List Json → ℕ
objects [] = 0
objects (json_object o ∷ items) = 1 + objects items
objects (_ ∷ items) = objects items

count-append : {A : Type 0} (xs ys : List A) → count (xs ++ ys) ≡ count xs + count ys
count-append [] ys = omega arith
count-append (x ∷ xs) ys = let rest = count-append xs ys in omega arith

read_findings-total :
    (host : Host) (ticket : MicroTicket) (items : List Json)
    → count (read_findings host ticket items).0 + count (read_findings host ticket items).1
      ≡ objects items
unfolding read_findings
read_findings-total host ticket [] = refl
read_findings-total host ticket (json_null ∷ items) = read_findings-total host ticket items
read_findings-total host ticket (json_bool b ∷ items) = read_findings-total host ticket items
read_findings-total host ticket (json_number n ∷ items) = read_findings-total host ticket items
read_findings-total host ticket (json_text s ∷ items) = read_findings-total host ticket items
read_findings-total host ticket (json_list l ∷ items) = read_findings-total host ticket items
read_findings-total host ticket (json_object o ∷ items) =
    let rest = read_findings-total host ticket items in
    elim (Bool-cases (is_blocking host ticket o)) [
      | inl e ↦ rw e (omega arith)
      | inr e ↦ rw e (omega arith)
    ]

-- What a review makes of an answer's suggestions and findings
pub record IsSorted (host : Host) (ticket : MicroTicket) (ss fs : List Json) (r : ReviewResult)
    : Type 0 where
  pub added : List String
  pub sorted : Sorts host ticket fs r.findings added
  pub suggested : r.suggestions ≡ read_suggestions ss ++ added
  pub total : count r.findings + count r.suggestions ≡ count (read_suggestions ss) + objects fs

read-IsSorted :
    (host : Host) (ticket : MicroTicket) (raw : Fields) (cs ss fs : List Json)
    → IsSorted host ticket ss fs (result_of host ticket raw cs ss fs)
read-IsSorted host ticket raw cs ss fs =
    let read = read_findings host ticket fs in
    let apart = count-append (read_suggestions ss) read.1 in
    let all = read_findings-total host ticket fs in
    record {
      added = read.1;
      sorted = read_findings-Sorts host ticket fs;
      suggested = refl;
      total = omega arith;
    }

-- A review that is let through sorts the items of the answer's findings in their order: an object that says it
-- is blocking, is about a criterion and a declared file of the ticket, and has a symbol, evidence, a repair, a
-- verification and an input for its fingerprint becomes a finding with these fields; any other object adds one suggestion,
-- that a finding was downgraded, after the suggestions that were read; and what is no object is passed over. So the
-- findings and suggestions together are as many as the suggestions read and the objects.
pub findings_conserved :
    (host : Host) (payload : Json) (ticket : MicroTicket) (r : ReviewResult) (ss fs : List Json)
    → normalize_review host payload ticket ≡ ok r
    → members "suggestions" (fields_of payload) ≡ ok ss
    → members "findings" (fields_of payload) ≡ ok fs
    → IsSorted host ticket ss fs r
findings_conserved host payload ticket r ss fs h s f =
    let read = review-IsRead host ticket payload h in
    let same_s = ok_injective (sym read.has_suggestions ∙ s) in
    let same_f = ok_injective (sym read.has_findings ∙ f) in
    let sorted =
      read-IsSorted host ticket (fields_of payload) read.criteria read.suggestions read.findings in
    subst (λ x. IsSorted host ticket x fs r) same_s
      (subst (λ x. IsSorted host ticket read.suggestions x r) same_f
        (subst (IsSorted host ticket read.suggestions read.findings) read.is sorted))
