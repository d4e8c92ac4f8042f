-- ===== src/Review/Scoped.antt =====
-- local_first_orchestrator/review.py: what is known of a review that `normalize_review` lets through.
use Prim.Native.String.{[] as empty}
use mathlib.Core.Path.{subst}
use mathlib.Core.List.{Mem, mem-cons_self, mem-cons_of_mem}
use local_first_orchestrator.Base.{
  String, ◌≡◌, ◌≢◌, ◌⊎◌, Bool-cases, inl, inr, true, false, ◌&&◌, &&-true, List, [], ◌∷◌, str_eq,
  eq_iff, arith, Every, Host, Json, json_null, json_bool, json_number, json_text, json_list,
  json_object, Fields, contains, is_within,
}
use local_first_orchestrator.Contract.{MicroTicket, declared_ticket_paths}
use local_first_orchestrator.Review.Normalize.{
  ReviewFinding, CriterionResult, ReviewResult, text_at, is_filled, is_verdict, is_status,
  in_contract, result_at, read_criteria, with_status, in_scope, finding_at, is_blocking,
  read_findings, missing_pass,
}

contains-Mem : (s : String) (ss : List String) → contains s ss ≡ true → Mem s ss
contains-Mem s [] h = absurd (cc)
contains-Mem s (t ∷ ts) h = elim (Bool-cases (str_eq t s)) [
  | inl e ↦ subst (λ x. Mem x (t ∷ ts)) ((eq_iff t s).0 e) mem-cons_self
  | inr e ↦ mem-cons_of_mem t (contains-Mem s ts (rw e at h))
]

within-Every : (ss others : List String) → is_within ss others ≡ true → Every (λ s. Mem s others) ss
within-Every [] others h = tt
within-Every (s ∷ ss) others h =
    let both = &&-true (contains s others) (is_within ss others) h in
    (contains-Mem s others both.0, within-Every ss others both.1)

pub is_filled-nonempty : (s : String) → is_filled s ≡ true → s ≢ empty
is_filled-nonempty s h e = let same : str_eq s empty ≡ true = (eq_iff s empty).1 e in absurd (cc)

is_status-cases : (s : String) → is_status s ≡ true → (s ≡ "pass") ⊎ (s ≡ "fail")
is_status-cases s h = elim (Bool-cases (str_eq s "pass")) [
  | inl e ↦ inl ((eq_iff s "pass").0 e)
  | inr e ↦ inr ((eq_iff s "fail").0 (rw e at h))
]

-- A result that is about a criterion of the ticket, passes or fails it, and says why.
pub record IsCovered (ticket : MicroTicket) (c : CriterionResult) : Type 0 where
  pub criterion : Mem c.criterion_id ticket.criterion_ids
  pub status : (c.status ≡ "pass") ⊎ (c.status ≡ "fail")
  pub evidence : c.evidence ≢ empty

-- A finding on a criterion and a declared file of the ticket that says what is wrong, and how it is
-- repaired and verified.
pub record IsScoped (ticket : MicroTicket) (f : ReviewFinding) : Type 0 where
  pub criterion : Mem f.criterion_id ticket.criterion_ids
  pub file : Mem f.file (declared_ticket_paths ticket)
  pub symbol : f.symbol ≢ empty
  pub evidence : f.evidence ≢ empty
  pub minimal_repair : f.minimal_repair ≢ empty
  pub verification : f.verification ≢ empty

pub record IsNormal (ticket : MicroTicket) (r : ReviewResult) : Type 0 where
  pub verdict : is_verdict r.verdict ≡ true
  pub criteria : Every (IsCovered ticket) r.criterion_results
  pub findings : Every (IsScoped ticket) r.findings
  pub passed :
      r.verdict ≡ "pass"
      → Every (λ id. Mem id (with_status "pass" r.criterion_results)) ticket.criterion_ids

module _ (ticket : MicroTicket) where
  in_contract-IsCovered : (c : CriterionResult) → in_contract ticket c ≡ true → IsCovered ticket c
  in_contract-IsCovered c h =
      let a = contains c.criterion_id ticket.criterion_ids in
      let first = &&-true (a && is_status c.status) (is_filled c.evidence) h in
      let second = &&-true a (is_status c.status) first.0 in
      record {
        criterion = contains-Mem c.criterion_id ticket.criterion_ids second.0;
        status = is_status-cases c.status second.1;
        evidence = is_filled-nonempty c.evidence first.1;
      }

  in_scope-IsScoped : (f : ReviewFinding) → in_scope ticket f ≡ true → IsScoped ticket f
  in_scope-IsScoped f h =
      let a = contains f.criterion_id ticket.criterion_ids in
      let b = contains f.file (declared_ticket_paths ticket) in
      let s = is_filled f.symbol in
      let e = is_filled f.evidence in
      let m = is_filled f.minimal_repair in
      let v = &&-true (a && b && s && e && m) (is_filled f.verification) h in
      let v4 = &&-true (a && b && s && e) m v.0 in
      let v3 = &&-true (a && b && s) e v4.0 in
      let v2 = &&-true (a && b) s v3.0 in
      let v1 = &&-true a b v2.0 in
      record {
        criterion = contains-Mem f.criterion_id ticket.criterion_ids v1.0;
        file = contains-Mem f.file (declared_ticket_paths ticket) v1.1;
        symbol = is_filled-nonempty f.symbol v2.1;
        evidence = is_filled-nonempty f.evidence v3.1;
        minimal_repair = is_filled-nonempty f.minimal_repair v4.1;
        verification = is_filled-nonempty f.verification v.1;
      }

  pub read_criteria-IsCovered :
      (items : List Json) → Every (IsCovered ticket) (read_criteria ticket items)
  unfolding read_criteria
  read_criteria-IsCovered [] = tt
  read_criteria-IsCovered (json_null ∷ items) = read_criteria-IsCovered items
  read_criteria-IsCovered (json_bool b ∷ items) = read_criteria-IsCovered items
  read_criteria-IsCovered (json_number n ∷ items) = read_criteria-IsCovered items
  read_criteria-IsCovered (json_text s ∷ items) = read_criteria-IsCovered items
  read_criteria-IsCovered (json_list l ∷ items) = read_criteria-IsCovered items
  read_criteria-IsCovered (json_object o ∷ items) =
      elim (Bool-cases (in_contract ticket (result_at o))) [
        | inl e ↦ rw e (in_contract-IsCovered (result_at o) e, read_criteria-IsCovered items)
        | inr e ↦ rw e (read_criteria-IsCovered items)
      ]

  pub blocking-IsScoped :
      (host : Host) (o : Fields)
      → is_blocking host ticket o ≡ true
      → IsScoped ticket (finding_at host ticket o)
  blocking-IsScoped host o h =
      let b = str_eq (text_at "severity" o) "blocking" in
      let s = in_scope ticket (finding_at host ticket o) in
      let first = &&-true (b && s) (is_filled (text_at "fingerprint_input" o)) h in
      in_scope-IsScoped (finding_at host ticket o) (&&-true b s first.0).1

  pub read_findings-IsScoped :
      (host : Host) (items : List Json)
      → Every (IsScoped ticket) (read_findings host ticket items).0
  unfolding read_findings
  read_findings-IsScoped host [] = tt
  read_findings-IsScoped host (json_null ∷ items) = read_findings-IsScoped host items
  read_findings-IsScoped host (json_bool b ∷ items) = read_findings-IsScoped host items
  read_findings-IsScoped host (json_number n ∷ items) = read_findings-IsScoped host items
  read_findings-IsScoped host (json_text s ∷ items) = read_findings-IsScoped host items
  read_findings-IsScoped host (json_list l ∷ items) = read_findings-IsScoped host items
  read_findings-IsScoped host (json_object o ∷ items) =
      elim (Bool-cases (is_blocking host ticket o)) [
        | inl e ↦ rw e (blocking-IsScoped host o e, read_findings-IsScoped host items)
        | inr e ↦ rw e (read_findings-IsScoped host items)
      ]

  pub missing_pass-Every :
      (verdict : String) (criteria : List CriterionResult)
      → missing_pass ticket verdict criteria ≡ false
      → verdict ≡ "pass"
      → Every (λ id. Mem id (with_status "pass" criteria)) ticket.criterion_ids
  missing_pass-Every verdict criteria h is_pass =
      let e : str_eq verdict "pass" ≡ true = (eq_iff verdict "pass").1 is_pass in
      let passed = with_status "pass" criteria in
      let a = is_within passed ticket.criterion_ids in
      let b = is_within ticket.criterion_ids passed in
      within-Every ticket.criterion_ids passed (&&-true a b (ground arith)).1
