-- ===== src/Review/Sorted.antt =====
-- local_first_orchestrator/review.py: which items of an answer's findings become findings of the review.
use Prim.Native.String.{[] as empty}
use mathlib.Core.Path.{sym}
use mathlib.Core.List.{Mem, mem-cons, not-mem-nil}
use mathlib.Core.Logic.Or
use mathlib.Core.Bool.{Bool-set}
use local_first_orchestrator.Base.{
  String, ◌≡◌, ◌≢◌, Bool-cases, inl, inr, refl, true, ◌&&◌, &&-true, List, [], ◌∷◌, str_eq, eq_iff,
  Host, Json, json_null, json_bool, json_number, json_text, json_list, json_object, Fields,
  contains,
}
use local_first_orchestrator.Contract.{MicroTicket, declared_ticket_paths}
use local_first_orchestrator.Review.Normalize.{
  ReviewFinding, text_at, is_filled, failure_fingerprint, in_scope, finding_at, is_blocking,
  read_findings,
}
use local_first_orchestrator.Review.Scoped.{blocking-IsScoped, is_filled-nonempty}

-- An item that blocks a ticket: it says so, is about a criterion and a declared file of the ticket, and says where and
-- what is wrong, how it is repaired and verified, and what tells it from others.
pub record IsBlocker (ticket : MicroTicket) (o : Fields) : Type 0 where
  pub severity : text_at "severity" o ≡ "blocking"
  pub criterion : Mem (text_at "criterion_id" o) ticket.criterion_ids
  pub file : Mem (text_at "file" o) (declared_ticket_paths ticket)
  pub symbol : text_at "symbol" o ≢ empty
  pub evidence : text_at "evidence" o ≢ empty
  pub minimal_repair : text_at "minimal_repair" o ≢ empty
  pub verification : text_at "verification" o ≢ empty
  pub fingerprint_input : text_at "fingerprint_input" o ≢ empty

-- A finding that has the fields of an item, and the fingerprint of them
pub record IsReport (host : Host) (ticket : MicroTicket) (o : Fields) (f : ReviewFinding)
    : Type 0 where
  pub criterion : f.criterion_id ≡ text_at "criterion_id" o
  pub file : f.file ≡ text_at "file" o
  pub symbol : f.symbol ≡ text_at "symbol" o
  pub evidence : f.evidence ≡ text_at "evidence" o
  pub minimal_repair : f.minimal_repair ≡ text_at "minimal_repair" o
  pub verification : f.verification ≡ text_at "verification" o
  pub fingerprint :
      f.fingerprint
      ≡ failure_fingerprint host ticket.ticket_id "review"
          (text_at "criterion_id" o)
          (text_at "file" o)
          (text_at "symbol" o)
          (text_at "fingerprint_input" o)

-- How the items of an answer are told apart, in their order: a blocker becomes a finding, another object one more
-- suggestion, and what is no object nothing.
pub data Sorts (host : Host) (ticket : MicroTicket)
    : List Json → List ReviewFinding → List String → Type 0 where
  done : Sorts host ticket [] [] []
  reported :
      {o : Fields} {f : ReviewFinding} {items : List Json} {fs : List ReviewFinding}
      {ss : List String}
      → IsBlocker ticket o
      → IsReport host ticket o f
      → Sorts host ticket items fs ss
      → Sorts host ticket (json_object o ∷ items) (f ∷ fs) ss
  suggested :
      {o : Fields} {items : List Json} {fs : List ReviewFinding} {ss : List String}
      → ¬ IsBlocker ticket o
      → Sorts host ticket items fs ss
      → Sorts host ticket
          (json_object o ∷ items)
          fs
          ("review finding downgraded: malformed or outside ticket criterion/file scope" ∷ ss)
  skipped :
      {j : Json} {items : List Json} {fs : List ReviewFinding} {ss : List String}
      → ((o : Fields) → j ≢ json_object o)
      → Sorts host ticket items fs ss
      → Sorts host ticket (j ∷ items) fs ss

Mem-contains : (s : String) (ss : List String) → Mem s ss → contains s ss ≡ true
Mem-contains s [] m = absurd (not-mem-nil m)
Mem-contains s (t ∷ ts) m = elim (Bool-cases (str_eq t s)) [
  | inl e ↦ rw e refl
  | inr e ↦ rw e (
      Or.elim (Bool-set _ _) (mem-cons.0 m)
        (λ same. absurd (let yes = (eq_iff t s).1 (sym same) in cc)) (Mem-contains s ts))
]

filled : (s : String) → s ≢ empty → is_filled s ≡ true
filled s h = elim (Bool-cases (str_eq s empty)) [
  | inl e ↦ absurd (h ((eq_iff s empty).0 e))
  | inr e ↦ rw e refl
]

module _ (host : Host) (ticket : MicroTicket) where
  blocking-IsBlocker : (o : Fields) → is_blocking host ticket o ≡ true → IsBlocker ticket o
  blocking-IsBlocker o h =
      let b = str_eq (text_at "severity" o) "blocking" in
      let s = in_scope ticket (finding_at host ticket o) in
      let first = &&-true (b && s) (is_filled (text_at "fingerprint_input" o)) h in
      let scoped = blocking-IsScoped ticket host o h in
      record {
        severity = (eq_iff (text_at "severity" o) "blocking").0 (&&-true b s first.0).0;
        criterion = scoped.criterion;
        file = scoped.file;
        symbol = scoped.symbol;
        evidence = scoped.evidence;
        minimal_repair = scoped.minimal_repair;
        verification = scoped.verification;
        fingerprint_input = is_filled-nonempty (text_at "fingerprint_input" o) first.1;
      }

  IsBlocker-blocking : (o : Fields) → IsBlocker ticket o → is_blocking host ticket o ≡ true
  IsBlocker-blocking o h =
      rw
        (
          (eq_iff (text_at "severity" o) "blocking").1 h.severity,
          Mem-contains (text_at "criterion_id" o) ticket.criterion_ids h.criterion,
          Mem-contains (text_at "file" o) (declared_ticket_paths ticket) h.file,
          filled (text_at "symbol" o) h.symbol,
          filled (text_at "evidence" o) h.evidence,
          filled (text_at "minimal_repair" o) h.minimal_repair,
          filled (text_at "verification" o) h.verification,
          filled (text_at "fingerprint_input" o) h.fingerprint_input,
        )
        refl

  pub read_findings-Sorts :
      (items : List Json)
      → Sorts host ticket items
          (read_findings host ticket items).0
          (read_findings host ticket items).1
  unfolding read_findings
  read_findings-Sorts [] = done
  read_findings-Sorts (json_null ∷ items) = skipped (λ o e. absurd (cc)) (read_findings-Sorts items)
  read_findings-Sorts (json_bool b ∷ items) =
      skipped (λ o e. absurd (cc)) (read_findings-Sorts items)
  read_findings-Sorts (json_number n ∷ items) =
      skipped (λ o e. absurd (cc)) (read_findings-Sorts items)
  read_findings-Sorts (json_text s ∷ items) =
      skipped (λ o e. absurd (cc)) (read_findings-Sorts items)
  read_findings-Sorts (json_list l ∷ items) =
      skipped (λ o e. absurd (cc)) (read_findings-Sorts items)
  read_findings-Sorts (json_object o ∷ items) = elim (Bool-cases (is_blocking host ticket o)) [
    | inl e ↦ rw e (
        reported (blocking-IsBlocker o e)
          (record {
            criterion = refl;
            file = refl;
            symbol = refl;
            evidence = refl;
            minimal_repair = refl;
            verification = refl;
            fingerprint = refl;
          })
          (read_findings-Sorts items))
    | inr e ↦ rw e (
        suggested (λ b. let yes = IsBlocker-blocking o b in absurd (cc))
          (read_findings-Sorts items))
  ]
