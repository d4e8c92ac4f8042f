-- ===== src/Contract/Roundtrip.antt =====
-- local_first_orchestrator/ticket.py and triage.py: a contract that is written, and read back.
use local_first_orchestrator.Base.{
  String, ◌≡◌, ◌↔◌, ◌∙◌, refl, sym, ap, List, [], ◌∷◌, ok, coalesce, ok_injective,
}
use local_first_orchestrator.Contract.{MicroTicket}
use local_first_orchestrator.Contract.Serial.{if_any, contract, ticket_from_contract}

-- What the reader keeps of a ticket
abbrev kept : MicroTicket → MicroTicket
kept t = record t {
  verification = record t.verification { timeout_seconds = 60; output_limit = 20000 };
  create_files = [];
}

any_files : (files : List String) → coalesce (if_any files) [] ≡ files
any_files [] = refl
any_files (f ∷ fs) = refl

read_back-contract : (t : MicroTicket) → ticket_from_contract (contract t) ≡ ok (kept t)
unfolding contract ticket_from_contract
read_back-contract t =
    ap (λ files. ok (record (kept t) { new_test_files = files })) (any_files t.new_test_files)

-- Whatever the ticket, its contract is read without an error: all comes back but the limits of its verification,
-- which become the default ones, and the files to create, which become none. So the ticket comes back as it was
-- exactly if its verification has the default limits and it creates no files.
pub ticket_from_contract-contract :
    (t : MicroTicket)
    → (ticket_from_contract (contract t)
        ≡ ok (record t {
          verification = record t.verification { timeout_seconds = 60; output_limit = 20000 };
          create_files = [];
        }))
      × ((ticket_from_contract (contract t) ≡ ok t) ↔ (
          (t.verification.timeout_seconds ≡ 60)
          × (t.verification.output_limit ≡ 20000)
          × (t.create_files ≡ [])))
ticket_from_contract-contract t = (
  read_back-contract t,
  (
    (λ same.
        let e : kept t ≡ t = ok_injective (sym (read_back-contract t) ∙ same) in
        (
          sym (ap (λ (x : MicroTicket). x.verification.timeout_seconds) e),
          sym (ap (λ (x : MicroTicket). x.verification.output_limit) e),
          sym (ap (λ (x : MicroTicket). x.create_files) e),
        )),
    (λ h. read_back-contract t ∙ rw (h.0, h.1, h.2) refl),
  ),
)
