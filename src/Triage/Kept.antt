-- ===== src/Triage/Kept.antt =====
-- local_first_orchestrator/ledger.py: what the statements of `create_triaged_children` leave alone.
use mathlib.Core.Path.{subst}
use local_first_orchestrator.Base.{
  ℕ, String, ◌≡◌, refl, sym, Bool-cases, inl, inr, not, none, some, List, [], ◌∷◌, str_eq, eq_iff,
  is_null, ◌==◌, find_where, Ensures, Ensures-ok, Ensures-err, Ensures-require, Ensures-row,
  Ensures-check,
}
use local_first_orchestrator.Ledger.{Ledger, Ticket, Event, Projection, TriageChild, Payload}
use local_first_orchestrator.Tickets.Lifecycle.{has_id}
use local_first_orchestrator.Stages.Readiness.{binding_of}
use local_first_orchestrator.Triage.Enqueue.{
  enqueue_create, authorizes_creation, key_is_free, is_row, is_same_intent,
}
use local_first_orchestrator.Triage.Children.{
  copy_binding, insert_criteria, insert_child, is_criterion, clashes,
}

-- The tickets are as they were.
abbrev pub SameTickets : Ledger → Unit {0} → Ledger → Type 0
SameTickets db _ s = s.tickets ≡ db.tickets

pub copy_binding-SameTickets :
    (parent : Ticket) (child : String) (now : ℕ) (db : Ledger)
    → Ensures (SameTickets db) (copy_binding parent child now db)
unfolding copy_binding
copy_binding-SameTickets parent child now db =
    Ensures-row (binding_of parent.id db) _ _ db (λ _. Ensures-err _)
      (λ b f. Ensures-require (is_null (binding_of child db)) _ _ db (λ _. Ensures-ok refl))

pub insert_criteria-SameTickets :
    (child : String) (criteria : List String) (db : Ledger)
    → Ensures (SameTickets db) (insert_criteria child criteria db)
unfolding insert_criteria
insert_criteria-SameTickets child [] db = Ensures-ok refl
insert_criteria-SameTickets child (c ∷ cs) db =
    Ensures-require (is_null (find_where (is_criterion child c) db.ticket_criteria)) _ _ db
      (λ _. insert_criteria-SameTickets child cs _)

pub insert_child-SameTickets :
    (new : TriageChild) (db : Ledger) → Ensures (SameTickets db) (insert_child new db)
unfolding insert_child
insert_child-SameTickets new db =
    Ensures-require (is_null (find_where (clashes new) db.triage_children)) _ _ db
      (λ _. Ensures-ok refl)

pub enqueue_create-SameTickets :
    (ticket : String) (event : ℕ) (payload : Payload) (key : String) (now : ℕ) (db : Ledger)
    → Ensures (SameTickets db) (enqueue_create ticket event payload key now db)
unfolding enqueue_create
enqueue_create-SameTickets ticket event payload key now db =
    Ensures-require (not (is_null (find_where (has_id ticket) db.tickets))) _ _ db (λ _.
      Ensures-require
        (authorizes_creation ticket (find_where (λ (e : Event). e.id == event) db.events)) _ _ db
        (λ _.
          Ensures-require
            (key_is_free ticket event
              (find_where (λ (p : Projection). str_eq p.idempotency_key key) db.projections))
            _ _ db
            (λ _.
              Ensures-row (find_where (is_row ticket event) db.projections) _ _ db
                (λ _. Ensures-ok refl)
                (λ p f. Ensures-check (is_same_intent payload key p) _ db (λ _. refl)))))

-- Every row that was found is still found.
pub record Keeps (old new : Ledger) : Type 0 where
  pub row :
      (id : String) (t : Ticket)
      → find_where (has_id id) old.tickets ≡ some t
      → find_where (has_id id) new.tickets ≡ some t

pub Keeps-refl : (db : Ledger) → Keeps db db
Keeps-refl db = record { row = λ id t f. f }

pub Keeps-after : {old mid new : Ledger} → Keeps old mid → Keeps mid new → Keeps old new
Keeps-after a b = record { row = λ id t f. b.row id t (a.row id t f) }

pub Keeps-same : {old mid new : Ledger} → new.tickets ≡ mid.tickets → Keeps old mid → Keeps old new
Keeps-same h k = record {
  row = λ id t f. subst (λ ts. find_where (has_id id) ts ≡ some t) (sym h) (k.row id t f);
}

-- A row with a new id hides no other.
pub insert-Keeps :
    (r : Ticket) (db : Ledger)
    → find_where (has_id r.id) db.tickets ≡ none
    → Keeps db (record db { tickets = r ∷ db.tickets })
unfolding find_where
insert-Keeps r db fresh = record {
  row = λ id t f. elim (Bool-cases (has_id id r)) [
    | inl e ↦
        let own = (eq_iff r.id id).0 e in
        let none_yet : find_where (has_id id) db.tickets ≡ none =
          subst (λ i. find_where (has_id i) db.tickets ≡ none) own fresh in
        absurd (cc)
    | inr e ↦ rw e f
  ];
}
