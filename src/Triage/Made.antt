-- ===== src/Triage/Made.antt =====
-- local_first_orchestrator/ledger.py: the children that `create_triaged_children` makes.
use mathlib.Core.Path.{subst}
use local_first_orchestrator.Base.{
  ℕ, ◌<◌, ◌≤◌, String, ◌≡◌, ◌∙◌, refl, sym, ap, Bool, true, false, none, some, List, [], ◌∷◌,
  Result, ok, err, Tx, ◌>>=◌, ◌>>◌, eq_refl, is_null, is_null→none, find_where, Every, Ensures,
  Ensures-ok, Ensures-require, Ensures-weaken, Ensures-bind, Host, arith,
}
use local_first_orchestrator.Contract.{MicroTicket, patch_budget_policy}
use local_first_orchestrator.Contract.Readiness.{validate_ticket}
use local_first_orchestrator.Contract.Ready.{IsReady}
use local_first_orchestrator.Contract.Validated.{validated-IsReady}
use local_first_orchestrator.Ledger.{Ledger, Ticket, append_event}
use local_first_orchestrator.Tickets.Lifecycle.{has_id}
use local_first_orchestrator.Stages.Readiness.{ticket_from_ledger}
use local_first_orchestrator.Triage.Proposal.{as_not_ready}
use local_first_orchestrator.Triage.Enqueue.{triage_child_payload, triage_projection_key}
use local_first_orchestrator.Triage.Children.{
  NewChild, child_row, lift, when, maps_criteria, insert_ticket, copy_binding, insert_criteria,
  insert_child, create_child, create_each,
}
use local_first_orchestrator.Triage.Kept.{
  SameTickets, copy_binding-SameTickets, insert_criteria-SameTickets, insert_child-SameTickets,
  enqueue_create-SameTickets, Keeps, Keeps-refl, Keeps-after, Keeps-same, insert-Keeps,
}

-- A child that is made: it is ready, maps unresolved criteria of its parent only, and its row is found,
-- from which its contract can be read back, under the id that was drawn and without the files it creates.
pub record IsMade (parent : Ticket) (open_criteria : List String) (now : ℕ) (db : Ledger)
    (c : NewChild) : Type 0 where
  pub ready : IsReady c.ticket
  pub criteria : maps_criteria c.ticket open_criteria ≡ true
  pub found : find_where (has_id c.child_id) db.tickets ≡ some (child_row parent c now)
  pub reads_back :
      ticket_from_ledger (child_row parent c now)
      ≡ ok (record c.ticket { ticket_id = c.child_id; create_files = [] })

pub IsMade-kept :
    {parent : Ticket} {open_criteria : List String} {now : ℕ} {old new : Ledger} {c : NewChild}
    → Keeps old new
    → IsMade parent open_criteria now old c
    → IsMade parent open_criteria now new c
IsMade-kept k m = record {
  ready = m.ready;
  criteria = m.criteria;
  found = k.row _ _ m.found;
  reads_back = m.reads_back;
}

-- The statement that a check of the contract begins
ready_first :
    {Q : Unit {0} → Ledger → Type 0} (why : String) (r : Result MicroTicket)
    (k : Tx Ledger (Unit {0})) (s : Ledger)
    → ((u : MicroTicket) → r ≡ ok u → Ensures Q (k s))
    → Ensures Q ((lift (as_not_ready why r) >>= (λ _. k)) s)
ready_first why (ok u) k s h = record { holds = (h u refl).holds }
ready_first why (err e) k s h = record { holds = tt }

when-SameTickets :
    (b : Bool) (m : Tx Ledger (Unit {0})) (db : Ledger)
    → Ensures (SameTickets db) (m db)
    → Ensures (SameTickets db) (when b m db)
when-SameTickets true m db h = h
when-SameTickets false m db h = Ensures-ok refl

-- The limit on decompositions
abbrev pub Shallow : Ticket → Type 0
Shallow t = t.depth ≤ 2

-- What follows a statement that leaves the tickets alone leaves them as it found them.
same_then :
    (db : Ledger) (m n : Tx Ledger (Unit {0})) (s : Ledger)
    → s.tickets ≡ db.tickets
    → Ensures (SameTickets s) (m s)
    → ((s' : Ledger) → s'.tickets ≡ db.tickets → Ensures (SameTickets db) (n s'))
    → Ensures (SameTickets db) ((m >> n) s)
same_then db m n s same h k = Ensures-bind (m s) _ h (λ _ s' same'. k s' (same' ∙ same))

insert_ticket-outcome :
    (row : Ticket) (db : Ledger)
    → Ensures
        (λ (_ : Unit {0}) (s : Ledger).
          (find_where (has_id row.id) db.tickets ≡ none)
          × (s ≡ record db { tickets = row ∷ db.tickets }))
        (insert_ticket row db)
unfolding insert_ticket
insert_ticket-outcome row db =
    Ensures-require (is_null (find_where (has_id row.id) db.tickets)) _ _ db
      (λ fresh. Ensures-ok (is_null→none _ fresh, refl))

found_first :
    (row : Ticket) (db s : Ledger)
    → s.tickets ≡ row ∷ db.tickets
    → find_where (has_id row.id) s.tickets ≡ some row
unfolding find_where
found_first row db s e = rw e (rw (eq_refl row.id) refl)

module _ (host : Host) (parent : Ticket) (open_criteria : List String) (project : Bool)
    (now : ℕ) where
  -- A child that is made is ready, has a new id, and its row comes before the others.
  create_child-outcome :
      (c : NewChild) (db : Ledger)
      → Ensures
          (λ _ s.
            IsReady c.ticket
            × ((maps_criteria c.ticket open_criteria ≡ true)
                × ((find_where (has_id c.child_id) db.tickets ≡ none)
                    × (s.tickets ≡ child_row parent c now ∷ db.tickets))))
          (create_child host parent open_criteria project now c db)
  unfolding create_child append_event
  create_child-outcome c db =
      let row = child_row parent c now in
      ready_first _ (validate_ticket patch_budget_policy c.ticket) _ db (λ u valid.
        Ensures-require (maps_criteria c.ticket open_criteria) _ _ db (λ maps.
          Ensures-bind (insert_ticket row db) _ (insert_ticket-outcome row db) (λ _ mid inserted.
            Ensures-weaken _
              (λ _ s same. (
                validated-IsReady c.ticket u valid,
                (maps, (inserted.0, same ∙ ap (λ (d : Ledger). d.tickets) inserted.1)),
              ))
              (same_then mid (when project (copy_binding parent c.child_id now)) _ mid refl
                (when-SameTickets project _ mid
                  (copy_binding-SameTickets parent c.child_id now mid))
                (λ s1 h1.
                  same_then mid (insert_criteria c.child_id c.ticket.criterion_ids) _ s1 h1
                    (insert_criteria-SameTickets c.child_id c.ticket.criterion_ids s1)
                    (λ s2 h2.
                      same_then mid (insert_child _) _ s2 h2 (insert_child-SameTickets _ s2)
                        (λ s3 h3.
                          Ensures-weaken _ (λ _ s same. same ∙ h3)
                            (when-SameTickets project _ _ (
                              enqueue_create-SameTickets c.child_id _
                                (triage_child_payload parent.id c.child_id c.title c.ticket)
                                (triage_projection_key c.child_id) now _)))))))))

  create_child-IsMade :
      (c : NewChild) (db : Ledger)
      → Ensures
          (λ _ s. Keeps db s × IsMade parent open_criteria now s c)
          (create_child host parent open_criteria project now c db)
  unfolding ticket_from_ledger
  create_child-IsMade c db =
      let row = child_row parent c now in
      Ensures-weaken _
        (λ _ s (ready, (maps, (fresh, tickets))). (
          Keeps-same tickets (insert-Keeps row db fresh),
          record {
            ready = ready;
            criteria = maps;
            found = found_first row db s tickets;
            reads_back = refl;
          },
        ))
        (create_child-outcome c db)

  pub create_each-IsMade :
      (cs : List NewChild) (db : Ledger)
      → Ensures
          (λ _ s. Keeps db s × Every (IsMade parent open_criteria now s) cs)
          (create_each host parent open_criteria project now cs db)
  unfolding create_each
  create_each-IsMade [] db = Ensures-ok (Keeps-refl db, tt)
  create_each-IsMade (c ∷ cs) db =
      Ensures-bind (create_child host parent open_criteria project now c db) _
        (create_child-IsMade c db)
        (λ _ mid made.
          Ensures-weaken _
            (λ _ s rest. (Keeps-after made.0 rest.0, (IsMade-kept rest.0 made.1, rest.1)))
            (create_each-IsMade cs mid))

  -- No ticket is deeper than the limit.
  pub create_each-Shallow :
      (cs : List NewChild) (db : Ledger)
      → parent.depth < 2
      → Every Shallow db.tickets
      → Ensures
          (λ (_ : Unit {0}) (s : Ledger). Every Shallow s.tickets)
          (create_each host parent open_criteria project now cs db)
  unfolding create_each
  create_each-Shallow [] db low h = Ensures-ok h
  create_each-Shallow (c ∷ cs) db low h =
      Ensures-bind (create_child host parent open_criteria project now c db) _
        (create_child-outcome c db)
        (λ _ mid (_, (_, (_, tickets))).
          create_each-Shallow cs mid low (subst (Every Shallow) (sym tickets) (omega arith, h)))
