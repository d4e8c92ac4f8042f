-- ===== src/Tickets/Leases.antt =====
-- local_first_orchestrator/ledger.py: a worker that has claimed a ticket keeps it until its lease ends.
use local_first_orchestrator.Base.{
  ℕ, ◌≤◌, ◌<◌, String, ◌≡◌, refl, sym, ◌∙◌, Bool, true, false, some, List, [], ◌∷◌, Every, arith,
  count_where-keep, select_where_other, str_lt, find_where, first_by, update_where,
  find_where-update_where, keeps-row, keeps-if, Ensures, Ensures-ok, Ensures-bind,
  transaction-keeps, Bool-cases, inl, inr, find_where-some, eq_iff, count_where, select_where, ◌==◌,
}
use local_first_orchestrator.States.{implementing}
use local_first_orchestrator.Ledger.{Ledger, Ticket, Payload}
use local_first_orchestrator.Tickets.Lifecycle.{
  has_id, claim_named, claim_ticket, claim_specific, claim_specific_operator,
  recover_expired_leases, is_claimable, is_expired, is_paused, is_named, older, start, reopen,
  recover_each, insert_by_id, sort_by_id, set_pause,
}

-- A call that claims or recovers tickets, with its clock.
pub data Call : Type 0 where
  claiming : String → ℕ → ℕ → Call
  claiming_one claiming_for_operator : String → String → ℕ → ℕ → Call
  recovering : ℕ → Call
  pausing : Bool → String → String → ℕ → Call

abbrev pub clock : Call → ℕ
clock (claiming owner lease_seconds now) = now
clock (claiming_one ticket owner lease_seconds now) = now
clock (claiming_for_operator ticket owner lease_seconds now) = now
clock (recovering now) = now
clock (pausing paused actor reason now) = now

abbrev pub perform : Call → Ledger → Ledger
perform (claiming owner lease_seconds now) db = (claim_ticket owner lease_seconds now db).1
perform (claiming_one ticket owner lease_seconds now) db =
    (claim_specific ticket owner lease_seconds now db).1
perform (claiming_for_operator ticket owner lease_seconds now) db =
    (claim_specific_operator ticket owner lease_seconds now db).1
perform (recovering now) db = (recover_expired_leases now db).1
perform (pausing paused actor reason now) db = (set_pause paused actor reason now db).1

unfoldable pub perform_all : List Call → Ledger → Ledger
perform_all [] db = db
perform_all (c ∷ cs) db = perform_all cs (perform c db)

-- Of the tickets, one has the id; it is `t`, which is being implemented under a lease that ends at
-- `expires`.
pub record IsHeld (id : String) (t : Ticket) (expires : ℕ) (tickets : List Ticket) : Type 0 where
  pub there : find_where (has_id id) tickets ≡ some t
  pub only : count_where (has_id id) tickets ≤ 1
  pub begun : t.state ≡ implementing
  pub lease : t.lease_expires_at ≡ some expires

module _ (id : String) (t : Ticket) (expires : ℕ) where
  abbrev Held : Ledger → Type 0
  Held db = IsHeld id t expires db.tickets

  untouched :
      (q : Ticket → Bool) (g : Ticket → Ticket) (ts : List Ticket)
      → IsHeld id t expires ts
      → ((x : Ticket) → has_id id (g x) ≡ has_id id x)
      → q t ≡ false
      → IsHeld id t expires (update_where q g ts)
  untouched q g ts h same other = record {
    there = rw (find_where-update_where q g (has_id id) ts same) (rw (h.there) (rw other));
    only = let k = count_where-keep q g (has_id id) ts same in omega (arith, h.only);
    begun = h.begun;
    lease = h.lease;
  }

  claimed_other :
      (ticket owner : String) (lease_seconds now : ℕ) (ts : List Ticket)
      → IsHeld id t expires ts
      → IsHeld id t expires (update_where (is_named now ticket) (start owner lease_seconds now) ts)
  claimed_other ticket owner lease_seconds now ts h =
      untouched (is_named now ticket) (start owner lease_seconds now) ts h (λ x. refl)
        (ground (arith, h.begun))

  claim_named-Held :
      (ticket owner : String) (lease_seconds now : ℕ) (extra : Payload) (db : Ledger)
      → Held db
      → Held (claim_named ticket owner lease_seconds now extra db).1
  unfolding claim_named
  claim_named-Held ticket owner lease_seconds now extra db h =
      let kept = claimed_other ticket owner lease_seconds now db.tickets h in
      keeps-if Held (count_where (is_named now ticket) db.tickets == 1) _ _ (λ _. kept) (λ _. kept)

  claim_ticket-Held :
      (owner : String) (lease_seconds now : ℕ) (db : Ledger)
      → Held db
      → Held (claim_ticket owner lease_seconds now db).1
  unfolding claim_ticket
  claim_ticket-Held owner lease_seconds now db h =
      keeps-if Held (is_paused db.controller) _ _ (λ _. h)
        (λ _.
          keeps-row Held (first_by older (is_claimable now) db.tickets) _ _ h
            (λ r _. claim_named-Held r.id owner lease_seconds now [] db h))

  claim_specific-Held :
      (ticket owner : String) (lease_seconds now : ℕ) (db : Ledger)
      → Held db
      → Held (claim_specific ticket owner lease_seconds now db).1
  unfolding claim_specific
  claim_specific-Held ticket owner lease_seconds now db h =
      keeps-if Held (is_paused db.controller) _ _ (λ _. h)
        (λ _. claim_named-Held ticket owner lease_seconds now [] db h)

  distinct : (r : Ticket) (db : Ledger) → has_id id r ≡ false → Held db → has_id r.id t ≡ false
  distinct r db other h = elim (Bool-cases (has_id r.id t)) [
    | inr e ↦ e
    | inl e ↦
        let own = find_where-some (has_id id) db.tickets h.there in
        let same : r.id ≡ id = sym ((eq_iff t.id r.id).0 e) ∙ (eq_iff t.id id).0 own in
        let yes : has_id id r ≡ true = (eq_iff r.id id).1 same in ground arith
  ]

  recover_each-Held :
      (now : ℕ) (ts : List Ticket) (db : Ledger)
      → Every (λ r. has_id id r ≡ false) ts
      → Held db
      → Ensures (λ _. Held) (recover_each now ts db)
  unfolding recover_each
  recover_each-Held now [] db other h = Ensures-ok h
  recover_each-Held now (r ∷ ts) db other h =
      Ensures-bind (recover_each now ts _) _
        (recover_each-Held now ts _ other.1
          (untouched (has_id r.id) (reopen now) db.tickets h (λ x. refl) (distinct r db other.0 h)))
        (λ ids s held. Ensures-ok held)

  insert_by_id-Every :
      (P : Ticket → Type 0) (r : Ticket) (ts : List Ticket)
      → P r
      → Every P ts
      → Every P (insert_by_id r ts)
  unfolding insert_by_id
  insert_by_id-Every P r [] p h = (p, tt)
  insert_by_id-Every P r (u ∷ us) p h = elim (Bool-cases (str_lt u.id r.id)) [
    | inl e ↦ rw e (h.0, insert_by_id-Every P r us p h.1)
    | inr e ↦ rw e (p, h)
  ]

  sort_by_id-Every : (P : Ticket → Type 0) (ts : List Ticket) → Every P ts → Every P (sort_by_id ts)
  unfolding sort_by_id
  sort_by_id-Every P [] h = tt
  sort_by_id-Every P (r ∷ ts) h =
      insert_by_id-Every P r (sort_by_id ts) h.0 (sort_by_id-Every P ts h.1)

  recover-Held :
      (now : ℕ) (db : Ledger) → now < expires → Held db → Held (recover_expired_leases now db).1
  unfolding recover_expired_leases
  recover-Held now db early h =
      let live : is_expired now t ≡ false = ground (arith, h.lease) in
      let other = select_where_other (has_id id) (is_expired now) db.tickets h.only h.there live in
      transaction-keeps Held
        (recover_each now (sort_by_id (select_where (is_expired now) db.tickets))) db h
        (recover_each-Held now _ db (sort_by_id-Every _ _ other) h)

  perform-Held : (c : Call) (db : Ledger) → clock c < expires → Held db → Held (perform c db)
  unfolding set_pause claim_specific_operator
  perform-Held (claiming owner lease_seconds now) db early h =
      claim_ticket-Held owner lease_seconds now db h
  perform-Held (claiming_one ticket owner lease_seconds now) db early h =
      claim_specific-Held ticket owner lease_seconds now db h
  perform-Held (claiming_for_operator ticket owner lease_seconds now) db early h =
      claim_named-Held ticket owner lease_seconds now _ db h
  perform-Held (recovering now) db early h = recover-Held now db early h
  perform-Held (pausing paused actor reason now) db early h = h

  -- A ticket that is being implemented under a lease keeps its row, the owner and the lease included,
  -- through any claims of tickets, recoveries of expired leases, pauses and resumptions before the lease
  -- ends, whoever makes them, where no other ticket has its id.
  pub lease_excludes :
      (cs : List Call) (db : Ledger)
      → IsHeld id t expires db.tickets
      → Every (λ c. clock c < expires) cs
      → find_where (has_id id) (perform_all cs db).tickets ≡ some t
  unfolding perform_all
  lease_excludes [] db h early = h.there
  lease_excludes (c ∷ cs) db h early =
      lease_excludes cs (perform c db) (perform-Held c db early.0 h) early.1
