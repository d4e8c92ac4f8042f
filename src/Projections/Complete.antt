-- ===== src/Projections/Complete.antt =====
-- local_first_orchestrator/ledger.py: what a queued bundle consists of.
use mathlib.Core.Option.{some-injective}
use mathlib.Core.Path.{subst}
use local_first_orchestrator.Base.{
  ℕ, String, ◌≡◌, refl, sym, ◌∙◌, ◌&&◌, Option, none, some, Result, ok, err, Host, arith, str_eq,
  eq_refl, if◌then◌else◌, Bool-cases, inl, inr, find_where, count_where, find_where-update_where,
  count_where_self, Ensures, Ensures-ok, Ensures-err, Ensures-bind, Ensures-require, Ensures-row,
  Ensures-check, transaction-ensures, transaction_rollback, Error, is_null, not, &&-true,
}
use local_first_orchestrator.States.{CanonicalState, state_eq→≡}
use local_first_orchestrator.Ledger.{Ledger, Projection, Event, Comment, Payload}
use local_first_orchestrator.Ledger.Identity.{resolve_external_task_id}
use local_first_orchestrator.Projections.Outbox.{
  is_intent, is_other, is_stale, supersede, supersede_older,
}
use local_first_orchestrator.Projections.Bundle.{
  enqueue_projection_bundle, has_key, has_operation, has_ticket_id, has_event_id, enqueue_bundle,
  enqueue_for, queue_intent, queue_comment, new_intent, new_comment, comment_id, same_intent,
  same_comment, state_of, is_projectable_event, collides, state_key,
}

-- The outbox has the intent of the event, which tells the state.
pub record HasIntent (ticket : String) (event : ℕ) (state : CanonicalState) (db : Ledger)
    : Type 0 where
  pub intent : Projection
  pub found : find_where (is_intent ticket event) db.projections ≡ some intent
  pub tells : intent.state ≡ state

-- The event's intent and comment are queued, and no older intent of the ticket is open.
pub record IsBundled (host : Host) (ticket : String) (event : ℕ) (state : CanonicalState)
    (db : Ledger) : Type 0 where
  pub queued : HasIntent ticket event state db
  pub newest : count_where (is_stale ticket event) db.projections ≡ 0
  pub comment : Comment
  pub said : find_where (has_operation (comment_id host ticket event)) db.comments ≡ some comment

-- The other ledger has the same tickets and events.
pub record IsSame (old new : Ledger) : Type 0 where
  pub tickets : new.tickets ≡ old.tickets
  pub events : new.events ≡ old.events
  pub claims : new.stage_claims ≡ old.stage_claims

module _ (host : Host) (ticket : String) (event : ℕ) (state : CanonicalState) where
  Queued : Ledger → Ledger → Type 0
  Queued db db' = HasIntent ticket event state db' × IsSame db db'

  Current : Ledger → Ledger → Type 0
  Current db db' =
      HasIntent ticket event state db'
      × (count_where (is_stale ticket event) db'.projections ≡ 0)
      × IsSame db db'

  abbrev pub Bundled : Ledger → Ledger → Type 0
  Bundled db db' = IsBundled host ticket event state db' × IsSame db db'

  queue_intent-Queued :
      (old : Option Projection) (payload : Payload) (target : String) (now : ℕ) (db : Ledger)
      → find_where (is_intent ticket event) db.projections ≡ old
      → Ensures
          (λ _. Queued db)
          (queue_intent old (new_intent ticket event state payload target now) target db)
  unfolding find_where Queued same_intent
  queue_intent-Queued none payload target now db f =
      let new = new_intent ticket event state payload target now in
      Ensures-require (is_null (find_where (has_key (state_key event)) db.projections)) _ _ _ (λ _.
        Ensures-ok (
          record { intent = new; found = rw (eq_refl ticket) (ground arith); tells = refl },
          record { tickets = refl; events = refl; claims = refl },
        ))
  queue_intent-Queued (some old) payload target now db f =
      let new = new_intent ticket event state payload target now in
      Ensures-require (same_intent old new) _ _ _ (λ same.
        Ensures-check (not (is_other old.external_task_id target)) _ db (λ _. (
          record {
            intent = old;
            found = f;
            tells = state_eq→≡ old.state state (&&-true _ _ (&&-true _ _ same).0).0;
          },
          record { tickets = refl; events = refl; claims = refl },
        )))

  supersede-Current :
      (now : ℕ) (old db : Ledger)
      → Queued old db
      → Current old (supersede_older ticket event now db).1
  unfolding supersede_older Queued Current
  supersede-Current now old db q = (
    record {
      intent =
          if is_stale ticket event (q.0).intent
          then supersede event now (q.0).intent
          else (q.0).intent;
      found =
          rw
            (find_where-update_where (is_stale ticket event) (supersede event now)
              (is_intent ticket event) db.projections (λ x. refl))
            (rw ((q.0).found) refl);
      tells = ground (arith, (q.0).tells);
    },
    count_where_self (is_stale ticket event) (supersede event now) db.projections
        (λ x. ground arith),
    record { tickets = q.1.tickets; events = q.1.events; claims = q.1.claims },
  )

  queue_comment-Bundled :
      (said : Option Comment) (target evidence : String) (now : ℕ) (old db : Ledger)
      → find_where (has_operation (comment_id host ticket event)) db.comments ≡ said
      → Current old db
      → Ensures
          (λ _. Bundled old)
          (queue_comment said (new_comment host ticket event state target evidence now) db)
  unfolding find_where Current same_comment
  queue_comment-Bundled none target evidence now old db f c =
      let new = new_comment host ticket event state target evidence now in
      Ensures-require (is_null (find_where (collides new) db.comments)) _ _ db (λ _. Ensures-ok (
        record {
          queued = record { intent = c.0.intent; found = c.0.found; tells = c.0.tells };
          newest = c.1;
          comment = new;
          said = rw (eq_refl (comment_id host ticket event)) refl;
        },
        record { tickets = c.2.tickets; events = c.2.events; claims = c.2.claims },
      ))
  queue_comment-Bundled (some old_comment) target evidence now old db f c =
      let new = new_comment host ticket event state target evidence now in
      Ensures-check (same_comment old_comment new) _ db
        (λ _. (record { queued = c.0; newest = c.1; comment = old_comment; said = f }, c.2))

  enqueue_for-Bundled :
      (evidence : String) (payload : Payload) (expected : Option String) (target : Result String)
      (now : ℕ) (db : Ledger)
      → Ensures
          (λ _. Bundled db)
          (enqueue_for host ticket event state evidence payload expected target now db)
  unfolding enqueue_for
  enqueue_for-Bundled evidence payload expected (err e) now db = Ensures-err e
  enqueue_for-Bundled evidence payload expected (ok target) now db =
      let old = find_where (is_intent ticket event) db.projections in
      Ensures-require (not (is_other expected target)) _ _ db (λ _.
        Ensures-bind (queue_intent old (new_intent ticket event state payload target now) target db)
          _ (queue_intent-Queued old payload target now db refl)
          (λ _ s q.
            let s' = (supersede_older ticket event now s).1 in
            queue_comment-Bundled
              (find_where (has_operation (comment_id host ticket event)) s'.comments) target
              evidence now db s' refl (supersede-Current now db s q)))

told_state :
    (ticket : String) (e : Event) (s state : CanonicalState)
    → state_of ticket e ≡ some s
    → e.to_state ≡ some state
    → s ≡ state
told_state ticket e s state p to =
    elim (Bool-cases (str_eq e.entity_id ticket && is_projectable_event e)) [
      | inl told ↦ let q : e.to_state ≡ some s = rw told at p in some-injective _ _ (sym q ∙ to)
      | inr untold ↦ let q = rw untold at p in absurd (cc)
    ]

-- A bundle that was queued for an event has the event's state.
pub enqueue_bundle-IsBundled :
    (host : Host) (ticket : String) (event : ℕ) (state : CanonicalState) (evidence : String)
    (payload : Payload) (expected : Option String) (now : ℕ) (e : Event) (db : Ledger)
    → find_where (has_event_id event) db.events ≡ some e
    → e.to_state ≡ some state
    → Ensures
        (λ _. Bundled host ticket event state db)
        (enqueue_bundle host ticket event evidence payload expected now db)
unfolding enqueue_bundle
enqueue_bundle-IsBundled host ticket event state evidence payload expected now e db f to =
    let target =
      resolve_external_task_id db.tickets db.events db.runtime_stages db.projections ticket in
    Ensures-require (not (is_null (find_where (has_ticket_id ticket) db.tickets))) _ _ db (λ _.
      Ensures-row (find_where (has_event_id event) db.events) _ _ db (λ _. Ensures-err _)
        (λ e' f'.
          Ensures-row (state_of ticket e') _ _ db (λ _. Ensures-err _)
            (λ s p.
              let same_event : e' ≡ e = some-injective _ _ (sym f' ∙ f) in
              let same_state = told_state ticket e' s state p (rw same_event to) in
              subst
                (λ x.
                  Ensures (λ _. Bundled host ticket event x db)
                    (enqueue_for host ticket event s evidence payload expected target now db))
                same_state
                (enqueue_for-Bundled host ticket event s evidence payload expected target now db))))

-- Where the event of the id given is to tell the board a state, a call of `enqueue_projection_bundle`
-- either raises, and the ledger is as before; or it returns, and then the outbox has the intent of the
-- event, which tells that state, no older intent of the ticket that is neither acknowledged nor
-- superseded, and the event's comment, and the tickets, the events and the
-- claims on stages are as before.
pub bundle_complete :
    (host : Host) (ticket : String) (event : ℕ) (state : CanonicalState) (evidence : String)
    (payload : Payload) (expected : Option String) (now : ℕ) (e : Event) (db : Ledger)
    → find_where (has_event_id event) db.events ≡ some e
    → e.to_state ≡ some state
    → (let r = enqueue_projection_bundle host ticket event evidence payload expected now db in
        ((x : Error) → r.0 ≡ err x → r.1 ≡ db)
        × (r.0 ≡ ok tt → IsBundled host ticket event state r.1 × IsSame db r.1))
unfolding enqueue_projection_bundle
bundle_complete host ticket event state evidence payload expected now e db f to =
    let body = enqueue_bundle host ticket event evidence payload expected now in
    (
      λ x h. transaction_rollback body db h,
      λ h.
          transaction-ensures (λ _. Bundled host ticket event state db) body db
            (enqueue_bundle-IsBundled host ticket event state evidence payload expected now e db f
              to)
            h,
    )
