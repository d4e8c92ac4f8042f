-- ===== src/Tickets/Attempts.antt =====
-- local_first_orchestrator/ledger.py: the attempts at a ticket and the stages that were begun.
use local_first_orchestrator.Base.{
  ℕ, ◌+◌, String, ok, err, integrity_error, not, Bool, true, false, ◌&&◌, ◌||◌, List, [], ◌∷◌,
  Result, Tx, ◌>>=◌, ◌>>◌, pure, gets, modify, transaction, ◌==◌, str_eq, is_null, if◌then◌else◌,
  find_where, count_where, ltb, none,
}
use local_first_orchestrator.Ledger.{Ledger, Attempt, StageRun, append_event, num, text}
use local_first_orchestrator.Tickets.Lifecycle.{ticket_event, has_id}

abbrev pub of_ticket : String → Attempt → Bool
of_ticket ticket a = str_eq a.ticket_id ticket

abbrev pub is_attempt : String → ℕ → Attempt → Bool
is_attempt ticket number a = of_ticket ticket a && a.attempt_number == number

-- The foreign key `ticket_id REFERENCES tickets(id)`
abbrev pub is_known : String → Ledger → Bool
is_known ticket db = not (is_null (find_where (has_id ticket) db.tickets))

-- INSERT OR IGNORE, which ignores a duplicate but not a missing ticket
unfoldable pub ensure_attempt : String → ℕ → ℕ → Ledger → Result (Unit {0}) × Ledger
ensure_attempt ticket number now db =
    if is_null (find_where (is_attempt ticket number) db.attempts)
    then (if is_known ticket db
        then (
          ok tt,
          record db {
            attempts =
                (record { ticket_id = ticket; attempt_number = number; created_at = now })
                ∷ db.attempts;
          },
        )
        else (err integrity_error, db))
    else (ok tt, db)

unfoldable pub attempt_count : String → Ledger → ℕ
attempt_count ticket db = count_where (of_ticket ticket) db.attempts

abbrev larger : ℕ → ℕ → ℕ
larger m n = if ltb m n then n else m

-- COALESCE(MAX(attempt_number), 0)
unfoldable pub last_attempt : String → List Attempt → ℕ
last_attempt ticket [] = 0
last_attempt ticket (a ∷ rows) =
    let rest = last_attempt ticket rows in
    if of_ticket ticket a then larger a.attempt_number rest else rest

unfoldable pub next_attempt_number : String → Ledger → ℕ
unfolding last_attempt
next_attempt_number ticket db = last_attempt ticket db.attempts + 1

-- A row that the two UNIQUE constraints of stage_runs keep from being written.
abbrev pub clashes : String → ℕ → String → String → StageRun → Bool
clashes ticket number stage key r =
    str_eq r.idempotency_key key
    || str_eq r.ticket_id ticket && r.attempt_number == number && str_eq r.stage stage

write_stage : StageRun → ℕ → Tx Ledger Bool
unfolding append_event
write_stage r now = do
  modify (λ db. record db { stage_runs = r ∷ db.stage_runs })
  _ ←
      append_event
        (ticket_event r.ticket_id "stage_started" none none "controller" (
          ("attempt_number", num r.attempt_number)
          ∷ ("stage", text r.stage)
          ∷ ("idempotency_key", text r.idempotency_key)
          ∷ []))
        now
  pure true

-- Whether the row can be written: no constraint of the table is violated.
abbrev pub is_writable : String → ℕ → String → String → Ledger → Bool
is_writable ticket number stage key db =
    is_null (find_where (clashes ticket number stage key) db.stage_runs) && is_known ticket db

unfoldable pub record_stage : String → ℕ → String → String → ℕ → Ledger → Result Bool × Ledger
unfolding transaction write_stage
record_stage ticket number stage key now = transaction (do
  writable ← gets (is_writable ticket number stage key)
  (if writable
      then write_stage
          (record {
            ticket_id = ticket;
            attempt_number = number;
            stage = stage;
            idempotency_key = key;
            created_at = now;
          })
          now
      else pure false))

unfoldable pub stage_count : String → Ledger → ℕ
stage_count ticket db = count_where (λ (r : StageRun). str_eq r.ticket_id ticket) db.stage_runs
