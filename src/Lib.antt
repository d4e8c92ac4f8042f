-- ===== src/Lib.antt =====
-- The verification library of the Local First Orchestrator: the durable ledger of an orchestrator
-- that lets local models implement tickets under supervision, and the components that write to it.
--
-- The program's parts and the files that model them (paths from the repository's root):
-- * local_first_orchestrator/states.py, the canonical states of a ticket: States.antt. The allowed
--   transitions are `allowed`; States/Paths.antt reasons on paths of transitions.
-- * local_first_orchestrator/ledger.py, the SQLite store that every part goes through: Ledger.antt
--   is its state, a record with a list of rows for each table that a modelled operation touches
--   (the rows are in Ledger/Rows.antt and StageRows.antt, from the CREATE TABLE statements), and
--   the event log. Ledger/Identity.antt is the board identity of a ticket.
-- * local_first_orchestrator/usage_governor.py, the budget of paid model calls: Governor.antt, with
--   Authorize, Settle (complete, release, unknown, provider_rejected), Approve, and the incident
--   alerts of ledger.py that a rejection queues, in Alerts.
-- * local_first_orchestrator/comment_delivery.py and the comment outbox of ledger.py:
--   Comments.antt. Outbox is the table's operations, Delivery the worker's turn over any board.
-- * local_first_orchestrator/state_projection.py and the projection outbox of ledger.py:
--   Projections.antt. Bundle is what a state event queues for the board, Outbox the table's
--   operations with the freshness gate (prepare_claimed_state_projection), Delivery the worker over
--   any board.
-- * The lifecycle of tickets in ledger.py: Tickets.antt, with Lifecycle (transition, claim_ticket,
--   claim_specific, recover_expired_leases, pause and resume) and Attempts.
-- * The lease of a scheduler's tick in ledger.py: Scheduler.antt.
-- * local_first_orchestrator/gateway_notification.py and the notification outbox of ledger.py:
--   Gateway.antt.
-- * local_first_orchestrator/paid_model.py, which makes the calls that the governor authorizes:
--   PaidModel.antt.
-- * local_first_orchestrator/review.py, the review of a candidate: Review.antt. Packet is the
--   bounded text that a reviewer sees, Normalize what is kept of the answer (normalize_review),
--   Repair what the answer does to its ticket (SameTicketRepairCoordinator.apply), and Records the
--   tables of ledger.py that it writes. The contract of a ticket that it is read against is
--   Contract.antt; JSON values are Base/Documents.antt.
-- * local_first_orchestrator/ticket.py, source_languages.py and readiness.py: Contract.antt, with
--   the paths that a contract may name (Paths), the languages of files (Languages), validate_ticket
--   (Readiness) and the JSON form (Serial, with the reader of triage.py).
-- * The claims on a ticket's stages in ledger.py, which let a scheduler's effects happen once:
--   Stages.antt. Claims starts and ends a claim, Readiness and Effect are the readiness of a
--   ticket, checked and applied, Reconciliation and Decide what may be done about a claim whose
--   scheduler was lost (reconciliation.py), Release and Retire what an operator may do, Policies
--   the registered crash policies; Phases is the abstract life of a claim.
-- * local_first_orchestrator/triage.py and the children of a ticket in ledger.py: Triage.antt.
--   Proposal is normalize_triage, Coordinator the apply and resolve_parent of TriageCoordinator,
--   Children and Create create_triaged_children, Enqueue the cards that it queues for the board.
--   Base/Dumps.antt is json.dumps with sorted names.
-- * local_first_orchestrator/decomposition.py, the check of a plan: Planning.antt. Plan is the plan
--   and the feature, Validate PlanValidator.validate, and Graph its search for a cycle among the
--   dependencies of the active tickets.
-- The governor, the outboxes and the scheduler meet in the ledger only: each operation is a
-- transaction on it, and the workers' turns are sequences of such transactions.
--
-- How the code is modelled:
-- * A `with self._transaction()` block is a body in the monad `Tx` (Base/Transaction.antt) run by
--   `transaction`: a body that raises gives the error and the state that it began in. An operation
--   that raises nothing after its first write is a function on the ledger.
-- * SQL statements are functions on lists of rows (Base/Tables.antt). A NULL is `none`. A text
--   column that holds a member of an enumeration has the enumeration's type; a primary key that the
--   code draws at random is an argument, and its uniqueness is a check that raises
--   `integrity_error`.
-- * What other processes commit between two transactions of one call is an argument where the code
--   provides for it (`meanwhile` of PaidModel/Invoke.antt, before a call is inserted or a rejected one claimed
--   again). A worker's turn over the board or the gateway runs as a whole.
-- * The clock is an argument, `now`, read once per operation. Events are listed newest first. A
--   JSON payload is a list of names and plain values, or lists of texts.
-- * SHA-256 and the regular expressions that redact secrets or normalize an error's text are the
--   fields of `Host`; the board is a parameter of the delivery worker. The failure injectors of the
--   tests are left out.
-- * Numbers are natural; the signed limits of `configure` are integers, and the
--   calls of `approve`, which refuses any number but one, a natural number. SQLite's columns
--   and Python's integers are not bounded here. Fuel is given to `decimal`, one more than its
--   argument, and a number has no more digits than that; and to `dfs`, one more than the number of
--   keys, each of which is entered once.
--
-- Not modelled: subprocesses, git, HTTP and model calls (controller.py, validation.py, local_qwen.py,
-- git_adapter.py), the signed recovery and release boundaries, the claims on the stages that work with them, the
-- operations that set the start of a claim back or delete it (supersede_stale_routing_after_review,
-- claim_next_scheduler_review and the recoveries of ledger.py), the
-- activation of a plan, the import of tickets, the command line and the dashboard.
pub mod Base
pub mod States
pub mod Contract
pub mod Planning
pub mod Ledger
pub mod Governor
pub mod Comments
pub mod Projections
pub mod Tickets
pub mod Scheduler
pub mod Stages
pub mod Triage
pub mod Gateway
pub mod PaidModel
pub mod Review
