-- ===== src/Lib.antt =====
-- Boiler Reviews: course reviews with moderation, and a durable task queue.
--
-- The program (src/boiler_reviews/) keeps its state in SQL tables behind SQLAlchemy sessions. Students
-- write reviews, moderators publish them, and each published revision is added to its course's
-- aggregate inside the same transaction (reviews/service.py, reviews/stats.py); reconcile compares the
-- aggregates with a full scan. Long work runs as durable tasks that workers lease from a table
-- (tasks/queue.py), with fencing tokens against late workers and a repair of expired leases
-- (ops/recovery.py).
--
-- The files:
--   Prelude     shared names; Table (a list of rows with a key), Int, Json, Text (str.strip)
--   Exec        common/errors.py and session_scope of db/session.py: calls that change a state and may
--               raise; session_scope drops the writes of a call that raises
--   Tasks       Model (rows and leases), Queue (the operations of tasks/queue.py), Recovery
--               (ops/recovery.py), Schedule (any order of operations by any workers), Worker
--               (TaskWorker.run_once), Session (what a commit writes when others have worked meanwhile);
--               Fencing, Steps, History, Leases, Repair, Merge, Attempts and Late hold the proofs
--   Outbox      Events (tasks/outbox.py) and Projection (tasks/projections.py); Marks, Handled,
--               Claimed, Delivered and Applied hold the proofs
--   Identity    require_role of identity/service.py; Accounts has registration and authentication, and
--               Login who can log in
--   Legacy      Inspect and Import (inspect_legacy and import_legacy of db/legacy.py); Settles, Rows,
--               Reviews, Twice and Complete say what an import leaves behind
--   Reviews     Model (tables), Stats (adjust_aggregate, remove_empty_aggregate), Service (TRANSITIONS,
--               _transition), Policy (reviews/policy.py), Operations (create_review, edit_review,
--               submit_review, moderate_review), Reconcile (full_recompute, reconcile,
--               reconcile_and_record), Moderation (vote_helpful and report_review of
--               reviews/moderation.py); Totals and Sums say what an aggregate should hold, Transition,
--               Steps, Removal and Moves follow _transition, Inserts, Guards, Reachable and Duplicates
--               the requests, Votes the votes and reports, Agreement the reconciliation; Query
--               (review_page of reviews/query.py), Order and Pages (what a client that follows the
--               cursors is given)
--   Catalog     Ast and Codec (catalog/ast.py: the prerequisite expressions, as_dict and
--               expr_from_dict), Evaluate (evaluate of catalog/graph.py), Tokens, Parser and
--               Prerequisites (catalog/parser.py), Snapshots (activate_catalog of catalog/service.py);
--               Kleene and RoundTrip hold proofs, Grammar, Reads, Derives, Accepts and Grades are about
--               the parser, Active about the snapshots; Graph (edges and dependency_path of
--               catalog/graph.py), Paths and Dependencies (what its search finds)
--   Planning    Model (planning/model.py), Validator (planning/validator.py), Oracle
--               (planning/oracle.py); Met, Constraints, Entries, Groups and Sound show what a plan
--               without messages satisfies, Turns and Optimum what the search reports; Audit
--               (planning/audit.py), Allocation and Exclusive (how it allocates courses);
--               Alternatives (planning/alternatives.py), Dominance and Frontier (what its frontier keeps)
--   Sections    Scheduler (sections/scheduler.py), Search and Choice (what the search finds), Blocked (what a
--               blocked time does), Linked (sections/linked.py)
--
-- How code corresponds to definitions: a table is the list of its rows in the order of insertion; an
-- operation is a function from the tables to a result and the new tables; a test on a status set is a
-- Boolean function. The clock and fresh ids are arguments. Ids and worker names, which the code only
-- compares, are numbers, times are whole seconds. Primary and unique keys are tests of the inserts
-- that raise an IntegrityError; foreign keys are not modelled. An operation is one transaction,
-- and two of them are in some order: the code locks rows in its claims only, so this is an assumption
-- about the others. Where a caller's code runs inside a session (the handlers of tasks/outbox.py and of
-- tasks/queue.py), what others do meanwhile is part of the model: such a session keeps the rows as it has
-- read them, and its commit writes the columns that it has changed. Loops are recursions on lists;
-- expr_from_dict recurs on a limit on the depth of calls, the depth of its argument, which is enough,
-- and str of a number on the number, which is more than its digits. Sets
-- are lists in the order of iteration, and dicts are lists of entries in the order of insertion.
--
-- Not modelled: the web application, command line, logging and metrics (I/O), the CP-SAT solver (a
-- third-party package) and the statistics and rankings that compute in floats; of the catalog
-- the search for cycles and the import of snapshots, and of the sections the
-- calendar export.
pub mod Prelude
pub mod Exec
pub mod Tasks
pub mod Outbox
pub mod Identity
pub mod Legacy
pub mod Reviews
pub mod Catalog
pub mod Planning
pub mod Sections
