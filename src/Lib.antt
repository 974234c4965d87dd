-- ===== src/Lib.antt =====
-- Reconciliation workbench: a Django application in which anonymous, expiring workspaces upload two
-- sides of transactions, reconcile them by background jobs, and review the proposed matches.
--
-- The parts that are modelled, and how they interact:
-- - Common: Boolean tests, lists over the native numbers, integers, and statements over a mutable
--   state that may raise (`Action`), with transactions that restore the state (`atomic`).
-- - Workspaces: reconciliation/domain/workspaces.py (Domain), the tables of workspaces/models.py and
--   jobs/models.py (Tables), workspaces/lifecycle.py (Lifecycle) and workspaces/quotas.py (Quotas).
--   Access, Revocation hold the proofs; Samples and Tests apply them.
-- - Jobs: reconciliation/domain/jobs.py (Domain), the services of jobs/services.py (Services) and its
--   execution loop `claim_and_execute` (Worker). Enqueueing and completing work reserve and release
--   the quota of the workspace, which checks its lifecycle. Steps is the relation of all calls on one
--   database; Retry, Claims, Leases, Standing, Exclusion, Fencing, Closed, Constraints and Soundness
--   hold the proofs.
-- - Assignment: `solve_component` of reconciliation/domain/assignment.py (Component), its
--   specification by plans (Plans), and the proof of its optimality (Columns, Costs, Selection,
--   Optimal). Gating is the loop of reconciliation/domain/gating.py that solves the component again
--   without each selected edge; Selected and Gated hold its proofs. Exhaustive is a solver that meets
--   the documented behaviour of the third-party one.
-- - Review: reconciliation/domain/review.py: authorities and commands (Domain), replacement previews
--   (Previews), the health of a decision (Health), and the lineage of cases (Transitions).
--   Replacement, Order, Normal, Commands, Bounds and Lineage hold proofs.
-- - References: `preprocess_references` of reconciliation/domain/references.py, over the inputs and
--   outcomes of reconciliation/domain/reconciliation.py (Domain): the decisions (Preprocessing), then
--   the trusted references and the result (Trusted). Counts, Partition, Reserved, Linked, Conflicted,
--   Pending, Result and Sorted lead to Complete, by the number of places that an identity has; Gone
--   and Decided follow the records that leave.
-- - Resolutions: `DecisionCommandService` of resolutions/services.py over the tables of
--   resolutions/models.py (Tables), its checks (Checks) and its commands (Commands). A command enters
--   the workspace, whose lifecycle may revoke it, and takes its authority and its conflicts from
--   Review. Consistency says what the claims stand for; Rows, Writes, Lifecycle, Conflicts, Commits,
--   Runs and Soundness lead to it, branch by branch; Steps is the relation of all calls on one store,
--   and Reachable, Exclusive and Stale hold what follows. Returning and Replacing say that the writes
--   of a REPLACE go through, and Approval that an approved preview does.
--
-- A service call is a function from the database to a result and the next database. The database is a
-- record of tables, a table a list of rows in the order of their creation. UUIDs, tokens and the
-- identities of a run are numbers; an instant or a duration is a number of microseconds. What the
-- code reads from outside is an argument: the clock, the identities and tokens that are drawn, the
-- rows that other transactions have locked, the executor of a job, the solver of an assignment, and
-- the settings. The code's integers are unbounded, so are the model's; no definition uses fuel.
--
-- Not modelled: the range errors of `timedelta` and `datetime`, which a retry's delay meets for very
-- large attempt counts; logging, the parsing of identities, sessions and requests, the ingestion of
-- uploaded files, the generation and scoring of candidates, the comparison of pairs, the run services,
-- the read queries, exports and views.
pub mod Common
pub mod Workspaces
pub mod Jobs
pub mod Assignment
pub mod Review
pub mod Resolutions
pub mod References
