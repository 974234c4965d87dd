-- ===== src/Jobs/Closed.antt =====
-- Completing or failing work whose workspace can no longer be entered.
use reconciliation_workbench.Common.{
  settle-raise, ℕ, ◌≡◌, true, some, raise, Error, Option, none, arith, inl, inr, List, ◌∷◌,
}
use reconciliation_workbench.Workspaces.Domain.{QuotaAmounts}
use reconciliation_workbench.Workspaces.Tables.{
  Workspace, WorkItem, JobAttempt, FailureCategory, JobState, JobAttemptOutcome, Database,
  attempt_of, item_of, workspace_of, attempt_shape,
}
use reconciliation_workbench.Workspaces.Quotas.{release, locked_workspace}
use reconciliation_workbench.Workspaces.Access.{IsOpen, require_active_cases}
use reconciliation_workbench.Jobs.Domain.{RetryOutcome, RetryPolicy}
use reconciliation_workbench.Jobs.Services.{
  one_active_job, mark_succeeded, mark_failed, settle_success, settle_failure, succeed, fail,
  leased_item, holds_token, ClaimedWork, update_item, update_attempt, finished_row, closed_attempt,
  failed_attempt, write_attempt,
}
use reconciliation_workbench.Jobs.Worker.{Executor, Execution, execute_all, execute, record_success}

-- The token, whose attempt is given, is the current one of a work item whose workspace is there and cannot be entered.
pub record IsClosed (clock token : ℕ) (attempt : JobAttempt) (db : Database) : Type 0 where
  pub granted : attempt_of token db ≡ some attempt
  pub item : WorkItem
  pub leased : item_of attempt.work_item db ≡ some item
  pub current : holds_token item.current_token token ≡ true
  pub workspace : Workspace
  pub there : workspace_of item.workspace db ≡ some workspace
  pub closed : ¬ IsOpen workspace clock

-- What a success of such a token raises, by the failure category of its attempt: that the workspace
-- is unavailable, or, ahead of it, the error of the check constraint on the attempt's outcome.
abbrev pub refusal : Option FailureCategory → Error
refusal none = Error.workspace_unavailable
refusal (some c) = Error.integrity_error

module _ (m u : ℕ) (limits : QuotaAmounts) (clock : ℕ) where
  release_closed :
      (k : ℕ) (released : QuotaAmounts) (w : Workspace) (db : Database)
      → workspace_of k db ≡ some w
      → ¬ IsOpen w clock
      → release m u limits clock k released db ≡ (raise Error.workspace_unavailable, db)
  unfolding release locked_workspace
  release_closed k released w db found closed = elim (require_active_cases m u w clock db) [
    | inl (opened, e) ↦ absurd (closed opened)
    | inr e ↦ ground arith
  ]

  succeed_closed :
      (token now : ℕ) (a : JobAttempt) (i : WorkItem) (w : Workspace) (db : Database)
      → attempt_of token db ≡ some a
      → workspace_of i.workspace db ≡ some w
      → ¬ IsOpen w clock
      → (succeed m u limits clock token now i db).0 ≡ raise (refusal a.failure_category)
  unfolding succeed workspace_of write_attempt attempt_of attempt_shape
  succeed_closed token now a i w db granted found closed =
      let left : Database = record db {
        work_items =
            (update_item i.id (λ j. finished_row JobState.succeeded j.available_at now j)
              db).work_items;
        job_attempts =
            (update_attempt token (closed_attempt JobAttemptOutcome.succeeded now) db).job_attempts;
      } in
      ground (arith, release_closed i.workspace one_active_job w left found closed)

  fail_closed :
      (token now : ℕ) (category : FailureCategory) (a : JobAttempt) (i : WorkItem) (w : Workspace)
      (db : Database)
      → attempt_of token db ≡ some a
      → workspace_of i.workspace db ≡ some w
      → ¬ IsOpen w clock
      → (fail m u limits clock token RetryOutcome.failed category now i db).0
        ≡ raise Error.workspace_unavailable
  unfolding fail workspace_of write_attempt attempt_of attempt_shape
  fail_closed token now category a i w db granted found closed =
      let left : Database = record db {
        work_items =
            (update_item i.id (finished_row JobState.failed i.available_at now) db).work_items;
        job_attempts = (update_attempt token (failed_attempt category now) db).job_attempts;
      } in
      ground (arith, release_closed i.workspace one_active_job w left found closed)

  mark_succeeded_closed :
      (token now : ℕ) (a : JobAttempt) (db : Database)
      → IsClosed clock token a db
      → mark_succeeded m u limits clock token now db ≡ (raise (refusal a.failure_category), db)
  unfolding mark_succeeded leased_item settle_success
  mark_succeeded_closed token now a db c = settle-raise db _ (refusal a.failure_category) (
      ground (
        arith,
        c.granted,
        c.leased,
        c.current,
        succeed_closed token now a c.item c.workspace db c.granted c.there c.closed,
      ))

  mark_failed_closed :
      (token now : ℕ) (category : FailureCategory) (a : JobAttempt) (db : Database)
      → IsClosed clock token a db
      → mark_failed m u limits clock token RetryOutcome.failed category now db
        ≡ (raise Error.workspace_unavailable, db)
  unfolding mark_failed leased_item settle_failure
  mark_failed_closed token now category a db c = settle-raise db _ Error.workspace_unavailable (
      ground (
        arith,
        c.granted,
        c.leased,
        c.current,
        fail_closed token now category a c.item c.workspace db c.granted c.there c.closed,
      ))

  -- A current token whose workspace is there and cannot be entered is completed by neither call: a
  -- success and a final failure both raise, and change nothing, so the item stays leased. The error
  -- is that the workspace is unavailable, save for the success of a token whose attempt carries a
  -- failure category, which raises the error of a check constraint ahead of it.
  pub completion_closed :
      (token now : ℕ) (category : FailureCategory) (a : JobAttempt) (db : Database)
      → IsClosed clock token a db
      → (mark_succeeded m u limits clock token now db ≡ (raise (refusal a.failure_category), db))
        × (mark_failed m u limits clock token RetryOutcome.failed category now db
            ≡ (raise Error.workspace_unavailable, db))
  completion_closed token now category a db c =
      (mark_succeeded_closed token now a db c, mark_failed_closed token now category a db c)

  -- If the executor returns and leaves the claimed item's workspace closed, the loop over the claimed
  -- work raises what that item's success raises, and the rest of the batch is not attempted.
  pub execute_all_closed :
      (policy : RetryPolicy) (executor : Executor) (now : ℕ) (work : ClaimedWork)
      (rest : List ClaimedWork) (a : JobAttempt) (db after : Database)
      → executor work.work_item work.token db ≡ (Execution.returned, after)
      → IsClosed clock work.token a after
      → execute_all m u limits clock policy executor now (work ∷ rest) db
        ≡ (raise (refusal a.failure_category), after)
  unfolding execute_all execute record_success
  execute_all_closed policy executor now work rest a db after ran c =
      ground (arith, mark_succeeded_closed work.token now a after c)
