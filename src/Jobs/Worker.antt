-- ===== src/Jobs/Worker.antt =====
-- `claim_and_execute` of jobs/services.py: claim work of one kind, run the executor on each claimed
-- item, and record what it did. The executor is an argument: it may change the database, and it
-- returns or raises.
use reconciliation_workbench.Common.{
  ℕ, Bool, true, false, Option, none, some, List, [], ◌∷◌, Result, ok, raise, Error, Action, ◌>>=◌,
  ◌>>◌, pure, lift,
}
use reconciliation_workbench.Workspaces.Domain.{Datetime, QuotaAmounts}
use reconciliation_workbench.Workspaces.Tables.{JobKind, FailureCategory, WorkItem, Database}
use reconciliation_workbench.Jobs.Domain.{RetryPolicy, decide}
use reconciliation_workbench.Jobs.Services.{
  ClaimedWork, claim_batch, claim_one, mark_succeeded, mark_failed,
}

-- How a call of the executor ends: it returns, or raises `TransientJobFailure`, or anything else.
pub data Execution : Type 0 where
  returned transient_failure other_failure : Execution

abbrev pub Executor : Type 0
Executor = WorkItem → (token : ℕ) → Database → Execution × Database

-- `ExecutionRecord`
pub record ExecutionRecord : Type 0 where
  pub work_item : WorkItem
  pub succeeded : Bool

-- `try: mark_succeeded(...)` / `except WorkItemUnavailable: pass`
abbrev pub pass_unavailable : Result Bool × Database → Result (Unit {0}) × Database
pass_unavailable (ok b, db) = (ok tt, db)
pass_unavailable (raise Error.work_item_unavailable, db) = (ok tt, db)
pass_unavailable (raise e, db) = (raise e, db)

-- The rows that the call works on: one by its identity, or a batch.
abbrev pub as_list : Option ClaimedWork → List ClaimedWork
as_list none = []
as_list (some work) = work ∷ []

module _ (cleanup_max_attempts uuid : ℕ) (limits : QuotaAmounts) (clock : ℕ) where
  -- An `except` clause of the loop: decide on a retry and record the failure.
  unfoldable pub record_failure :
      RetryPolicy → (now : ℕ) → ClaimedWork → FailureCategory → Action Database ExecutionRecord
  record_failure policy now work category = do
    outcome ← lift (decide policy work.work_item.attempt_count category (Datetime.aware now))
    _ ← mark_failed cleanup_max_attempts uuid limits clock work.token outcome category now
    pure (record { work_item = work.work_item; succeeded = false })

  -- The `else` clause of the loop.
  unfoldable pub record_success : (now : ℕ) → ClaimedWork → Action Database ExecutionRecord
  record_success now work = do
    (λ db.
        pass_unavailable (mark_succeeded cleanup_max_attempts uuid limits clock work.token now db))
    pure (record { work_item = work.work_item; succeeded = true })

  abbrev pub record_execution :
      RetryPolicy → (now : ℕ) → ClaimedWork → Execution → Action Database ExecutionRecord
  record_execution policy now work Execution.returned = record_success now work
  record_execution policy now work Execution.transient_failure =
      record_failure policy now work FailureCategory.transient
  record_execution policy now work Execution.other_failure =
      record_failure policy now work FailureCategory.permanent

  -- One round of the loop.
  unfoldable pub execute :
      RetryPolicy → Executor → (now : ℕ) → ClaimedWork → Action Database ExecutionRecord
  execute policy executor now work db =
      let (ended, after) = executor work.work_item work.token db in
      record_execution policy now work ended after

  unfoldable pub execute_all :
      RetryPolicy → Executor → (now : ℕ) → List ClaimedWork → Action Database (List ExecutionRecord)
  execute_all policy executor now [] = pure []
  execute_all policy executor now (work ∷ rest) = do
    one ← execute policy executor now work
    others ← execute_all policy executor now rest
    pure (one ∷ others)

  abbrev pub claim_work :
      (locked : ℕ → Bool) (draw : ℕ → ℕ)
      → JobKind
      → (now lease_duration batch_size : ℕ) → Option ℕ
      → Action Database (List ClaimedWork)
  claim_work locked draw kind now lease_duration batch_size none =
      claim_batch locked draw kind now lease_duration batch_size
  claim_work locked draw kind now lease_duration batch_size (some item) = do
    one ← claim_one locked (draw 0) item now lease_duration
    pure (as_list one)

  -- `claim_and_execute`
  unfoldable pub claim_and_execute :
      (locked : ℕ → Bool) (draw : ℕ → ℕ)
      → JobKind
      → (now lease_duration : ℕ) → RetryPolicy
      → Executor
      → (batch_size : ℕ) → Option ℕ
      → Action Database (List ExecutionRecord)
  claim_and_execute locked draw kind now lease_duration policy executor batch_size item = do
    claimed ← claim_work locked draw kind now lease_duration batch_size item
    execute_all policy executor now claimed
