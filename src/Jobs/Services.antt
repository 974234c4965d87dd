-- ===== src/Jobs/Services.antt =====
-- jobs/services.py: enqueue, claim, complete and fail leased work. What the clock answers, the
-- tokens and identities that are drawn, and the rows that other transactions have locked are
-- arguments. The logging is left out.
mod Claiming
unfoldable pub use Claiming.*
use reconciliation_workbench.Common.{
  ℕ, suc, ◌+◌, Bool, true, false, Option, none, some, List, [], ◌∷◌, ◌++◌, ◌&&◌, Error, Action,
  ◌>>=◌, ◌>>◌, pure, throw, get, modify, guard, atomic, if◌then◌else◌, ltb, leb, ◌==◌, not, is_none,
  find, map_option, update_where,
}
use reconciliation_workbench.Workspaces.Domain.{QuotaAmounts}
use reconciliation_workbench.Workspaces.Tables.{
  JobKind, JobState, FailureCategory, Target, WorkItem, JobAttempt, JobAttemptOutcome, Database,
  same_target, same_kind, target_shape, attempt_shape, item_of, attempt_of,
}
use reconciliation_workbench.Workspaces.Quotas.{reserve, release}
use reconciliation_workbench.Jobs.Domain.{RetryOutcome}

-- `_ONE_ACTIVE_JOB`
abbrev pub one_active_job : QuotaAmounts
one_active_job = record { retained_bytes = 0; books = 0; active_jobs = 1 }

abbrev pub finished_row : JobState → (available_at now : ℕ) → WorkItem → WorkItem
finished_row state available_at now i = record i {
  state = state;
  available_at = available_at;
  lease_until = none;
  current_token = none;
  updated_at = now;
}

abbrev pub failed_attempt : FailureCategory → (now : ℕ) → JobAttempt → JobAttempt
failed_attempt category now a = record a {
  outcome = some JobAttemptOutcome.failed;
  completed_at = some now;
  failure_category = some category;
}

-- `.update(outcome=outcome, completed_at=now)`
abbrev pub closed_attempt : JobAttemptOutcome → (now : ℕ) → JobAttempt → JobAttempt
closed_attempt outcome now a = record a { outcome = some outcome; completed_at = some now }

abbrev pub holds_token : Option ℕ → ℕ → Bool
holds_token none token = false
holds_token (some t) token = t == token

-- The row that an update of the token's attempt leaves meets the check constraint
-- `job_attempt_outcome_shape_valid`; where there is no such row, nothing is updated.
abbrev pub is_shaped : Option JobAttempt → Bool
is_shaped none = true
is_shaped (some a) = attempt_shape a.outcome a.completed_at a.failure_category

-- `JobAttempt.objects.filter(token=str(token)).update(...)`, under the check constraint on the
-- outcome. The token is unique, so the row is the one that `get` answers.
unfoldable pub write_attempt : (token : ℕ) → (JobAttempt → JobAttempt) → Action Database (Unit {0})
write_attempt token f = do
  db ← get
  guard (is_shaped (map_option f (attempt_of token db))) Error.integrity_error
  modify (update_attempt token f)

-- The attempt of the token and its work item. The foreign key of an attempt keeps its item there.
unfoldable pub leased_item : (token : ℕ) → Action Database WorkItem
leased_item token db = elim (attempt_of token db) [
  | none ↦ throw Error.work_item_unavailable db
  | some a ↦ elim (item_of a.work_item db) [ none ↦ throw Error.key_error db | some i ↦ pure i db ]
]

-- The branch of a token that a later claim has replaced.
unfoldable pub fence : (token now : ℕ) → Action Database Bool
fence token now = do write_attempt token (closed_attempt JobAttemptOutcome.expired now); pure false

abbrev pub outcome_state : RetryOutcome → JobState
outcome_state (RetryOutcome.ready_at t) = JobState.ready
outcome_state RetryOutcome.failed = JobState.failed

abbrev pub next_available_at : RetryOutcome → WorkItem → ℕ
next_available_at (RetryOutcome.ready_at t) i = t
next_available_at RetryOutcome.failed i = i.available_at

abbrev pub new_item : (workspace item : ℕ) → JobKind → (max_attempts now : ℕ) → Target → WorkItem
new_item workspace item kind max_attempts now target = record {
  id = item;
  workspace = workspace;
  kind = kind;
  state = JobState.ready;
  target = target;
  available_at = now;
  lease_until = none;
  current_token = none;
  attempt_count = 0;
  max_attempts = max_attempts;
  created_at = now;
  updated_at = now;
}

-- `WorkItem.objects.create` in `enqueue`, under the check constraints on a positive `max_attempts`
-- and on a target of the kind's shape.
unfoldable pub create_item :
    (workspace item : ℕ) → JobKind → (max_attempts now : ℕ) → Target → Action Database WorkItem
create_item workspace item kind max_attempts now target = do
  guard (leb 1 max_attempts && target_shape kind target) Error.integrity_error
  modify (λ db. record db {
    work_items = db.work_items ++ new_item workspace item kind max_attempts now target ∷ [];
  })
  pure (new_item workspace item kind max_attempts now target)

module _ (cleanup_max_attempts uuid : ℕ) (limits : QuotaAmounts) (clock : ℕ) where
  abbrev pub release_job : (workspace : ℕ) → Action Database (Unit {0})
  release_job workspace = do
    _ ← release cleanup_max_attempts uuid limits clock workspace one_active_job
    pure tt

  -- `enqueue` behind its query for the target.
  unfoldable pub reuse_or_create :
      (workspace item : ℕ)
      → JobKind
      → (max_attempts now : ℕ) → Target
      → Option WorkItem
      → Action Database WorkItem
  reuse_or_create workspace item kind max_attempts now target (some i) = pure i
  reuse_or_create workspace item kind max_attempts now target none = do
    _ ← reserve cleanup_max_attempts uuid limits clock workspace one_active_job
    create_item workspace item kind max_attempts now target

  -- `enqueue`; `item` is the identity that is drawn for a new row.
  unfoldable pub enqueue :
      (workspace item : ℕ) → JobKind → (max_attempts now : ℕ) → Target → Action Database WorkItem
  enqueue workspace item kind max_attempts now target = do
    db ← get
    reuse_or_create workspace item kind max_attempts now target
        (find (λ i. same_target i.target target) db.work_items)

  -- The statements of `mark_succeeded` behind its fence.
  unfoldable pub succeed : (token now : ℕ) → WorkItem → Action Database Bool
  succeed token now i = do
    modify (update_item i.id (λ j. finished_row JobState.succeeded j.available_at now j))
    write_attempt token (closed_attempt JobAttemptOutcome.succeeded now)
    release_job i.workspace
    pure true

  -- The fence of `mark_succeeded`.
  unfoldable pub settle_success : (token now : ℕ) → WorkItem → Action Database Bool
  settle_success token now i =
      if holds_token i.current_token token then succeed token now i else fence token now

  -- `mark_succeeded`
  unfoldable pub mark_succeeded : (token now : ℕ) → Action Database Bool
  mark_succeeded token now = atomic (do i ← leased_item token; settle_success token now i)

  -- The release of `mark_failed`, for a terminal outcome only.
  abbrev pub release_failed : RetryOutcome → (workspace : ℕ) → Action Database (Unit {0})
  release_failed (RetryOutcome.ready_at t) workspace = pure tt
  release_failed RetryOutcome.failed workspace = release_job workspace

  -- The statements of `mark_failed` behind its fence.
  unfoldable pub fail :
      (token : ℕ) → RetryOutcome → FailureCategory → (now : ℕ) → WorkItem → Action Database Bool
  fail token outcome category now i = do
    modify
        (update_item i.id (finished_row (outcome_state outcome) (next_available_at outcome i) now))
    write_attempt token (failed_attempt category now)
    release_failed outcome i.workspace
    pure true

  -- The fence of `mark_failed`.
  unfoldable pub settle_failure :
      (token : ℕ) → RetryOutcome → FailureCategory → (now : ℕ) → WorkItem → Action Database Bool
  settle_failure token outcome category now i =
      if holds_token i.current_token token
      then fail token outcome category now i
      else fence token now

  -- `mark_failed`
  unfoldable pub mark_failed :
      (token : ℕ) → RetryOutcome → FailureCategory → (now : ℕ) → Action Database Bool
  mark_failed token outcome category now =
      atomic (do i ← leased_item token; settle_failure token outcome category now i)
