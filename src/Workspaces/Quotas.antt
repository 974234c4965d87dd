-- ===== src/Workspaces/Quotas.antt =====
-- workspaces/quotas.py: `WorkspaceQuotaService`. What the clock answers is an argument.
use reconciliation_workbench.Common.{
  ℕ, ◌-◌, Bool, ◌||◌, none, some, Error, Action, ◌>>=◌, ◌>>◌, pure, throw, lift, modify, guard,
  atomic, ltb, ◌==◌, not, update_where,
}
use reconciliation_workbench.Workspaces.Domain.{Datetime, QuotaAmounts, reserve_amounts}
use reconciliation_workbench.Workspaces.Tables.{Workspace, Database, workspace_of}
use reconciliation_workbench.Workspaces.Lifecycle.{require_active}

-- `_usage`
unfoldable pub usage : Workspace → QuotaAmounts
usage w = record {
  retained_bytes = w.retained_bytes;
  books = w.book_count;
  active_jobs = w.active_job_count;
}

abbrev pub with_usage : QuotaAmounts → Workspace → Workspace
with_usage amounts w = record w {
  retained_bytes = amounts.retained_bytes;
  book_count = amounts.books;
  active_job_count = amounts.active_jobs;
}

-- `_persist`
unfoldable pub persist : (workspace : ℕ) → QuotaAmounts → Database → Database
persist workspace amounts db = record db {
  workspaces = update_where (λ w. w.id == workspace) (with_usage amounts) db.workspaces;
}

-- `_locked_workspace`
unfoldable pub locked_workspace : ℕ → Action Database Workspace
locked_workspace workspace db = elim (workspace_of workspace db) [
  | none ↦ throw Error.workspace_unavailable db
  | some w ↦ pure w db
]

-- `any(value < 0 for value in values)` in `release`
unfoldable pub exceeds : (released usage : QuotaAmounts) → Bool
exceeds released usage =
    ltb usage.retained_bytes released.retained_bytes
    || ltb usage.books released.books
    || ltb usage.active_jobs released.active_jobs

abbrev pub minus : (usage released : QuotaAmounts) → QuotaAmounts
minus usage released = record {
  retained_bytes = usage.retained_bytes - released.retained_bytes;
  books = usage.books - released.books;
  active_jobs = usage.active_jobs - released.active_jobs;
}

module _ (cleanup_max_attempts uuid : ℕ) (limits : QuotaAmounts) (clock : ℕ) where
  -- `reserve`
  unfoldable pub reserve : (workspace : ℕ) → QuotaAmounts → Action Database QuotaAmounts
  reserve workspace requested = atomic (do
    w ← locked_workspace workspace
    require_active cleanup_max_attempts uuid w (Datetime.aware clock)
    resulting ← lift (reserve_amounts limits (usage w) requested)
    modify (persist workspace resulting)
    pure resulting)

  -- `release`
  unfoldable pub release : (workspace : ℕ) → QuotaAmounts → Action Database QuotaAmounts
  release workspace released = atomic (do
    w ← locked_workspace workspace
    require_active cleanup_max_attempts uuid w (Datetime.aware clock)
    guard (not (exceeds released (usage w))) Error.quota_release_conflict
    modify (persist workspace (minus (usage w) released))
    pure (minus (usage w) released))
