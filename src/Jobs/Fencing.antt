-- ===== src/Jobs/Fencing.antt =====
-- A worker whose lease has been taken over can no longer complete or fail the work item.
use reconciliation_workbench.Common.{
  ℕ, ◌≡◌, if◌then◌else◌, Bool, false, some, none, ok, ◌==◌, Option, Result, raise, Error,
}
use reconciliation_workbench.Workspaces.Tables.{
  JobAttempt, JobAttemptOutcome, FailureCategory, Database, attempt_of,
}

-- The attempt `a` of the token has been closed as expired at the time, and nothing else differs.
pub record IsExpired (token now : ℕ) (a : JobAttempt) (db left : Database) : Type 0 where
  pub workspaces : left.workspaces ≡ db.workspaces
  pub cleanup_requests : left.cleanup_requests ≡ db.cleanup_requests
  pub work_items : left.work_items ≡ db.work_items
  pub attempts :
      (t : ℕ)
      → attempt_of t left ≡ (
          if t == token
          then some (record a { outcome = some JobAttemptOutcome.expired; completed_at = some now })
          else attempt_of t db)

-- What a call on a token that is fenced out answers, by the failure category of its attempt: `False`,
-- or, for an attempt that has failed before, the error of the check constraint.
abbrev pub IsRefused :
    Option FailureCategory
    → (token now : ℕ) → JobAttempt
    → Database
    → Result Bool × Database
    → Type 0
IsRefused none token now a db answer =
    (left : Database) × (answer ≡ (ok false, left)) × IsExpired token now a db left
IsRefused (some failed) token now a db answer = answer ≡ (raise Error.integrity_error, db)
