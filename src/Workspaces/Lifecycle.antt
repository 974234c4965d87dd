-- ===== src/Workspaces/Lifecycle.antt =====
-- workspaces/lifecycle.py: `WorkspaceLifecycleService` over the database of Workspaces/Tables.
-- The setting JOBS_CLEANUP_MAX_ATTEMPTS and the identity that `uuid4` draws for a new work item are
-- arguments.
use reconciliation_workbench.Common.{
  ℕ, Bool, true, false, Option, none, some, [], ◌∷◌, ◌++◌, Result, ok, raise, Error, Action, ◌>>=◌,
  ◌>>◌, pure, throw, lift, modify, get, atomic, if◌then◌else◌, ◌==◌, find, update_where,
}
use reconciliation_workbench.Workspaces.Domain.{
  Datetime, WorkspaceState, evaluate, WorkspaceLifecycleResult,
}
use reconciliation_workbench.Workspaces.Tables.{
  Workspace, CleanupReason, JobKind, JobState, Target, WorkItem, Database, same_target,
  workspace_of,
}

-- `now.tzinfo is None` in `_revoke`.
unfoldable pub revocation_time : Datetime → Result ℕ
revocation_time (Datetime.naive wall) = raise Error.value_error
revocation_time (Datetime.aware instant) = ok instant

-- A time that is already recorded stays.
abbrev pub keep_first : Option ℕ → ℕ → Option ℕ
keep_first none at = some at
keep_first (some t) at = some t

-- The `elif` and `else` of `_revoke`: an expiry changes only an active row.
abbrev pub expire_row : WorkspaceState → ℕ → Workspace → Workspace
expire_row WorkspaceState.active at w = record w {
  state = WorkspaceState.revoked;
  revoked_at = some at;
}
expire_row WorkspaceState.revoked at w = w
expire_row WorkspaceState.deleted at w = w

-- The row that `_revoke` saves for its `final_state`.
unfoldable pub revoke_row : (final : WorkspaceState) → ℕ → Workspace → Workspace
revoke_row WorkspaceState.deleted at w = record w {
  state = WorkspaceState.deleted;
  revoked_at = keep_first w.revoked_at at;
  deleted_at = keep_first w.deleted_at at;
}
revoke_row _ at w = expire_row w.state at w

abbrev pub is_deletion : CleanupReason → Bool
is_deletion CleanupReason.expired = false
is_deletion CleanupReason.deleted = true

-- `WorkspaceCleanupRequest.objects.get_or_create`, and the change of the reason after it.
unfoldable pub request_cleanup : (workspace : ℕ) → CleanupReason → ℕ → Database → Database
request_cleanup workspace reason at db =
    elim (find (λ c. c.workspace == workspace) db.cleanup_requests) [
      | none ↦ record db {
        cleanup_requests =
            db.cleanup_requests
            ++ record {
              workspace = workspace;
              reason = reason;
              requested_at = at;
              processed_at = none;
            }
              ∷ [];
      }
      | some c ↦
          if is_deletion reason
          then record db {
            cleanup_requests =
                update_where (λ c. c.workspace == workspace) (λ c. record c { reason = reason })
                  db.cleanup_requests;
          }
          else db
    ]

module _ (cleanup_max_attempts uuid : ℕ) where
  abbrev pub cleanup_item : (workspace at : ℕ) → WorkItem
  cleanup_item workspace at = record {
    id = uuid;
    workspace = workspace;
    kind = JobKind.workspace_cleanup;
    state = JobState.ready;
    target = Target.cleanup_request workspace;
    available_at = at;
    lease_until = none;
    current_token = none;
    attempt_count = 0;
    max_attempts = cleanup_max_attempts;
    created_at = at;
    updated_at = at;
  }

  -- `WorkItem.objects.get_or_create(cleanup_request=cleanup, ...)`
  unfoldable pub queue_cleanup : (workspace at : ℕ) → Database → Database
  queue_cleanup workspace at db =
      elim (find (λ i. same_target i.target (Target.cleanup_request workspace)) db.work_items) [
        | none ↦ record db { work_items = db.work_items ++ cleanup_item workspace at ∷ [] }
        | some i ↦ db
      ]

  -- The database that `_revoke` leaves for a row that it finds.
  unfoldable pub revoked :
      (workspace at : ℕ) → (final : WorkspaceState) → CleanupReason → Database → Database
  revoked workspace at final reason db = queue_cleanup workspace at (
      request_cleanup workspace reason at (record db {
        workspaces = update_where (λ w. w.id == workspace) (revoke_row final at) db.workspaces;
      }))

  -- `_revoke`
  unfoldable pub revoke :
      (workspace : ℕ) (now : Datetime) (final : WorkspaceState)
      → CleanupReason
      → Action Database Workspace
  revoke workspace now final reason = do
    at ← lift (revocation_time now)
    atomic (do
      db ← get
      elim (workspace_of workspace db) [
        | none ↦ throw Error.workspace_unavailable
        | some w ↦ do modify (revoked workspace at final reason); pure (revoke_row final at w)
      ])

  -- `expire`
  unfoldable pub expire : (workspace : ℕ) → Datetime → Action Database Workspace
  expire workspace now = revoke workspace now WorkspaceState.revoked CleanupReason.expired

  -- `delete`
  unfoldable pub delete : (workspace : ℕ) → Datetime → Action Database Workspace
  delete workspace now = revoke workspace now WorkspaceState.deleted CleanupReason.deleted

  -- The two tests of `require_active` on what `evaluate` returned.
  unfoldable pub enforce :
      (workspace : ℕ) → Datetime → WorkspaceLifecycleResult → Action Database (Unit {0})
  enforce workspace now result = do
    if result.requires_revocation then (do _ ← expire workspace now; pure tt) else pure tt
    if result.access_allowed then pure tt else throw Error.workspace_unavailable

  -- `require_active`, on a row that the caller has read
  unfoldable pub require_active : Workspace → Datetime → Action Database (Unit {0})
  require_active w now = do
    result ← lift (evaluate w.state (Datetime.aware w.expires_at) now)
    enforce w.id now result
