-- ===== src/Workspaces/Tables.antt =====
-- The rows of workspaces/models.py and jobs/models.py, and the database that holds them.
-- A UUID is the number that its 128 bits stand for; a stored time is an instant.
use reconciliation_workbench.Common.{
  ℕ, Bool, true, false, ◌&&◌, Option, none, some, List, is_some, is_none, ◌==◌, find,
}
use reconciliation_workbench.Workspaces.Domain.{WorkspaceState}

pub record Workspace : Type 0 where
  pub id : ℕ
  pub session_digest : ℕ
  pub state : WorkspaceState
  pub created_at : ℕ
  pub expires_at : ℕ
  pub revoked_at : Option ℕ
  pub deleted_at : Option ℕ
  pub retained_bytes : ℕ
  pub book_count : ℕ
  pub active_job_count : ℕ

-- The check constraint `workspace_lifecycle_timestamps`.
unfoldable pub timestamps_shape : WorkspaceState → (revoked_at deleted_at : Option ℕ) → Bool
timestamps_shape WorkspaceState.active r d = is_none r && is_none d
timestamps_shape WorkspaceState.revoked r d = is_some r && is_none d
timestamps_shape WorkspaceState.deleted r d = is_some r && is_some d

pub data CleanupReason : Type 0 where
  expired deleted : CleanupReason

pub record WorkspaceCleanupRequest : Type 0 where
  pub workspace : ℕ
  pub reason : CleanupReason
  pub requested_at : ℕ
  pub processed_at : Option ℕ

pub data JobKind : Type 0 where
  import_validation reconciliation_run workspace_cleanup : JobKind

pub data JobState : Type 0 where
  ready leased succeeded failed : JobState

pub data FailureCategory : Type 0 where
  transient permanent : FailureCategory

-- The three nullable references of a work item, of which exactly one is set.
pub data Target : Type 0 where
  import_attempt reconciliation_run cleanup_request : (id : ℕ) → Target

-- The check constraint `work_item_target_shape_valid`.
unfoldable pub target_shape : JobKind → Target → Bool
target_shape JobKind.import_validation (Target.import_attempt i) = true
target_shape JobKind.reconciliation_run (Target.reconciliation_run i) = true
target_shape JobKind.workspace_cleanup (Target.cleanup_request i) = true
target_shape _ _ = false

abbrev pub same_target : Target → Target → Bool
same_target (Target.import_attempt i) (Target.import_attempt j) = i == j
same_target (Target.reconciliation_run i) (Target.reconciliation_run j) = i == j
same_target (Target.cleanup_request i) (Target.cleanup_request j) = i == j
same_target _ _ = false

abbrev pub same_kind : JobKind → JobKind → Bool
same_kind JobKind.import_validation JobKind.import_validation = true
same_kind JobKind.reconciliation_run JobKind.reconciliation_run = true
same_kind JobKind.workspace_cleanup JobKind.workspace_cleanup = true
same_kind _ _ = false

pub record WorkItem : Type 0 where
  pub id : ℕ
  pub workspace : ℕ
  pub kind : JobKind
  pub state : JobState
  pub target : Target
  pub available_at : ℕ
  pub lease_until : Option ℕ
  pub current_token : Option ℕ
  pub attempt_count : ℕ
  pub max_attempts : ℕ
  pub created_at : ℕ
  pub updated_at : ℕ

-- The check constraint `work_item_lease_shape_valid`.
unfoldable pub lease_shape : JobState → (lease_until current_token : Option ℕ) → Bool
lease_shape JobState.leased l t = is_some l && is_some t
lease_shape JobState.ready l t = is_none l && is_none t
lease_shape JobState.succeeded l t = is_none l && is_none t
lease_shape JobState.failed l t = is_none l && is_none t

pub data JobAttemptOutcome : Type 0 where
  succeeded failed expired : JobAttemptOutcome

pub record JobAttempt : Type 0 where
  pub workspace : ℕ
  pub work_item : ℕ
  pub token : ℕ
  pub leased_at : ℕ
  pub lease_until : ℕ
  pub completed_at : Option ℕ
  pub outcome : Option JobAttemptOutcome
  pub failure_category : Option FailureCategory

-- The check constraint `job_attempt_outcome_shape_valid`.
unfoldable pub attempt_shape :
    Option JobAttemptOutcome → (completed_at : Option ℕ) → Option FailureCategory → Bool
attempt_shape none c f = is_none c && is_none f
attempt_shape (some JobAttemptOutcome.succeeded) c f = is_some c && is_none f
attempt_shape (some JobAttemptOutcome.expired) c f = is_some c && is_none f
attempt_shape (some JobAttemptOutcome.failed) c f = is_some c && is_some f

pub record Database : Type 0 where
  pub workspaces : List Workspace
  pub cleanup_requests : List WorkspaceCleanupRequest
  pub work_items : List WorkItem
  pub job_attempts : List JobAttempt

unfoldable pub workspace_of : ℕ → Database → Option Workspace
workspace_of i db = find (λ w. w.id == i) db.workspaces

unfoldable pub item_of : ℕ → Database → Option WorkItem
item_of i db = find (λ w. w.id == i) db.work_items

unfoldable pub attempt_of : ℕ → Database → Option JobAttempt
attempt_of t db = find (λ a. a.token == t) db.job_attempts
