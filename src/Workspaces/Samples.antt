-- ===== src/Workspaces/Samples.antt =====
-- A small database: one workspace with one waiting work item.
use reconciliation_workbench.Common.{none, [], ◌∷◌}
use reconciliation_workbench.Workspaces.Domain.{WorkspaceState, QuotaAmounts}
use reconciliation_workbench.Workspaces.Tables.{
  Workspace, WorkItem, JobKind, JobState, Target, Database,
}

abbrev pub sample_limits : QuotaAmounts
sample_limits = record { retained_bytes = 1000; books = 5; active_jobs = 2 }

abbrev pub one_book : QuotaAmounts
one_book = record { retained_bytes = 20; books = 1; active_jobs = 0 }

abbrev pub sample_workspace : Workspace
sample_workspace = record {
  id = 1;
  session_digest = 9;
  state = WorkspaceState.active;
  created_at = 0;
  expires_at = 1000;
  revoked_at = none;
  deleted_at = none;
  retained_bytes = 500;
  book_count = 1;
  active_job_count = 1;
}

abbrev pub sample_item : WorkItem
sample_item = record {
  id = 10;
  workspace = 1;
  kind = JobKind.import_validation;
  state = JobState.ready;
  target = Target.import_attempt 5;
  available_at = 0;
  lease_until = none;
  current_token = none;
  attempt_count = 0;
  max_attempts = 3;
  created_at = 0;
  updated_at = 0;
}

abbrev pub sample_database : Database
sample_database = record {
  workspaces = sample_workspace ∷ [];
  cleanup_requests = [];
  work_items = sample_item ∷ [];
  job_attempts = [];
}
