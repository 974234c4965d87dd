-- ===== src/Jobs/Tests.antt =====
-- The theorems on leased work, each applied to a small database.
use reconciliation_workbench.Common.{
  ◌+◌, ◌*◌, ◌<◌, ◌^◌, ◌≡◌, refl, sym, ap, arith, ok, raise, bind, Error, true, false, some, none,
  [], ◌∷◌, find, update_where,
}
use reconciliation_workbench.Workspaces.Domain.{Datetime, WorkspaceState, as_utc}
use reconciliation_workbench.Workspaces.Tables.{
  Workspace, JobState, JobKind, FailureCategory, Database, lease_shape, attempt_of, item_of,
  workspace_of, target_shape, timestamps_shape,
}
use reconciliation_workbench.Workspaces.Samples.{
  sample_limits, sample_item, sample_workspace, sample_database,
}
use reconciliation_workbench.Workspaces.Access.{IsOpen}
use reconciliation_workbench.Workspaces.Quotas.{usage}
use reconciliation_workbench.Jobs.Domain.{
  RetryPolicy, RetryOutcome, make_retry_policy, decide, outcome_at, make_snapshot, is_claimable,
}
use reconciliation_workbench.Jobs.Services.{
  ClaimedWork, claim_batch, claim_one, claim_found, claim_row, create_attempt, claimable_row,
  leased_row, granted, mark_succeeded, mark_failed,
}
use reconciliation_workbench.Jobs.Worker.{Execution, Executor, execute_all}
use reconciliation_workbench.Jobs.Retry.{decide-ready_iff, decide_backoff}
use reconciliation_workbench.Jobs.Claims.{claimable_row-is_claimable}
use reconciliation_workbench.Jobs.Standing.{Claimed, Claims}
use reconciliation_workbench.Jobs.Exclusion.{Spares, lease_exclusive}
use reconciliation_workbench.Jobs.Closed.{IsClosed, completion_closed, execute_all_closed}
use reconciliation_workbench.Jobs.Constraints.{IsSound}
use reconciliation_workbench.Jobs.Steps.{Step, Reach}
use reconciliation_workbench.Jobs.Soundness.{Reach-IsSound}

-- The item of the sample database under a lease from 100 to 150.
abbrev first_claim : Database
first_claim = record sample_database {
  work_items = leased_row 77 150 100 sample_item ∷ [];
  job_attempts = granted 77 100 150 sample_item ∷ [];
}

abbrev first_work : ClaimedWork
first_work = record { work_item = leased_row 77 150 100 sample_item; token = 77 }

-- The lease of the first claim taken over at 151.
abbrev second_claim : Database
second_claim = record sample_database {
  work_items = leased_row 78 201 151 first_work.work_item ∷ [];
  job_attempts = granted 77 100 150 sample_item ∷ granted 78 151 201 sample_item ∷ [];
}

abbrev second_work : ClaimedWork
second_work = record { work_item = leased_row 78 201 151 first_work.work_item; token = 78 }

claimed : claim_one (λ _. false) 77 10 100 50 sample_database ≡ (ok (some first_work), first_claim)
unfolding claim_one claim_found claim_row create_attempt claimable_row find update_where attempt_of
claimed = refl

taken_over : claim_one (λ _. false) 78 10 151 50 first_claim ≡ (ok (some second_work), second_claim)
unfolding claim_one claim_found claim_row create_attempt claimable_row find update_where attempt_of
taken_over = refl

lease_exclusive_example :
    (item_of 10 first_claim ≡ item_of 10 first_claim)
    × (claim_one (λ _. false) 79 10 150 50 first_claim ≡ (ok none, first_claim))
    × Spares 10 (claim_batch (λ _. false) (λ n. n) JobKind.import_validation 150 50 5 first_claim).0
lease_exclusive_example =
    lease_exclusive 10 150 (λ _. false) (λ n. n) JobKind.import_validation 79 150 50 5
      sample_database first_claim first_claim
      (Claimed.one (λ _. false) 77 100 50 first_work refl claimed) Claims.here (omega arith)

shaped : lease_shape JobState.leased (some 150) (some 77) ≡ true
unfolding lease_shape
shaped = refl

claimable_row-is_claimable_example :
    bind
      (make_snapshot JobState.leased (Datetime.aware 0) (some (Datetime.aware 150)))
      (λ s. is_claimable s (Datetime.aware 150))
    ≡ ok (claimable_row 150 first_work.work_item)
claimable_row-is_claimable_example = claimable_row-is_claimable first_work.work_item 150 shaped

abbrev two_seconds : RetryPolicy
two_seconds = record { max_attempts = 3; backoff = 2000000 }

made : make_retry_policy 3 2000000 ≡ ok two_seconds
unfolding make_retry_policy
made = refl

first_retry :
    decide two_seconds 1 FailureCategory.transient (Datetime.aware 100)
    ≡ ok (RetryOutcome.ready_at (100 + 2000000))
unfolding decide outcome_at as_utc
first_retry = refl

second_retry :
    decide two_seconds 2 FailureCategory.transient (Datetime.aware 100)
    ≡ ok (RetryOutcome.ready_at (100 + 4000000))
unfolding decide outcome_at as_utc
second_retry = refl

decide-ready_iff_example :
    (FailureCategory.transient ≡ FailureCategory.transient)
    × (2 < 3)
    × (4000100 ≡ 100 + 2000000 * 2 ^ 1)
decide-ready_iff_example =
    (decide-ready_iff two_seconds 2 FailureCategory.transient 100 4000100 (omega arith)).0
      second_retry

decide_backoff_example : (0 < 2000000) × (4000000 ≡ 2 * 2000000)
decide_backoff_example =
    decide_backoff 3 2000000 0 100 2000000 4000000 {policy = two_seconds} made first_retry
      second_retry

-- The first claim, with its workspace revoked meanwhile.
abbrev revoked_workspace : Workspace
revoked_workspace = record sample_workspace {
  state = WorkspaceState.revoked;
  revoked_at = some 120;
}

abbrev closed_claim : Database
closed_claim = record first_claim { workspaces = revoked_workspace ∷ [] }

not-IsOpen : ¬ IsOpen revoked_workspace 130
not-IsOpen o = let e = o.active in absurd (ground arith)

closed_claim-IsClosed : IsClosed 130 77 (granted 77 100 150 sample_item) closed_claim
unfolding attempt_of item_of workspace_of find
closed_claim-IsClosed = record {
  granted = refl;
  item = first_work.work_item;
  leased = refl;
  current = refl;
  workspace = revoked_workspace;
  there = refl;
  closed = not-IsOpen;
}

completion_closed_example :
    (mark_succeeded 3 70 sample_limits 130 77 130 closed_claim
      ≡ (raise Error.workspace_unavailable, closed_claim))
    × (mark_failed 3 70 sample_limits 130 77 RetryOutcome.failed FailureCategory.permanent 130
          closed_claim
        ≡ (raise Error.workspace_unavailable, closed_claim))
completion_closed_example =
    completion_closed 3 70 sample_limits 130 77 130 FailureCategory.permanent
      (granted 77 100 150 sample_item) closed_claim closed_claim-IsClosed

abbrev idle_executor : Executor
idle_executor item token db = (Execution.returned, db)

execute_all_closed_example :
    execute_all 3 70 sample_limits 130 two_seconds idle_executor 130
      (first_work ∷ first_work ∷ [])
      closed_claim
    ≡ (raise Error.workspace_unavailable, closed_claim)
execute_all_closed_example =
    execute_all_closed 3 70 sample_limits 130 two_seconds idle_executor 130 first_work
      (first_work ∷ []) (granted 77 100 150 sample_item) closed_claim closed_claim refl
      closed_claim-IsClosed

sample-IsSound : IsSound sample_limits sample_database
unfolding lease_shape target_shape timestamps_shape usage
sample-IsSound = record {
  items = (record { lease = refl; target = refl }, tt);
  workspaces = (
    record {
      timestamps = refl;
      within = record {
        retained_bytes = omega arith;
        books = omega arith;
        active_jobs = omega arith;
      };
    },
    tt,
  );
  grants = tt;
  tokens = tt;
}

sample_steps : Reach 3 sample_limits sample_database second_claim
sample_steps =
    Reach.next
      (Reach.next Reach.here
        (Step.claim_one (λ _. false) 77 10 100 50 (sym (ap (λ r. r.1) claimed))))
      (Step.claim_one (λ _. false) 78 10 151 50 (sym (ap (λ r. r.1) taken_over)))

Reach-IsSound_example : IsSound sample_limits second_claim
Reach-IsSound_example = Reach-IsSound 3 sample_limits sample-IsSound sample_steps
