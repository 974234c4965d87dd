-- ===== src/Jobs/Soundness.antt =====
-- Every row of calls keeps the constraints of the tables and the quota limits.
use reconciliation_workbench.Common.{
  ℕ, ◌≡◌, refl, true, Option, none, some, [], ◌∷◌, ◌&&◌, arith, inl, inr, Bool-cases, Option-cases,
  All-append, All-update_where, Keeps, and_then_keeps, find, leb, guard,
}
use reconciliation_workbench.Workspaces.Domain.{Datetime, WorkspaceState, QuotaAmounts}
use reconciliation_workbench.Workspaces.Tables.{
  Workspace, WorkItem, Database, JobKind, Target, CleanupReason, lease_shape, target_shape,
  workspace_of,
}
use reconciliation_workbench.Workspaces.Quotas.{reserve, usage}
use reconciliation_workbench.Workspaces.Lifecycle.{
  revoke_row, request_cleanup, queue_cleanup, cleanup_item, revoked, revoke, expire, delete,
  revocation_time,
}
use reconciliation_workbench.Workspaces.Revocation.{
  revoke_row-timestamps, request_cleanup-kept, cleanup_of,
}
use reconciliation_workbench.Jobs.Services.{
  enqueue, reuse_or_create, create_item, new_item, one_active_job,
}
use reconciliation_workbench.Jobs.Steps.{Step, Reach}
use reconciliation_workbench.Jobs.Constraints.{IsItem, IsWorkspace, IsSound, reserve-Keeps}
use reconciliation_workbench.Jobs.ClaimConstraints.{claim_one-Keeps, claim_batch-Keeps}
use reconciliation_workbench.Jobs.CompletionConstraints.{mark_succeeded-Keeps, mark_failed-Keeps}

module _ (limits : QuotaAmounts) where
  -- The database behind the statements of `enqueue` that follow the reservation.
  create-Keeps :
      (workspace item : ℕ) (kind : JobKind) (max_attempts now : ℕ) (target : Target)
      → Keeps (IsSound limits) (create_item workspace item kind max_attempts now target)
  unfolding create_item lease_shape
  create-Keeps workspace item kind max_attempts now target db h =
      elim (Bool-cases (leb 1 max_attempts && target_shape kind target)) [
        | inr bad ↦ rw (bad, guard) h
        | inl good ↦
            rw (good, guard)
              (record {
                items =
                    All-append IsItem db.work_items
                      (new_item workspace item kind max_attempts now target ∷ []) h.items
                      (new_item-IsItem workspace item kind max_attempts now target good, tt);
                workspaces = h.workspaces;
                grants = h.grants;
                tokens = h.tokens;
              })
      ]
    where
      new_item-IsItem :
          (workspace item : ℕ) (kind : JobKind) (max_attempts now : ℕ) (target : Target)
          → (leb 1 max_attempts && target_shape kind target) ≡ true
          → IsItem (new_item workspace item kind max_attempts now target)
      new_item-IsItem workspace item kind max_attempts now target good = record {
        lease = refl;
        target = ground arith;
      }

module _ (m u : ℕ) (limits : QuotaAmounts) (clock : ℕ) where
  reuse_or_create-Keeps :
      (workspace item : ℕ) (kind : JobKind) (max_attempts now : ℕ) (target : Target)
      (found : Option WorkItem)
      → Keeps
          (IsSound limits)
          (reuse_or_create m u limits clock workspace item kind max_attempts now target found)
  unfolding reuse_or_create
  reuse_or_create-Keeps workspace item kind max_attempts now target (some i) db h = h
  reuse_or_create-Keeps workspace item kind max_attempts now target none db h =
      and_then_keeps (IsSound limits) (reserve m u limits clock workspace one_active_job db)
        (λ _. create_item workspace item kind max_attempts now target)
        (reserve-Keeps m u limits clock workspace one_active_job db h)
        (λ _. create-Keeps limits workspace item kind max_attempts now target)

  enqueue-Keeps :
      (workspace item : ℕ) (kind : JobKind) (max_attempts now : ℕ) (target : Target)
      → Keeps
          (IsSound limits)
          (enqueue m u limits clock workspace item kind max_attempts now target)
  unfolding enqueue
  enqueue-Keeps workspace item kind max_attempts now target db h =
      reuse_or_create-Keeps workspace item kind max_attempts now target _ db h

  revoke_row-IsWorkspace :
      (final : WorkspaceState) (at : ℕ) (w : Workspace)
      → IsWorkspace limits w
      → IsWorkspace limits (revoke_row final at w)
  unfolding usage revoke_row
  revoke_row-IsWorkspace final at w h = record {
    timestamps = revoke_row-timestamps final at w h.timestamps;
    within = ground arith;
  }

  queue_cleanup-Keeps :
      (workspace at : ℕ) (db : Database)
      → IsSound limits db
      → IsSound limits (queue_cleanup m u workspace at db)
  unfolding queue_cleanup lease_shape target_shape
  queue_cleanup-Keeps workspace at db h = elim (Option-cases (cleanup_of workspace db)) [
    | inr (i, e) ↦ rw (e, queue_cleanup) h
    | inl e ↦
        rw (e, queue_cleanup)
          (record {
            items =
                All-append IsItem db.work_items (cleanup_item m u workspace at ∷ []) h.items
                  (record { lease = refl; target = refl }, tt);
            workspaces = h.workspaces;
            grants = h.grants;
            tokens = h.tokens;
          })
  ]

  request_cleanup-Keeps :
      (workspace at : ℕ) (reason : CleanupReason) (db : Database)
      → IsSound limits db
      → IsSound limits (request_cleanup workspace reason at db)
  request_cleanup-Keeps workspace at reason db h =
      let (w, i, a) = request_cleanup-kept workspace at reason db in
      record {
        items = rw i h.items;
        workspaces = rw w h.workspaces;
        grants = rw a h.grants;
        tokens = rw a h.tokens;
      }

  revoked-Keeps :
      (workspace at : ℕ) (final : WorkspaceState) (reason : CleanupReason) (db : Database)
      → IsSound limits db
      → IsSound limits (revoked m u workspace at final reason db)
  unfolding revoked
  revoked-Keeps workspace at final reason db h = queue_cleanup-Keeps workspace at _ (
      request_cleanup-Keeps workspace at reason _ (record {
        items = h.items;
        workspaces =
            All-update_where (IsWorkspace limits) _ (revoke_row final at) db.workspaces
              (λ w. revoke_row-IsWorkspace final at w) h.workspaces;
        grants = h.grants;
        tokens = h.tokens;
      }))

  revoke-Keeps :
      (workspace : ℕ) (now : Datetime) (final : WorkspaceState) (reason : CleanupReason)
      → Keeps (IsSound limits) (revoke m u workspace now final reason)
  unfolding revoke revocation_time workspace_of find
  revoke-Keeps workspace (Datetime.naive wall) final reason db h = h
  revoke-Keeps workspace (Datetime.aware at) final reason db h =
      elim (Option-cases (workspace_of workspace db)) [
        | inl e ↦ rw e h
        | inr (w, e) ↦ rw e (revoked-Keeps workspace at final reason db h)
      ]

-- A call, whatever it answers, keeps the constraints of the tables and the quota limits.
Step-IsSound :
    (m : ℕ) (limits : QuotaAmounts) {db db' : Database}
    → Step m limits db db'
    → IsSound limits db
    → IsSound limits db'
unfolding expire delete
Step-IsSound m limits (Step.enqueue u clock workspace item kind max_attempts now target _ _ e) h =
    rw e (enqueue-Keeps m u limits clock workspace item kind max_attempts now target _ h)
Step-IsSound m limits (Step.claim_one locked token item now lease_duration e) h =
    rw e (claim_one-Keeps limits locked token item now lease_duration _ h)
Step-IsSound m limits (Step.claim_batch locked draw kind now lease_duration batch_size e) h =
    rw e (claim_batch-Keeps limits locked draw kind now lease_duration batch_size _ h)
Step-IsSound m limits (Step.mark_succeeded u clock token now e) h =
    rw e (mark_succeeded-Keeps m u limits clock token now _ h)
Step-IsSound m limits (Step.mark_failed u clock token outcome category now e) h =
    rw e (mark_failed-Keeps m u limits clock token outcome category now _ h)
Step-IsSound m limits (Step.expire u workspace now _ e) h =
    rw e (revoke-Keeps m u limits 0 workspace now WorkspaceState.revoked CleanupReason.expired _ h)
Step-IsSound m limits (Step.delete u workspace now _ e) h =
    rw e (revoke-Keeps m u limits 0 workspace now WorkspaceState.deleted CleanupReason.deleted _ h)

-- After any sequence of calls on a database that meets them, each work item meets the constraints on
-- its lease and its target, each workspace meets the one on its timestamps and stays within every
-- quota limit, and each attempt's lease ends after its grant, its outcome, completion and failure
-- category fit together, and its token is its own.
pub Reach-IsSound :
    (m : ℕ) (limits : QuotaAmounts) {db db' : Database}
    → IsSound limits db
    → Reach m limits db db'
    → IsSound limits db'
Reach-IsSound m limits h Reach.here = h
Reach-IsSound m limits h (Reach.next r st) = Step-IsSound m limits st (Reach-IsSound m limits h r)
