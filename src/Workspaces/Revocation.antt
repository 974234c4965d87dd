-- ===== src/Workspaces/Revocation.antt =====
-- What a revocation leaves: the row, the cleanup request and the queued cleanup.
use reconciliation_workbench.Common.{
  ℕ, List, ◌≤◌, ◌≡◌, refl, ◌⊎◌, inl, inr, Option-cases, Option, some, none, ok, raise, Error, arith,
  true, find, find-update_where, find-append, ◌==◌, [], ◌∷◌, update_where, find-eq-some, ◌∙◌, ap,
}
use reconciliation_workbench.Workspaces.Access.{require_active_cases}
use reconciliation_workbench.Workspaces.Quotas.{reserve, locked_workspace}
use reconciliation_workbench.Workspaces.Domain.{
  Datetime, QuotaAmounts, WorkspaceState, evaluate, evaluate_at,
}
use reconciliation_workbench.Workspaces.Tables.{
  Workspace, Database, WorkspaceCleanupRequest, WorkItem, Target, CleanupReason, same_target,
  workspace_of, timestamps_shape, JobKind, JobState,
}
use reconciliation_workbench.Workspaces.Lifecycle.{
  revoke_row, request_cleanup, queue_cleanup, cleanup_item, revoked, revoke, expire, delete,
  require_active, enforce, revocation_time,
}

-- The cleanup request of a workspace, and its queued work.
abbrev pub request_of : ℕ → Database → Option WorkspaceCleanupRequest
request_of k db = find (λ c. c.workspace == k) db.cleanup_requests

abbrev pub cleanup_of : ℕ → Database → Option WorkItem
cleanup_of k db = find (λ i. same_target i.target (Target.cleanup_request k)) db.work_items

revoke_row-id :
    (final : WorkspaceState) (at : ℕ) (w : Workspace) → (revoke_row final at w).id ≡ w.id
unfolding revoke_row
revoke_row-id final at w = ground arith

-- A revocation keeps the check constraint on the lifecycle's timestamps.
pub revoke_row-timestamps :
    (final : WorkspaceState) (at : ℕ) (w : Workspace)
    → timestamps_shape w.state w.revoked_at w.deleted_at ≡ true
    → timestamps_shape
        (revoke_row final at w).state
        (revoke_row final at w).revoked_at
        (revoke_row final at w).deleted_at
      ≡ true
unfolding revoke_row timestamps_shape
revoke_row-timestamps final at w h = ground arith

-- The cleanup request that a revocation leaves for the one that was there, if there was one: a new
-- request, or that one, which after a deletion carries its reason.
abbrev pub expected_request :
    (k at : ℕ) → CleanupReason → Option WorkspaceCleanupRequest → WorkspaceCleanupRequest
expected_request k at reason none = record {
  workspace = k;
  reason = reason;
  requested_at = at;
  processed_at = none;
}
expected_request k at CleanupReason.expired (some c) = c
expected_request k at CleanupReason.deleted (some c) = record c { reason = CleanupReason.deleted }

-- The cleanup work that a revocation leaves for the one that was there: that one, or a new item,
-- which is ready at the time of the revocation and has not been attempted.
abbrev pub expected_work : (m u k at : ℕ) → Option WorkItem → WorkItem
expected_work m u k at none = record {
  id = u;
  workspace = k;
  kind = JobKind.workspace_cleanup;
  state = JobState.ready;
  target = Target.cleanup_request k;
  available_at = at;
  lease_until = none;
  current_token = none;
  attempt_count = 0;
  max_attempts = m;
  created_at = at;
  updated_at = at;
}
expected_work m u k at (some i) = i

changed_request :
    (k : ℕ) (reason : CleanupReason) (rows : List WorkspaceCleanupRequest)
    (c : WorkspaceCleanupRequest)
    → find (λ c. c.workspace == k) rows ≡ some c
    → find
        (λ c. c.workspace == k)
        (update_where (λ c. c.workspace == k) (λ c. record c { reason = reason }) rows)
      ≡ some (record c { reason = reason })
changed_request k reason rows c e = ground (
  arith,
  find-update_where (λ c. c.workspace == k) (λ c. c.workspace == k)
      (λ c. record c { reason = reason }) rows (λ c. refl),
  find-eq-some (λ c. c.workspace == k) rows c e,
)

request_of-request_cleanup :
    (k at : ℕ) (reason : CleanupReason) (db : Database)
    → request_of k (request_cleanup k reason at db)
      ≡ some (expected_request k at reason (request_of k db))
unfolding request_cleanup find
request_of-request_cleanup k at reason db = elim (Option-cases (request_of k db)) [
  | inl e ↦ ground (
    arith,
    find-append (λ c. c.workspace == k) db.cleanup_requests
        (expected_request k at reason none ∷ []),
  )
  | inr (c, e) ↦ ground (arith, changed_request k reason db.cleanup_requests c)
]

cleanup_of-queue_cleanup :
    (m u k at : ℕ) (db : Database)
    → cleanup_of k (queue_cleanup m u k at db) ≡ some (expected_work m u k at (cleanup_of k db))
unfolding queue_cleanup find
cleanup_of-queue_cleanup m u k at db = elim (Option-cases (cleanup_of k db)) [
  | inl e ↦ ground (
    arith,
    find-append (λ i. same_target i.target (Target.cleanup_request k)) db.work_items
        (cleanup_item m u k at ∷ []),
  )
  | inr (i, e) ↦ ground arith
]

-- A request for a cleanup changes no other table.
pub request_cleanup-kept :
    (k at : ℕ) (reason : CleanupReason) (db : Database)
    → ((request_cleanup k reason at db).workspaces ≡ db.workspaces)
      × ((request_cleanup k reason at db).work_items ≡ db.work_items)
      × ((request_cleanup k reason at db).job_attempts ≡ db.job_attempts)
unfolding request_cleanup
request_cleanup-kept k at reason db = elim (Option-cases (request_of k db)) [
  | inl e ↦ (ground arith, ground arith, ground arith)
  | inr (c, e) ↦ (ground arith, ground arith, ground arith)
]

queue_cleanup-kept :
    (m u k at : ℕ) (db : Database)
    → ((queue_cleanup m u k at db).workspaces ≡ db.workspaces)
      × ((queue_cleanup m u k at db).cleanup_requests ≡ db.cleanup_requests)
      × ((queue_cleanup m u k at db).job_attempts ≡ db.job_attempts)
unfolding queue_cleanup
queue_cleanup-kept m u k at db = elim (Option-cases (cleanup_of k db)) [
  | inl e ↦ (ground arith, ground arith, ground arith)
  | inr (i, e) ↦ (ground arith, ground arith, ground arith)
]

workspace_of-update :
    (k at : ℕ) (final : WorkspaceState) (w : Workspace) (rows : List Workspace)
    → find (λ w. w.id == k) rows ≡ some w
    → find (λ w. w.id == k) (update_where (λ w. w.id == k) (revoke_row final at) rows)
      ≡ some (revoke_row final at w)
workspace_of-update k at final w rows e = ground (
  arith,
  find-update_where (λ w. w.id == k) (λ w. w.id == k) (revoke_row final at) rows
      (λ w. rw (revoke_row-id final at w)),
  find-eq-some (λ w. w.id == k) rows w e,
)

-- The workspace `k` is revoked: its row is `w`, its cleanup is requested, and its cleanup work is the
-- one that was there before, or a new item that is ready at the time of the revocation.
pub record IsRevoked (m u k at : ℕ) (reason : CleanupReason) (before : Database) (w : Workspace)
    (db : Database) : Type 0 where
  pub row : workspace_of k db ≡ some w
  pub requested : request_of k db ≡ some (expected_request k at reason (request_of k before))
  pub queued : cleanup_of k db ≡ some (expected_work m u k at (cleanup_of k before))
  pub job_attempts : db.job_attempts ≡ before.job_attempts

module _ (m u : ℕ) where
  revoked-IsRevoked :
      (k at : ℕ) (final : WorkspaceState) (reason : CleanupReason) (w : Workspace) (db : Database)
      → workspace_of k db ≡ some w
      → IsRevoked m u k at reason db (revoke_row final at w) (revoked m u k at final reason db)
  unfolding revoked workspace_of
  revoked-IsRevoked k at final reason w db found =
      let db₁ : Database = record db {
        workspaces = update_where (λ w. w.id == k) (revoke_row final at) db.workspaces;
      } in
      let db₂ = request_cleanup k reason at db₁ in
      let (kept, kept', left) = queue_cleanup-kept m u k at db₂ in
      let (kept'', items, left') = request_cleanup-kept k at reason db₁ in
      record {
        row = rw (kept, kept'') (workspace_of-update k at final w db.workspaces found);
        requested = rw kept' (request_of-request_cleanup k at reason db₁);
        queued =
            cleanup_of-queue_cleanup m u k at db₂
            ∙ ap
                (λ items. some (
                  expected_work m u k at
                    (find (λ i. same_target i.target (Target.cleanup_request k)) items)))
                items;
        job_attempts = left ∙ left';
      }

  -- A deletion of a workspace that is there returns its row, which is marked deleted and carries
  -- both times, and leaves its cleanup requested, with the reason of a deletion, and queued: the
  -- cleanup work is the item that was there before, or a new one of the cleanup kind that is ready at
  -- the time of the deletion, not attempted and not leased. Of a workspace that is not there it
  -- raises, and changes nothing.
  pub delete_lem :
      (k at : ℕ) (db : Database)
      → ((w : Workspace) × (delete m u k (Datetime.aware at) db
            ≡ (ok w, revoked m u k at WorkspaceState.deleted CleanupReason.deleted db))
          × (w.state ≡ WorkspaceState.deleted)
          × (timestamps_shape WorkspaceState.deleted w.revoked_at w.deleted_at ≡ true)
          × IsRevoked m u k at CleanupReason.deleted db w
              (revoked m u k at WorkspaceState.deleted CleanupReason.deleted db))
        ⊎ (workspace_of k db ≡ none)
          × (delete m u k (Datetime.aware at) db ≡ (raise Error.workspace_unavailable, db))
  unfolding delete revoke revocation_time revoke_row timestamps_shape
  delete_lem k at db = elim (Option-cases (workspace_of k db)) [
    | inl e ↦ inr (e, ground arith)
    | inr (w, e) ↦ inl (
      revoke_row WorkspaceState.deleted at w,
      ground arith,
      refl,
      ground arith,
      revoked-IsRevoked k at WorkspaceState.deleted CleanupReason.deleted w db e,
    )
  ]

  -- Outside a transaction, entering an active workspace whose expiry has come raises, and leaves the
  -- workspace revoked with its cleanup requested and queued: the cleanup work is the item that was
  -- there before, or a new one of the cleanup kind that is ready at the time of the call, not
  -- attempted and not leased.
  pub require_active_expired :
      (clock : ℕ) (w : Workspace) (db : Database)
      → workspace_of w.id db ≡ some w
      → w.state ≡ WorkspaceState.active
      → w.expires_at ≤ clock
      → (row : Workspace) × (require_active m u w (Datetime.aware clock) db ≡ (
        raise Error.workspace_unavailable,
        revoked m u w.id clock WorkspaceState.revoked CleanupReason.expired db,
      ))
        × (row.state ≡ WorkspaceState.revoked)
        × IsRevoked m u w.id clock CleanupReason.expired db row
            (revoked m u w.id clock WorkspaceState.revoked CleanupReason.expired db)
  unfolding require_active enforce evaluate evaluate_at expire revoke revocation_time revoke_row
  require_active_expired clock w db found active late = (
    revoke_row WorkspaceState.revoked clock w,
    ground arith,
    ground arith,
    revoked-IsRevoked w.id clock WorkspaceState.revoked CleanupReason.expired w db found,
  )

  -- A reservation in an active workspace whose expiry has come raises, and the revocation that it met
  -- is rolled back with its transaction: the database stays as it was.
  pub reserve_expired :
      (limits : QuotaAmounts) (clock k : ℕ) (requested : QuotaAmounts) (w : Workspace)
      (db : Database)
      → workspace_of k db ≡ some w
      → w.state ≡ WorkspaceState.active
      → w.expires_at ≤ clock
      → reserve m u limits clock k requested db ≡ (raise Error.workspace_unavailable, db)
  unfolding reserve locked_workspace
  reserve_expired limits clock k requested w db found active late =
      elim (require_active_cases m u w clock db) [
        | inl (opened, e) ↦ absurd (omega (arith, opened.ahead))
        | inr e ↦ ground arith
      ]
