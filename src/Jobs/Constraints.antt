-- ===== src/Jobs/Constraints.antt =====
-- The constraints of the tables and the quota limits, and that a reservation and a release keep them.
use reconciliation_workbench.Common.{
  ℕ, ◌<◌, ◌≡◌, true, some, arith, All, All-update_where, All-find, Keeps, settled_keeps, subst, sym,
  ◌==◌, List, find,
}
use reconciliation_workbench.Workspaces.Domain.{QuotaAmounts, plus}
use reconciliation_workbench.Workspaces.Tables.{
  Workspace, WorkItem, JobAttempt, Database, lease_shape, target_shape, attempt_shape,
  timestamps_shape, workspace_of,
}
use reconciliation_workbench.Workspaces.Quotas.{usage, persist, reserve, release, with_usage}
use reconciliation_workbench.Workspaces.Access.{IsWithin, reserve-ok_iff, release-ok_iff}

-- A row meets the check constraints on its lease and on its target.
pub record IsItem (i : WorkItem) : Type 0 where
  pub lease : lease_shape i.state i.lease_until i.current_token ≡ true
  pub target : target_shape i.kind i.target ≡ true

-- A row meets the check constraint on its timestamps, and the quota limits.
pub record IsWorkspace (limits : QuotaAmounts) (w : Workspace) : Type 0 where
  pub timestamps : timestamps_shape w.state w.revoked_at w.deleted_at ≡ true
  pub within : IsWithin limits (usage w)

-- A row meets the check constraints on its lease and on its outcome.
pub record IsGrant (a : JobAttempt) : Type 0 where
  pub lease : a.leased_at < a.lease_until
  pub outcome : attempt_shape a.outcome a.completed_at a.failure_category ≡ true

-- The row is the only one with its token.
abbrev pub IsOnly : List JobAttempt → JobAttempt → Type 0
IsOnly rows a = find (λ b. b.token == a.token) rows ≡ some a

pub record IsSound (limits : QuotaAmounts) (db : Database) : Type 0 where
  pub items : All IsItem db.work_items
  pub workspaces : All (IsWorkspace limits) db.workspaces
  pub grants : All IsGrant db.job_attempts
  pub tokens : All (IsOnly db.job_attempts) db.job_attempts

module _ (m u : ℕ) (limits : QuotaAmounts) (clock : ℕ) where
  pub with_usage-IsWorkspace :
      (r : QuotaAmounts) (w : Workspace)
      → IsWithin limits r
      → IsWorkspace limits w
      → IsWorkspace limits (with_usage r w)
  unfolding usage
  with_usage-IsWorkspace r w within h = record { timestamps = h.timestamps; within = within }

  pub persist-IsSound :
      (k : ℕ) (r : QuotaAmounts) (db : Database)
      → IsWithin limits r
      → IsSound limits db
      → IsSound limits (persist k r db)
  unfolding persist
  persist-IsSound k r db within h = record {
    items = h.items;
    workspaces =
        All-update_where (IsWorkspace limits) _ (with_usage r) db.workspaces
          (λ w. with_usage-IsWorkspace r w within) h.workspaces;
    grants = h.grants;
    tokens = h.tokens;
  }

  pub less-IsWithin :
      (r released before : QuotaAmounts)
      → plus r released ≡ before
      → IsWithin limits before
      → IsWithin limits r
  unfolding plus
  less-IsWithin r released before e h = ground arith

  pub reserve-Keeps :
      (k : ℕ) (requested : QuotaAmounts)
      → Keeps (IsSound limits) (reserve m u limits clock k requested)
  unfolding reserve
  reserve-Keeps k requested db h = settled_keeps (IsSound limits) db _ h λ r db' e.
      let (w, _, _, _, within, after, _) =
        (reserve-ok_iff m u limits clock k requested r db db').0 e in
      subst (IsSound limits) (sym after) (persist-IsSound k r db within h)

  pub IsWithin-of :
      (k : ℕ) (w : Workspace) (db : Database)
      → IsSound limits db
      → workspace_of k db ≡ some w
      → IsWithin limits (usage w)
  unfolding workspace_of
  IsWithin-of k w db h found =
      (All-find (IsWorkspace limits) (λ w. w.id == k) db.workspaces w h.workspaces found).within

  pub release-Keeps :
      (k : ℕ) (released : QuotaAmounts)
      → Keeps (IsSound limits) (release m u limits clock k released)
  unfolding release
  release-Keeps k released db h = settled_keeps (IsSound limits) db _ h λ r db' e.
      let (w, found, _, sum, after, _) =
        (release-ok_iff m u limits clock k released r db db').0 e in
      subst (IsSound limits) (sym after) (
        persist-IsSound k r db (less-IsWithin r released (usage w) sum (IsWithin-of k w db h found))
          h)
