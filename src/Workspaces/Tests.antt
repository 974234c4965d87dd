-- ===== src/Workspaces/Tests.antt =====
-- The theorems on workspaces, each applied to a small database.
use reconciliation_workbench.Common.{
  true, ◌≡◌, refl, ◌⊎◌, arith, ok, raise, Error, some, none, find, update_where,
}
use reconciliation_workbench.Workspaces.Domain.{
  Datetime, WorkspaceState, QuotaAmounts, plus, reserve_amounts, evaluate, evaluate_at, as_utc,
  check,
}
use reconciliation_workbench.Workspaces.Tables.{
  Workspace, CleanupReason, timestamps_shape, workspace_of,
}
use reconciliation_workbench.Workspaces.Lifecycle.{delete, require_active, revoked, enforce}
use reconciliation_workbench.Workspaces.Quotas.{
  reserve, release, persist, usage, locked_workspace, exceeds,
}
use reconciliation_workbench.Workspaces.Access.{
  IsOpen, IsWithin, IsWritten, Transactional, reserve-ok_iff, release-ok_iff, quota-Transactional,
}
use reconciliation_workbench.Workspaces.Revocation.{
  IsRevoked, delete_lem, require_active_expired, reserve_expired,
}
use reconciliation_workbench.Workspaces.Samples.{
  sample_limits, one_book, sample_workspace, sample_database,
}

abbrev after_reservation : QuotaAmounts
after_reservation = record { retained_bytes = 520; books = 2; active_jobs = 1 }

abbrev after_release : QuotaAmounts
after_release = record { retained_bytes = 480; books = 0; active_jobs = 1 }

reserved :
    reserve 3 70 sample_limits 100 1 one_book sample_database
    ≡ (ok after_reservation, persist 1 after_reservation sample_database)
unfolding reserve locked_workspace workspace_of find require_active enforce evaluate evaluate_at
    as_utc reserve_amounts usage plus check persist update_where
reserved = refl

reserve-ok_iff_example :
    (w : Workspace) × (workspace_of 1 sample_database ≡ some w)
    × IsOpen w 100
    × (after_reservation ≡ plus (usage w) one_book)
    × IsWithin sample_limits after_reservation
    × (persist 1 after_reservation sample_database ≡ persist 1 after_reservation sample_database)
    × IsWritten 1 after_reservation sample_database (persist 1 after_reservation sample_database)
reserve-ok_iff_example =
    (reserve-ok_iff 3 70 sample_limits 100 1 one_book after_reservation sample_database
        (persist 1 after_reservation sample_database)).0
      reserved

released :
    release 3 70 sample_limits 100 1 one_book sample_database
    ≡ (ok after_release, persist 1 after_release sample_database)
unfolding release locked_workspace workspace_of find require_active enforce evaluate evaluate_at
    as_utc usage exceeds persist update_where
released = refl

release-ok_iff_example :
    (w : Workspace) × (workspace_of 1 sample_database ≡ some w)
    × IsOpen w 100
    × (plus after_release one_book ≡ usage w)
    × (persist 1 after_release sample_database ≡ persist 1 after_release sample_database)
    × IsWritten 1 after_release sample_database (persist 1 after_release sample_database)
release-ok_iff_example =
    (release-ok_iff 3 70 sample_limits 100 1 one_book after_release sample_database
        (persist 1 after_release sample_database)).0
      released

-- The clock stands behind the expiry.
quota-Transactional_example :
    Transactional 3 70 sample_limits 2000 1 sample_database
      (reserve 3 70 sample_limits 2000 1 one_book sample_database)
    × Transactional 3 70 sample_limits 2000 1 sample_database
        (release 3 70 sample_limits 2000 1 one_book sample_database)
quota-Transactional_example = quota-Transactional 3 70 sample_limits 2000 1 one_book sample_database

delete_lem_example :
    ((w : Workspace) × (delete 3 70 1 (Datetime.aware 40) sample_database
        ≡ (ok w, revoked 3 70 1 40 WorkspaceState.deleted CleanupReason.deleted sample_database))
      × (w.state ≡ WorkspaceState.deleted)
      × (timestamps_shape WorkspaceState.deleted w.revoked_at w.deleted_at ≡ true)
      × IsRevoked 3 70 1 40 CleanupReason.deleted sample_database w
          (revoked 3 70 1 40 WorkspaceState.deleted CleanupReason.deleted sample_database))
    ⊎ (workspace_of 1 sample_database ≡ none)
      × (delete 3 70 1 (Datetime.aware 40) sample_database
          ≡ (raise Error.workspace_unavailable, sample_database))
delete_lem_example = delete_lem 3 70 1 40 sample_database

there : workspace_of 1 sample_database ≡ some sample_workspace
unfolding workspace_of find
there = refl

require_active_expired_example :
    (row : Workspace) × (require_active 3 70 sample_workspace (Datetime.aware 1000) sample_database
      ≡ (
        raise Error.workspace_unavailable,
        revoked 3 70 1 1000 WorkspaceState.revoked CleanupReason.expired sample_database,
      ))
    × (row.state ≡ WorkspaceState.revoked)
    × IsRevoked 3 70 1 1000 CleanupReason.expired sample_database row
        (revoked 3 70 1 1000 WorkspaceState.revoked CleanupReason.expired sample_database)
require_active_expired_example =
    require_active_expired 3 70 1000 sample_workspace sample_database there refl (omega arith)

reserve_expired_example :
    reserve 3 70 sample_limits 1000 1 one_book sample_database
    ≡ (raise Error.workspace_unavailable, sample_database)
reserve_expired_example =
    reserve_expired 3 70 sample_limits 1000 1 one_book sample_workspace sample_database there refl
      (omega arith)
