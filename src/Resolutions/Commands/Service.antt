-- ===== src/Resolutions/Commands/Service.antt =====
-- The methods of `DecisionCommandService` in resolutions/services.py.
use reconciliation_workbench.Common.{
  ℕ, false, Option, none, some, List, Result, ok, raise, Error, bind, require, Action, atomic,
  if◌then◌else◌,
}
use reconciliation_workbench.Workspaces.Domain.{Datetime}
use reconciliation_workbench.Workspaces.Tables.{Workspace, workspace_of}
use reconciliation_workbench.Workspaces.Lifecycle.{require_active}
use reconciliation_workbench.Review.Domain.{
  DecisionAuthority, DecisionCommand, ExpectedDecisionRevision,
}
use reconciliation_workbench.Review.Previews.{ReplacementPreview, make_preview}
use reconciliation_workbench.Resolutions.Tables.{TransactionObservation, Store}
use reconciliation_workbench.Resolutions.Checks.{
  asserted, find_book, resolves, claim_conflicts, current_revision,
}
use reconciliation_workbench.Resolutions.Commands.Statements.{entered, is_initial}
use reconciliation_workbench.Resolutions.Commands.Changes.{initial_changes, lifecycle_changes}

-- A transaction that first enters the workspace: the changes follow on the database that it leaves.
abbrev pub changed : (Store → Result Store) → Result (Unit {0}) × Store → Result (Unit {0}) × Store
changed changes (raise e, s) = (raise e, s)
changed changes (ok u, s) = elim (changes s) [ ok s' ↦ (ok tt, s') | raise e ↦ (raise e, s) ]

module _ (cleanup_max_attempts uuid : ℕ) where
  abbrev pub enter : (now : ℕ) → Store → Option Workspace → Result (Unit {0}) × Store
  enter now s none = (raise Error.decision_mutation_unavailable, s)
  enter now s (some w) =
      entered s (require_active cleanup_max_attempts uuid w (Datetime.aware now) s.base)

  -- `_require_active_workspace` and `_require_active_workspace_read`
  unfoldable pub require_active_workspace : (workspace now : ℕ) → Action Store (Unit {0})
  require_active_workspace workspace now s = enter now s (workspace_of workspace s.base)

  module _ (strip : ℕ → ℕ) (digest : List TransactionObservation → ℕ) where
    abbrev pub commit_authority :
        (now decision_id revision_id workspace book : ℕ)
        → DecisionCommand
        → Result DecisionAuthority
        → Action Store (Unit {0})
    commit_authority now decision_id revision_id workspace book command (raise e) s = (raise e, s)
    commit_authority now decision_id revision_id workspace book command (ok a) s =
        atomic
          (λ s.
            changed
              (initial_changes strip digest now decision_id revision_id workspace book command a)
              (require_active_workspace workspace now s))
          s

    -- `commit_initial`. The revision that it returns is the row of `revision_id`.
    unfoldable pub commit_initial :
        (now decision_id revision_id workspace book : ℕ) → DecisionCommand → Action Store (Unit {0})
    commit_initial now decision_id revision_id workspace book command s =
        if is_initial command.action
        then commit_authority now decision_id revision_id workspace book command
            (asserted command.authority) s
        else (raise Error.initial_decision_action_required, s)

    abbrev pub commit_target :
        (now revision_id workspace book : ℕ)
        → DecisionCommand
        → Result ExpectedDecisionRevision
        → Action Store (Unit {0})
    commit_target now revision_id workspace book command (raise e) s = (raise e, s)
    commit_target now revision_id workspace book command (ok target) s =
        atomic
          (λ s.
            changed (lifecycle_changes strip digest now 0 revision_id workspace book command target)
              (require_active_workspace workspace now s))
          s

    -- `commit_change`. The revision that it returns is the row of `revision_id`.
    unfoldable pub commit_change :
        (now revision_id workspace book : ℕ) → DecisionCommand → Action Store (Unit {0})
    commit_change now revision_id workspace book command s =
        if is_initial command.action
        then (raise Error.initial_decision_action_required, s)
        else commit_target now revision_id workspace book command (asserted command.target) s

  -- `preview_replacement` behind its check of the workspace.
  unfoldable pub preview_on :
      (workspace book : ℕ)
      → ExpectedDecisionRevision
      → DecisionAuthority
      → Store
      → Result ReplacementPreview
  preview_on workspace book target a s = bind (find_book workspace book s) λ b.
      bind (current_revision false workspace book target s) λ current.
        bind (require (resolves workspace book s a) Error.decision_mutation_unavailable) λ _.
          make_preview (record {
            authority = a;
            target = target;
            conflicts = claim_conflicts workspace book a (some current.decision) s;
            resolution_generation = b.resolution_generation;
          })

  abbrev pub previewed :
      (Store → Result ReplacementPreview)
      → Result (Unit {0}) × Store
      → Result ReplacementPreview × Store
  previewed preview (raise e, s) = (raise e, s)
  previewed preview (ok u, s) = (preview s, s)

  -- `preview_replacement`: no transaction, so that an expiry that it meets stays.
  unfoldable pub preview_replacement :
      (now workspace book : ℕ)
      → ExpectedDecisionRevision
      → DecisionAuthority
      → Action Store ReplacementPreview
  preview_replacement now workspace book target a s =
      previewed (preview_on workspace book target a) (require_active_workspace workspace now s)
