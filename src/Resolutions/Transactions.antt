-- ===== src/Resolutions/Transactions.antt =====
-- What holds of the changes of a transaction in resolutions/services.py holds of its commit.
use reconciliation_workbench.Common.{
  ℕ, ◌≡◌, refl, ◌∙◌, subst, true, false, ◌⊎◌, inl, inr, some, List, Bool-cases, Option-cases,
  Result-cases, Result, Error, ok, raise, settle,
}
use reconciliation_workbench.Workspaces.Domain.{Datetime}
use reconciliation_workbench.Workspaces.Tables.{Database, workspace_of}
use reconciliation_workbench.Workspaces.Lifecycle.{require_active}
use reconciliation_workbench.Review.Domain.{
  DecisionAuthority, DecisionCommand, ExpectedDecisionRevision,
}
use reconciliation_workbench.Resolutions.Tables.{Store, TransactionObservation}
use reconciliation_workbench.Resolutions.Commands.{
  changed, entered, require_active_workspace, commit_initial, commit_change, initial_changes,
  lifecycle_changes, write_initial, replace_decision, reaffirm, revoke_decision, write_replacement,
  is_initial, preview_replacement, previewed, preview_on,
}

abbrev pub rebased : Database → Store → Store
rebased base s = record s { base = base }

-- Entering a workspace changes no table of the decisions.
entered-rebased :
    (s : Store) (r : Result (Unit {0}) × Database)
    → (base : Database) × ((entered s r).1 ≡ rebased base s)
entered-rebased s (ok u, base) = (base, refl)
entered-rebased s (raise e, base) = (base, refl)

pub require_active_workspace-rebased :
    (m u w now : ℕ) (s : Store)
    → (base : Database) × ((require_active_workspace m u w now s).1 ≡ rebased base s)
unfolding require_active_workspace
require_active_workspace-rebased m u w now s = elim (Option-cases (workspace_of w s.base)) [
  | inl absent ↦ (s.base, rw absent refl)
  | inr (x, e) ↦
      let (base, same) = entered-rebased s (require_active m u x (Datetime.aware now) s.base) in
      (base, rw e same)
]

-- A transaction that returned has made its changes; one that raised has left the store as it was.
abbrev pub Committed : (changes : Store → Result Store) → Store → Result (Unit {0}) × Store → Type 0
Committed changes s answer =
    ((base : Database) × (s' : Store) × (changes (rebased base s) ≡ ok s') × (answer ≡ (ok tt, s')))
    ⊎ ((e : Error) × (answer ≡ (raise e, s)))

changed-Committed :
    (changes : Store → Result Store) (s : Store) (base : Database) (r : Result (Unit {0}) × Store)
    → r.1 ≡ rebased base s
    → Committed changes s (settle s (changed changes r))
changed-Committed changes s base (raise e, t) same = inr (e, refl)
changed-Committed changes s base (ok u, t) same = elim (Result-cases (changes t)) [
  | inl (s', e) ↦ inl (base, s', subst (λ x. changes x ≡ ok s') same e, rw (changed, e) refl)
  | inr (x, e) ↦ inr (x, rw (changed, e) refl)
]

module _ (m u : ℕ) (strip : ℕ → ℕ) (digest : List TransactionObservation → ℕ) where
  -- What a commit of an initial decision answers.
  pub commit_initial-cases :
      (now k n w b : ℕ) (command : DecisionCommand) (s : Store)
      → ((e : Error) × (commit_initial m u strip digest now k n w b command s ≡ (raise e, s)))
        ⊎ ((a : DecisionAuthority) × (is_initial command.action ≡ true)
            × (command.authority ≡ some a)
            × Committed
                (initial_changes strip digest now k n w b command a)
                s
                (commit_initial m u strip digest now k n w b command s))
  unfolding commit_initial initial_changes write_initial
  commit_initial-cases now k n w b command s = elim (Bool-cases (is_initial command.action)) [
    | inr other ↦ inl (Error.initial_decision_action_required, rw other refl)
    | inl i ↦ elim (Option-cases command.authority) [
      | inl missing ↦ inl (Error.assertion_error, rw (i, missing) refl)
      | inr (a, ea) ↦
          let (base, same) = require_active_workspace-rebased m u w now s in
          inr (
            a,
            i,
            ea,
            simp (i, ea)
                (changed-Committed (initial_changes strip digest now k n w b command a) s base
                  (require_active_workspace m u w now s) same),
          )
    ]
  ]

  pub commit_change-cases :
      (now n w b : ℕ) (command : DecisionCommand) (s : Store)
      → ((e : Error) × (commit_change m u strip digest now n w b command s ≡ (raise e, s)))
        ⊎ ((t : ExpectedDecisionRevision) × (is_initial command.action ≡ false)
            × (command.target ≡ some t)
            × Committed
                (lifecycle_changes strip digest now 0 n w b command t)
                s
                (commit_change m u strip digest now n w b command s))
  unfolding commit_change lifecycle_changes replace_decision reaffirm revoke_decision
      write_replacement
  commit_change-cases now n w b command s = elim (Bool-cases (is_initial command.action)) [
    | inl other ↦ inl (Error.initial_decision_action_required, rw other refl)
    | inr i ↦ elim (Option-cases command.target) [
      | inl missing ↦ inl (Error.assertion_error, rw (i, missing) refl)
      | inr (t, et) ↦
          let (base, same) = require_active_workspace-rebased m u w now s in
          inr (
            t,
            i,
            et,
            simp (i, et)
                (changed-Committed (lifecycle_changes strip digest now 0 n w b command t) s base
                  (require_active_workspace m u w now s) same),
          )
    ]
  ]

-- A preview changes no table of the decisions.
pub preview_replacement-rebased :
    (m u now w b : ℕ) (target : ExpectedDecisionRevision) (a : DecisionAuthority) (s : Store)
    → (base : Database) × ((preview_replacement m u now w b target a s).1 ≡ rebased base s)
unfolding preview_replacement
preview_replacement-rebased m u now w b target a s =
    let (base, same) = require_active_workspace-rebased m u w now s in
    (base, kept (require_active_workspace m u w now s) ∙ same)
  where
    kept : (r : Result (Unit {0}) × Store) → (previewed m u (preview_on m u w b target a) r).1 ≡ r.1
    kept (ok u, t) = refl
    kept (raise e, t) = refl
