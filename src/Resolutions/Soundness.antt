-- ===== src/Resolutions/Soundness.antt =====
-- Any row of the commands of resolutions/services.py keeps the claims consistent.
use reconciliation_workbench.Common.{
  ℕ, ◌≡◌, refl, sym, ◌∙◌, ap, subst, true, false, inl, inr, none, List, [], arith, Result-cases, ok,
}
use reconciliation_workbench.Review.Domain.{
  DecisionAuthority, DecisionAction, DecisionCommand, ExpectedDecisionRevision,
}
use reconciliation_workbench.Resolutions.Tables.{
  DecisionRevision, Store, TransactionObservation, decision_at, is_revocation,
}
use reconciliation_workbench.Resolutions.Commands.{
  create_revision, reserve_claims, add_decision, set_current, advance, write_initial,
  initial_changes, initial_revision, new_decision, is_initial, replace_decision, change_branch,
  lifecycle_changes,
}
use reconciliation_workbench.Resolutions.Consistency.{IsConsistent, AreSingle}
use reconciliation_workbench.Resolutions.Writes.{
  IsFresh, with_claims, create_revision_lem, reserve_claims_lem, commit-IsConsistent,
  initial-IsCommit,
}
use reconciliation_workbench.Resolutions.Runs.{
  initial_changes-InitialRun, replace_decision-ReplacementRun, lifecycle_changes-LifecycleRun,
}
use reconciliation_workbench.Resolutions.Lifecycle.{IsCurrent}
use reconciliation_workbench.Resolutions.Commits.{
  current_revision-IsCurrent, reaffirm-IsConsistent, revoke_decision-IsConsistent,
  write_replacement-IsConsistent,
}

module _ (strip : ℕ → ℕ) (digest : List TransactionObservation → ℕ) (at k n w b : ℕ)
    (command : DecisionCommand) (s : Store) (h : IsConsistent s) (fresh : IsFresh n s) where
  replace_decision-IsConsistent :
      (cur : DecisionRevision) (s' : Store)
      → IsCurrent w b s cur
      → is_revocation command.action ≡ false
      → replace_decision strip digest at k n w b command cur s ≡ ok s'
      → IsConsistent s'
  replace_decision-IsConsistent cur s' now act e =
      let r = replace_decision-ReplacementRun strip digest at k n w b command s s' cur e in
      write_replacement-IsConsistent strip digest at k n w b command s h cur now fresh r.authority
        r.observations s' act r.written

  change_branch-IsConsistent :
      (action : DecisionAction) (cur : DecisionRevision) (s' : Store)
      → command.action ≡ action
      → is_initial action ≡ false
      → IsCurrent w b s cur
      → change_branch strip digest at k n w b command action cur s ≡ ok s'
      → IsConsistent s'
  change_branch-IsConsistent DecisionAction.reaffirm cur s' act i now e =
      reaffirm-IsConsistent strip digest at k n w b command s h cur now fresh act s' e
  change_branch-IsConsistent DecisionAction.revoke cur s' act i now e =
      revoke_decision-IsConsistent strip digest at k n w b command s h cur now fresh s' e
  change_branch-IsConsistent DecisionAction.replace cur s' act i now e =
      replace_decision-IsConsistent cur s' now (rw act refl) e
  change_branch-IsConsistent DecisionAction.link cur s' act i now e = absurd (ground arith)
  change_branch-IsConsistent DecisionAction.accept_unmatched cur s' act i now e =
      absurd (ground arith)
  change_branch-IsConsistent DecisionAction.reject_candidate cur s' act i now e =
      absurd (ground arith)

  pub lifecycle_changes-IsConsistent :
      (target : ExpectedDecisionRevision) (s' : Store)
      → is_initial command.action ≡ false
      → lifecycle_changes strip digest at k n w b command target s ≡ ok s'
      → IsConsistent s'
  lifecycle_changes-IsConsistent target s' i e =
      let r = lifecycle_changes-LifecycleRun strip digest at k n w b command s s' target e in
      change_branch-IsConsistent command.action r.revision s' refl i
        (current_revision-IsCurrent w b target s h r.revision r.current) r.written

  write_initial-IsConsistent :
      (a : DecisionAuthority) (os : List TransactionObservation) (s' : Store)
      → is_revocation command.action ≡ false
      → decision_at k s ≡ none
      → write_initial strip digest at k n w b command a os s ≡ ok s'
      → IsConsistent s'
  unfolding write_initial advance
  write_initial-IsConsistent a os s' act unused e =
      let d = new_decision strip digest at k n w b command in
      let new = initial_revision strip digest at k n w b command a os in
      elim (Result-cases (create_revision new (add_decision d s))) [
        | inr (x, taken) ↦ absurd (ground arith)
        | inl (s₁, made) ↦ elim (Result-cases (reserve_claims w b n a (set_current k n s₁))) [
          | inr (x, refused) ↦ absurd (ground arith)
          | inl (s₂, claimed) ↦
              let e₁ = create_revision_lem new (add_decision d s) s₁ made in
              let r = reserve_claims_lem w b n a (set_current k n s₁) s₂ claimed in
              let last : advance w b s₂ ≡ s' = ground arith in
              let q = ap (λ t. with_claims r.created (set_current k n t)) e₁ ∙ r.after in
              let single : AreSingle s₂.claims =
                r.single (subst (λ (t : Store). AreSingle t.claims) e₁ h.single) in
              subst IsConsistent (ap (advance w b) q ∙ last) (
                commit-IsConsistent new k w b [] (λ _. false) s _ h
                  (initial-IsCommit w b d new a r.created s refl refl refl act refl r.granted unused
                    fresh)
                  (subst (λ (t : Store). AreSingle t.claims) (sym q) single))
        ]
      ]

  pub initial_changes-IsConsistent :
      (a : DecisionAuthority) (s' : Store)
      → is_initial command.action ≡ true
      → decision_at k s ≡ none
      → initial_changes strip digest at k n w b command a s ≡ ok s'
      → IsConsistent s'
  initial_changes-IsConsistent a s' i unused e =
      let r = initial_changes-InitialRun strip digest at k n w b command s s' a e in
      write_initial-IsConsistent a r.observations s' (initial_active command.action i) unused
        r.written
    where
      initial_active :
          (action : DecisionAction) → is_initial action ≡ true → is_revocation action ≡ false
      initial_active DecisionAction.link i = refl
      initial_active DecisionAction.accept_unmatched i = refl
      initial_active DecisionAction.reject_candidate i = refl
      initial_active DecisionAction.reaffirm i = absurd (ground arith)
      initial_active DecisionAction.revoke i = absurd (ground arith)
      initial_active DecisionAction.replace i = absurd (ground arith)
