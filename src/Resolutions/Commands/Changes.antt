-- ===== src/Resolutions/Commands/Changes.antt =====
-- What the transactions of `commit_initial` and `commit_change` of resolutions/services.py change. The
-- clock, the identities of the new rows, `str.strip` and the digest of the reviewed evidence are arguments.
use reconciliation_workbench.Common.{
  ℕ, ◌+◌, Bool, true, false, ◌&&◌, Option, none, some, List, [], ◌∷◌, map, Result, ok, Error,
  ReviewConflictCode, bind, require, ◌==◌,
}
use reconciliation_workbench.Review.Domain.{
  DecisionAction, DecisionAuthority, DecisionCommand, ExpectedDecisionRevision,
}
use reconciliation_workbench.Review.Previews.{DecisionConflict, expected_revision}
use reconciliation_workbench.Resolutions.Tables.{
  TransactionObservation, Decision, DecisionRevision, Store,
}
use reconciliation_workbench.Resolutions.Checks.{
  asserted, conflict, find_book, endpoints, resolves, resolve_reviewed, claim_conflicts,
  reject_claim_conflicts, affected, current_revision, authority_from_revision,
}
use reconciliation_workbench.Resolutions.Commands.Statements.{
  add_decision, set_current, create_revision, reserve_claims, advance, require_generation,
  observation_ids, digest_of, delete_claims, move_claims, supersede,
}

module _ (strip : ℕ → ℕ) (digest : List TransactionObservation → ℕ)
    (now decision_id revision_id : ℕ) (workspace book : ℕ) (command : DecisionCommand) where
  -- The row of `_create_initial_revision`.
  abbrev pub initial_revision : DecisionAuthority → List TransactionObservation → DecisionRevision
  initial_revision a observations = record {
    id = revision_id;
    workspace = workspace;
    decision = decision_id;
    predecessor = none;
    revision = 1;
    action = command.action;
    authority = some a;
    reason = strip command.reason;
    actor = strip command.actor;
    reviewed_observation_ids = observation_ids observations;
    reviewed_evidence_digest = some (digest observations);
    created_at = now;
  }

  abbrev pub new_decision : Decision
  new_decision = record {
    id = decision_id;
    workspace = workspace;
    book = book;
    current_revision = none;
    created_at = now;
  }

  -- The writes of `commit_initial`.
  unfoldable pub write_initial :
      DecisionAuthority → List TransactionObservation → Store → Result Store
  write_initial a observations s =
      bind (create_revision (initial_revision a observations) (add_decision new_decision s))
        λ created.
          bind
            (reserve_claims workspace book revision_id a
              (set_current decision_id revision_id created))
            (λ claimed. ok (advance workspace book claimed))

  -- The transaction of `commit_initial` behind its first check.
  unfoldable pub initial_changes : DecisionAuthority → Store → Result Store
  initial_changes a s = bind (find_book workspace book s) λ b.
      bind (require_generation command b) λ _.
        bind (require (resolves workspace book s a) Error.decision_mutation_unavailable) λ _.
          bind (resolve_reviewed workspace book command.reviewed_observation_ids (endpoints a) s)
            λ observations.
              bind (reject_claim_conflicts workspace book a s) (λ _. write_initial a observations s)

  -- The row of `_create_lifecycle_revision`.
  abbrev pub lifecycle_revision :
      DecisionRevision → Option DecisionAuthority → List TransactionObservation → DecisionRevision
  lifecycle_revision current a observations = record {
    id = revision_id;
    workspace = workspace;
    decision = current.decision;
    predecessor = some current.id;
    revision = current.revision + 1;
    action = command.action;
    authority = a;
    reason = strip command.reason;
    actor = strip command.actor;
    reviewed_observation_ids = observation_ids observations;
    reviewed_evidence_digest = digest_of digest observations;
    created_at = now;
  }

  -- The end of `commit_change`.
  abbrev pub finish : DecisionRevision → Store → Store
  finish current s = advance workspace book (set_current current.decision revision_id s)

  -- The branch of REAFFIRM.
  unfoldable pub reaffirm : DecisionRevision → Store → Result Store
  reaffirm current s = bind (authority_from_revision current) λ a.
      bind (require (resolves workspace book s a) Error.decision_mutation_unavailable) λ _.
        bind (resolve_reviewed workspace book command.reviewed_observation_ids (endpoints a) s)
          λ observations.
            bind (create_revision (lifecycle_revision current (some a) observations) s) (λ created.
              ok (finish current (move_claims workspace book current.id revision_id created)))

  -- The branch of REVOKE.
  unfoldable pub revoke_decision : DecisionRevision → Store → Result Store
  revoke_decision current s = bind (authority_from_revision current) λ _.
      bind (create_revision (lifecycle_revision current none []) s)
        (λ created. ok (finish current (delete_claims workspace book (current.id ∷ []) created)))

  abbrev pub same_revisions : List ExpectedDecisionRevision → List ExpectedDecisionRevision → Bool
  same_revisions [] [] = true
  same_revisions (r ∷ rs) (t ∷ ts) =
      r.decision_id == t.decision_id && r.revision_id == t.revision_id && same_revisions rs ts
  same_revisions _ _ = false

  -- The writes of REPLACE, with the conflicts that it supersedes.
  unfoldable pub write_replacement :
      DecisionRevision
      → DecisionAuthority
      → List TransactionObservation
      → List DecisionConflict
      → Store
      → Result Store
  write_replacement current a observations conflicts s =
      let superseded = current.id ∷ map (λ c. c.revision_id) conflicts in
      bind (create_revision (lifecycle_revision current (some a) observations) s) λ created.
        bind (supersede workspace revision_id now superseded created) λ replaced.
          bind
            (reserve_claims workspace book revision_id a
              (delete_claims workspace book superseded replaced))
            (λ claimed. ok (finish current claimed))

  -- The branch of REPLACE.
  unfoldable pub replace_decision : DecisionRevision → Store → Result Store
  replace_decision current s = bind (authority_from_revision current) λ _.
      bind (asserted command.authority) λ a.
        bind (require (resolves workspace book s a) Error.decision_mutation_unavailable) λ _.
          bind (resolve_reviewed workspace book command.reviewed_observation_ids (endpoints a) s)
            λ observations.
              let conflicts = claim_conflicts workspace book a (some current.decision) s in
              bind
                (require
                  (same_revisions (map expected_revision conflicts) command.approved_conflicts)
                  (conflict ReviewConflictCode.conflict_set_changed (affected conflicts)))
                (λ _. write_replacement current a observations conflicts s)

  abbrev pub change_branch : DecisionAction → DecisionRevision → Store → Result Store
  change_branch DecisionAction.reaffirm current s = reaffirm current s
  change_branch DecisionAction.revoke current s = revoke_decision current s
  change_branch _ current s = replace_decision current s

  -- The transaction of `commit_change` behind its first check.
  unfoldable pub lifecycle_changes : ExpectedDecisionRevision → Store → Result Store
  lifecycle_changes target s = bind (find_book workspace book s) λ b.
      bind (require_generation command b) λ _.
        bind (current_revision true workspace book target s)
          (λ current. change_branch command.action current s)
