-- ===== src/Resolutions/Runs.antt =====
-- What a transaction of resolutions/services.py has found, one check after the other, when it returns.
use reconciliation_workbench.Common.{
  ℕ, ◌≡◌, true, inl, inr, some, List, ◌==◌, map, Bool-cases, Option-cases, Result-cases, ok, arith,
}
use reconciliation_workbench.Review.Domain.{
  DecisionAuthority, DecisionCommand, ExpectedDecisionRevision,
}
use reconciliation_workbench.Review.Previews.{expected_revision}
use reconciliation_workbench.Resolutions.Tables.{
  ReconciliationBook, DecisionRevision, Store, TransactionObservation,
}
use reconciliation_workbench.Resolutions.Checks.{
  find_book, endpoints, current_revision, resolves, resolve_reviewed, claim_conflicts,
  reject_claim_conflicts,
}
use reconciliation_workbench.Resolutions.Commands.{
  write_initial, initial_changes, replace_decision, write_replacement, change_branch,
  lifecycle_changes, same_revisions,
}

module _ (strip : ℕ → ℕ) (digest : List TransactionObservation → ℕ) (at k n w b : ℕ)
    (command : DecisionCommand) (s s' : Store) where
  pub record InitialRun (a : DecisionAuthority) : Type 0 where
    pub book : ReconciliationBook
    pub observations : List TransactionObservation
    pub found : find_book w b s ≡ ok book
    pub generation : (book.resolution_generation == command.expected_resolution_generation) ≡ true
    pub resolved : resolves w b s a ≡ true
    pub seen :
        resolve_reviewed w b command.reviewed_observation_ids (endpoints a) s ≡ ok observations
    pub free : reject_claim_conflicts w b a s ≡ ok tt
    pub written : write_initial strip digest at k n w b command a observations s ≡ ok s'

  pub initial_changes-InitialRun :
      (a : DecisionAuthority)
      → initial_changes strip digest at k n w b command a s ≡ ok s'
      → InitialRun a
  unfolding initial_changes
  initial_changes-InitialRun a e = elim (Result-cases (find_book w b s)) [
    | inr (x, lost) ↦ absurd (ground arith)
    | inl (bk, found) ↦
        elim (Bool-cases (bk.resolution_generation == command.expected_resolution_generation)) [
          | inr stale ↦ absurd (ground arith)
          | inl current ↦ elim (Bool-cases (resolves w b s a)) [
            | inr unresolved ↦ absurd (ground arith)
            | inl resolved ↦
                elim (Result-cases
                  (resolve_reviewed w b command.reviewed_observation_ids (endpoints a) s)) [
                    | inr (x, unseen) ↦ absurd (ground arith)
                    | inl (os, seen) ↦ elim (Result-cases (reject_claim_conflicts w b a s)) [
                      | inr (x, conflicting) ↦ absurd (ground arith)
                      | inl (tt, free) ↦ record {
                        book = bk;
                        observations = os;
                        found = found;
                        generation = current;
                        resolved = resolved;
                        seen = seen;
                        free = free;
                        written = ground arith;
                      }
                    ]
                  ]
          ]
        ]
  ]

  pub record ReplacementRun (current : DecisionRevision) : Type 0 where
    pub authority : DecisionAuthority
    pub observations : List TransactionObservation
    pub given : command.authority ≡ some authority
    pub resolved : resolves w b s authority ≡ true
    pub seen :
        resolve_reviewed w b command.reviewed_observation_ids (endpoints authority) s
        ≡ ok observations
    pub approved :
        same_revisions strip digest at k n w b command
          (map expected_revision (claim_conflicts w b authority (some current.decision) s))
          command.approved_conflicts
        ≡ true
    pub written :
        write_replacement strip digest at k n w b command current authority observations
          (claim_conflicts w b authority (some current.decision) s)
          s
        ≡ ok s'

  pub replace_decision-ReplacementRun :
      (current : DecisionRevision)
      → replace_decision strip digest at k n w b command current s ≡ ok s'
      → ReplacementRun current
  unfolding replace_decision
  replace_decision-ReplacementRun cur e = elim (Option-cases cur.authority) [
    | inl unset ↦ absurd (ground arith)
    | inr (old, eo) ↦ elim (Option-cases command.authority) [
      | inl missing ↦ absurd (ground arith)
      | inr (a, ea) ↦ elim (Bool-cases (resolves w b s a)) [
        | inr unresolved ↦ absurd (ground arith)
        | inl resolved ↦
            elim (Result-cases
              (resolve_reviewed w b command.reviewed_observation_ids (endpoints a) s)) [
                | inr (x, unseen) ↦ absurd (ground arith)
                | inl (os, seen) ↦
                    let conflicts = claim_conflicts w b a (some cur.decision) s in
                    elim (Bool-cases (
                      same_revisions strip digest at k n w b command
                        (map expected_revision conflicts) command.approved_conflicts)) [
                          | inr differ ↦ absurd (ground arith)
                          | inl agree ↦ record {
                            authority = a;
                            observations = os;
                            given = ea;
                            resolved = resolved;
                            seen = seen;
                            approved = agree;
                            written = ground arith;
                          }
                        ]
              ]
      ]
    ]
  ]

  pub record LifecycleRun (target : ExpectedDecisionRevision) : Type 0 where
    pub book : ReconciliationBook
    pub revision : DecisionRevision
    pub found : find_book w b s ≡ ok book
    pub generation : (book.resolution_generation == command.expected_resolution_generation) ≡ true
    pub current : current_revision true w b target s ≡ ok revision
    pub written : change_branch strip digest at k n w b command command.action revision s ≡ ok s'

  pub lifecycle_changes-LifecycleRun :
      (target : ExpectedDecisionRevision)
      → lifecycle_changes strip digest at k n w b command target s ≡ ok s'
      → LifecycleRun target
  unfolding lifecycle_changes
  lifecycle_changes-LifecycleRun target e = elim (Result-cases (find_book w b s)) [
    | inr (x, lost) ↦ absurd (ground arith)
    | inl (bk, found) ↦
        elim (Bool-cases (bk.resolution_generation == command.expected_resolution_generation)) [
          | inr stale ↦ absurd (ground arith)
          | inl current ↦ elim (Result-cases (current_revision true w b target s)) [
            | inr (x, gone) ↦ absurd (ground arith)
            | inl (cur, ec) ↦ record {
              book = bk;
              revision = cur;
              found = found;
              generation = current;
              current = ec;
              written = ground arith;
            }
          ]
        ]
  ]
