-- ===== src/Resolutions/Generations.antt =====
-- The generation of a book, through the changes that resolutions/services.py makes.
use reconciliation_workbench.Common.{
  ℕ, ◌≡◌, refl, ◌∙◌, ap, inl, inr, Option, none, some, List, [], ◌∷◌, arith, map, map_option,
  Bool-cases, Option-cases, Result-cases, ok,
}
use reconciliation_workbench.Review.Domain.{
  DecisionAuthority, DecisionAction, DecisionCommand, ExpectedDecisionRevision,
}
use reconciliation_workbench.Review.Previews.{DecisionConflict}
use reconciliation_workbench.Resolutions.Tables.{
  DecisionRevision, Store, TransactionObservation, book_at,
}
use reconciliation_workbench.Resolutions.Checks.{
  endpoints, resolves, resolve_reviewed, claim_conflicts,
}
use reconciliation_workbench.Resolutions.Commands.{
  add_decision, set_current, move_claims, delete_claims, advance, create_revision, reserve_claims,
  supersede, initial_revision, new_decision, lifecycle_revision, write_initial, initial_changes,
  reaffirm, revoke_decision, write_replacement, replace_decision, change_branch, lifecycle_changes,
}
use reconciliation_workbench.Resolutions.Runs.{
  replace_decision-ReplacementRun, lifecycle_changes-LifecycleRun, initial_changes-InitialRun,
}
use reconciliation_workbench.Resolutions.Writes.{
  create_revision_lem, reserve_claims_lem, supersede_lem,
}

abbrev pub generation_of : ℕ → Store → Option ℕ
generation_of b s = map_option (λ x. x.resolution_generation) (book_at b s)

-- The books of the one store are those of the other.
abbrev pub SameBooks : Store → Store → Type 0
SameBooks s s' = s.books ≡ s'.books

created_books : (r : DecisionRevision) (s s' : Store) → create_revision r s ≡ ok s' → SameBooks s s'
created_books r s s' e = ap (λ t. t.books) (create_revision_lem r s s' e)

reserved_books :
    (w b n : ℕ) (a : DecisionAuthority) (s s' : Store)
    → reserve_claims w b n a s ≡ ok s'
    → SameBooks s s'
reserved_books w b n a s s' e = ap (λ t. t.books) (reserve_claims_lem w b n a s s' e).after

superseded_books :
    (w n at : ℕ) (rs : List ℕ) (s s' : Store) → supersede w n at rs s ≡ ok s' → SameBooks s s'
superseded_books w n at rs s s' e = ap (λ t. t.books) (supersede_lem w n at rs s s' e).1

-- The books are advanced.
abbrev pub Advanced : (w b : ℕ) → Store → Store → Type 0
Advanced w b s s' = (advance w b s).books ≡ s'.books

Advanced-same : (w b : ℕ) (s s' : Store) → SameBooks s s' → Advanced w b s (advance w b s')
unfolding advance
Advanced-same w b s s' e = rw e refl

module _ (strip : ℕ → ℕ) (digest : List TransactionObservation → ℕ) (at k n w b : ℕ)
    (command : DecisionCommand) (s s' : Store) where
  write_initial-Advanced :
      (a : DecisionAuthority) (os : List TransactionObservation)
      → write_initial strip digest at k n w b command a os s ≡ ok s'
      → Advanced w b s s'
  unfolding write_initial
  write_initial-Advanced a os e =
      let d = new_decision strip digest at k n w b command in
      let new = initial_revision strip digest at k n w b command a os in
      elim (Result-cases (create_revision new (add_decision d s))) [
        | inr (x, taken) ↦ absurd (ground arith)
        | inl (s₁, made) ↦ elim (Result-cases (reserve_claims w b n a (set_current k n s₁))) [
          | inr (x, refused) ↦ absurd (ground arith)
          | inl (s₂, claimed) ↦
              let last : advance w b s₂ ≡ s' = ground arith in
              Advanced-same w b s s₂ (
                created_books new (add_decision d s) s₁ made
                ∙ reserved_books w b n a (set_current k n s₁) s₂ claimed)
              ∙ ap (λ t. t.books) last
        ]
      ]

  reaffirm-Advanced :
      (cur : DecisionRevision)
      → reaffirm strip digest at k n w b command cur s ≡ ok s'
      → Advanced w b s s'
  unfolding reaffirm
  reaffirm-Advanced cur e = elim (Option-cases cur.authority) [
    | inl unset ↦ absurd (ground arith)
    | inr (a, ea) ↦ elim (Bool-cases (resolves w b s a)) [
      | inr unresolved ↦ absurd (ground arith)
      | inl resolved ↦
          elim (Result-cases
            (resolve_reviewed w b command.reviewed_observation_ids (endpoints a) s)) [
              | inr (x, unseen) ↦ absurd (ground arith)
              | inl (os, seen) ↦
                  let new = lifecycle_revision strip digest at k n w b command cur (some a) os in
                  elim (Result-cases (create_revision new s)) [
                    | inr (x, taken) ↦ absurd (ground arith)
                    | inl (s₁, made) ↦
                        let last : advance w b
                              (set_current cur.decision n (move_claims w b cur.id n s₁))
                            ≡ s' =
                          ground arith in
                        Advanced-same w b s
                          (set_current cur.decision n (move_claims w b cur.id n s₁))
                          (created_books new s s₁ made)
                        ∙ ap (λ t. t.books) last
                  ]
            ]
    ]
  ]

  revoke_decision-Advanced :
      (cur : DecisionRevision)
      → revoke_decision strip digest at k n w b command cur s ≡ ok s'
      → Advanced w b s s'
  unfolding revoke_decision
  revoke_decision-Advanced cur e = elim (Option-cases cur.authority) [
    | inl unset ↦ absurd (ground arith)
    | inr (a, ea) ↦
        let new = lifecycle_revision strip digest at k n w b command cur none [] in
        elim (Result-cases (create_revision new s)) [
          | inr (x, taken) ↦ absurd (ground arith)
          | inl (s₁, made) ↦
              let after = set_current cur.decision n (delete_claims w b (cur.id ∷ []) s₁) in
              let last : advance w b after ≡ s' = ground arith in
              Advanced-same w b s after (created_books new s s₁ made) ∙ ap (λ t. t.books) last
        ]
  ]

  write_replacement-Advanced :
      (cur : DecisionRevision) (a : DecisionAuthority) (os : List TransactionObservation)
      (cs : List DecisionConflict)
      → write_replacement strip digest at k n w b command cur a os cs s ≡ ok s'
      → Advanced w b s s'
  unfolding write_replacement
  write_replacement-Advanced cur a os cs e =
      let new = lifecycle_revision strip digest at k n w b command cur (some a) os in
      let old = cur.id ∷ map (λ c. c.revision_id) cs in
      elim (Result-cases (create_revision new s)) [
        | inr (x, taken) ↦ absurd (ground arith)
        | inl (s₁, made) ↦ elim (Result-cases (supersede w n at old s₁)) [
          | inr (x, refused) ↦ absurd (ground arith)
          | inl (s₂, replaced) ↦
              elim (Result-cases (reserve_claims w b n a (delete_claims w b old s₂))) [
                | inr (x, held) ↦ absurd (ground arith)
                | inl (s₃, claimed) ↦
                    let after = set_current cur.decision n s₃ in
                    let last : advance w b after ≡ s' = ground arith in
                    Advanced-same w b s after (
                      created_books new s s₁ made
                      ∙ superseded_books w n at old s₁ s₂ replaced
                      ∙ reserved_books w b n a (delete_claims w b old s₂) s₃ claimed)
                    ∙ ap (λ t. t.books) last
              ]
        ]
      ]

  replace_decision-Advanced :
      (cur : DecisionRevision)
      → replace_decision strip digest at k n w b command cur s ≡ ok s'
      → Advanced w b s s'
  replace_decision-Advanced cur e =
      let r = replace_decision-ReplacementRun strip digest at k n w b command s s' cur e in
      write_replacement-Advanced cur r.authority r.observations
        (claim_conflicts w b r.authority (some cur.decision) s) r.written

  change_branch-Advanced :
      (action : DecisionAction) (cur : DecisionRevision)
      → change_branch strip digest at k n w b command action cur s ≡ ok s'
      → Advanced w b s s'
  change_branch-Advanced DecisionAction.reaffirm cur e = reaffirm-Advanced cur e
  change_branch-Advanced DecisionAction.revoke cur e = revoke_decision-Advanced cur e
  change_branch-Advanced DecisionAction.replace cur e = replace_decision-Advanced cur e
  change_branch-Advanced DecisionAction.link cur e = replace_decision-Advanced cur e
  change_branch-Advanced DecisionAction.accept_unmatched cur e = replace_decision-Advanced cur e
  change_branch-Advanced DecisionAction.reject_candidate cur e = replace_decision-Advanced cur e

  pub lifecycle_changes-Advanced :
      (target : ExpectedDecisionRevision)
      → lifecycle_changes strip digest at k n w b command target s ≡ ok s'
      → Advanced w b s s'
  lifecycle_changes-Advanced target e =
      let r = lifecycle_changes-LifecycleRun strip digest at k n w b command s s' target e in
      change_branch-Advanced command.action r.revision r.written

  pub initial_changes-Advanced :
      (a : DecisionAuthority)
      → initial_changes strip digest at k n w b command a s ≡ ok s'
      → Advanced w b s s'
  initial_changes-Advanced a e =
      let r = initial_changes-InitialRun strip digest at k n w b command s s' a e in
      write_initial-Advanced a r.observations r.written
