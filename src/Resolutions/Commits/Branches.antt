-- ===== src/Resolutions/Commits/Branches.antt =====
-- The branches of `commit_change` of resolutions/services.py keep the claims consistent.
use reconciliation_workbench.Common.{
  ℕ, ◌≡◌, refl, sym, ◌∙◌, ap, subst, false, inl, inr, none, some, List, [], ◌∷◌, ◌++◌, arith, map,
  Bool-cases, Option-cases, Result-cases, ok,
}
use reconciliation_workbench.Review.Domain.{
  DecisionAuthority, DecisionAction, DecisionCommand, member,
}
use reconciliation_workbench.Resolutions.Tables.{
  DecisionRevision, Store, TransactionObservation, is_revocation,
}
use reconciliation_workbench.Resolutions.Checks.{
  endpoints, resolves, resolve_reviewed, claim_conflicts,
}
use reconciliation_workbench.Resolutions.Commands.{
  delete_claims, move_claims, create_revision, reserve_claims, supersede, reaffirm, revoke_decision,
  finish, supersession, write_replacement, lifecycle_revision,
}
use reconciliation_workbench.Resolutions.Consistency.{IsConsistent, AreSingle}
use reconciliation_workbench.Resolutions.Rows.{with_revision, select-AreSingle}
use reconciliation_workbench.Resolutions.Writes.{
  with_claims, IsFresh, IsReserved, create_revision_lem, reserve_claims_lem, supersede_lem,
}
use reconciliation_workbench.Resolutions.Conflicts.{conflict_revisions}
use reconciliation_workbench.Resolutions.Lifecycle.{IsCurrent}
use reconciliation_workbench.Resolutions.Commits.Moved.{moved-IsConsistent, revoked-IsConsistent}
use reconciliation_workbench.Resolutions.Commits.Replaced.{replaced-IsConsistent}

module _ (strip : ℕ → ℕ) (digest : List TransactionObservation → ℕ) (at k n w b : ℕ)
    (command : DecisionCommand) (s : Store) (h : IsConsistent s) (cur : DecisionRevision)
    (now : IsCurrent w b s cur) (fresh : IsFresh n s) where
  pub reaffirm-IsConsistent :
      command.action ≡ DecisionAction.reaffirm
      → (s' : Store) → reaffirm strip digest at k n w b command cur s ≡ ok s'
      → IsConsistent s'
  unfolding reaffirm
  reaffirm-IsConsistent act s' e = elim (Option-cases cur.authority) [
    | inl unset ↦ absurd (ground arith)
    | inr (a, ea) ↦ elim (Bool-cases (resolves w b s a)) [
      | inr unresolved ↦ absurd (ground arith)
      | inl resolved ↦
          elim (Result-cases
            (resolve_reviewed w b command.reviewed_observation_ids (endpoints a) s)) [
              | inr (x, unseen) ↦ absurd (ground arith)
              | inl (os, seen) ↦
                  let new = lifecycle_revision strip digest at k n w b command cur (some a) os in
                  elim (Result-cases (create_revision new s)) [
                    | inr (x, taken) ↦ absurd (ground arith)
                    | inl (s₁, made) ↦
                        let e₁ = create_revision_lem new s s₁ made in
                        let last : finish strip digest at k n w b command cur
                              (move_claims w b cur.id n s₁)
                            ≡ s' =
                          ground arith in
                        subst IsConsistent
                          (ap
                              (λ t.
                                finish strip digest at k n w b command cur
                                  (move_claims w b cur.id n t))
                              e₁
                            ∙ last)
                          (moved-IsConsistent w b s h cur now new fresh refl (sym ea) (rw act refl))
                  ]
            ]
    ]
  ]

  pub revoke_decision-IsConsistent :
      (s' : Store) → revoke_decision strip digest at k n w b command cur s ≡ ok s' → IsConsistent s'
  unfolding revoke_decision
  revoke_decision-IsConsistent s' e = elim (Option-cases cur.authority) [
    | inl unset ↦ absurd (ground arith)
    | inr (a, ea) ↦
        let new = lifecycle_revision strip digest at k n w b command cur none [] in
        elim (Result-cases (create_revision new s)) [
          | inr (x, taken) ↦ absurd (ground arith)
          | inl (s₁, made) ↦
              let e₁ = create_revision_lem new s s₁ made in
              let last : finish strip digest at k n w b command cur
                    (delete_claims w b (cur.id ∷ []) s₁)
                  ≡ s' =
                ground arith in
              subst IsConsistent
                (ap
                    (λ t.
                      finish strip digest at k n w b command cur
                        (delete_claims w b (cur.id ∷ []) t))
                    e₁
                  ∙ last)
                (revoked-IsConsistent w b s h cur now new fresh refl refl)
        ]
  ]

  -- The writes of a replacement with the conflicts that were found.
  pub write_replacement-IsConsistent :
      (a : DecisionAuthority) (os : List TransactionObservation) (s' : Store)
      → is_revocation command.action ≡ false
      → write_replacement strip digest at k n w b command cur a os
          (claim_conflicts w b a (some cur.decision) s)
          s
        ≡ ok s'
      → IsConsistent s'
  unfolding write_replacement
  write_replacement-IsConsistent a os s' act e =
      let new = lifecycle_revision strip digest at k n w b command cur (some a) os in
      let rs = cur.id ∷ conflict_revisions (claim_conflicts w b a (some cur.decision) s) in
      elim (Result-cases (create_revision new s)) [
        | inr (x, taken) ↦ absurd (ground arith)
        | inl (s₁, made) ↦ elim (Result-cases (supersede w n at rs s₁)) [
          | inr (x, refused) ↦ absurd (ground arith)
          | inl (s₂, done) ↦
              elim (Result-cases (reserve_claims w b n a (delete_claims w b rs s₂))) [
                | inr (x, refused) ↦ absurd (ground arith)
                | inl (s₃, claimed) ↦
                    let e₁ = create_revision_lem new s s₁ made in
                    let (apart, e₂) = supersede_lem w n at rs s₁ s₂ done in
                    let r = reserve_claims_lem w b n a (delete_claims w b rs s₂) s₃ claimed in
                    let last : finish strip digest at k n w b command cur s₃ ≡ s' = ground arith in
                    written a os s₁ s₂ s₃ act e₁ apart e₂ r last
              ]
        ]
      ]
    where
      written :
          (a : DecisionAuthority) (os : List TransactionObservation) (s₁ s₂ s₃ : Store)
          → is_revocation command.action ≡ false
          → with_revision (lifecycle_revision strip digest at k n w b command cur (some a) os) s
            ≡ s₁
          → member n (cur.id ∷ conflict_revisions (claim_conflicts w b a (some cur.decision) s))
            ≡ false
          → record s₁ {
            supersessions =
                s₁.supersessions
                ++ map
                    (supersession w n at)
                    (cur.id ∷ conflict_revisions (claim_conflicts w b a (some cur.decision) s));
          }
            ≡ s₂
          → IsReserved w b n a
              (delete_claims w b
                (cur.id ∷ conflict_revisions (claim_conflicts w b a (some cur.decision) s))
                s₂)
              s₃
          → finish strip digest at k n w b command cur s₃ ≡ s'
          → IsConsistent s'
      written a os s₁ s₂ s₃ act e₁ apart e₂ r last =
          let rs = cur.id ∷ conflict_revisions (claim_conflicts w b a (some cur.decision) s) in
          let new = lifecycle_revision strip digest at k n w b command cur (some a) os in
          let path =
            ap
              (λ (t : Store). record t {
                supersessions = t.supersessions ++ map (supersession w n at) rs;
              })
              e₁
            ∙ e₂ in
          let q = ap (λ t. with_claims r.created (delete_claims w b rs t)) path ∙ r.after in
          let single : AreSingle s₃.claims = r.single (
            subst (λ t. AreSingle (delete_claims w b rs t).claims) path
              (select-AreSingle _ s.claims h.single)) in
          subst IsConsistent (ap (λ t. finish strip digest at k n w b command cur t) q ∙ last) (
            replaced-IsConsistent w b s h cur now new fresh refl a at r.created refl act apart
              r.granted (subst (λ (t : Store). AreSingle t.claims) (sym q) single))
