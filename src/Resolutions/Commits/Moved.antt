-- ===== src/Resolutions/Commits/Moved.antt =====
-- The claims of a decision after REAFFIRM and REVOKE of resolutions/services.py.
use reconciliation_workbench.Common.{
  ℕ, ◌≡◌, refl, ◌∙◌, false, not, ◌&&◌, ◌||◌, none, [], ◌∷◌, ◌==◌, arith, any_of, select,
  update_where,
}
use reconciliation_workbench.Review.Domain.{member}
use reconciliation_workbench.Resolutions.Tables.{
  DecisionRevision, ActiveDecisionClaim, Store, is_revocation,
}
use reconciliation_workbench.Resolutions.Checks.{is_superseded}
use reconciliation_workbench.Resolutions.Commands.{advance}
use reconciliation_workbench.Resolutions.Consistency.{IsConsistent, holds, grants}
use reconciliation_workbench.Resolutions.Rows.{
  holds-moved, holds-deleted, select-AreSingle, update-AreSingle,
}
use reconciliation_workbench.Resolutions.Writes.{IsFresh, commit-IsConsistent}
use reconciliation_workbench.Resolutions.Lifecycle.{
  IsCurrent, current_claim, other_revision, change-IsCommit, after_change,
}

module _ (w b : ℕ) (s : Store) (h : IsConsistent s) (cur : DecisionRevision)
    (now : IsCurrent w b s cur) (new : DecisionRevision) (fresh : IsFresh new.id s)
    (owner : new.decision ≡ cur.decision) where
  same_supersessions :
      (r : ℕ)
      → any_of (λ x. x.superseded_revision == r) s.supersessions ≡ is_superseded r s || member r []
  unfolding is_superseded
  same_supersessions r = ground arith

  pub moved-IsConsistent :
      new.authority ≡ cur.authority
      → is_revocation new.action ≡ false
      → IsConsistent (
          after_change w b cur new
            (update_where
              (λ c. c.workspace == w && c.book == b && c.decision_revision == cur.id)
              (λ c. record c { decision_revision = new.id })
              s.claims)
            s.supersessions
            s)
  unfolding advance
  moved-IsConsistent same active =
      commit-IsConsistent new cur.decision w b [] (λ i. i == cur.id) s _ h
        (change-IsCommit w b s cur now new [] (λ i. i == cur.id) _ s.supersessions fresh owner refl
          same_supersessions
          (λ c.
            holds-moved c w b cur.id new.id s.claims
            ∙ claimed c
                (h.exact (record c { decision_revision = cur.id }) ∙ current_claim w b s cur now c))
          (ground arith)
          (λ c r e o live.
            let other = other_revision w b s cur now c.decision_revision r e o in
            rw other (ground arith)))
        (update-AreSingle _ new.id s.claims h.single)
    where
      claimed :
          (c : ActiveDecisionClaim)
          → holds (record c { decision_revision = cur.id }) s.claims
            ≡ (c.workspace == w && c.book == b && grants cur.authority c.logical_transaction)
          → ((holds c s.claims
                && not (c.workspace == w && c.book == b && c.decision_revision == cur.id))
              || (c.decision_revision == new.id
                  && c.workspace == w
                  && c.book == b
                  && holds (record c { decision_revision = cur.id }) s.claims))
            ≡ ((holds c s.claims
                  && not (c.workspace == w && c.book == b && c.decision_revision == cur.id))
                || (c.workspace == w
                    && c.book == b
                    && c.decision_revision == new.id
                    && not (is_revocation new.action)
                    && grants new.authority c.logical_transaction))
      claimed c e = rw (e, same, active) (ground arith)

  pub revoked-IsConsistent :
      new.authority ≡ none
      → IsConsistent (
          after_change w b cur new
            (select
              (λ c.
                not (c.workspace == w && c.book == b && member c.decision_revision (cur.id ∷ [])))
              s.claims)
            s.supersessions
            s)
  unfolding advance
  revoked-IsConsistent nothing =
      commit-IsConsistent new cur.decision w b [] (λ i. member i (cur.id ∷ [])) s _ h
        (change-IsCommit w b s cur now new [] (λ i. member i (cur.id ∷ [])) _ s.supersessions fresh
          owner refl same_supersessions
          (λ c.
            holds-deleted c w b (λ i. member i (cur.id ∷ [])) s.claims ∙ rw nothing (ground arith))
          (ground arith)
          (λ c r e o live.
            let other = other_revision w b s cur now c.decision_revision r e o in ground arith))
        (select-AreSingle _ s.claims h.single)
