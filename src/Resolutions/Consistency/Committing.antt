-- ===== src/Resolutions/Consistency/Committing.antt =====
-- What a commit of resolutions/services.py does to the tables, and that it keeps the current revisions
-- in their decisions.
use reconciliation_workbench.Common.{
  ℕ, ◌≡◌, refl, sym, ◌∙◌, subst, Bool, true, false, not, ◌&&◌, ◌||◌, inl, inr, none, some, List,
  ◌==◌, arith, or_else, if◌then◌else◌, Bool-cases,
}
use reconciliation_workbench.Review.Domain.{member}
use reconciliation_workbench.Resolutions.Tables.{
  Decision, DecisionRevision, ActiveDecisionClaim, Store, decision_at, revision_at, is_revocation,
}
use reconciliation_workbench.Resolutions.Checks.{is_superseded}
use reconciliation_workbench.Resolutions.Consistency.Claims.{holds, grants, authorised}

-- A commit adds the revision `new` to the decision `k` of a workspace and a book, supersedes some
-- revisions, removes the claims of the revisions that are gone, and adds what `new` grants.
pub record IsCommit (new : DecisionRevision) (k workspace book : ℕ) (superseded : List ℕ)
    (gone : ℕ → Bool) (s s' : Store) : Type 0 where
  pub unused : revision_at new.id s ≡ none
  pub untouched : is_superseded new.id s ≡ false
  pub apart : member new.id superseded ≡ false
  pub owner : new.decision ≡ k
  pub revisions :
      (r : ℕ)
      → revision_at r s' ≡ or_else (revision_at r s) (if new.id == r then some new else none)
  pub others : (d : ℕ) → (d == k) ≡ false → decision_at d s' ≡ decision_at d s
  pub decision : Decision
  pub there : decision_at k s' ≡ some decision
  pub current : decision.current_revision ≡ some new.id
  pub of_workspace : decision.workspace ≡ workspace
  pub of_book : decision.book ≡ book
  pub supersessions : (r : ℕ) → is_superseded r s' ≡ is_superseded r s || member r superseded
  pub claims :
      (c : ActiveDecisionClaim)
      → holds c s'.claims
        ≡ (holds c s.claims
            && not (c.workspace == workspace && c.book == book && gone c.decision_revision))
          || (c.workspace == workspace
              && c.book == book
              && c.decision_revision == new.id
              && not (is_revocation new.action)
              && grants new.authority c.logical_transaction)
  -- A live revision of the decision `k` is gone.
  pub replaced :
      (c : ActiveDecisionClaim) (r : DecisionRevision)
      → revision_at c.decision_revision s ≡ some r
      → r.decision ≡ k
      → authorised c s ≡ true
      → (c.workspace == workspace && c.book == book && gone c.decision_revision) ≡ true
  -- A live revision of another decision is gone exactly when it is superseded.
  pub kept :
      (c : ActiveDecisionClaim) (r : DecisionRevision)
      → revision_at c.decision_revision s ≡ some r
      → (r.decision == k) ≡ false
      → authorised c s ≡ true
      → (c.workspace == workspace && c.book == book && gone c.decision_revision)
        ≡ member c.decision_revision superseded

module _ (new : DecisionRevision) (k workspace book : ℕ) (superseded : List ℕ) (gone : ℕ → Bool)
    (s s' : Store) (h : IsCommit new k workspace book superseded gone s s') where
  new_revision : revision_at new.id s' ≡ some new
  new_revision =
      let unused = h.unused in
      let self : (new.id == new.id) ≡ true = ground arith in
      h.revisions new.id ∙ rw (unused, self) refl

  old_kept : (n : ℕ) (r : DecisionRevision) → revision_at n s ≡ some r → revision_at n s' ≡ some r
  old_kept n r e = h.revisions n ∙ rw e refl

  -- A commit keeps the current revisions in their decisions.
  pub owned-IsCommit :
      ((d : Decision) (i n : ℕ)
        → decision_at i s ≡ some d
        → d.current_revision ≡ some n
        → (r : DecisionRevision) × (revision_at n s ≡ some r) × (r.decision ≡ i))
      → (d : Decision) (i n : ℕ) → decision_at i s' ≡ some d
      → d.current_revision ≡ some n
      → (r : DecisionRevision) × (revision_at n s' ≡ some r) × (r.decision ≡ i)
  owned-IsCommit owned d i n e c = elim (Bool-cases (i == k)) [
    | inr other ↦
        let (r, at, o) = owned d i n (sym (h.others i other) ∙ e) c in (r, old_kept n r at, o)
    | inl own ↦
        let own' : i ≡ k = ground arith in
        let both : some h.decision ≡ some d =
          sym h.there ∙ subst (λ j. decision_at j s' ≡ some d) own' e in
        let current = h.current in
        let same : h.decision ≡ d = ground arith in
        let n' : new.id ≡ n = ground arith in
        (new, subst (λ j. revision_at j s' ≡ some new) n' new_revision, h.owner ∙ sym own')
  ]
