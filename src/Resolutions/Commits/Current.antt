-- ===== src/Resolutions/Commits/Current.antt =====
-- What `_current_revision` of resolutions/services.py returns.
use reconciliation_workbench.Common.{
  ℕ, ◌≡◌, sym, ◌∙◌, ap, subst, true, false, ◌&&◌, inl, inr, some, ◌==◌, arith, Bool-cases,
  Option-cases, ok,
}
use reconciliation_workbench.Review.Domain.{ExpectedDecisionRevision}
use reconciliation_workbench.Resolutions.Tables.{
  Decision, DecisionRevision, Store, decision_at, revision_at, is_revocation,
}
use reconciliation_workbench.Resolutions.Checks.{is_superseded, current_revision}
use reconciliation_workbench.Resolutions.Consistency.{IsConsistent, revision_at-id}
use reconciliation_workbench.Resolutions.Lifecycle.{IsCurrent}

module _ (w b : ℕ) (target : ExpectedDecisionRevision) (s : Store) (h : IsConsistent s) where
  found-IsCurrent :
      (d : Decision) (r : DecisionRevision) (n : ℕ)
      → decision_at target.decision_id s ≡ some d
      → d.workspace ≡ w
      → d.book ≡ b
      → d.current_revision ≡ some n
      → revision_at n s ≡ some r
      → r.id ≡ n
      → is_revocation r.action ≡ false
      → is_superseded r.id s ≡ false
      → IsCurrent w b s r
  found-IsCurrent d r n e ew eb ec er id active alive =
      let (r', at, owner) = h.owned d target.decision_id n e ec in
      let both : some r' ≡ some r = sym at ∙ er in
      let same : r' ≡ r = ground arith in
      let owner' : r.decision ≡ target.decision_id = ap (λ x. x.decision) (sym same) ∙ owner in
      record {
        decision = d;
        there = subst (λ i. decision_at i s ≡ some d) (sym owner') e;
        of_workspace = ew;
        of_book = eb;
        current = ec ∙ ap some (sym id);
        row = subst (λ i. revision_at i s ≡ some r) (sym id) er;
        active = active;
        alive = alive;
      }

  -- What `_current_revision` returns is live.
  pub current_revision-IsCurrent :
      (cur : DecisionRevision) → current_revision true w b target s ≡ ok cur → IsCurrent w b s cur
  unfolding current_revision
  current_revision-IsCurrent cur e = elim (Option-cases (decision_at target.decision_id s)) [
    | inl absent ↦ absurd (ground arith)
    | inr (d, ed) ↦ elim (Bool-cases (d.workspace == w && d.book == b)) [
      | inr foreign ↦ absurd (ground arith)
      | inl own ↦ elim (Option-cases d.current_revision) [
        | inl unset ↦ absurd (ground arith)
        | inr (n, ec) ↦ elim (Option-cases (revision_at n s)) [
          | inl lost ↦ absurd (ground arith)
          | inr (r, er) ↦
              let same : r ≡ cur = ground arith in
              subst (IsCurrent w b s) same (
                found-IsCurrent d r n ed (ground arith) (ground arith) ec er
                  (revision_at-id n s r er) (ground arith) (ground arith))
        ]
      ]
    ]
  ]
