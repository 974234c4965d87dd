-- ===== src/Resolutions/Consistency/Exact.antt =====
-- A commit of resolutions/services.py keeps the claims exact.
use reconciliation_workbench.Common.{
  ℕ, ◌≡◌, refl, sym, ◌∙◌, ap, subst, Bool, true, false, not, ◌&&◌, ◌||◌, inl, inr, none, some, List,
  ◌==◌, arith, Bool-cases, Option-cases,
}
use reconciliation_workbench.Review.Domain.{member}
use reconciliation_workbench.Resolutions.Tables.{
  Decision, DecisionRevision, ActiveDecisionClaim, Store, decision_at, revision_at, is_revocation,
}
use reconciliation_workbench.Resolutions.Checks.{is_superseded}
use reconciliation_workbench.Resolutions.Consistency.Claims.{
  entitled-superseded, entitled_stale, holds, grants, entitled, authorised, revision_at-id,
  authorised-at, authorised_unknown, entitled_stale,
}
use reconciliation_workbench.Resolutions.Consistency.Committing.{IsCommit}

module _ (new : DecisionRevision) (k workspace book : ℕ) (superseded : List ℕ) (gone : ℕ → Bool)
    (s s' : Store) (exact : (c : ActiveDecisionClaim) → holds c s.claims ≡ authorised c s)
    (h : IsCommit new k workspace book superseded gone s s') (c : ActiveDecisionClaim) where
  abbrev removed : Bool
  removed = c.workspace == workspace && c.book == book && gone c.decision_revision

  abbrev added : Bool
  added =
      c.workspace == workspace
      && c.book == book
      && c.decision_revision == new.id
      && not (is_revocation new.action)
      && grants new.authority c.logical_transaction

  holds_after : holds c s'.claims ≡ (authorised c s && not removed) || added
  holds_after = h.claims c ∙ ap (λ b. (b && not removed) || added) (exact c)

  -- A revision that was there is not the new one.
  old_revision :
      (r : DecisionRevision)
      → revision_at c.decision_revision s ≡ some r
      → ((c.decision_revision == new.id) ≡ false)
        × (revision_at c.decision_revision s' ≡ some r)
        × (r.id ≡ c.decision_revision)
  old_revision r e =
      let unused = h.unused in
      let id = revision_at-id c.decision_revision s r e in
      let other : (c.decision_revision == new.id) ≡ false =
        elim (Bool-cases (c.decision_revision == new.id)) [
          | inr different ↦ different
          | inl same ↦
              let same' : c.decision_revision ≡ new.id = ground arith in
              let both : none ≡ some r =
                sym unused ∙ subst (λ i. revision_at i s ≡ some r) same' e in
              absurd (ground arith)
        ] in
      (other, h.revisions c.decision_revision ∙ rw e refl, id)

  -- The claim is of an old revision of the decision.
  exact_own :
      (r : DecisionRevision)
      → revision_at c.decision_revision s ≡ some r
      → r.decision ≡ k
      → holds c s'.claims ≡ authorised c s'
  exact_own r e o =
      let (other, after, id) = old_revision r e in
      let owner : decision_at r.decision s' ≡ some h.decision = rw o h.there in
      let stale : (r.id == new.id) ≡ false = rw id other in
      let dead : authorised c s' ≡ false =
        authorised-at c s' r after
        ∙ rw owner (entitled_stale c r h.decision new.id (is_superseded r.id s') h.current stale) in
      let current = h.replaced c r e o in
      holds_after ∙ settled (authorised c s) removed current other dead
    where
      settled :
          (was gone : Bool)
          → (was ≡ true → gone ≡ true)
          → (c.decision_revision == new.id) ≡ false
          → authorised c s' ≡ false
          → ((was && not gone) || added) ≡ authorised c s'
      settled was gone current other dead = ground arith

  -- The claim is of a revision of another decision.
  exact_other :
      (r : DecisionRevision)
      → revision_at c.decision_revision s ≡ some r
      → (r.decision == k) ≡ false
      → holds c s'.claims ≡ authorised c s'
  exact_other r e o =
      let (other, after, id) = old_revision r e in
      let owner = h.others r.decision o in
      let kept = h.kept c r e o in
      let x = h.supersessions r.id in
      let before = authorised-at c s r e in
      let weaker : authorised c s'
          ≡ (authorised c s && not (member c.decision_revision superseded)) =
        authorised-at c s' r after
        ∙ rw (owner, x)
            (entitled-superseded c r (decision_at r.decision s) _ (member r.id superseded))
        ∙ ap (λ b. b && not (member r.id superseded)) (sym before)
        ∙ ap (λ i. authorised c s && not (member i superseded)) id in
      holds_after
      ∙ outcome (authorised c s) removed (member c.decision_revision superseded) (authorised c s')
          weaker kept other
    where
      outcome :
          (was gone fresh will : Bool)
          → will ≡ (was && not fresh)
          → (was ≡ true → gone ≡ fresh)
          → (c.decision_revision == new.id) ≡ false
          → ((was && not gone) || added) ≡ will
      outcome was gone fresh will e kept other = ground arith

  exact_new : revision_at c.decision_revision s ≡ none → holds c s'.claims ≡ authorised c s'
  exact_new e =
      let before = authorised_unknown c s e in
      let found = h.revisions c.decision_revision in
      holds_after
      ∙ rw before (elim (Bool-cases (c.decision_revision == new.id)) [
        | inr other ↦
            let other' : (new.id == c.decision_revision) ≡ false = ground arith in
            let absent : revision_at c.decision_revision s' ≡ none = found ∙ rw (e, other') refl in
            rw (authorised_unknown c s' absent, other) (ground arith)
        | inl same ↦
            let same' : (new.id == c.decision_revision) ≡ true = ground arith in
            let here : revision_at c.decision_revision s' ≡ some new = found ∙ rw (e, same') refl in
            granted same (authorised-at c s' new here)
      ])
    where
      same_as :
          (d : Decision)
          → d.current_revision ≡ some new.id
          → d.workspace ≡ workspace
          → d.book ≡ book
          → (c.decision_revision == new.id) ≡ true
          → added ≡ entitled c new (some d) false
      same_as d current w b same = ground arith

      granted :
          (c.decision_revision == new.id) ≡ true
          → authorised c s' ≡ entitled c new (decision_at new.decision s') (is_superseded new.id s')
          → added ≡ authorised c s'
      granted same e =
          let owner : decision_at new.decision s' ≡ some h.decision = rw h.owner h.there in
          let alive : is_superseded new.id s' ≡ false =
            h.supersessions new.id ∙ rw (h.untouched, h.apart) refl in
          same_as (h.decision) h.current h.of_workspace h.of_book same
          ∙ sym (e ∙ rw (owner, alive) refl)

  -- A commit keeps the claims exact.
  pub exact-IsCommit : holds c s'.claims ≡ authorised c s'
  exact-IsCommit = elim (Option-cases (revision_at c.decision_revision s)) [
    | inl e ↦ exact_new e
    | inr (r, e) ↦ elim (Bool-cases (r.decision == k)) [
      | inl own ↦ exact_own r e (ground arith)
      | inr other ↦ exact_other r e other
    ]
  ]
