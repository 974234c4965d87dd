-- ===== src/Resolutions/Commits/Replaced.antt =====
-- The claims of the decisions after REPLACE of resolutions/services.py.
use reconciliation_workbench.Common.{
  ℕ, ◌≡◌, refl, sym, ◌∙◌, ap, Bool, true, false, not, ◌&&◌, ◌||◌, inl, inr, some, List, ◌∷◌, ◌++◌,
  ◌==◌, arith, map, Option-cases, select,
}
use reconciliation_workbench.Review.Domain.{DecisionAuthority, member}
use reconciliation_workbench.Resolutions.Tables.{
  Decision, DecisionRevision, ActiveDecisionClaim, Store, decision_at, revision_at, is_revocation,
}
use reconciliation_workbench.Resolutions.Checks.{is_superseded, claim_conflicts}
use reconciliation_workbench.Resolutions.Commands.{advance, supersession}
use reconciliation_workbench.Resolutions.Consistency.{
  same_claim, IsConsistent, AreSingle, holds, authorised, authorised-at, entitled, grants,
}
use reconciliation_workbench.Resolutions.Rows.{any_of-append, holds-deleted, superseded-added}
use reconciliation_workbench.Resolutions.Writes.{IsFresh, commit-IsConsistent}
use reconciliation_workbench.Resolutions.Conflicts.{conflict_revisions, conflict_claim}
use reconciliation_workbench.Resolutions.Lifecycle.{
  IsCurrent, other_revision, change-IsCommit, after_change,
}

module _ (w b : ℕ) (s : Store) (h : IsConsistent s) (cur : DecisionRevision)
    (now : IsCurrent w b s cur) (new : DecisionRevision) (fresh : IsFresh new.id s)
    (owner : new.decision ≡ cur.decision) where
  -- A revision that a conflict supersedes is of the workspace and the book.
  conflict_own :
      (a : DecisionAuthority) (c : ActiveDecisionClaim) (r : DecisionRevision)
      → revision_at c.decision_revision s ≡ some r
      → authorised c s ≡ true
      → member c.decision_revision
          (conflict_revisions (claim_conflicts w b a (some cur.decision) s))
        ≡ true
      → (c.workspace == w && c.book == b) ≡ true
  conflict_own a c r e live m =
      let found = conflict_claim w b a (some cur.decision) s c.decision_revision m in
      let x = found.claim in
      let test = found.test in
      let own : (x.workspace == w && x.book == b) ≡ true = ground arith in
      let live' : authorised x s ≡ true = sym (h.exact x) ∙ found.there in
      let e' : revision_at x.decision_revision s ≡ some r = rw found.revision e in
      elim (Option-cases (decision_at r.decision s)) [
        | inl lost ↦
            let dead : authorised c s ≡ false = authorised-at c s r e ∙ rw lost refl in
            absurd (ground arith)
        | inr (d, ed) ↦
            let k1 : entitled c r (some d) (is_superseded r.id s) ≡ true =
              sym (authorised-at c s r e ∙ ap (λ o. entitled c r o (is_superseded r.id s)) ed)
              ∙ live in
            let k2 : entitled x r (some d) (is_superseded r.id s) ≡ true =
              sym (authorised-at x s r e' ∙ ap (λ o. entitled x r o (is_superseded r.id s)) ed)
              ∙ live' in
            same_place c x r d (is_superseded r.id s) k1 k2 own
      ]
    where
      same_place :
          (c x : ActiveDecisionClaim) (r : DecisionRevision) (d : Decision) (y : Bool)
          → entitled c r (some d) y ≡ true
          → entitled x r (some d) y ≡ true
          → (x.workspace == w && x.book == b) ≡ true
          → (c.workspace == w && c.book == b) ≡ true
      same_place c x r d y k1 k2 own = ground arith

  pub replaced-IsConsistent :
      (a : DecisionAuthority) (at : ℕ) (created : List ActiveDecisionClaim)
      → new.authority ≡ some a
      → is_revocation new.action ≡ false
      → member new.id (cur.id ∷ conflict_revisions (claim_conflicts w b a (some cur.decision) s))
        ≡ false
      → ((c : ActiveDecisionClaim)
          → holds c created ≡ (
              c.workspace == w
              && c.book == b
              && c.decision_revision == new.id
              && grants (some a) c.logical_transaction))
      → AreSingle (
          select
            (λ c. not (
              c.workspace == w
              && c.book == b
              && member c.decision_revision
                  (cur.id ∷ conflict_revisions (claim_conflicts w b a (some cur.decision) s))))
            s.claims
          ++ created)
      → IsConsistent (
          after_change w b cur new
            (select
                (λ c. not (
                  c.workspace == w
                  && c.book == b
                  && member c.decision_revision
                      (cur.id ∷ conflict_revisions (claim_conflicts w b a (some cur.decision) s))))
                s.claims
              ++ created)
            (s.supersessions
              ++ map
                  (supersession w new.id at)
                  (cur.id ∷ conflict_revisions (claim_conflicts w b a (some cur.decision) s)))
            s)
  unfolding advance is_superseded
  replaced-IsConsistent a at created same active apart granted single =
      let rs = cur.id ∷ conflict_revisions (claim_conflicts w b a (some cur.decision) s) in
      commit-IsConsistent new cur.decision w b rs (λ i. member i rs) s _ h
        (change-IsCommit w b s cur now new rs (λ i. member i rs) _ _ fresh owner apart
          (λ r. superseded-added w new.id at r rs s.supersessions)
          (λ c.
            any_of-append (same_claim c) _ created
            ∙ rw (holds-deleted c w b (λ i. member i rs) s.claims, granted c)
                (ap
                  (λ g.
                    (holds c s.claims
                      && not (c.workspace == w && c.book == b && member c.decision_revision rs))
                    || g)
                  (rw (same, active) (ground arith))))
          (ground arith)
          (λ c r e o live.
            let other = other_revision w b s cur now c.decision_revision r e o in
            replaced_place c
              (member c.decision_revision
                (conflict_revisions (claim_conflicts w b a (some cur.decision) s)))
              other (conflict_own a c r e live)))
        single
    where
      replaced_place :
          (c : ActiveDecisionClaim) (m : Bool)
          → (c.decision_revision == cur.id) ≡ false
          → (m ≡ true → (c.workspace == w && c.book == b) ≡ true)
          → (c.workspace == w && c.book == b && ((cur.id == c.decision_revision) || m))
            ≡ ((cur.id == c.decision_revision) || m)
      replaced_place c m other own = ground arith
