-- ===== src/Resolutions/Conflicts.antt =====
-- The conflicts that `_claim_conflicts` of resolutions/services.py finds are those of claims.
use reconciliation_workbench.Common.{
  ℕ, ◌≡◌, refl, sym, ◌∙◌, ap, subst, Bool, true, not, ◌&&◌, ◌||◌, inl, inr, Option, List, [], ◌∷◌,
  ◌==◌, arith, map, Bool-cases, select, if◌then◌else◌,
}
use reconciliation_workbench.Review.Domain.{DecisionAuthority, member, reserves_endpoints}
use reconciliation_workbench.Review.Previews.{
  DecisionConflict, conflict_before, insert_conflict, sort_conflicts,
}
use reconciliation_workbench.Resolutions.Tables.{ActiveDecisionClaim, Store}
use reconciliation_workbench.Resolutions.Checks.{
  claim_conflicts, conflict_of, distinct_revisions, overlapping, endpoints, is_excluded,
  decision_of,
}
use reconciliation_workbench.Resolutions.Consistency.{same_claim, holds}

abbrev pub conflict_revisions : List DecisionConflict → List ℕ
conflict_revisions cs = map (λ c. c.revision_id) cs

pub member-insert_conflict :
    (m : ℕ) (c : DecisionConflict) (cs : List DecisionConflict)
    → member m (conflict_revisions (insert_conflict c cs))
      ≡ (c.revision_id == m) || member m (conflict_revisions cs)
unfolding insert_conflict
member-insert_conflict m c [] = refl
member-insert_conflict m c (d ∷ ds) = elim (Bool-cases (conflict_before d c)) [
  | inl later ↦ rw later (ground (arith, member-insert_conflict m c ds))
  | inr here ↦ rw here refl
]

pub member-sort_conflicts :
    (m : ℕ) (cs : List DecisionConflict)
    → member m (conflict_revisions (sort_conflicts cs)) ≡ member m (conflict_revisions cs)
unfolding sort_conflicts
member-sort_conflicts m [] = refl
member-sort_conflicts m (c ∷ cs) =
    member-insert_conflict m c (sort_conflicts cs)
    ∙ ap (λ x. (c.revision_id == m) || x) (member-sort_conflicts m cs)

-- A claim of the list, with what a query asks of it.
pub record IsFound (p : ActiveDecisionClaim → Bool) (m : ℕ) (cs : List ActiveDecisionClaim)
    : Type 0 where
  pub claim : ActiveDecisionClaim
  pub test : p claim ≡ true
  pub there : holds claim cs ≡ true
  pub revision : claim.decision_revision ≡ m

pub holds_self : (c : ActiveDecisionClaim) → same_claim c c ≡ true
holds_self c = ground arith

IsFound-later :
    (p : ActiveDecisionClaim → Bool) (m : ℕ) (c : ActiveDecisionClaim)
    (cs : List ActiveDecisionClaim)
    → IsFound p m cs
    → IsFound p m (c ∷ cs)
IsFound-later p m c cs h =
    let there = h.there in
    record {
      claim = h.claim;
      test = h.test;
      there = rw there (ground arith);
      revision = h.revision;
    }

distinct-IsFound :
    (p : ActiveDecisionClaim → Bool) (m : ℕ) (cs : List ActiveDecisionClaim)
    → member m (distinct_revisions (select p cs)) ≡ true
    → IsFound p m cs
unfolding distinct_revisions select
distinct-IsFound p m [] h = absurd (ground arith)
distinct-IsFound p m (c ∷ cs) h = elim (Bool-cases (p c)) [
  | inr fails ↦ IsFound-later p m c cs (distinct-IsFound p m cs (ground arith))
  | inl meets ↦ elim (Bool-cases (c.decision_revision == m)) [
    | inl here ↦ record {
      claim = c;
      test = meets;
      there = rw (holds_self c) refl;
      revision = ground arith;
    }
    | inr other ↦ IsFound-later p m c cs (distinct-IsFound p m cs (ground arith))
  ]
]

module _ (w b : ℕ) (a : DecisionAuthority) (excluding : Option ℕ) (s : Store) where
  pub named : (rs : List ℕ) → conflict_revisions (map (conflict_of w b s) rs) ≡ rs
  unfolding conflict_of
  named [] = refl
  named (r ∷ rs) = ap (◌∷◌ r) (named rs)

  -- Each conflict is the revision of a claim in the workspace and the book.
  pub conflict_claim :
      (m : ℕ)
      → member m (conflict_revisions (claim_conflicts w b a excluding s)) ≡ true
      → IsFound
          (λ c.
            c.workspace == w
            && c.book == b
            && member c.logical_transaction (endpoints a)
            && not (is_excluded excluding (decision_of c.decision_revision s)))
          m
          s.claims
  unfolding claim_conflicts overlapping
  conflict_claim m h = elim (Bool-cases (reserves_endpoints a)) [
    | inr no_claims ↦ absurd (ground arith)
    | inl r ↦
        let rs = distinct_revisions (overlapping w b (endpoints a) excluding s) in
        let found : member m rs ≡ true =
          sym (member-sort_conflicts m (map (conflict_of w b s) rs) ∙ ap (member m) (named rs))
          ∙ subst
              (λ x.
                member m (
                  conflict_revisions
                    (if x then sort_conflicts (map (conflict_of w b s) rs) else []))
                ≡ true)
              r h in
        distinct-IsFound _ m s.claims found
  ]
