-- ===== src/Resolutions/Replacing.antt =====
-- That the writes of a REPLACE in resolutions/services.py go through, and what they leave.
use reconciliation_workbench.Common.{
  ℕ, ◌+◌, ◌≡◌, refl, ◌∙◌, subst, true, false, not, ◌&&◌, ◌||◌, some, List, ◌∷◌, ◌++◌, ◌==◌, arith,
  map, any_of, ok,
}
use reconciliation_workbench.Review.Domain.{DecisionAuthority, DecisionCommand, member, unique}
use reconciliation_workbench.Resolutions.Tables.{
  ActiveDecisionClaim, Decision, DecisionRevision, Store, TransactionObservation, revision_at,
  decision_at,
}
use reconciliation_workbench.Resolutions.Checks.{claim_conflicts, endpoints, is_superseded}
use reconciliation_workbench.Resolutions.Commands.{
  delete_claims, same_number, supersession, supersede, create_revision, write_replacement,
  lifecycle_revision, finish, advance,
}
use reconciliation_workbench.Resolutions.Consistency.{IsConsistent, same_claim, holds, grants}
use reconciliation_workbench.Resolutions.Rows.{
  with_revision, any_of-append, holds-deleted, superseded-added, revision_at-with_revision,
  decision_at-set_current,
}
use reconciliation_workbench.Resolutions.Writes.{IsFresh, with_claims, reserve_claims_lem}
use reconciliation_workbench.Resolutions.Conflicts.{conflict_revisions}
use reconciliation_workbench.Resolutions.Lifecycle.{IsCurrent}
use reconciliation_workbench.Resolutions.Returning.{
  narrower, reserve_claims_free, fresh_apart, unique_superseded, freed,
}

-- The revision `n` has replaced `cur`: it follows it in its decision, with the authority. The given
-- revisions are superseded and have lost their claims, and the endpoints of the authority are its own.
pub record IsReplaced (w b n : ℕ) (a : DecisionAuthority) (cur : DecisionRevision) (rs : List ℕ)
    (s s' : Store) : Type 0 where
  pub revision : DecisionRevision
  pub made : revision_at n s' ≡ some revision
  pub follows : revision.predecessor ≡ some cur.id
  pub number : revision.revision ≡ cur.revision + 1
  pub owner : revision.decision ≡ cur.decision
  pub authority : revision.authority ≡ some a
  pub decision : Decision
  pub there : decision_at cur.decision s' ≡ some decision
  pub current : decision.current_revision ≡ some n
  pub superseded : (r : ℕ) → is_superseded r s' ≡ is_superseded r s || member r rs
  pub claims :
      (c : ActiveDecisionClaim)
      → holds c s'.claims
        ≡ (holds c s.claims
            && not (c.workspace == w && c.book == b && member c.decision_revision rs))
          || (c.workspace == w
              && c.book == b
              && c.decision_revision == n
              && grants (some a) c.logical_transaction)

-- What the rows of the store promise for a revision `n` that is to follow `cur`.
pub record IsOpenFor (w b n : ℕ) (a : DecisionAuthority) (cur : DecisionRevision) (s : Store)
    : Type 0 where
  pub fresh : IsFresh n s
  pub unlinked : any_of (λ x. x.replacement_revision == n) s.supersessions ≡ false
  pub last :
      any_of
        (λ x.
          x.decision == cur.decision && x.revision == cur.revision + 1
          || same_number x.predecessor (some cur.id))
        s.revisions
      ≡ false
  pub apart : unique (endpoints a) ≡ true
  pub of_book :
      (c : ActiveDecisionClaim)
      → holds c s.claims ≡ true
      → (c.book == b) ≡ true
      → (c.workspace == w) ≡ true

module _ (strip : ℕ → ℕ) (digest : List TransactionObservation → ℕ) (at k n w b : ℕ)
    (command : DecisionCommand) (a : DecisionAuthority) (os : List TransactionObservation)
    (s : Store) (h : IsConsistent s) (cur : DecisionRevision) (now : IsCurrent w b s cur)
    (opened : IsOpenFor w b n a cur s) where
  abbrev rs : List ℕ
  rs = cur.id ∷ conflict_revisions (claim_conflicts w b a (some cur.decision) s)

  abbrev new : DecisionRevision
  new = lifecycle_revision strip digest at k n w b command cur (some a) os

  -- The store behind the supersessions and the deletion of the claims.
  abbrev cleared : Store
  cleared = delete_claims w b rs (record (with_revision new s) {
    supersessions = s.supersessions ++ map (supersession w n at) rs;
  })

  cleared-IsReplaced :
      (created : List ActiveDecisionClaim)
      → ((c : ActiveDecisionClaim)
          → holds c created ≡ (
              c.workspace == w
              && c.book == b
              && c.decision_revision == n
              && grants (some a) c.logical_transaction))
      → IsReplaced w b n a cur rs s
          (finish strip digest at k n w b command cur (with_claims created cleared))
  unfolding advance revision_at decision_at is_superseded
  cleared-IsReplaced created granted = record {
    revision = new;
    made =
        let unused = opened.fresh.revision in
        revision_at-with_revision n new s ∙ rw unused (ground arith);
    follows = refl;
    number = refl;
    owner = refl;
    authority = refl;
    decision = record (now.decision) { current_revision = some n };
    there = decision_at-set_current cur.decision n s now.decision now.there;
    current = refl;
    superseded = λ r. superseded-added w n at r rs s.supersessions;
    claims = λ c.
        any_of-append (same_claim c) _ created
        ∙ rw (holds-deleted c w b (λ i. member i rs) s.claims, granted c) refl;
  }

  -- The writes go through.
  pub write_replacement-IsReplaced :
      (s' : Store) × (write_replacement strip digest at k n w b command cur a os
          (claim_conflicts w b a (some cur.decision) s)
          s
        ≡ ok s')
      × IsReplaced w b n a cur rs s s'
  unfolding write_replacement create_revision supersede
  write_replacement-IsReplaced =
      let (s₄, e) = reserve_claims_free w b n a cleared (λ reserves.
        let free = freed w b n a s h cur now opened.fresh opened.of_book reserves in
        let apart = opened.apart in rw apart free) in
      let r = reserve_claims_lem w b n a cleared s₄ e in
      let last = opened.last in
      let once = unique_superseded w b n a s h cur now opened.fresh in
      let unused = fresh_apart w b n a s h cur now opened.fresh in
      let unlinked = narrower n rs s.supersessions opened.unlinked in
      (
        finish strip digest at k n w b command cur s₄,
        rw (last, once, unused, unlinked, e) refl,
        subst
            (λ (t : Store).
              IsReplaced w b n a cur rs s (finish strip digest at k n w b command cur t))
            r.after (cleared-IsReplaced r.created r.granted),
      )
