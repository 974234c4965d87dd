-- ===== src/Resolutions/Lifecycle.antt =====
-- The branches of `commit_change` in resolutions/services.py as commits.
use reconciliation_workbench.Common.{
  ℕ, ◌≡◌, refl, sym, ◌∙◌, ap, subst, Bool, true, false, not, ◌&&◌, ◌||◌, inl, inr, some, List, [],
  ◌∷◌, ◌++◌, ◌==◌, arith, any_of, Bool-cases,
}
use reconciliation_workbench.Review.Domain.{member}
use reconciliation_workbench.Resolutions.Tables.{
  Decision, DecisionRevision, DecisionSupersession, ActiveDecisionClaim, Store, decision_at,
  revision_at, is_revocation,
}
use reconciliation_workbench.Resolutions.Checks.{is_superseded}
use reconciliation_workbench.Resolutions.Commands.{set_current, advance}
use reconciliation_workbench.Resolutions.Consistency.{
  IsCommit, holds, authorised, authorised-at, entitled, grants, revision_at-id,
}
use reconciliation_workbench.Resolutions.Rows.{
  revision_at-with_revision, decision_at-set_current_other, decision_at-set_current,
}
use reconciliation_workbench.Resolutions.Writes.{IsFresh}

-- The revision that a command changes: the live one of a decision of the workspace and the book.
pub record IsCurrent (w b : ℕ) (s : Store) (cur : DecisionRevision) : Type 0 where
  pub decision : Decision
  pub there : decision_at cur.decision s ≡ some decision
  pub of_workspace : decision.workspace ≡ w
  pub of_book : decision.book ≡ b
  pub current : decision.current_revision ≡ some cur.id
  pub row : revision_at cur.id s ≡ some cur
  pub active : is_revocation cur.action ≡ false
  pub alive : is_superseded cur.id s ≡ false

abbrev pub after_change :
    (w b : ℕ)
    → (cur new : DecisionRevision) → List ActiveDecisionClaim
    → List DecisionSupersession
    → Store
    → Store
after_change w b cur new cs xs s = advance w b (
    set_current cur.decision new.id
      (record s { revisions = s.revisions ++ new ∷ []; supersessions = xs; claims = cs }))

module _ (w b : ℕ) (s : Store) (cur : DecisionRevision) (h : IsCurrent w b s cur) where
  -- A live claim of the decision is the current revision's.
  pub live_own :
      (c : ActiveDecisionClaim) (r : DecisionRevision)
      → revision_at c.decision_revision s ≡ some r
      → r.decision ≡ cur.decision
      → authorised c s ≡ true
      → ((c.workspace == w && c.book == b) ≡ true) × (c.decision_revision ≡ cur.id)
  live_own c r e o live =
      let owner : decision_at r.decision s ≡ some h.decision = rw o h.there in
      let known : entitled c r (some h.decision) (is_superseded r.id s) ≡ true =
        sym (ap (λ d. entitled c r d (is_superseded r.id s)) owner)
        ∙ sym (authorised-at c s r e)
        ∙ live in
      own h.decision (is_superseded r.id s) h.of_workspace h.of_book h.current
        (revision_at-id c.decision_revision s r e) known
    where
      own :
          (d : Decision) (x : Bool)
          → d.workspace ≡ w
          → d.book ≡ b
          → d.current_revision ≡ some cur.id
          → r.id ≡ c.decision_revision
          → entitled c r (some d) x ≡ true
          → ((c.workspace == w && c.book == b) ≡ true) × (c.decision_revision ≡ cur.id)
      own d x ew eb ec id known = (ground arith, ground arith)

  -- What a claim of the current revision stands for.
  pub current_claim :
      (c : ActiveDecisionClaim)
      → authorised (record c { decision_revision = cur.id }) s
        ≡ (c.workspace == w && c.book == b && grants cur.authority c.logical_transaction)
  current_claim c =
      authorised-at (record c { decision_revision = cur.id }) s cur h.row
      ∙ rw (h.there, h.alive) (live h.decision h.of_workspace h.of_book h.current h.active)
    where
      live :
          (d : Decision)
          → d.workspace ≡ w
          → d.book ≡ b
          → d.current_revision ≡ some cur.id
          → is_revocation cur.action ≡ false
          → entitled (record c { decision_revision = cur.id }) cur (some d) false
            ≡ (c.workspace == w && c.book == b && grants cur.authority c.logical_transaction)
      live d ew eb ec ea = ground arith

  -- A revision of another decision is not the current one.
  pub other_revision :
      (i : ℕ) (r : DecisionRevision)
      → revision_at i s ≡ some r
      → (r.decision == cur.decision) ≡ false
      → (i == cur.id) ≡ false
  other_revision i r e o = elim (Bool-cases (i == cur.id)) [
    | inr different ↦ different
    | inl same ↦
        let same' : i ≡ cur.id = ground arith in
        let both : some r ≡ some cur =
          sym (subst (λ j. revision_at j s ≡ some r) same' e) ∙ h.row in
        let equal : r ≡ cur = ground arith in absurd (ground arith)
  ]

  module _ (new : DecisionRevision) (superseded : List ℕ) (gone : ℕ → Bool)
      (cs : List ActiveDecisionClaim) (xs : List DecisionSupersession) (fresh : IsFresh new.id s)
      (owner : new.decision ≡ cur.decision) (apart : member new.id superseded ≡ false)
      (added : (r : ℕ)
        → any_of (λ x. x.superseded_revision == r) xs ≡ is_superseded r s || member r superseded)
      (claims : (c : ActiveDecisionClaim)
        → holds c cs
          ≡ (holds c s.claims && not (c.workspace == w && c.book == b && gone c.decision_revision))
            || (c.workspace == w
                && c.book == b
                && c.decision_revision == new.id
                && not (is_revocation new.action)
                && grants new.authority c.logical_transaction))
      (ends : gone cur.id ≡ true)
      (kept : (c : ActiveDecisionClaim) (r : DecisionRevision)
        → revision_at c.decision_revision s ≡ some r
        → (r.decision == cur.decision) ≡ false
        → authorised c s ≡ true
        → (c.workspace == w && c.book == b && gone c.decision_revision)
          ≡ member c.decision_revision superseded) where
    pub change-IsCommit :
        IsCommit new cur.decision w b superseded gone s (after_change w b cur new cs xs s)
    unfolding advance revision_at decision_at is_superseded
    change-IsCommit = record {
      unused = fresh.revision;
      untouched = fresh.supersession;
      apart = apart;
      owner = owner;
      revisions = λ i. revision_at-with_revision i new s;
      others = λ i o. decision_at-set_current_other i cur.decision new.id s o;
      decision = record (h.decision) { current_revision = some new.id };
      there = decision_at-set_current cur.decision new.id s h.decision h.there;
      current = refl;
      of_workspace = h.of_workspace;
      of_book = h.of_book;
      supersessions = added;
      claims = claims;
      replaced = λ c r e o live.
          let (mine, same) = live_own c r e o live in
          subst (λ i. (c.workspace == w && c.book == b && gone i) ≡ true) (sym same) (ground arith);
      kept = kept;
    }
