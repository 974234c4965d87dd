-- ===== src/Resolutions/Writes.antt =====
-- What the statements of a commit in resolutions/services.py leave when they return.
use reconciliation_workbench.Common.{
  ℕ, ◌≡◌, refl, ◌∙◌, ap, subst, Bool, true, false, not, ◌&&◌, inl, inr, Option, none, some, List,
  [], ◌∷◌, ◌++◌, ◌==◌, arith, map, Bool-cases, or_else, if◌then◌else◌, ok,
}
use reconciliation_workbench.Review.Domain.{DecisionAuthority, member, reserves_endpoints}
use reconciliation_workbench.Resolutions.Tables.{
  Decision, DecisionRevision, ActiveDecisionClaim, Store, decision_at, revision_at, is_revocation,
}
use reconciliation_workbench.Resolutions.Checks.{is_superseded, endpoints}
use reconciliation_workbench.Resolutions.Commands.{
  add_decision, set_current, claim_for, is_claimed, create_revision, create_claims, reserve_claims,
  supersede, supersession, advance, is_taken, are_free, can_supersede,
}
use reconciliation_workbench.Resolutions.Consistency.{
  same_claim, IsCommit, IsConsistent, AreSingle, holds, authorised, authorised-at, grants,
  exact-IsCommit, owned-IsCommit,
}
use reconciliation_workbench.Resolutions.Rows.{
  any_of-append, with_revision, revision_at-with_revision, decision_at-set_current_other,
  decision_at-set_current, decision_at-add_decision, holds-created, append-AreSingle, all_of-member,
}

pub create_revision_lem :
    (r : DecisionRevision) (s s' : Store) → create_revision r s ≡ ok s' → with_revision r s ≡ s'
unfolding create_revision
create_revision_lem r s s' h = elim (Bool-cases (is_taken r s)) [
  | inl taken ↦ absurd (ground arith)
  | inr free ↦ ground arith
]

abbrev pub with_claims : List ActiveDecisionClaim → Store → Store
with_claims cs s = record s { claims = s.claims ++ cs }

-- The claims that were created: those of the endpoints that the authority reserves.
pub record IsReserved (w b n : ℕ) (a : DecisionAuthority) (s s' : Store) : Type 0 where
  pub created : List ActiveDecisionClaim
  pub after : with_claims created s ≡ s'
  pub granted :
      (c : ActiveDecisionClaim)
      → holds c created ≡ (
          c.workspace == w
          && c.book == b
          && c.decision_revision == n
          && grants (some a) c.logical_transaction)
  pub single : AreSingle s.claims → AreSingle s'.claims

created_claims :
    (w b n : ℕ) (a : DecisionAuthority) (s s' : Store)
    → reserves_endpoints a ≡ true
    → create_claims w b n (endpoints a) s ≡ ok s'
    → IsReserved w b n a s s'
unfolding create_claims
created_claims w b n a s s' r h = elim (Bool-cases (are_free b (endpoints a) s)) [
  | inr taken ↦ absurd (ground arith)
  | inl free ↦
      let after : with_claims (map (claim_for w b n) (endpoints a)) s ≡ s' = ground arith in
      record {
        created = map (claim_for w b n) (endpoints a);
        after = after;
        granted = λ c. holds-created c w b n (endpoints a) ∙ rw r refl;
        single = λ h.
            subst (λ t. AreSingle t.claims) after
              (append-AreSingle w b n (endpoints a) s.claims h (ground arith) (λ l m.
                let one =
                  all_of-member (λ l. not (is_claimed b l s.claims)) (endpoints a) l (ground arith)
                    m in
                ground arith));
      }
]

append_nothing : (s : Store) → with_claims [] s ≡ s
append_nothing s = ap (λ cs. record s { claims = cs }) (right_unit s.claims)
  where
    right_unit : (cs : List ActiveDecisionClaim) → cs ++ [] ≡ cs
    right_unit [] = refl
    right_unit (c ∷ cs) = ap (◌∷◌ c) (right_unit cs)

pub reserve_claims_lem :
    (w b n : ℕ) (a : DecisionAuthority) (s s' : Store)
    → reserve_claims w b n a s ≡ ok s'
    → IsReserved w b n a s s'
unfolding reserve_claims
reserve_claims_lem w b n a s s' h = elim (Bool-cases (reserves_endpoints a)) [
  | inl r ↦ created_claims w b n a s s' r (ground arith)
  | inr r ↦
      let same : s ≡ s' = ground arith in
      record {
        created = [];
        after = append_nothing s ∙ same;
        granted = λ c. rw r (ground arith);
        single = λ k. subst (λ t. AreSingle t.claims) same k;
      }
]

pub supersede_lem :
    (w n at : ℕ) (rs : List ℕ) (s s' : Store)
    → supersede w n at rs s ≡ ok s'
    → (member n rs ≡ false)
      × (record s { supersessions = s.supersessions ++ map (supersession w n at) rs } ≡ s')
unfolding supersede
supersede_lem w n at rs s s' h = elim (Bool-cases (can_supersede n rs s)) [
  | inr taken ↦ absurd (ground arith)
  | inl free ↦ (ground arith, ground arith)
]

-- A commit keeps the claims exact and single.
pub commit-IsConsistent :
    (new : DecisionRevision) (k w b : ℕ) (superseded : List ℕ) (gone : ℕ → Bool) (s s' : Store)
    → IsConsistent s
    → IsCommit new k w b superseded gone s s'
    → AreSingle s'.claims
    → IsConsistent s'
commit-IsConsistent new k w b superseded gone s s' h commit single = record {
  exact = exact-IsCommit new k w b superseded gone s s' h.exact commit;
  single = single;
  owned = owned-IsCommit new k w b superseded gone s s' commit h.owned;
}

-- No row names the identity.
pub record IsFresh (n : ℕ) (s : Store) : Type 0 where
  pub revision : revision_at n s ≡ none
  pub supersession : is_superseded n s ≡ false

none-or : (o : Option DecisionRevision) → or_else o none ≡ o
none-or none = refl
none-or (some r) = refl

none-or-decision : (o : Option Decision) → or_else o none ≡ o
none-or-decision none = refl
none-or-decision (some r) = refl

abbrev pub after_initial :
    (w b k : ℕ) → Decision → DecisionRevision → List ActiveDecisionClaim → Store → Store
after_initial w b k d r cs s =
    advance w b (with_claims cs (set_current k r.id (with_revision r (add_decision d s))))

module _ (w b : ℕ) (d : Decision) (r : DecisionRevision) (a : DecisionAuthority)
    (cs : List ActiveDecisionClaim) (s : Store) (of_workspace : d.workspace ≡ w)
    (of_book : d.book ≡ b) (owner : r.decision ≡ d.id) (active : is_revocation r.action ≡ false)
    (reserves : r.authority ≡ some a)
    (granted : (c : ActiveDecisionClaim)
      → holds c cs ≡ (
          c.workspace == w
          && c.book == b
          && c.decision_revision == r.id
          && grants (some a) c.logical_transaction))
    (unused : decision_at d.id s ≡ none) (fresh : IsFresh r.id s) where
  only_other :
      (i : ℕ)
      → (i == d.id) ≡ false
      → (o : Option Decision) → or_else o (if d.id == i then some d else none) ≡ o
  only_other i h none = let h' : (d.id == i) ≡ false = ground arith in rw h' refl
  only_other i h (some x) = refl

  pub initial-IsCommit : IsCommit r d.id w b [] (λ _. false) s (after_initial w b d.id d r cs s)
  unfolding advance revision_at decision_at is_superseded
  initial-IsCommit = record {
    unused = fresh.revision;
    untouched = fresh.supersession;
    apart = refl;
    owner = owner;
    revisions = λ i. revision_at-with_revision i r s;
    others = λ i o.
        decision_at-set_current_other i d.id r.id (with_revision r (add_decision d s)) o
        ∙ decision_at-add_decision i d s
        ∙ only_other i o (decision_at i s);
    decision = record d { current_revision = some r.id };
    there =
        decision_at-set_current d.id r.id (with_revision r (add_decision d s)) d
          (decision_at-add_decision d.id d s ∙ rw unused (ground arith));
    current = refl;
    of_workspace = of_workspace;
    of_book = of_book;
    supersessions = λ i. ground arith;
    claims = λ c.
        any_of-append (same_claim c) s.claims cs ∙ rw (granted c, active, reserves) (ground arith);
    replaced = λ c x e o live.
        let known = authorised-at c s x e in
        let nothing : decision_at x.decision s ≡ none = rw o unused in
        let dead : authorised c s ≡ false = known ∙ rw nothing refl in absurd (ground arith);
    kept = λ c x e o live. ground arith;
  }
