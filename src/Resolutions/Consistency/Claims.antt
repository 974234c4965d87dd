-- ===== src/Resolutions/Consistency/Claims.antt =====
-- What the claims of resolutions/models.py stand for: the endpoints of the live decisions.
use reconciliation_workbench.Common.{
  ℕ, ◌≡◌, refl, Bool, false, not, ◌&&◌, ◌||◌, Option, none, some, List, [], ◌∷◌, ◌==◌, arith,
  any_of, find-eq-some,
}
use reconciliation_workbench.Review.Domain.{DecisionAuthority, reserves_endpoints, member}
use reconciliation_workbench.Resolutions.Tables.{
  Decision, DecisionRevision, ActiveDecisionClaim, Store, decision_at, revision_at, is_revocation,
}
use reconciliation_workbench.Resolutions.Checks.{endpoints, is_superseded}
use reconciliation_workbench.Resolutions.Commands.{is_claimed, same_number}

abbrev pub same_claim : ActiveDecisionClaim → ActiveDecisionClaim → Bool
same_claim c x =
    x.workspace == c.workspace
    && x.book == c.book
    && x.logical_transaction == c.logical_transaction
    && x.decision_revision == c.decision_revision

-- The claim is in the table.
abbrev pub holds : ActiveDecisionClaim → List ActiveDecisionClaim → Bool
holds c cs = any_of (same_claim c) cs

abbrev pub grants : Option DecisionAuthority → ℕ → Bool
grants none l = false
grants (some a) l = reserves_endpoints a && member l (endpoints a)

-- The revision is its decision's current one, neither revokes nor is superseded, and its authority
-- reserves the endpoint, in the decision's workspace and book.
abbrev pub entitled :
    ActiveDecisionClaim → DecisionRevision → Option Decision → (superseded : Bool) → Bool
entitled c r none superseded = false
entitled c r (some d) superseded =
    same_number d.current_revision (some r.id)
    && d.workspace == c.workspace
    && d.book == c.book
    && not (is_revocation r.action)
    && not superseded
    && grants r.authority c.logical_transaction

abbrev pub entitled_by : ActiveDecisionClaim → Store → Option DecisionRevision → Bool
entitled_by c s none = false
entitled_by c s (some r) = entitled c r (decision_at r.decision s) (is_superseded r.id s)

-- The claim is an endpoint of a live decision.
unfoldable pub authorised : ActiveDecisionClaim → Store → Bool
authorised c s = entitled_by c s (revision_at c.decision_revision s)

-- No two claims of a book are for the same logical transaction.
abbrev pub AreSingle : List ActiveDecisionClaim → Type 0
AreSingle [] = Unit
AreSingle (c ∷ cs) = (is_claimed c.book c.logical_transaction cs ≡ false) × AreSingle cs

-- The claims are exactly the endpoints of the live decisions, no endpoint is claimed twice, and the
-- current revision of a decision is one of its own.
pub record IsConsistent (s : Store) : Type 0 where
  pub exact : (c : ActiveDecisionClaim) → holds c s.claims ≡ authorised c s
  pub single : AreSingle s.claims
  pub owned :
      (d : Decision) (i n : ℕ)
      → decision_at i s ≡ some d
      → d.current_revision ≡ some n
      → (r : DecisionRevision) × (revision_at n s ≡ some r) × (r.decision ≡ i)

pub revision_at-id :
    (i : ℕ) (s : Store) (r : DecisionRevision) → revision_at i s ≡ some r → r.id ≡ i
unfolding revision_at
revision_at-id i s r e = let same = find-eq-some (λ r. r.id == i) s.revisions r e in ground arith

pub decision_at-id : (i : ℕ) (s : Store) (d : Decision) → decision_at i s ≡ some d → d.id ≡ i
unfolding decision_at
decision_at-id i s d e = let same = find-eq-some (λ d. d.id == i) s.decisions d e in ground arith

pub authorised-at :
    (c : ActiveDecisionClaim) (s : Store) (r : DecisionRevision)
    → revision_at c.decision_revision s ≡ some r
    → authorised c s ≡ entitled c r (decision_at r.decision s) (is_superseded r.id s)
unfolding authorised
authorised-at c s r e = rw e refl

pub authorised_unknown :
    (c : ActiveDecisionClaim) (s : Store)
    → revision_at c.decision_revision s ≡ none
    → authorised c s ≡ false
unfolding authorised
authorised_unknown c s e = rw e refl

-- The claim of a revision that is not its decision's current one.
pub entitled_stale :
    (c : ActiveDecisionClaim) (r : DecisionRevision) (d : Decision) (n : ℕ) (x : Bool)
    → d.current_revision ≡ some n
    → (r.id == n) ≡ false
    → entitled c r (some d) x ≡ false
entitled_stale c r d n x e o =
    let different : (n == r.id) ≡ false = ground arith in rw (e, different) refl

-- One more supersession ends what the claim stands for.
pub entitled-superseded :
    (c : ActiveDecisionClaim) (r : DecisionRevision) (o : Option Decision) (x y : Bool)
    → entitled c r o (x || y) ≡ (entitled c r o x && not y)
entitled-superseded c r none x y = refl
entitled-superseded c r (some d) x y = ground arith
