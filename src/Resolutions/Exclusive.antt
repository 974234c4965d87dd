-- ===== src/Resolutions/Exclusive.antt =====
-- Who holds a logical transaction, in the stores that the commands of resolutions/services.py reach.
use reconciliation_workbench.Common.{
  ℕ, ◌≡◌, refl, ◌∙◌, true, inl, inr, List, [], ◌∷◌, arith, Bool-cases, find,
}
use reconciliation_workbench.Resolutions.Tables.{
  ActiveDecisionClaim, Store, TransactionObservation, decision_at, revision_at,
}
use reconciliation_workbench.Resolutions.Commands.{is_claimed}
use reconciliation_workbench.Resolutions.Consistency.{
  IsConsistent, AreSingle, holds, same_claim, authorised,
}
use reconciliation_workbench.Resolutions.Steps.{Reach}
use reconciliation_workbench.Resolutions.Reachable.{Reach-IsConsistent}

-- The books before any decision.
abbrev pub undecided : Store → Store
undecided s = record s { decisions = []; revisions = []; supersessions = []; claims = [] }

pub undecided-IsConsistent : (s : Store) → IsConsistent (undecided s)
unfolding authorised revision_at decision_at find
undecided-IsConsistent s = record {
  exact = λ c. refl;
  single = tt;
  owned = λ d i n e c. absurd (ground arith);
}

held_claimed :
    (c : ActiveDecisionClaim) (cs : List ActiveDecisionClaim)
    → holds c cs ≡ true
    → is_claimed c.book c.logical_transaction cs ≡ true
held_claimed c [] h = h
held_claimed c (x ∷ xs) h = elim (Bool-cases (same_claim c x)) [
  | inl same ↦ ground arith
  | inr other ↦ ground (arith, held_claimed c xs)
]

module _ (c d : ActiveDecisionClaim) (b : c.book ≡ d.book)
    (l : c.logical_transaction ≡ d.logical_transaction) where
  held_once :
      (cs : List ActiveDecisionClaim)
      → AreSingle cs
      → holds c cs ≡ true
      → holds d cs ≡ true
      → c.decision_revision ≡ d.decision_revision
  held_once [] single hc hd = absurd (ground arith)
  held_once (x ∷ xs) (first, rest) hc hd =
      let hc' = held_claimed c xs in
      let hd' = held_claimed d xs in
      elim (Bool-cases (same_claim c x)) [
        | inl own ↦ elim (Bool-cases (same_claim d x)) [
          | inl own' ↦ ground arith
          | inr other' ↦ absurd (ground arith)
        ]
        | inr other ↦ elim (Bool-cases (same_claim d x)) [
          | inl own' ↦ absurd (ground arith)
          | inr other' ↦ held_once xs rest (ground arith) (ground arith)
        ]
      ]

-- After any sequence of previews, and of commits that draw new identities, on books without decisions,
-- no two live revisions reserve the same logical transaction of a book.
pub one_live_decision :
    (m : ℕ) (strip : ℕ → ℕ) (digest : List TransactionObservation → ℕ) (s s' : Store)
    → Reach m strip digest (undecided s) s'
    → (c d : ActiveDecisionClaim) → c.book ≡ d.book
    → c.logical_transaction ≡ d.logical_transaction
    → authorised c s' ≡ true
    → authorised d s' ≡ true
    → c.decision_revision ≡ d.decision_revision
one_live_decision m strip digest s s' r c d b l live live' =
    let h = Reach-IsConsistent m strip digest (undecided s) s' (undecided-IsConsistent s) r in
    held_once c d b l s'.claims h.single (h.exact c ∙ live) (h.exact d ∙ live')
