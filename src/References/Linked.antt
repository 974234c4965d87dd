-- ===== src/References/Linked.antt =====
-- The decisions of a snapshot in `preprocess_references` of reconciliation/domain/references.py.
use reconciliation_workbench.Common.{
  ℕ, ◌≡◌, refl, ap, Bool, inl, inr, List, [], ◌∷◌, arith, Bool-cases,
}
use reconciliation_workbench.Review.Domain.{RecordSide}
use reconciliation_workbench.References.Domain.{
  UnpairedReason, MatchRecord, EngineSnapshot, DecisionInputs, identities,
}
use reconciliation_workbench.References.Preprocessing.{
  prohibited_of, is_prohibited, Progress, exclude_cancelled, apply_links,
}
use reconciliation_workbench.References.Trusted.{reserve_decided}
use reconciliation_workbench.References.Counts.{count}
use reconciliation_workbench.References.Partition.{IsPlaced, AreApart, placed}
use reconciliation_workbench.References.Reserved.{
  exclude_cancelled-IsPlaced, apply_links-IsPlaced, reserve_singles-IsPlaced,
}

-- The identities of the two sides of a snapshot.
abbrev pub inputs_of : EngineSnapshot → RecordSide → ℕ → ℕ
inputs_of s RecordSide.left x = count x (identities s.left)
inputs_of s RecordSide.right x = count x (identities s.right)

exclude_cancelled_right :
    (rs : List MatchRecord) (p : Progress)
    → (exclude_cancelled RecordSide.left rs p).remaining_right ≡ p.remaining_right
unfolding exclude_cancelled
exclude_cancelled_right [] p = refl
exclude_cancelled_right (r ∷ rs) p = elim (Bool-cases r.eligible) [
  | inl keep ↦ rw keep (exclude_cancelled_right rs p)
  | inr cancelled ↦ rw cancelled (exclude_cancelled_right rs _)
]

-- The relationships that the reviewers have rejected.
abbrev pub banned_by : EngineSnapshot → DecisionInputs → ℕ → ℕ → Bool
banned_by s d l r = is_prohibited l r (prohibited_of s d)

-- What the manual links leave.
abbrev pub linked : EngineSnapshot → DecisionInputs → Progress
linked s d = apply_links d.manual_links (
    exclude_cancelled RecordSide.right s.right (
      exclude_cancelled RecordSide.left s.left (record {
        remaining_left = identities s.left;
        remaining_right = identities s.right;
        pairs = [];
        terminal = [];
      })))

pub linked-IsPlaced :
    (s : EngineSnapshot) (d : DecisionInputs)
    → AreApart (inputs_of s)
    → IsPlaced (inputs_of s) (banned_by s d) (linked s d)
unfolding count
linked-IsPlaced s d apart =
    let all : Progress = record {
      remaining_left = identities s.left;
      remaining_right = identities s.right;
      pairs = [];
      terminal = [];
    } in
    let lefts = exclude_cancelled RecordSide.left s.left all in
    let start : IsPlaced (inputs_of s) (banned_by s d) all = record {
      respects = refl;
      places = λ side x. at_first side x;
    } in
    let first =
      exclude_cancelled-IsPlaced (inputs_of s) (banned_by s d) apart RecordSide.left s.left all
        (λ x. ground arith) start in
    let kept = exclude_cancelled_right s.left all in
    let second =
      exclude_cancelled-IsPlaced (inputs_of s) (banned_by s d) apart RecordSide.right s.right lefts
        (λ x. let k = ap (count x) kept in ground arith) first in
    apply_links-IsPlaced (inputs_of s) (banned_by s d) apart d.manual_links _ second
  where
    at_first :
        (side : RecordSide) (x : ℕ)
        → placed side x (record {
          remaining_left = identities s.left;
          remaining_right = identities s.right;
          pairs = [];
          terminal = [];
        })
          ≡ inputs_of s side x
    at_first RecordSide.left x = ground arith
    at_first RecordSide.right x = ground arith

-- After the decisions, each input of the snapshot is in one place.
pub reserve_decided-IsPlaced :
    (s : EngineSnapshot) (d : DecisionInputs)
    → AreApart (inputs_of s)
    → IsPlaced (inputs_of s) (banned_by s d) (reserve_decided s d)
unfolding reserve_decided
reserve_decided-IsPlaced s d apart =
    reserve_singles-IsPlaced (inputs_of s) (banned_by s d) apart UnpairedReason.reviewer_reserved
      d.reserved_identities _
      (reserve_singles-IsPlaced (inputs_of s) (banned_by s d) apart
        UnpairedReason.accepted_unmatched d.accepted_unmatched _ (linked-IsPlaced s d apart))
