-- ===== src/References/Decided.antt =====
-- The records that a single decision names, in `preprocess_references` of
-- reconciliation/domain/references.py.
use reconciliation_workbench.Common.{
  ℕ, ◌≡◌, subst, Bool, true, false, ◌||◌, inl, inr, List, [], ◌∷◌, map, ◌==◌, arith, Bool-cases,
}
use reconciliation_workbench.Review.Domain.{RecordSide, member}
use reconciliation_workbench.References.Domain.{
  UnpairedReason, EngineSnapshot, DecisionInputs, SingleDecision, identities,
}
use reconciliation_workbench.References.Preprocessing.{
  Progress, outcome, reserve_single, reserve_singles,
}
use reconciliation_workbench.References.Trusted.{ReferencePreprocessingResult, reserve_decided}
use reconciliation_workbench.References.Counts.{count, count-without, member-count}
use reconciliation_workbench.References.Partition.{IsPlaced, AreApart}
use reconciliation_workbench.References.Reserved.{reserve_single-IsPlaced, reserve_singles-IsPlaced}
use reconciliation_workbench.References.Linked.{inputs_of, banned_by, linked, linked-IsPlaced}
use reconciliation_workbench.References.Gone.{
  IsWithin, IsWithin-self, IsWithin-next, close-IsWithin,
}

-- The identity remains on no side.
abbrev pub IsGone : ℕ → Progress → Type 0
IsGone x p = (count x p.remaining_left ≡ 0) × (count x p.remaining_right ≡ 0)

-- The identity is of no remaining record of a result.
abbrev pub IsAbsent : ℕ → ReferencePreprocessingResult → Type 0
IsAbsent x r =
    (member x (identities r.remaining_left) ≡ false)
    × (member x (identities r.remaining_right) ≡ false)

pub within-IsGone : (x : ℕ) (p q : Progress) → IsWithin p q → IsGone x p → IsGone x q
within-IsGone x p q h (l, r) = let a = h.left x in let b = h.right x in (omega arith, omega arith)

reserve_single-IsWithin :
    (reason : UnpairedReason) (y : ℕ) (p : Progress) → IsWithin p (reserve_single reason y p)
unfolding reserve_single
reserve_single-IsWithin reason y p = elim (Bool-cases (member y p.remaining_left)) [
  | inl left ↦ rw left (close-IsWithin (outcome y RecordSide.left reason []) p)
  | inr absent ↦ elim (Bool-cases (member y p.remaining_right)) [
    | inl right ↦ rw (absent, right) (close-IsWithin (outcome y RecordSide.right reason []) p)
    | inr absent' ↦ rw (absent, absent') (IsWithin-self p)
  ]
]

reserve_singles-IsWithin :
    (reason : UnpairedReason) (ds : List SingleDecision) (p : Progress)
    → IsWithin p (reserve_singles reason ds p)
unfolding reserve_singles
reserve_singles-IsWithin reason [] p = IsWithin-self p
reserve_singles-IsWithin reason (d ∷ ds) p =
    let q = reserve_single reason d.record_id p in
    IsWithin-next p q _ (reserve_single-IsWithin reason d.record_id p)
      (reserve_singles-IsWithin reason ds q)

module _ (inputs : RecordSide → ℕ → ℕ) (banned : ℕ → ℕ → Bool) (apart : AreApart inputs) where
  reserve_single-IsGone :
      (reason : UnpairedReason) (x : ℕ) (p : Progress)
      → IsPlaced inputs banned p
      → IsGone x (reserve_single reason x p)
  unfolding reserve_single
  reserve_single-IsGone reason x p h =
      let l = h.places RecordSide.left x in
      let r = h.places RecordSide.right x in
      let one = apart x in
      let a = member-count x p.remaining_left in
      let b = member-count x p.remaining_right in
      let c = count-without x x p.remaining_left in
      let d = count-without x x p.remaining_right in
      elim (Bool-cases (member x p.remaining_left)) [
        | inl left ↦ rw left (ground arith, ground arith)
        | inr absent ↦ elim (Bool-cases (member x p.remaining_right)) [
          | inl right ↦ rw (absent, right) (ground arith, ground arith)
          | inr absent' ↦ rw (absent, absent') (ground arith, ground arith)
        ]
      ]

  reserve_singles-IsGone :
      (reason : UnpairedReason) (x : ℕ) (ds : List SingleDecision) (p : Progress)
      → IsPlaced inputs banned p
      → member x (map (λ d. d.record_id) ds) ≡ true
      → IsGone x (reserve_singles reason ds p)
  unfolding reserve_singles
  reserve_singles-IsGone reason x [] p h m = absurd (ground arith)
  reserve_singles-IsGone reason x (d ∷ ds) p h m =
      let q = reserve_single reason d.record_id p in
      elim (Bool-cases (d.record_id == x)) [
        | inr other ↦
            reserve_singles-IsGone reason x ds q
              (reserve_single-IsPlaced inputs banned apart reason d.record_id p h) (ground arith)
        | inl same ↦
            let same' : d.record_id ≡ x = ground arith in
            within-IsGone x q (reserve_singles reason ds q) (reserve_singles-IsWithin reason ds q)
              (subst (λ y. IsGone y q) same' (reserve_single-IsGone reason d.record_id p h))
      ]

-- What an accepted or reserving decision names is gone after the decisions.
pub reserve_decided-IsGone :
    (s : EngineSnapshot) (d : DecisionInputs) (x : ℕ)
    → AreApart (inputs_of s)
    → (member x (map (λ d. d.record_id) d.accepted_unmatched)
        || member x (map (λ d. d.record_id) d.reserved_identities))
      ≡ true
    → IsGone x (reserve_decided s d)
unfolding reserve_decided
reserve_decided-IsGone s d x apart m =
    let start = linked-IsPlaced s d apart in
    let p = reserve_singles UnpairedReason.accepted_unmatched d.accepted_unmatched (linked s d) in
    elim (Bool-cases (member x (map (λ d. d.record_id) d.accepted_unmatched))) [
      | inl accepted ↦
          within-IsGone x p _
            (reserve_singles-IsWithin UnpairedReason.reviewer_reserved d.reserved_identities p)
            (reserve_singles-IsGone (inputs_of s) (banned_by s d) apart
              UnpairedReason.accepted_unmatched x d.accepted_unmatched (linked s d) start accepted)
      | inr other ↦
          reserve_singles-IsGone (inputs_of s) (banned_by s d) apart
            UnpairedReason.reviewer_reserved x d.reserved_identities p
            (reserve_singles-IsPlaced (inputs_of s) (banned_by s d) apart
              UnpairedReason.accepted_unmatched d.accepted_unmatched (linked s d) start)
            (ground arith)
    ]
