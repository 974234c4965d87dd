-- ===== src/References/Reserved.antt =====
-- The decisions of `preprocess_references` of reconciliation/domain/references.py keep each input in one
-- place.
use reconciliation_workbench.Common.{
  ℕ, ◌≡◌, ◌≤◌, refl, Bool, true, false, inl, inr, List, [], ◌∷◌, ◌==◌, arith, Bool-cases,
}
use reconciliation_workbench.Review.Domain.{RecordSide, member}
use reconciliation_workbench.References.Domain.{
  PairOrigin, UnpairedReason, MatchRecord, Relationship, SingleDecision, UnpairedOutcome,
  identities,
}
use reconciliation_workbench.References.Preprocessing.{
  Progress, is_remaining, outcome, close, close_if, exclude_cancelled, apply_link, apply_links,
  reserve_single, reserve_singles, without,
}
use reconciliation_workbench.References.Counts.{count, count-without, member-count}
use reconciliation_workbench.References.Partition.{
  IsPlaced, AreApart, remaining, close-IsPlaced, pair_up-IsPlaced,
}

-- The records that a loop has still to read are remaining.
abbrev pub Awaits : RecordSide → List ℕ → Progress → Type 0
Awaits side xs p = (x : ℕ) → count x xs ≤ count x (remaining side p)

awaits_without :
    (y : ℕ) (ys rem : List ℕ)
    → ((x : ℕ) → count x (y ∷ ys) ≤ count x rem)
    → ((x : ℕ) → count x rem ≤ 1)
    → (x : ℕ) → count x ys ≤ count x (without y rem)
unfolding count
awaits_without y ys rem h one x =
    let here = h x in
    let single = one x in
    let gone = count-without y x rem in
    elim (Bool-cases (x == y)) [
      | inl same ↦ let same' : (y == x) ≡ true = ground arith in ground arith
      | inr other ↦ ground arith
    ]

module _ (inputs : RecordSide → ℕ → ℕ) (banned : ℕ → ℕ → Bool) (apart : AreApart inputs) where
  pub remaining_single :
      (side : RecordSide) (p : Progress)
      → IsPlaced inputs banned p
      → (x : ℕ) → count x (remaining side p) ≤ 1
  remaining_single RecordSide.left p h x =
      let here = h.places RecordSide.left x in let one = apart x in ground arith
  remaining_single RecordSide.right p h x =
      let here = h.places RecordSide.right x in let one = apart x in ground arith

  -- A record that is awaited can be taken out, and the others are awaited after it.
  pub Awaits-close :
      (side : RecordSide) (x : ℕ) (reason : UnpairedReason) (related xs : List ℕ) (p : Progress)
      → IsPlaced inputs banned p
      → Awaits side (x ∷ xs) p
      → (is_remaining x side p ≡ true) × Awaits side xs (close (outcome x side reason related) p)
  unfolding count
  Awaits-close RecordSide.left x reason related xs p h a =
      let here = a x in
      let m = member-count x p.remaining_left in
      (ground arith, awaits_without x xs p.remaining_left a (remaining_single RecordSide.left p h))
  Awaits-close RecordSide.right x reason related xs p h a =
      let here = a x in
      let m = member-count x p.remaining_right in
      (
        ground arith,
        awaits_without x xs p.remaining_right a (remaining_single RecordSide.right p h),
      )

  pub exclude_cancelled-IsPlaced :
      (side : RecordSide) (rs : List MatchRecord) (p : Progress)
      → Awaits side (identities rs) p
      → IsPlaced inputs banned p
      → IsPlaced inputs banned (exclude_cancelled side rs p)
  unfolding exclude_cancelled count
  exclude_cancelled-IsPlaced side [] p a h = h
  exclude_cancelled-IsPlaced side (r ∷ rs) p a h = elim (Bool-cases r.eligible) [
    | inl keep ↦ rw keep (exclude_cancelled-IsPlaced side rs p (λ x. let k = a x in ground arith) h)
    | inr cancelled ↦
        let u = outcome r.observation_id side UnpairedReason.cancelled_excluded [] in
        let (there, next) =
          Awaits-close side r.observation_id UnpairedReason.cancelled_excluded [] (identities rs) p
            h a in
        rw cancelled (
          exclude_cancelled-IsPlaced side rs (close u p) next
            (close-IsPlaced inputs banned apart u p there h))
  ]

  close_if-IsPlaced :
      (b : Bool) (u : UnpairedOutcome) (p : Progress)
      → (b ≡ true → is_remaining u.record_id u.side p ≡ true)
      → IsPlaced inputs banned p
      → IsPlaced inputs banned (close_if b u p)
  close_if-IsPlaced true u p there h = close-IsPlaced inputs banned apart u p (there refl) h
  close_if-IsPlaced false u p there h = h

  apply_link-IsPlaced :
      (l : Relationship) (p : Progress)
      → IsPlaced inputs banned p
      → IsPlaced inputs banned (apply_link l p)
  unfolding apply_link
  apply_link-IsPlaced l p h =
      let lu =
        outcome l.left_id RecordSide.left UnpairedReason.manual_attention (l.right_id ∷ []) in
      let ru =
        outcome l.right_id RecordSide.right UnpairedReason.manual_attention (l.left_id ∷ []) in
      elim (Bool-cases (member l.left_id p.remaining_left)) [
        | inr absent ↦
            rw absent (close_if-IsPlaced (member l.right_id p.remaining_right) ru p (λ e. e) h)
        | inl left ↦ elim (Bool-cases (member l.right_id p.remaining_right)) [
          | inl right ↦
              rw (left, right)
                (pair_up-IsPlaced inputs banned apart l.left_id l.right_id PairOrigin.manual p left
                  right refl h)
          | inr absent ↦ rw (left, absent) (close-IsPlaced inputs banned apart lu p left h)
        ]
      ]

  pub apply_links-IsPlaced :
      (ls : List Relationship) (p : Progress)
      → IsPlaced inputs banned p
      → IsPlaced inputs banned (apply_links ls p)
  unfolding apply_links
  apply_links-IsPlaced [] p h = h
  apply_links-IsPlaced (l ∷ ls) p h =
      apply_links-IsPlaced ls (apply_link l p) (apply_link-IsPlaced l p h)

  pub reserve_single-IsPlaced :
      (reason : UnpairedReason) (x : ℕ) (p : Progress)
      → IsPlaced inputs banned p
      → IsPlaced inputs banned (reserve_single reason x p)
  unfolding reserve_single
  reserve_single-IsPlaced reason x p h = elim (Bool-cases (member x p.remaining_left)) [
    | inl left ↦
        rw left (close-IsPlaced inputs banned apart (outcome x RecordSide.left reason []) p left h)
    | inr absent ↦ rw absent (
        close_if-IsPlaced (member x p.remaining_right) (outcome x RecordSide.right reason []) p
          (λ e. e) h)
  ]

  pub reserve_singles-IsPlaced :
      (reason : UnpairedReason) (ds : List SingleDecision) (p : Progress)
      → IsPlaced inputs banned p
      → IsPlaced inputs banned (reserve_singles reason ds p)
  unfolding reserve_singles
  reserve_singles-IsPlaced reason [] p h = h
  reserve_singles-IsPlaced reason (d ∷ ds) p h =
      reserve_singles-IsPlaced reason ds (reserve_single reason d.record_id p)
        (reserve_single-IsPlaced reason d.record_id p h)
