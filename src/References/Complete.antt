-- ===== src/References/Complete.antt =====
-- `preprocess_references` of reconciliation/domain/references.py returns, and places each input once.
use reconciliation_workbench.Common.{
  any_of, subst, ◌&&◌, ◌||◌, ℕ, ◌≡◌, ◌≤◌, refl, sym, ◌∙◌, true, false, [], ◌++◌, map, arith, ok,
}
use reconciliation_workbench.Review.Domain.{RecordSide, member}
use reconciliation_workbench.References.Domain.{
  ReferenceContract, EngineSnapshot, DecisionInputs, identities, make_engine_snapshot,
}
use reconciliation_workbench.References.Preprocessing.{is_prohibited, still, prohibited_of}
use reconciliation_workbench.References.Trusted.{
  are_oriented, all_keys, pair_references, ReferencePreprocessingResult, sorted_result,
  reserve_decided, preprocess_references,
}
use reconciliation_workbench.References.Counts.{count}
use reconciliation_workbench.References.Partition.{is_authoritative, breaks, AreApart}
use reconciliation_workbench.References.Linked.{inputs_of, banned_by, reserve_decided-IsPlaced}
use reconciliation_workbench.References.Pending.{find_conflicts-IsFound, pair_references-IsPlaced}
use reconciliation_workbench.References.Gone.{
  IsWithin-next, find_conflicts-IsWithin, pair_references-IsWithin,
}
use reconciliation_workbench.References.Decided.{
  reserve_decided-IsGone, IsGone, IsAbsent, within-IsGone,
}
use reconciliation_workbench.References.Result.{
  make_engine_snapshot-AreApart, count-still, all_keys-unique, placed_in,
}
use reconciliation_workbench.References.Sorted.{
  result_of, placed_sorted, make_result_returns, still-IsPending, any_of-sort_by, IsAbsent-still,
}

-- What the preprocessing returns, and what holds of it.
pub preprocessed :
    (s : EngineSnapshot) (d : DecisionInputs) (contract : ReferenceContract)
    → AreApart (inputs_of s)
    → are_oriented s (d.manual_links ++ d.rejected_relationships) ≡ true
    → (r : ReferencePreprocessingResult) × (preprocess_references s d contract ≡ ok r)
      × ((side : RecordSide) (x : ℕ) → placed_in side x r ≡ inputs_of s side x)
      × (any_of (breaks (banned_by s d)) r.pairs ≡ false)
      × ((x : ℕ) → IsGone x (reserve_decided s d) → IsAbsent x r)
unfolding preprocess_references
preprocessed s d contract apart oriented =
    let p = reserve_decided s d in
    let decided = reserve_decided-IsPlaced s d apart in
    let ls = still s.left p.remaining_left in
    let rs = still s.right p.remaining_right in
    let keys = all_keys contract ls rs in
    let one_l : (x : ℕ) → count x (identities ls) ≤ 1 =
      (λ x. let a = count-still x s.left p.remaining_left in let b = apart x in ground arith) in
    let one_r : (x : ℕ) → count x (identities rs) ≤ 1 =
      (λ x. let a = count-still x s.right p.remaining_right in let b = apart x in ground arith) in
    let found =
      find_conflicts-IsFound contract ls rs (inputs_of s) (banned_by s d) apart one_l one_r keys p
        [] (all_keys-unique contract ls rs) decided
        (still-IsPending s apart d contract keys p decided) in
    let q = pair_references contract ls rs (prohibited_of s d) keys found.after in
    let last =
      pair_references-IsPlaced contract ls rs (inputs_of s) (banned_by s d) apart one_l one_r
        (prohibited_of s d) (λ l r. refl) keys found.after found.placed in
    let returned = found.returned in
    (
      sorted_result (result_of s d q found.conflicts),
      rw (oriented, returned) (make_result_returns s apart d q found.conflicts last),
      placed_sorted s apart d q found.conflicts last,
      any_of-sort_by (breaks (banned_by s d)) q.pairs ∙ last.respects,
      (λ x gone. IsAbsent-still s d q found.conflicts x (
          within-IsGone x p q
            (IsWithin-next p found.after q
              (find_conflicts-IsWithin contract ls rs keys p found.after [] found.conflicts
                found.returned)
              (pair_references-IsWithin contract ls rs (prohibited_of s d) keys found.after))
            gone)),
    )

-- On an accepted snapshot, with relationships that point from the left to the right, the preprocessing
-- returns: no removal, no outcome and no test of the result raises, and every input is exactly once
-- among the pairs, the terminal outcomes and the remaining records of its side.
pub preprocess_references-partitions :
    (draft s : EngineSnapshot) (d : DecisionInputs) (contract : ReferenceContract)
    → make_engine_snapshot draft ≡ ok s
    → are_oriented s (d.manual_links ++ d.rejected_relationships) ≡ true
    → (r : ReferencePreprocessingResult) × (preprocess_references s d contract ≡ ok r)
      × ((side : RecordSide) (x : ℕ) → placed_in side x r ≡ inputs_of s side x)
preprocess_references-partitions draft s d contract made oriented =
    let (r, returned, places, respects, gone) =
      preprocessed s d contract (make_engine_snapshot-AreApart draft s made) oriented in
    (r, returned, places)

-- On an accepted snapshot, with relationships that point from the left to the right, no returned pair
-- that a trusted reference established is a relationship of the snapshot that a reviewer has rejected.
pub rejected_unpaired :
    (draft s : EngineSnapshot) (d : DecisionInputs) (contract : ReferenceContract)
    (r : ReferencePreprocessingResult)
    → make_engine_snapshot draft ≡ ok s
    → are_oriented s (d.manual_links ++ d.rejected_relationships) ≡ true
    → preprocess_references s d contract ≡ ok r
    → any_of
        (λ q. is_authoritative q.origin && is_prohibited q.left_id q.right_id (prohibited_of s d))
        r.pairs
      ≡ false
rejected_unpaired draft s d contract r made oriented returned =
    let (t, returned', places, respects, gone) =
      preprocessed s d contract (make_engine_snapshot-AreApart draft s made) oriented in
    let both : ok t ≡ ok r = sym returned' ∙ returned in
    let same : t ≡ r = ground arith in
    subst (λ (u : ReferencePreprocessingResult). any_of (breaks (banned_by s d)) u.pairs ≡ false)
      same respects

-- On an accepted snapshot, with relationships that point from the left to the right, no record that an
-- accepted or a reserving decision names is among the returned remaining records, from which candidates
-- are generated.
pub decided_absent :
    (draft s : EngineSnapshot) (d : DecisionInputs) (contract : ReferenceContract)
    (r : ReferencePreprocessingResult) (x : ℕ)
    → make_engine_snapshot draft ≡ ok s
    → are_oriented s (d.manual_links ++ d.rejected_relationships) ≡ true
    → preprocess_references s d contract ≡ ok r
    → (member x (map (λ d. d.record_id) d.accepted_unmatched)
        || member x (map (λ d. d.record_id) d.reserved_identities))
      ≡ true
    → (member x (identities r.remaining_left) ≡ false)
      × (member x (identities r.remaining_right) ≡ false)
decided_absent draft s d contract r x made oriented returned named =
    let apart = make_engine_snapshot-AreApart draft s made in
    let (t, returned', places, respects, gone) = preprocessed s d contract apart oriented in
    let both : ok t ≡ ok r = sym returned' ∙ returned in
    let same : t ≡ r = ground arith in
    subst (IsAbsent x) same (gone x (reserve_decided-IsGone s d x apart named))
