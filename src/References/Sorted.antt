-- ===== src/References/Sorted.antt =====
-- The sorted result of `preprocess_references` of reconciliation/domain/references.py.
use reconciliation_workbench.Common.{
  ap, inl, inr, Bool-cases, ◌∷◌, any_of, ◌||◌, Bool, ℕ, ◌≡◌, ◌≤◌, refl, sym, ◌∙◌, true, false, List,
  [], map, arith, ok,
}
use reconciliation_workbench.Review.Domain.{RecordSide}
use reconciliation_workbench.References.Domain.{
  insert_by, sort_by, ReferenceContract, MatchRecord, EngineSnapshot, DecisionInputs, PairOutcome,
  identities, meets, record_before,
}
use reconciliation_workbench.References.Preprocessing.{
  Progress, ReferenceConflict, still, prohibited_of,
}
use reconciliation_workbench.References.Trusted.{
  ReferencePreprocessingResult, terminal_ids, partitions, sorted_result, make_result, pair_before,
}
use reconciliation_workbench.References.Counts.{count, member-count, count-sort_by, count-meets}
use reconciliation_workbench.References.Partition.{IsPlaced, AreApart}
use reconciliation_workbench.References.Linked.{inputs_of, banned_by}
use reconciliation_workbench.References.Conflicted.{count-sorted, count-referencing}
use reconciliation_workbench.References.Pending.{IsPending}
use reconciliation_workbench.References.Decided.{IsGone, IsAbsent}
use reconciliation_workbench.References.Result.{
  count-still, terminal-sorted, partitions_lem, placed_in,
}

-- What `preprocess_references` hands to the constructor of its result.
abbrev pub result_of :
    EngineSnapshot
    → DecisionInputs
    → Progress
    → List ReferenceConflict
    → ReferencePreprocessingResult
result_of s d q cs = record {
  input_left_ids = identities s.left;
  input_right_ids = identities s.right;
  pairs = q.pairs;
  terminal_unpaired = q.terminal;
  remaining_left = still s.left q.remaining_left;
  remaining_right = still s.right q.remaining_right;
  prohibited_relationships = prohibited_of s d;
  reference_conflicts = cs;
}

pub still_all :
    (x : ℕ) (rs : List MatchRecord) (rem : List ℕ)
    → count x rem ≤ count x (identities rs)
    → count x (identities rs) ≤ 1
    → count x (identities (still rs rem)) ≡ count x rem
still_all x rs rem h one =
    let a = count-still x rs rem in let m = member-count x rem in ground arith

module _ (s : EngineSnapshot) (apart : AreApart (inputs_of s)) where
  -- A side of the sorted result.
  pub placed_sorted :
      (d : DecisionInputs) (q : Progress) (cs : List ReferenceConflict)
      → IsPlaced (inputs_of s) (banned_by s d) q
      → (side : RecordSide) (x : ℕ)
      → placed_in side x (sorted_result (result_of s d q cs)) ≡ inputs_of s side x
  placed_sorted d q cs h RecordSide.left x =
      let here = h.places RecordSide.left x in
      let one = apart x in
      let a = count-sort_by (λ (p : PairOutcome). p.left_id) pair_before x q.pairs in
      let b = terminal-sorted RecordSide.left x q.terminal in
      let c =
        count-sort_by (λ (r : MatchRecord). r.observation_id) record_before x
          (still s.left q.remaining_left) in
      let e = still_all x s.left q.remaining_left (ground arith) (ground arith) in ground arith
  placed_sorted d q cs h RecordSide.right x =
      let here = h.places RecordSide.right x in
      let one = apart x in
      let a = count-sort_by (λ (p : PairOutcome). p.right_id) pair_before x q.pairs in
      let b = terminal-sorted RecordSide.right x q.terminal in
      let c =
        count-sort_by (λ (r : MatchRecord). r.observation_id) record_before x
          (still s.right q.remaining_right) in
      let e = still_all x s.right q.remaining_right (ground arith) (ground arith) in ground arith

  pub make_result_returns :
      (d : DecisionInputs) (q : Progress) (cs : List ReferenceConflict)
      → IsPlaced (inputs_of s) (banned_by s d) q
      → make_result (result_of s d q cs) ≡ ok (sorted_result (result_of s d q cs))
  unfolding make_result
  make_result_returns d q cs h =
      let r = sorted_result (result_of s d q cs) in
      let lefts : partitions r.input_left_ids (map (λ q. q.left_id) r.pairs)
            (terminal_ids RecordSide.left r.terminal_unpaired) (identities r.remaining_left)
          ≡ true =
        partitions_lem r.input_left_ids (map (λ q. q.left_id) r.pairs)
          (terminal_ids RecordSide.left r.terminal_unpaired) (identities r.remaining_left)
          (λ x. let a = count-sorted x (identities s.left) in let b = apart x in ground arith)
          (λ x.
            placed_sorted d q cs h RecordSide.left x ∙ sym (count-sorted x (identities s.left))) in
      let rights : partitions r.input_right_ids (map (λ q. q.right_id) r.pairs)
            (terminal_ids RecordSide.right r.terminal_unpaired) (identities r.remaining_right)
          ≡ true =
        partitions_lem r.input_right_ids (map (λ q. q.right_id) r.pairs)
          (terminal_ids RecordSide.right r.terminal_unpaired) (identities r.remaining_right)
          (λ x. let a = count-sorted x (identities s.right) in let b = apart x in ground arith)
          (λ x.
            placed_sorted d q cs h RecordSide.right x
            ∙ sym (count-sorted x (identities s.right))) in
      let across : meets r.input_left_ids r.input_right_ids ≡ false =
        count-meets r.input_left_ids r.input_right_ids (λ x.
          let a = count-sorted x (identities s.left) in
          let b = count-sorted x (identities s.right) in let c = apart x in ground arith) in
      rw (lefts, rights, across) refl

  -- The groups of the records that remain.
  pub still-IsPending :
      (d : DecisionInputs) (contract : ReferenceContract) (keys : List ℕ) (p : Progress)
      → IsPlaced (inputs_of s) (banned_by s d) p
      → IsPending contract (still s.left p.remaining_left) (still s.right p.remaining_right) keys p
  still-IsPending d contract keys p h = record {
    left = λ k there x.
        let here = h.places RecordSide.left x in
        let one = apart x in
        let a = count-referencing contract x k (still s.left p.remaining_left) in
        let b = still_all x s.left p.remaining_left (ground arith) (ground arith) in ground arith;
    right = λ k there x.
        let here = h.places RecordSide.right x in
        let one = apart x in
        let a = count-referencing contract x k (still s.right p.remaining_right) in
        let b = still_all x s.right p.remaining_right (ground arith) (ground arith) in ground arith;
  }

any_of-insert_by :
    (p : PairOutcome → Bool) (q : PairOutcome) (qs : List PairOutcome)
    → any_of p (insert_by pair_before q qs) ≡ any_of p (q ∷ qs)
unfolding insert_by
any_of-insert_by p q [] = refl
any_of-insert_by p q (x ∷ xs) = elim (Bool-cases (pair_before x q)) [
  | inl later ↦ rw later (ground (arith, any_of-insert_by p q xs))
  | inr here ↦ rw here refl
]

pub any_of-sort_by :
    (p : PairOutcome → Bool) (qs : List PairOutcome)
    → any_of p (sort_by pair_before qs) ≡ any_of p qs
unfolding sort_by
any_of-sort_by p [] = refl
any_of-sort_by p (q ∷ qs) =
    any_of-insert_by p q (sort_by pair_before qs) ∙ ap (λ b. p q || b) (any_of-sort_by p qs)

pub IsAbsent-still :
    (s : EngineSnapshot) (d : DecisionInputs) (q : Progress) (cs : List ReferenceConflict) (x : ℕ)
    → IsGone x q
    → IsAbsent x (sorted_result (result_of s d q cs))
IsAbsent-still s d q cs x (l, r) =
    let a =
      count-sort_by (λ (r : MatchRecord). r.observation_id) record_before x
        (still s.left q.remaining_left) in
    let b =
      count-sort_by (λ (r : MatchRecord). r.observation_id) record_before x
        (still s.right q.remaining_right) in
    let c = count-still x s.left q.remaining_left in
    let d = count-still x s.right q.remaining_right in
    let e = member-count x q.remaining_left in
    let f = member-count x q.remaining_right in
    let g = member-count x (identities (sort_by record_before (still s.left q.remaining_left))) in
    let h = member-count x (identities (sort_by record_before (still s.right q.remaining_right))) in
    (ground arith, ground arith)
