-- ===== src/References/Result.antt =====
-- `preprocess_references` of reconciliation/domain/references.py returns a partition of its inputs.
use reconciliation_workbench.Common.{
  ℕ, ◌≡◌, ◌≤◌, ◌+◌, refl, ◌∙◌, ap, subst, true, ◌&&◌, inl, inr, List, [], ◌∷◌, ◌++◌, map, ◌==◌, ltb,
  arith, if◌then◌else◌, Bool-cases, ok, select, Option, none, some,
}
use reconciliation_workbench.Review.Domain.{RecordSide, member, unique, is_side}
use reconciliation_workbench.References.Domain.{
  ReferenceContract, MatchRecord, EngineSnapshot, UnpairedOutcome, identities, meets, sort_by,
  insert_by, record_before, make_engine_snapshot,
}
use reconciliation_workbench.References.Preprocessing.{
  reference_keys, add_key, reference_key, still,
}
use reconciliation_workbench.References.Trusted.{
  all_keys, ReferencePreprocessingResult, terminal_ids, partitions, outcome_before,
}
use reconciliation_workbench.References.Counts.{
  one_if, count, count-append, member-count, count-unique, unique-count, count-meets, meets-count,
  count-same_set,
}
use reconciliation_workbench.References.Partition.{AreApart, closed, count-terminal_ids}
use reconciliation_workbench.References.Linked.{inputs_of}
use reconciliation_workbench.References.Conflicted.{count-sorted}

-- An accepted snapshot has no identity twice.
pub make_engine_snapshot-AreApart :
    (draft s : EngineSnapshot) → make_engine_snapshot draft ≡ ok s → AreApart (inputs_of s)
unfolding make_engine_snapshot
make_engine_snapshot-AreApart draft s made x =
    let ls = identities (sort_by record_before draft.left) in
    let rs = identities (sort_by record_before draft.right) in
    elim (Bool-cases (unique ls)) [
      | inr repeated ↦ absurd (ground arith)
      | inl once ↦ elim (Bool-cases (unique rs)) [
        | inr repeated ↦ absurd (ground arith)
        | inl once' ↦ elim (Bool-cases (meets ls rs)) [
          | inl shared ↦ absurd (ground arith)
          | inr apart ↦
              let same : record {
                left = sort_by record_before draft.left;
                right = sort_by record_before draft.right;
              }
                  ≡ s =
                ground arith in
              let a = unique-count x ls once in
              let b = unique-count x rs once' in
              let c = meets-count x ls rs apart in
              let d = member-count x ls in
              let e = member-count x rs in
              subst
                (λ (t : EngineSnapshot).
                  inputs_of t RecordSide.left x + inputs_of t RecordSide.right x ≤ 1)
                same (ground arith)
        ]
      ]
    ]

-- The records of the remaining identities.
pub count-still :
    (x : ℕ) (rs : List MatchRecord) (rem : List ℕ)
    → count x (identities (still rs rem)) ≡ (if member x rem then count x (identities rs) else 0)
unfolding count still select
count-still x [] rem = ground arith
count-still x (r ∷ rs) rem = elim (Bool-cases (r.observation_id == x)) [
  | inr other ↦ ground (arith, count-still x rs rem)
  | inl same ↦
      let same' : r.observation_id ≡ x = ground arith in
      let m : member r.observation_id rem ≡ member x rem = ap (λ i. member i rem) same' in
      let rest = count-still x rs rem in ground arith
]

module _ (contract : ReferenceContract) where
  -- Each key is read once.
  reference_keys-unique : (rs : List MatchRecord) → unique (reference_keys contract rs) ≡ true
  unfolding reference_keys unique
  reference_keys-unique [] = refl
  reference_keys-unique (r ∷ rs) =
      added (reference_key contract r) (reference_keys contract rs) (reference_keys-unique rs)
    where
      added : (o : Option ℕ) (ks : List ℕ) → unique ks ≡ true → unique (add_key o ks) ≡ true
      added none ks h = h
      added (some k) ks h = elim (Bool-cases (member k ks)) [
        | inl there ↦ rw there h
        | inr new ↦ rw new (ground arith)
      ]

  pub all_keys-unique : (ls rs : List MatchRecord) → unique (all_keys contract ls rs) ≡ true
  unfolding all_keys
  all_keys-unique ls rs =
      let ks = reference_keys contract (ls ++ rs) in
      count-unique (sort_by ltb ks) (λ x.
        let a = count-sorted x ks in
        let b = unique-count x ks (reference_keys-unique (ls ++ rs)) in omega arith)

-- How often an identity is placed in a result.
abbrev pub placed_in : RecordSide → ℕ → ReferencePreprocessingResult → ℕ
placed_in RecordSide.left x r =
    count x (map (λ q. q.left_id) r.pairs)
    + count x (terminal_ids RecordSide.left r.terminal_unpaired)
    + count x (identities r.remaining_left)
placed_in RecordSide.right x r =
    count x (map (λ q. q.right_id) r.pairs)
    + count x (terminal_ids RecordSide.right r.terminal_unpaired)
    + count x (identities r.remaining_right)

closed-insert_by :
    (side : RecordSide) (x : ℕ) (u : UnpairedOutcome) (us : List UnpairedOutcome)
    → closed side x (insert_by outcome_before u us) ≡ closed side x (u ∷ us)
unfolding insert_by
closed-insert_by side x u [] = refl
closed-insert_by side x u (v ∷ vs) = elim (Bool-cases (outcome_before v u)) [
  | inl later ↦ rw later (let rest = closed-insert_by side x u vs in omega arith)
  | inr here ↦ rw here refl
]

closed-sort_by :
    (side : RecordSide) (x : ℕ) (us : List UnpairedOutcome)
    → closed side x (sort_by outcome_before us) ≡ closed side x us
unfolding sort_by
closed-sort_by side x [] = refl
closed-sort_by side x (u ∷ us) =
    closed-insert_by side x u (sort_by outcome_before us)
    ∙ ap (λ n. one_if (is_side u.side side && u.record_id == x) + n) (closed-sort_by side x us)

pub terminal-sorted :
    (side : RecordSide) (x : ℕ) (us : List UnpairedOutcome)
    → count x (terminal_ids side (sort_by outcome_before us)) ≡ closed side x us
terminal-sorted side x us =
    count-terminal_ids side x (sort_by outcome_before us) ∙ closed-sort_by side x us

-- The tests on one side of a result hold of a partition.
pub partitions_lem :
    (inputs pairs terminal rest : List ℕ)
    → ((x : ℕ) → count x inputs ≤ 1)
    → ((x : ℕ) → count x pairs + count x terminal + count x rest ≡ count x inputs)
    → partitions inputs pairs terminal rest ≡ true
unfolding partitions
partitions_lem inputs pairs terminal rest one h =
    let a = count-unique inputs one in
    let b = count-unique pairs (λ x. let k = h x in let o = one x in omega arith) in
    let c = count-unique terminal (λ x. let k = h x in let o = one x in omega arith) in
    let d = count-unique rest (λ x. let k = h x in let o = one x in omega arith) in
    let e = count-same_set (pairs ++ terminal ++ rest) inputs (λ x.
      let k = h x in
      let m = count-append x (pairs ++ terminal) rest in
      let n = count-append x pairs terminal in omega arith) in
    let f = count-meets pairs terminal (λ x. let k = h x in let o = one x in omega arith) in
    let g = count-meets pairs rest (λ x. let k = h x in let o = one x in omega arith) in
    let i = count-meets terminal rest (λ x. let k = h x in let o = one x in omega arith) in
    rw (a, b, c, d, e, f, g, i) refl
