-- ===== src/References/Trusted.antt =====
-- The trusted references and the result of `preprocess_references` of
-- reconciliation/domain/references.py.
use reconciliation_workbench.Common.{
  ℕ, Bool, true, false, not, ◌&&◌, ◌||◌, List, [], ◌∷◌, ◌++◌, map, Result, ok, Error, bind, require,
  if◌then◌else◌, ltb, ◌==◌, all_of, select,
}
use reconciliation_workbench.Review.Domain.{RecordSide, member, unique, is_side}
use reconciliation_workbench.References.Domain.{
  ReferenceContract, PairOrigin, UnpairedReason, MatchRecord, EngineSnapshot, Relationship,
  DecisionInputs, PairOutcome, UnpairedOutcome, identities, meets, sort_by, record_before,
}
use reconciliation_workbench.References.Preprocessing.{
  Progress, exclude_cancelled, apply_links, reserve_singles, prohibited_of, is_prohibited,
  referencing, reference_keys, still, take_all, ReferenceConflict, make_reference_conflict,
  is_single, pair_up,
}

-- `_validate_relationship_orientation`
unfoldable pub are_oriented : EngineSnapshot → List Relationship → Bool
are_oriented s rs =
    all_of
      (λ r.
        not (member r.left_id (identities s.right)) && not (member r.right_id (identities s.left)))
      rs

-- `sorted(set(left_references) | set(right_references))`
unfoldable pub all_keys : ReferenceContract → List MatchRecord → List MatchRecord → List ℕ
all_keys contract ls rs = sort_by ltb (reference_keys contract (ls ++ rs))

module _ (contract : ReferenceContract) (ls rs : List MatchRecord) where
  -- One key of the first loop over the references.
  unfoldable pub conflict_step :
      ℕ → Progress × List ReferenceConflict → Result (Progress × List ReferenceConflict)
  conflict_step key (p, cs) =
      let lefts = referencing contract key ls in
      let rights = referencing contract key rs in
      if is_single lefts && is_single rights
      then ok (p, cs)
      else bind
          (make_reference_conflict
            (record { reference_key = key; left_ids = lefts; right_ids = rights }))
          λ c. bind (take_all RecordSide.left (sort_by ltb (lefts ++ rights)) lefts p) λ q.
            bind (take_all RecordSide.right (sort_by ltb (lefts ++ rights)) rights q)
              (λ t. ok (t, cs ++ c ∷ []))

  unfoldable pub find_conflicts :
      List ℕ → Progress × List ReferenceConflict → Result (Progress × List ReferenceConflict)
  find_conflicts [] x = ok x
  find_conflicts (key ∷ keys) x = bind (conflict_step key x) (λ y. find_conflicts keys y)

  abbrev pub pair_single : List Relationship → List ℕ → List ℕ → Progress → Progress
  pair_single prohibited (l ∷ []) (r ∷ []) p =
      if member l p.remaining_left
        && member r p.remaining_right
        && not (is_prohibited l r prohibited)
      then pair_up l r PairOrigin.authoritative_reference p
      else p
  pair_single prohibited _ _ p = p

  -- The second loop over the references.
  unfoldable pub pair_references : List Relationship → List ℕ → Progress → Progress
  pair_references prohibited [] p = p
  pair_references prohibited (key ∷ keys) p =
      pair_references prohibited keys
        (pair_single prohibited (referencing contract key ls) (referencing contract key rs) p)

-- `ReferencePreprocessingResult`
pub record ReferencePreprocessingResult : Type 0 where
  pub input_left_ids : List ℕ
  pub input_right_ids : List ℕ
  pub pairs : List PairOutcome
  pub terminal_unpaired : List UnpairedOutcome
  pub remaining_left : List MatchRecord
  pub remaining_right : List MatchRecord
  pub prohibited_relationships : List Relationship
  pub reference_conflicts : List ReferenceConflict

abbrev pub terminal_ids : RecordSide → List UnpairedOutcome → List ℕ
terminal_ids side us = map (λ u. u.record_id) (select (λ u. is_side u.side side) us)

abbrev pub same_set : List ℕ → List ℕ → Bool
same_set xs ys = all_of (λ x. member x ys) xs && all_of (λ y. member y xs) ys

-- The tests on one side: unique identities, and a partition of the inputs.
unfoldable pub partitions : (inputs paired terminal remaining : List ℕ) → Bool
partitions inputs paired terminal remaining =
    unique inputs
    && unique paired
    && unique terminal
    && unique remaining
    && same_set (paired ++ terminal ++ remaining) inputs
    && not (meets paired terminal)
    && not (meets paired remaining)
    && not (meets terminal remaining)

abbrev pub pair_before : PairOutcome → PairOutcome → Bool
pair_before a b = ltb a.left_id b.left_id || a.left_id == b.left_id && ltb a.right_id b.right_id

abbrev pub side_before : RecordSide → RecordSide → Bool
side_before RecordSide.left RecordSide.right = true
side_before _ _ = false

abbrev pub outcome_before : UnpairedOutcome → UnpairedOutcome → Bool
outcome_before u v =
    side_before u.side v.side || is_side u.side v.side && ltb u.record_id v.record_id

abbrev pub relationship_before : Relationship → Relationship → Bool
relationship_before a b =
    ltb a.left_id b.left_id
    || a.left_id == b.left_id
      && (ltb a.right_id b.right_id || a.right_id == b.right_id && ltb a.decision_id b.decision_id)

abbrev pub sorted_result : ReferencePreprocessingResult → ReferencePreprocessingResult
sorted_result r = record {
  input_left_ids = sort_by ltb r.input_left_ids;
  input_right_ids = sort_by ltb r.input_right_ids;
  pairs = sort_by pair_before r.pairs;
  terminal_unpaired = sort_by outcome_before r.terminal_unpaired;
  remaining_left = sort_by record_before r.remaining_left;
  remaining_right = sort_by record_before r.remaining_right;
  prohibited_relationships = sort_by relationship_before r.prohibited_relationships;
  reference_conflicts = sort_by (λ a b. ltb a.reference_key b.reference_key) r.reference_conflicts;
}

abbrev pub is_partition : ReferencePreprocessingResult → Bool
is_partition r =
    partitions r.input_left_ids (map (λ q. q.left_id) r.pairs)
      (terminal_ids RecordSide.left r.terminal_unpaired) (identities r.remaining_left)
    && partitions r.input_right_ids (map (λ q. q.right_id) r.pairs)
        (terminal_ids RecordSide.right r.terminal_unpaired) (identities r.remaining_right)
    && not (meets r.input_left_ids r.input_right_ids)

-- `ReferencePreprocessingResult.__post_init__`
unfoldable pub make_result : ReferencePreprocessingResult → Result ReferencePreprocessingResult
make_result r =
    bind (require (is_partition (sorted_result r)) Error.domain_validation)
      (λ _. ok (sorted_result r))

-- What the decisions leave before the references are read.
unfoldable pub reserve_decided : EngineSnapshot → DecisionInputs → Progress
reserve_decided s d = reserve_singles UnpairedReason.reviewer_reserved d.reserved_identities (
    reserve_singles UnpairedReason.accepted_unmatched d.accepted_unmatched (
      apply_links d.manual_links (
        exclude_cancelled RecordSide.right s.right (
          exclude_cancelled RecordSide.left s.left (record {
            remaining_left = identities s.left;
            remaining_right = identities s.right;
            pairs = [];
            terminal = [];
          })))))

-- `preprocess_references`
unfoldable pub preprocess_references :
    EngineSnapshot → DecisionInputs → ReferenceContract → Result ReferencePreprocessingResult
preprocess_references s d contract =
    bind
      (require (are_oriented s (d.manual_links ++ d.rejected_relationships))
        Error.domain_validation)
      λ _.
        let p = reserve_decided s d in
        let ls = still s.left p.remaining_left in
        let rs = still s.right p.remaining_right in
        let keys = all_keys contract ls rs in
        bind (find_conflicts contract ls rs keys (p, [])) λ found.
          let q = pair_references contract ls rs (prohibited_of s d) keys found.0 in
          make_result (record {
            input_left_ids = identities s.left;
            input_right_ids = identities s.right;
            pairs = q.pairs;
            terminal_unpaired = q.terminal;
            remaining_left = still s.left q.remaining_left;
            remaining_right = still s.right q.remaining_right;
            prohibited_relationships = prohibited_of s d;
            reference_conflicts = found.1;
          })
