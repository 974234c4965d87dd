-- ===== src/References/Tests.antt =====
-- The theorems on references, each applied to a small snapshot.
use reconciliation_workbench.Common.{
  any_of, ◌&&◌, select, ℕ, ◌≡◌, refl, Bool, true, false, Option, none, some, [], ◌∷◌, ok,
}
use reconciliation_workbench.Review.Domain.{RecordSide, member, unique}
use reconciliation_workbench.References.Domain.{
  identities, UnpairedReason, PairOrigin, UnpairedOutcome, ReferenceContract, MatchRecord,
  EngineSnapshot, DecisionInputs, make_engine_snapshot, sort_by, insert_by,
}
use reconciliation_workbench.References.Partition.{is_authoritative}
use reconciliation_workbench.References.Preprocessing.{
  outcome, is_prohibited, prohibited_of, exclude_cancelled, apply_links, apply_link,
  reserve_singles, reserve_single, set_terminal, without, still, reference_keys, referencing,
  make_reference_conflict, take_all,
}
use reconciliation_workbench.References.Trusted.{
  reserve_decided, all_keys, find_conflicts, conflict_step, pair_references, make_result,
  partitions, are_oriented, preprocess_references, ReferencePreprocessingResult,
}
use reconciliation_workbench.References.Linked.{inputs_of}
use reconciliation_workbench.References.Result.{placed_in}
use reconciliation_workbench.References.Complete.{
  decided_absent, preprocess_references-partitions, rejected_unpaired,
}

abbrev sample_record : ℕ → Bool → Option ℕ → MatchRecord
sample_record id eligible reference = record {
  observation_id = id;
  eligible = eligible;
  reference_value = reference;
  shared_reference_alias = none;
}

-- A trusted pair, a repeated reference, a cancelled record and a record without a reference.
abbrev sample_snapshot : EngineSnapshot
sample_snapshot = record {
  left =
      sample_record 1 true (some 70)
      ∷ sample_record 2 true (some 71)
      ∷ sample_record 3 true (some 71)
      ∷ sample_record 4 false (some 70)
      ∷ sample_record 5 true (some 73)
      ∷ [];
  right =
      sample_record 11 true (some 70)
      ∷ sample_record 12 true (some 71)
      ∷ sample_record 13 true none
      ∷ sample_record 14 true none
      ∷ sample_record 15 true (some 73)
      ∷ [];
}

abbrev sample_decisions : DecisionInputs
sample_decisions = record {
  manual_links = record { decision_id = 101; revision_id = 201; left_id = 9; right_id = 13 } ∷ [];
  accepted_unmatched = record { decision_id = 102; revision_id = 202; record_id = 14 } ∷ [];
  rejected_relationships =
      record { decision_id = 103; revision_id = 203; left_id = 5; right_id = 15 } ∷ [];
  reserved_identities = [];
}

accepted : make_engine_snapshot sample_snapshot ≡ ok sample_snapshot
unfolding make_engine_snapshot sort_by insert_by unique
accepted = refl

oriented :
    are_oriented sample_snapshot (
      record { decision_id = 101; revision_id = 201; left_id = 9; right_id = 13 }
      ∷ record { decision_id = 103; revision_id = 203; left_id = 5; right_id = 15 }
      ∷ [])
    ≡ true
unfolding are_oriented
oriented = refl

preprocess_references-partitions_example :
    (r : ReferencePreprocessingResult) × (preprocess_references sample_snapshot sample_decisions
        ReferenceContract.shared_must_agree
      ≡ ok r)
    × ((side : RecordSide) (x : ℕ) → placed_in side x r ≡ inputs_of sample_snapshot side x)
preprocess_references-partitions_example =
    preprocess_references-partitions sample_snapshot sample_snapshot sample_decisions
      ReferenceContract.shared_must_agree accepted oriented

abbrev repeated : ℕ → RecordSide → UnpairedOutcome
repeated id side = record {
  record_id = id;
  side = side;
  reason = UnpairedReason.duplicate_reference;
  related_ids = 2 ∷ 3 ∷ 12 ∷ [];
}

abbrev sample_result : ReferencePreprocessingResult
sample_result = record {
  input_left_ids = 1 ∷ 2 ∷ 3 ∷ 4 ∷ 5 ∷ [];
  input_right_ids = 11 ∷ 12 ∷ 13 ∷ 14 ∷ 15 ∷ [];
  pairs = record { left_id = 1; right_id = 11; origin = PairOrigin.authoritative_reference } ∷ [];
  terminal_unpaired =
      repeated 2 RecordSide.left
      ∷ repeated 3 RecordSide.left
      ∷ outcome 4 RecordSide.left UnpairedReason.cancelled_excluded []
      ∷ repeated 12 RecordSide.right
      ∷ outcome 13 RecordSide.right UnpairedReason.manual_attention (9 ∷ [])
      ∷ outcome 14 RecordSide.right UnpairedReason.accepted_unmatched []
      ∷ [];
  remaining_left = sample_record 5 true (some 73) ∷ [];
  remaining_right = sample_record 15 true (some 73) ∷ [];
  prohibited_relationships = sample_decisions.rejected_relationships;
  reference_conflicts =
      record { reference_key = 71; left_ids = 2 ∷ 3 ∷ []; right_ids = 12 ∷ [] } ∷ [];
}

returned :
    preprocess_references sample_snapshot sample_decisions ReferenceContract.shared_must_agree
    ≡ ok sample_result
unfolding preprocess_references are_oriented reserve_decided exclude_cancelled apply_links
    apply_link reserve_singles reserve_single set_terminal without select still all_keys
    reference_keys referencing sort_by insert_by find_conflicts conflict_step
    make_reference_conflict take_all unique pair_references prohibited_of make_result partitions
returned = refl

-- Without the rejection, the fifth record would be paired by its reference.
rejected_unpaired_example :
    any_of
      (λ q.
        is_authoritative q.origin
        && is_prohibited q.left_id q.right_id (prohibited_of sample_snapshot sample_decisions))
      sample_result.pairs
    ≡ false
rejected_unpaired_example =
    rejected_unpaired sample_snapshot sample_snapshot sample_decisions
      ReferenceContract.shared_must_agree sample_result accepted oriented returned

-- The record that a reviewer has accepted as unmatched.
decided_absent_example :
    (member 14 (identities sample_result.remaining_left) ≡ false)
    × (member 14 (identities sample_result.remaining_right) ≡ false)
decided_absent_example =
    decided_absent sample_snapshot sample_snapshot sample_decisions
      ReferenceContract.shared_must_agree sample_result 14 accepted oriented returned refl
