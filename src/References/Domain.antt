-- ===== src/References/Domain.antt =====
-- The inputs and the outcomes of reconciliation/domain/reconciliation.py, as far as the preprocessing of
-- references reads them. The texts of accepted inputs are not blank, so that the tests for blank texts are
-- left out; an explanation follows from its reason.
use reconciliation_workbench.Common.{
  ℕ, Bool, not, Option, List, [], ◌∷◌, map, Result, ok, Error, bind, require, ltb, if◌then◌else◌,
  any_of,
}
use reconciliation_workbench.Review.Domain.{RecordSide, member, unique}

-- `ReferenceContract`
pub data ReferenceContract : Type 0 where
  shared_must_agree source_local_or_alias : ReferenceContract

-- `PairOrigin`
pub data PairOrigin : Type 0 where
  manual authoritative_reference weighted_global : PairOrigin

-- `UnpairedReason`
pub data UnpairedReason : Type 0 where
  accepted_unmatched cancelled_excluded reviewer_reserved manual_attention duplicate_reference :
      UnpairedReason
  prohibited no_candidate below_assignment_floor ambiguous computation_limited : UnpairedReason

-- `MatchRecord`, with its property `eligible`.
pub record MatchRecord : Type 0 where
  pub observation_id : ℕ
  pub eligible : Bool
  pub reference_value : Option ℕ
  pub shared_reference_alias : Option ℕ

abbrev pub identities : List MatchRecord → List ℕ
identities rs = map (λ r. r.observation_id) rs

-- `EngineSnapshot`
pub record EngineSnapshot : Type 0 where
  pub left : List MatchRecord
  pub right : List MatchRecord

-- `sorted(...)` by a key, through the order of the keys.
unfoldable pub insert_by {ℓ} : {A : Type ℓ} → (A → A → Bool) → A → List A → List A
insert_by before x [] = x ∷ []
insert_by before x (y ∷ ys) =
    let rest = insert_by before x ys in if before y x then y ∷ rest else x ∷ y ∷ ys

unfoldable pub sort_by {ℓ} : {A : Type ℓ} → (A → A → Bool) → List A → List A
sort_by before [] = []
sort_by before (x ∷ xs) = insert_by before x (sort_by before xs)

abbrev pub record_before : MatchRecord → MatchRecord → Bool
record_before q r = ltb q.observation_id r.observation_id

abbrev pub meets : List ℕ → List ℕ → Bool
meets xs ys = any_of (λ x. member x ys) xs

-- `EngineSnapshot.__post_init__`
unfoldable pub make_engine_snapshot : EngineSnapshot → Result EngineSnapshot
make_engine_snapshot s =
    bind (require (unique (identities (sort_by record_before s.left))) Error.domain_validation) λ _.
      bind (require (unique (identities (sort_by record_before s.right))) Error.domain_validation)
        λ _.
          bind
            (require
              (not (
                meets (identities (sort_by record_before s.left))
                  (identities (sort_by record_before s.right))))
              Error.domain_validation)
            (λ _. ok (record {
              left = sort_by record_before s.left;
              right = sort_by record_before s.right;
            }))

-- `ManualLink` and `RejectedRelationship`
pub record Relationship : Type 0 where
  pub decision_id : ℕ
  pub revision_id : ℕ
  pub left_id : ℕ
  pub right_id : ℕ

-- `AcceptedUnmatched` and `ReservedIdentity`
pub record SingleDecision : Type 0 where
  pub decision_id : ℕ
  pub revision_id : ℕ
  pub record_id : ℕ

-- `DecisionInputs`
pub record DecisionInputs : Type 0 where
  pub manual_links : List Relationship
  pub accepted_unmatched : List SingleDecision
  pub rejected_relationships : List Relationship
  pub reserved_identities : List SingleDecision

-- `PairOutcome`, of an origin that carries no scores.
pub record PairOutcome : Type 0 where
  pub left_id : ℕ
  pub right_id : ℕ
  pub origin : PairOrigin

-- `UnpairedOutcome`
pub record UnpairedOutcome : Type 0 where
  pub record_id : ℕ
  pub side : RecordSide
  pub reason : UnpairedReason
  pub related_ids : List ℕ
