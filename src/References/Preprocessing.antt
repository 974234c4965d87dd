-- ===== src/References/Preprocessing.antt =====
-- `preprocess_references` of reconciliation/domain/references.py. A set of identities is a list without
-- repetitions, and the dictionary of terminal outcomes a list of the outcomes, one for each identity.
use reconciliation_workbench.Common.{
  ℕ, Bool, true, false, not, ◌&&◌, Option, none, some, List, [], ◌∷◌, ◌++◌, length, Result, ok,
  Error, bind, require, if◌then◌else◌, leb, ltb, ◌==◌, any_of, select,
}
use reconciliation_workbench.Review.Domain.{RecordSide, member, unique}
use reconciliation_workbench.References.Domain.{
  ReferenceContract, PairOrigin, UnpairedReason, MatchRecord, EngineSnapshot, Relationship,
  SingleDecision, DecisionInputs, PairOutcome, UnpairedOutcome, identities, sort_by,
}

-- The local variables of `preprocess_references`.
pub record Progress : Type 0 where
  pub remaining_left : List ℕ
  pub remaining_right : List ℕ
  pub pairs : List PairOutcome
  pub terminal : List UnpairedOutcome

unfoldable pub without : ℕ → List ℕ → List ℕ
without x xs = select (λ y. not (y == x)) xs

-- `terminal[...] = ...`
unfoldable pub set_terminal : UnpairedOutcome → List UnpairedOutcome → List UnpairedOutcome
set_terminal u [] = u ∷ []
set_terminal u (v ∷ vs) =
    let rest = set_terminal u vs in if v.record_id == u.record_id then u ∷ vs else v ∷ rest

-- `_remove`
abbrev pub remove : ℕ → RecordSide → Progress → Progress
remove x RecordSide.left p = record p { remaining_left = without x p.remaining_left }
remove x RecordSide.right p = record p { remaining_right = without x p.remaining_right }

abbrev pub is_remaining : ℕ → RecordSide → Progress → Bool
is_remaining x RecordSide.left p = member x p.remaining_left
is_remaining x RecordSide.right p = member x p.remaining_right

abbrev pub outcome : ℕ → RecordSide → UnpairedReason → List ℕ → UnpairedOutcome
outcome x side reason related = record {
  record_id = x;
  side = side;
  reason = reason;
  related_ids = related;
}

-- An identity gets its outcome and leaves its set.
abbrev pub close : UnpairedOutcome → Progress → Progress
close u p = remove u.record_id u.side (record p { terminal = set_terminal u p.terminal })

-- The loop over the records of one side that excludes the cancelled ones.
unfoldable pub exclude_cancelled : RecordSide → List MatchRecord → Progress → Progress
exclude_cancelled side [] p = p
exclude_cancelled side (r ∷ rs) p = exclude_cancelled side rs (
    if r.eligible
    then p
    else close (outcome r.observation_id side UnpairedReason.cancelled_excluded []) p)

abbrev pub pair_up : (left right : ℕ) → PairOrigin → Progress → Progress
pair_up left right origin p = record p {
  pairs = p.pairs ++ record { left_id = left; right_id = right; origin = origin } ∷ [];
  remaining_left = without left p.remaining_left;
  remaining_right = without right p.remaining_right;
}

abbrev pub close_if : Bool → UnpairedOutcome → Progress → Progress
close_if true u p = close u p
close_if false u p = p

-- One manual link.
unfoldable pub apply_link : Relationship → Progress → Progress
apply_link link p =
    let left_available = member link.left_id p.remaining_left in
    let right_available = member link.right_id p.remaining_right in
    if left_available && right_available
    then pair_up link.left_id link.right_id PairOrigin.manual p
    else close_if right_available
        (outcome link.right_id RecordSide.right UnpairedReason.manual_attention (link.left_id ∷ []))
        (close_if left_available
          (outcome link.left_id RecordSide.left UnpairedReason.manual_attention
            (link.right_id ∷ []))
          p)

unfoldable pub apply_links : List Relationship → Progress → Progress
apply_links [] p = p
apply_links (l ∷ ls) p = apply_links ls (apply_link l p)

-- `_reserve_single`
unfoldable pub reserve_single : UnpairedReason → ℕ → Progress → Progress
reserve_single reason x p =
    if member x p.remaining_left
    then close (outcome x RecordSide.left reason []) p
    else close_if (member x p.remaining_right) (outcome x RecordSide.right reason []) p

unfoldable pub reserve_singles : UnpairedReason → List SingleDecision → Progress → Progress
reserve_singles reason [] p = p
reserve_singles reason (d ∷ ds) p = reserve_singles reason ds (reserve_single reason d.record_id p)

-- The prohibited relationships.
unfoldable pub prohibited_of : EngineSnapshot → DecisionInputs → List Relationship
prohibited_of s d =
    select (λ r. member r.left_id (identities s.left) && member r.right_id (identities s.right))
      d.rejected_relationships

abbrev pub is_prohibited : (left right : ℕ) → List Relationship → Bool
is_prohibited left right rs = any_of (λ r. r.left_id == left && r.right_id == right) rs

-- The key of a record under the contract.
abbrev pub reference_key : ReferenceContract → MatchRecord → Option ℕ
reference_key ReferenceContract.shared_must_agree r = r.reference_value
reference_key ReferenceContract.source_local_or_alias r = r.shared_reference_alias

abbrev pub has_key : ℕ → Option ℕ → Bool
has_key key none = false
has_key key (some k) = k == key

-- The entry of a key in `_reference_index`, empty when the key is not there.
unfoldable pub referencing : ReferenceContract → ℕ → List MatchRecord → List ℕ
referencing contract key rs =
    sort_by ltb (identities (select (λ r. has_key key (reference_key contract r)) rs))

abbrev pub add_key : Option ℕ → List ℕ → List ℕ
add_key none ks = ks
add_key (some k) ks = if member k ks then ks else k ∷ ks

-- The keys of `_reference_index`, each once.
unfoldable pub reference_keys : ReferenceContract → List MatchRecord → List ℕ
reference_keys contract [] = []
reference_keys contract (r ∷ rs) = add_key (reference_key contract r) (reference_keys contract rs)

-- `(left_by_id[identity] for identity in remaining_left)`
unfoldable pub still : List MatchRecord → List ℕ → List MatchRecord
still rs remaining = select (λ r. member r.observation_id remaining) rs

-- `remaining.remove(identity)` behind the assignment of its outcome.
abbrev pub take_out : UnpairedOutcome → Progress → Result Progress
take_out u p =
    bind (require (is_remaining u.record_id u.side p) Error.key_error) (λ _. ok (close u p))

-- The outcomes of one side of a conflict, whose constructor wants unique related identities.
unfoldable pub take_all : RecordSide → (related : List ℕ) → List ℕ → Progress → Result Progress
take_all side related [] p = ok p
take_all side related (x ∷ xs) p = bind (require (unique related) Error.domain_validation) λ _.
    bind (take_out (outcome x side UnpairedReason.duplicate_reference related) p)
      (λ q. take_all side related xs q)

-- `ReferenceConflict`
pub record ReferenceConflict : Type 0 where
  pub reference_key : ℕ
  pub left_ids : List ℕ
  pub right_ids : List ℕ

abbrev pub is_single : List ℕ → Bool
is_single xs = leb (length xs) 1

-- `ReferenceConflict.__post_init__`
unfoldable pub make_reference_conflict : ReferenceConflict → Result ReferenceConflict
make_reference_conflict c =
    bind (require (unique c.left_ids && unique c.right_ids) Error.domain_validation) λ _.
      bind (require (not (is_single c.left_ids && is_single c.right_ids)) Error.domain_validation)
        λ _.
          ok (record c { left_ids = sort_by ltb c.left_ids; right_ids = sort_by ltb c.right_ids })
