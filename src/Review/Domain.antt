-- ===== src/Review/Domain.antt =====
-- The authorities, commands and previews of reconciliation/domain/review.py. Texts are numbers in
-- their sorted order; `blank` tells of each whether `str.strip` leaves nothing of it.
use reconciliation_workbench.Common.{
  ℕ, Bool, true, false, not, ◌&&◌, ◌||◌, Option, none, some, List, [], ◌∷◌, map, length, Result, ok,
  raise, Error, bind, require, if◌then◌else◌, ltb, leb, ◌==◌, is_some, is_none, any_of, all_of,
}

pub data DecisionAction : Type 0 where
  link accept_unmatched reject_candidate reaffirm revoke replace : DecisionAction

pub data DecisionAuthorityKind : Type 0 where
  link accept_unmatched reject_candidate : DecisionAuthorityKind

pub data RecordSide : Type 0 where
  left right : RecordSide

abbrev pub is_side : RecordSide → RecordSide → Bool
is_side RecordSide.left RecordSide.left = true
is_side RecordSide.right RecordSide.right = true
is_side _ _ = false

abbrev pub same_authority : DecisionAuthorityKind → DecisionAuthorityKind → Bool
same_authority DecisionAuthorityKind.link DecisionAuthorityKind.link = true
same_authority DecisionAuthorityKind.accept_unmatched DecisionAuthorityKind.accept_unmatched = true
same_authority DecisionAuthorityKind.reject_candidate DecisionAuthorityKind.reject_candidate = true
same_authority _ _ = false

-- `DecisionAuthority`
pub record DecisionAuthority : Type 0 where
  pub kind : DecisionAuthorityKind
  pub left_id : Option ℕ
  pub right_id : Option ℕ
  pub record_id : Option ℕ
  pub record_side : Option RecordSide

-- `ExpectedDecisionRevision`
pub record ExpectedDecisionRevision : Type 0 where
  pub decision_id : ℕ
  pub revision_id : ℕ

-- `sorted` over values that compare by their decision first.
abbrev pub revision_before : ExpectedDecisionRevision → ExpectedDecisionRevision → Bool
revision_before a b =
    ltb a.decision_id b.decision_id
    || a.decision_id == b.decision_id && ltb a.revision_id b.revision_id

unfoldable pub insert_revision :
    ExpectedDecisionRevision → List ExpectedDecisionRevision → List ExpectedDecisionRevision
insert_revision r [] = r ∷ []
insert_revision r (s ∷ ss) =
    let rest = insert_revision r ss in if revision_before s r then s ∷ rest else r ∷ s ∷ ss

unfoldable pub sort_revisions : List ExpectedDecisionRevision → List ExpectedDecisionRevision
sort_revisions [] = []
sort_revisions (r ∷ rs) = insert_revision r (sort_revisions rs)

unfoldable pub insert_text : ℕ → List ℕ → List ℕ
insert_text t [] = t ∷ []
insert_text t (u ∷ us) = let rest = insert_text t us in if ltb u t then u ∷ rest else t ∷ u ∷ us

unfoldable pub sort_texts : List ℕ → List ℕ
sort_texts [] = []
sort_texts (t ∷ ts) = insert_text t (sort_texts ts)

-- `len(values) == len(set(values))`
abbrev pub member : ℕ → List ℕ → Bool
member t ts = any_of (λ u. u == t) ts

unfoldable pub unique : List ℕ → Bool
unique [] = true
unique (t ∷ ts) = not (member t ts) && unique ts

abbrev pub decision_ids : List ExpectedDecisionRevision → List ℕ
decision_ids rs = map (λ r. r.decision_id) rs

-- `DecisionCommand`
pub record DecisionCommand : Type 0 where
  pub action : DecisionAction
  pub reason : ℕ
  pub actor : ℕ
  pub expected_resolution_generation : ℕ
  pub authority : Option DecisionAuthority
  pub target : Option ExpectedDecisionRevision
  pub approved_conflicts : List ExpectedDecisionRevision
  pub reviewed_observation_ids : List ℕ

-- `endpoint_ids` of an authority that `check_authority` accepts: a pair, or a single record.
unfoldable pub endpoint_ids : DecisionAuthority → List (Option ℕ)
endpoint_ids a = elim a.kind [
  | DecisionAuthorityKind.accept_unmatched ↦ a.record_id ∷ []
  | _ ↦ a.left_id ∷ a.right_id ∷ []
]

-- `reserves_endpoints`
unfoldable pub reserves_endpoints : DecisionAuthority → Bool
reserves_endpoints a = not (same_authority a.kind DecisionAuthorityKind.reject_candidate)

abbrev pub link_authority : (left_id right_id : ℕ) → DecisionAuthority
link_authority left_id right_id = record {
  kind = DecisionAuthorityKind.link;
  left_id = some left_id;
  right_id = some right_id;
  record_id = none;
  record_side = none;
}

-- `_require_reviewed_cardinality`
unfoldable pub require_reviewed_cardinality : List ℕ → DecisionAuthority → Result (Unit {0})
require_reviewed_cardinality reviewed authority =
    require (length reviewed == length (endpoint_ids authority)) Error.domain_validation

abbrev pub is_nil {ℓ} : {A : Type ℓ} → List A → Bool
is_nil [] = true
is_nil (x ∷ xs) = false

module _ (blank : ℕ → Bool) where
  -- `_required_text`
  abbrev pub required_text : ℕ → Result (Unit {0})
  required_text t = require (not (blank t)) Error.domain_validation

  -- `_canonical_texts`
  unfoldable pub canonical_texts : List ℕ → Result (List ℕ)
  canonical_texts ts =
      bind (require (all_of (λ t. not (blank t)) ts) Error.domain_validation) λ _.
        bind (require (unique (sort_texts ts)) Error.domain_validation) (λ _. ok (sort_texts ts))

  abbrev pub pair_texts : Option ℕ → Option ℕ → Result (Unit {0})
  pair_texts (some l) (some r) =
      require (not (blank l) && not (blank r) && not (l == r)) Error.domain_validation
  pair_texts _ _ = raise Error.domain_validation

  abbrev pub single_text : Option ℕ → Option RecordSide → Result (Unit {0})
  single_text (some r) (some s) = required_text r
  single_text _ _ = raise Error.domain_validation

  -- The branch of `DecisionAuthority.__post_init__` for a pair.
  abbrev pub check_pair : DecisionAuthority → Result (Unit {0})
  check_pair a =
      bind (pair_texts a.left_id a.right_id)
        (λ _. require (is_none a.record_id && is_none a.record_side) Error.domain_validation)

  -- `DecisionAuthority.__post_init__`
  unfoldable pub check_authority : DecisionAuthority → Result (Unit {0})
  check_authority a = elim a.kind [
    | DecisionAuthorityKind.accept_unmatched ↦
        bind (require (is_none a.left_id && is_none a.right_id) Error.domain_validation)
          (λ _. single_text a.record_id a.record_side)
    | _ ↦ check_pair a
  ]

  -- The branch of an initial action.
  abbrev pub check_initial :
      DecisionAuthorityKind
      → Option DecisionAuthority
      → Option ExpectedDecisionRevision
      → (conflicts : List ExpectedDecisionRevision) (reviewed : List ℕ) → Result (Unit {0})
  check_initial kind none target conflicts reviewed = raise Error.domain_validation
  check_initial kind (some a) target conflicts reviewed =
      bind (require (same_authority a.kind kind) Error.domain_validation) λ _.
        bind (require (is_none target && is_nil conflicts) Error.domain_validation)
          (λ _. require_reviewed_cardinality reviewed a)

  abbrev pub check_replace :
      Option DecisionAuthority
      → Option ExpectedDecisionRevision
      → (conflicts : List ExpectedDecisionRevision) (reviewed : List ℕ) → Result (Unit {0})
  check_replace (some a) (some t) conflicts reviewed =
      bind (require (not (member t.decision_id (decision_ids conflicts))) Error.domain_validation)
        (λ _. require_reviewed_cardinality reviewed a)
  check_replace _ _ conflicts reviewed = raise Error.domain_validation

  -- The branches of `DecisionCommand.__post_init__` on the action.
  unfoldable pub check_action :
      DecisionAction
      → Option DecisionAuthority
      → Option ExpectedDecisionRevision
      → (conflicts : List ExpectedDecisionRevision) (reviewed : List ℕ) → Result (Unit {0})
  check_action DecisionAction.link a t conflicts reviewed =
      check_initial DecisionAuthorityKind.link a t conflicts reviewed
  check_action DecisionAction.accept_unmatched a t conflicts reviewed =
      check_initial DecisionAuthorityKind.accept_unmatched a t conflicts reviewed
  check_action DecisionAction.reject_candidate a t conflicts reviewed =
      check_initial DecisionAuthorityKind.reject_candidate a t conflicts reviewed
  check_action DecisionAction.reaffirm a t conflicts reviewed =
      require
        (is_some t
          && is_none a
          && is_nil conflicts
          && not (is_nil reviewed)
          && leb (length reviewed) 2)
        Error.domain_validation
  check_action DecisionAction.revoke a t conflicts reviewed =
      require (is_some t && is_none a && is_nil conflicts && is_nil reviewed)
        Error.domain_validation
  check_action DecisionAction.replace a t conflicts reviewed = check_replace a t conflicts reviewed

  -- `DecisionCommand.__post_init__`: the command that it leaves, with both tuples sorted.
  unfoldable pub make_command : DecisionCommand → Result DecisionCommand
  make_command command =
      bind
        (require (not (blank command.reason) && not (blank command.actor)) Error.domain_validation)
        λ _.
          bind
            (require (unique (decision_ids (sort_revisions command.approved_conflicts)))
              Error.domain_validation)
            λ _. bind (canonical_texts command.reviewed_observation_ids) λ reviewed.
              bind
                (check_action command.action command.authority command.target
                  (sort_revisions command.approved_conflicts) reviewed)
                λ _. ok (record command {
                  approved_conflicts = sort_revisions command.approved_conflicts;
                  reviewed_observation_ids = reviewed;
                })
