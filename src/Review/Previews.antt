-- ===== src/Review/Previews.antt =====
-- `DecisionConflict` and `ReplacementPreview` of reconciliation/domain/review.py.
use reconciliation_workbench.Common.{
  ℕ, Bool, true, false, not, ◌&&◌, ◌||◌, List, [], ◌∷◌, map, Result, ok, Error, bind, require,
  if◌then◌else◌, ltb, ◌==◌,
}
use reconciliation_workbench.Review.Domain.{
  DecisionAuthority, ExpectedDecisionRevision, canonical_texts, unique, member, is_nil,
}

-- `DecisionConflict`
pub record DecisionConflict : Type 0 where
  pub decision_id : ℕ
  pub revision_id : ℕ
  pub claimed_record_ids : List ℕ

-- `DecisionConflict.__post_init__`
unfoldable pub make_conflict : (blank : ℕ → Bool) → DecisionConflict → Result DecisionConflict
make_conflict blank c =
    bind (require (not (blank c.decision_id) && not (blank c.revision_id)) Error.domain_validation)
      λ _. bind (canonical_texts blank c.claimed_record_ids) λ claimed.
        bind (require (not (is_nil claimed)) Error.domain_validation)
          (λ _. ok (record c { claimed_record_ids = claimed }))

-- The order of tuples of texts.
unfoldable pub texts_before : List ℕ → List ℕ → Bool
texts_before [] [] = false
texts_before [] (u ∷ us) = true
texts_before (t ∷ ts) [] = false
texts_before (t ∷ ts) (u ∷ us) = ltb t u || t == u && texts_before ts us

-- The order that the dataclass derives from its fields.
abbrev pub conflict_before : DecisionConflict → DecisionConflict → Bool
conflict_before a b =
    ltb a.decision_id b.decision_id
    || a.decision_id == b.decision_id
      && (ltb a.revision_id b.revision_id
          || a.revision_id == b.revision_id
            && texts_before a.claimed_record_ids b.claimed_record_ids)

unfoldable pub insert_conflict : DecisionConflict → List DecisionConflict → List DecisionConflict
insert_conflict c [] = c ∷ []
insert_conflict c (d ∷ ds) =
    let rest = insert_conflict c ds in if conflict_before d c then d ∷ rest else c ∷ d ∷ ds

unfoldable pub sort_conflicts : List DecisionConflict → List DecisionConflict
sort_conflicts [] = []
sort_conflicts (c ∷ cs) = insert_conflict c (sort_conflicts cs)

-- `ReplacementPreview`
pub record ReplacementPreview : Type 0 where
  pub authority : DecisionAuthority
  pub target : ExpectedDecisionRevision
  pub conflicts : List DecisionConflict
  pub resolution_generation : ℕ

abbrev pub conflict_ids : List DecisionConflict → List ℕ
conflict_ids cs = map (λ c. c.decision_id) cs

-- `ReplacementPreview.__post_init__`
unfoldable pub make_preview : ReplacementPreview → Result ReplacementPreview
make_preview p =
    bind (require (unique (conflict_ids (sort_conflicts p.conflicts))) Error.domain_validation) λ _.
      bind
        (require (not (member p.target.decision_id (conflict_ids (sort_conflicts p.conflicts))))
          Error.domain_validation)
        (λ _. ok (record p { conflicts = sort_conflicts p.conflicts }))

abbrev pub expected_revision : DecisionConflict → ExpectedDecisionRevision
expected_revision c = record { decision_id = c.decision_id; revision_id = c.revision_id }

-- `expected_conflicts`
unfoldable pub expected_conflicts : ReplacementPreview → List ExpectedDecisionRevision
expected_conflicts p = map expected_revision p.conflicts
