-- ===== src/Assignment/Domain.antt =====
-- The evidence and the selections of reconciliation/domain/reconciliation.py and assignment.py, as
-- far as the assignment and its gates read them. The identities of a run are numbers in their sorted
-- order.
use reconciliation_workbench.Common.{
  ℕ, ◌+◌, Bool, List, [], ◌∷◌, ◌&&◌, ◌||◌, ltb, ◌==◌, if◌then◌else◌,
}

-- `ContradictionCode` of scoring.py
pub data ContradictionCode : Type 0 where
  instrument_mismatch side_mismatch currency_mismatch shared_reference_mismatch
        shared_alias_mismatch :
      ContradictionCode

-- `CandidateEvidence`
pub record CandidateEvidence : Type 0 where
  pub left_id : ℕ
  pub right_id : ℕ
  pub contradictions : List ContradictionCode
  pub coverage_sufficient : Bool
  pub complete_computation : Bool
  pub score_bp : ℕ

-- `SelectedAssignmentEdge`
pub record SelectedAssignmentEdge : Type 0 where
  pub left_id : ℕ
  pub right_id : ℕ
  pub score_bp : ℕ
  pub utility_bp : ℕ

-- The order of pairs of identities.
abbrev pub edge_before : (l r l' r' : ℕ) → Bool
edge_before l r l' r' = ltb l l' || l == l' && ltb r r'

-- `sorted(selected, key=lambda item: (item.left_id, item.right_id))`
unfoldable pub insert_edge :
    SelectedAssignmentEdge → List SelectedAssignmentEdge → List SelectedAssignmentEdge
insert_edge e [] = e ∷ []
insert_edge e (f ∷ fs) =
    let rest = insert_edge e fs in
    if edge_before f.left_id f.right_id e.left_id e.right_id then f ∷ rest else e ∷ f ∷ fs

unfoldable pub sort_edges : List SelectedAssignmentEdge → List SelectedAssignmentEdge
sort_edges [] = []
sort_edges (e ∷ es) = insert_edge e (sort_edges es)

-- `sum(item.utility_bp for item in selected)`
unfoldable pub sum_utility : List SelectedAssignmentEdge → ℕ
sum_utility [] = 0
sum_utility (e ∷ es) = e.utility_bp + sum_utility es
