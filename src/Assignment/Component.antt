-- ===== src/Assignment/Component.antt =====
-- `solve_component` of reconciliation/domain/assignment.py. The solver is an argument: a function
-- from a cost matrix to its selections, which are natural numbers.
use reconciliation_workbench.Common.{
  ℕ, zero, suc, ◌+◌, ◌-◌, ◌*◌, Bool, true, false, not, ◌&&◌, ◌||◌, Option, some, none, List, [],
  ◌∷◌, ◌++◌, map, Result, ok, raise, Error, bind, require, if◌then◌else◌, ltb, leb, ◌==◌, length,
  get_elem?, all_of, any_of, is_some, or_else, ℤ, pos, sub_ℕ,
}
use reconciliation_workbench.Assignment.Domain.{
  CandidateEvidence, SelectedAssignmentEdge, sort_edges,
}

abbrev pub Edge : Type 0
Edge = ℕ × ℕ

abbrev pub Solver : Type 0
Solver = List (List ℤ) → List (ℕ × ℕ)

abbrev pub is_edge : (l r : ℕ) → Edge → Bool
is_edge l r e = e.0 == l && e.1 == r

-- `edges.get((left_id, right_id))`: of two candidates with one key the later one stands in the
-- dictionary.
unfoldable pub edge_of : List CandidateEvidence → (l r : ℕ) → Option CandidateEvidence
edge_of [] l r = none
edge_of (c ∷ cs) l r =
    or_else (edge_of cs l r) (if c.left_id == l && c.right_id == r then some c else none)

-- The candidate of an edge that is not forbidden.
unfoldable pub allowed : List CandidateEvidence → List Edge → (l r : ℕ) → Option CandidateEvidence
allowed candidates forbidden l r =
    if any_of (is_edge l r) forbidden then none else edge_of candidates l r

module _ (candidates : List CandidateEvidence) (floor : ℕ) (forbidden : List Edge) where
  -- An entry of the cost matrix.
  unfoldable pub cost : (forbidden_cost l r : ℕ) → ℤ
  cost forbidden_cost l r = elim (allowed candidates forbidden l r) [
    | some c ↦ sub_ℕ floor c.score_bp
    | none ↦ pos forbidden_cost
  ]

  -- A row: the real columns, and one column of cost 0 for each left record.
  unfoldable pub cost_row : (forbidden_cost : ℕ) → (left_ids right_ids : List ℕ) → ℕ → List ℤ
  cost_row forbidden_cost left_ids right_ids l =
      map (cost forbidden_cost l) right_ids ++ map (λ _. pos 0) left_ids

  abbrev pub cost_matrix : (left_ids right_ids : List ℕ) → List (List ℤ)
  cost_matrix left_ids right_ids =
      map (cost_row (length left_ids * 10001 + 1) left_ids right_ids) left_ids

  -- The candidate of one selection that names a real column. `SelectedAssignmentEdge` refuses a
  -- score above its scale.
  unfoldable pub select_edge : (l r : ℕ) → Result SelectedAssignmentEdge
  select_edge l r = elim (allowed candidates forbidden l r) [
    | none ↦ raise Error.domain_validation
    | some c ↦
        if leb c.score_bp floor
        then raise Error.domain_validation
        else if ltb 10000 c.score_bp
        then raise Error.domain_validation
        else ok (record {
          left_id = l;
          right_id = r;
          score_bp = c.score_bp;
          utility_bp = c.score_bp - floor;
        })
  ]

  abbrev pub select_at : Option ℕ → Option ℕ → Result SelectedAssignmentEdge
  select_at (some l) (some r) = select_edge l r
  select_at _ _ = raise Error.key_error

  -- The loop over the selections.
  unfoldable pub select_edges :
      (left_ids right_ids : List ℕ) → List (ℕ × ℕ) → Result (List SelectedAssignmentEdge)
  select_edges left_ids right_ids [] = ok []
  select_edges left_ids right_ids ((row, column) ∷ selections) =
      let rest = select_edges left_ids right_ids selections in
      if leb (length right_ids) column
      then rest
      else bind (select_at (get_elem? left_ids row) (get_elem? right_ids column))
          (λ e. bind rest (λ es. ok (e ∷ es)))

-- `value in values`, for numbers.
unfoldable pub contains : ℕ → List ℕ → Bool
contains n [] = false
contains n (x ∷ xs) = x == n || contains n xs

unfoldable pub distinct : List ℕ → Bool
distinct [] = true
distinct (x ∷ xs) = not (contains x xs) && distinct xs

-- Every number below the bound stands in the list: `set(range(n)) <= set(rows)`.
unfoldable pub covers : ℕ → List ℕ → Bool
covers zero rows = true
covers (suc n) rows = contains n rows && covers n rows

-- `_validate_solver_selection`
unfoldable pub valid_selection : List (ℕ × ℕ) → (row_count column_count : ℕ) → Bool
valid_selection selections row_count column_count =
    let rows = map (λ s. s.0) selections in
    let columns = map (λ s. s.1) selections in
    length selections == row_count
    && (covers row_count rows && all_of (λ row. ltb row row_count) rows && distinct columns)
    && all_of (λ column. ltb column column_count) columns

-- `solve_component`
unfoldable pub solve_component :
    (left_ids right_ids : List ℕ)
    → List CandidateEvidence
    → (floor : ℕ) → Solver
    → (forbidden : List Edge) → Result (List SelectedAssignmentEdge)
solve_component left_ids right_ids candidates floor minimize forbidden =
    bind
      (require (all_of (λ e. is_some (edge_of candidates e.0 e.1)) forbidden)
        Error.domain_validation)
      λ _.
        let selections = minimize (cost_matrix candidates floor forbidden left_ids right_ids) in
        bind
          (require
            (valid_selection selections (length left_ids) (length right_ids + length left_ids))
            Error.domain_validation)
          λ _.
            bind (select_edges candidates floor forbidden left_ids right_ids selections)
              (λ es. ok (sort_edges es))
