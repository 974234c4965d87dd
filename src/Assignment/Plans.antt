-- ===== src/Assignment/Plans.antt =====
-- What `solve_component` is to find, said without a cost matrix: a plan gives each left record at
-- most one right record, over edges that are not forbidden, and no right record twice.
use reconciliation_workbench.Common.{
  ℕ, suc, ◌+◌, ◌-◌, ◌≤◌, ◌<◌, ◌≡◌, true, Option, some, none, List, [], ◌∷◌, ◌++◌, length, get_elem?,
  get_or, if◌then◌else◌, leb, All, ℤ, pos, ◌+ℤ◌, ◌≤ℤ◌,
}
use reconciliation_workbench.Assignment.Domain.{CandidateEvidence, SelectedAssignmentEdge}
use reconciliation_workbench.Assignment.Component.{Edge, Solver, allowed, distinct}

abbrev pub Plan : Type 0
Plan = List (Option ℕ)

-- The right records that a plan uses.
unfoldable pub used : Plan → List ℕ
used [] = []
used (none ∷ plan) = used plan
used (some j ∷ plan) = j ∷ used plan

module _ (candidates : List CandidateEvidence) (forbidden : List Edge) (right_ids : List ℕ) where
  -- The choice for one left record names a right record by its place, over an allowed edge.
  abbrev pub IsChoice : ℕ → Option ℕ → Type 0
  IsChoice l none = Unit
  IsChoice l (some j) =
      (r : ℕ) × (get_elem? right_ids j ≡ some r)
      × (c : CandidateEvidence) × (allowed candidates forbidden l r ≡ some c)

  abbrev pub AreChoices : List ℕ → Plan → Type 0
  AreChoices [] [] = Unit
  AreChoices (l ∷ ls) (o ∷ plan) = IsChoice l o × AreChoices ls plan
  AreChoices _ _ = ⊥

  pub record IsPlan (left_ids : List ℕ) (plan : Plan) : Type 0 where
    pub choices : AreChoices left_ids plan
    pub once : distinct (used plan) ≡ true

module _ (candidates : List CandidateEvidence) (floor : ℕ) (forbidden : List Edge) where
  -- The utility of one choice, and of a plan.
  unfoldable pub edge_value : (l r : ℕ) → ℕ
  edge_value l r = elim (allowed candidates forbidden l r) [
    | none ↦ 0
    | some c ↦ c.score_bp - floor
  ]

module _ (candidates : List CandidateEvidence) (floor : ℕ) (forbidden : List Edge)
    (right_ids : List ℕ) where
  abbrev pub at_value : ℕ → Option ℕ → ℕ
  at_value l none = 0
  at_value l (some r) = edge_value candidates floor forbidden l r

  abbrev pub choice_value : ℕ → Option ℕ → ℕ
  choice_value l none = 0
  choice_value l (some j) = at_value l (get_elem? right_ids j)

  abbrev pub plan_value : List ℕ → Plan → ℕ
  plan_value (l ∷ ls) (o ∷ plan) = choice_value l o + plan_value ls plan
  plan_value _ _ = 0

module _ (candidates : List CandidateEvidence) (floor : ℕ) (forbidden : List Edge) where
  -- The edges that a plan selects, in the order of the left records.
  unfoldable pub edge_for : (l r : ℕ) → List SelectedAssignmentEdge
  edge_for l r = elim (allowed candidates forbidden l r) [
    | none ↦ []
    | some c ↦
        record { left_id = l; right_id = r; score_bp = c.score_bp; utility_bp = c.score_bp - floor }
        ∷ []
  ]

module _ (candidates : List CandidateEvidence) (floor : ℕ) (forbidden : List Edge)
    (right_ids : List ℕ) where
  abbrev pub edge_at : ℕ → Option ℕ → List SelectedAssignmentEdge
  edge_at l none = []
  edge_at l (some r) = edge_for candidates floor forbidden l r

  abbrev pub choice_edges : ℕ → Option ℕ → List SelectedAssignmentEdge
  choice_edges l none = []
  choice_edges l (some j) = edge_at l (get_elem? right_ids j)

  abbrev pub plan_edges : List ℕ → Plan → List SelectedAssignmentEdge
  plan_edges (l ∷ ls) (o ∷ plan) = choice_edges l o ++ plan_edges ls plan
  plan_edges _ _ = []

-- The total cost of a column for each row.
abbrev pub total : List (List ℤ) → List ℕ → ℤ
total (row ∷ rows) (c ∷ cs) = get_or row c (pos 0) +ℤ total rows cs
total _ _ = pos 0

unfoldable pub enumerate : ℕ → List ℕ → List (ℕ × ℕ)
enumerate i [] = []
enumerate i (c ∷ cs) = (i, c) ∷ enumerate (suc i) cs

-- One column for each row, each below the count of columns, and no column twice.
pub record IsAssignment (rows columns : ℕ) (cs : List ℕ) : Type 0 where
  pub rows_covered : length cs ≡ rows
  pub in_range : All (λ c. c < columns) cs
  pub one_to_one : distinct cs ≡ true

-- What is documented of `scipy.optimize.linear_sum_assignment` for a rectangular matrix with no more
-- rows than columns: an assignment of the rows in their order, of minimal total cost.
abbrev pub Minimizes : Solver → Type 0
Minimizes minimize =
    (costs : List (List ℤ)) (columns : ℕ)
    → All (λ row. length row ≡ columns) costs
    → length costs ≤ columns
    → (cs : List ℕ) × (minimize costs ≡ enumerate 0 cs)
      × IsAssignment (length costs) columns cs
      × ((ds : List ℕ) → IsAssignment (length costs) columns ds → total costs cs ≤ℤ total costs ds)

-- A plan's columns: a real one for each choice, and the record's own unmatched one for none.
unfoldable pub columns_of : (right_count i : ℕ) → Plan → List ℕ
columns_of n i [] = []
columns_of n i (none ∷ plan) = (n + i) ∷ columns_of n (suc i) plan
columns_of n i (some j ∷ plan) = j ∷ columns_of n (suc i) plan

-- The plan that an assignment stands for: real columns are choices, all others are none.
unfoldable pub plan_of : (right_count : ℕ) → List ℕ → Plan
plan_of n [] = []
plan_of n (c ∷ cs) = (if leb n c then none else some c) ∷ plan_of n cs
