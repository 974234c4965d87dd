-- ===== src/Assignment/Tests.antt =====
-- The theorems on the assignment, each applied to a component of two left and two right records.
use reconciliation_workbench.Common.{
  ◌+ℤ◌, ℕ, ◌≤◌, ◌≡◌, refl, arith, ok, true, List, [], ◌∷◌, All, all_of, is_some,
}
use reconciliation_workbench.Assignment.Domain.{
  CandidateEvidence, SelectedAssignmentEdge, sum_utility, sort_edges, insert_edge,
}
use reconciliation_workbench.Assignment.Component.{
  Edge, edge_of, solve_component, valid_selection, cost_row, distinct, contains, cost, allowed,
  covers, select_edges, select_edge,
}
use reconciliation_workbench.Assignment.Plans.{enumerate, Plan, IsPlan, plan_edges, plan_value}
use reconciliation_workbench.Assignment.Costs.{IsEligible}
use reconciliation_workbench.Assignment.Exhaustive.{
  cheapest, choices, with_heads, column_count, lower, first_columns, exhaustive,
  exhaustive-Minimizes,
}
use reconciliation_workbench.Assignment.Gating.{MatchingPolicy, ProposalEvidence, gate_proposals}
use reconciliation_workbench.Assignment.Gated.{AreGated, gate_proposals-AreGated}
use reconciliation_workbench.Assignment.Optimal.{solve_component-optimal}

abbrev evidence : (l r score : ℕ) → CandidateEvidence
evidence l r score = record {
  left_id = l;
  right_id = r;
  contradictions = [];
  coverage_sufficient = true;
  complete_computation = true;
  score_bp = score;
}

abbrev two_by_two : List CandidateEvidence
two_by_two = evidence 1 11 9000 ∷ evidence 1 12 8000 ∷ evidence 2 11 8500 ∷ []

two_by_two-IsEligible : All (IsEligible 5000) two_by_two
two_by_two-IsEligible = (
  record { above = omega arith; scale = omega arith },
  (
    record { above = omega arith; scale = omega arith },
    (record { above = omega arith; scale = omega arith }, tt),
  ),
)

known_edge : all_of (λ (e : Edge). is_some (edge_of two_by_two e.0 e.1)) ((1, 12) ∷ []) ≡ true
unfolding edge_of
known_edge = refl

solve_component-optimal_example :
    (plan : Plan) × IsPlan two_by_two ((1, 12) ∷ []) (11 ∷ 12 ∷ []) (1 ∷ 2 ∷ []) plan
    × (solve_component (1 ∷ 2 ∷ []) (11 ∷ 12 ∷ []) two_by_two 5000 exhaustive ((1, 12) ∷ [])
        ≡ ok (
            sort_edges
              (plan_edges two_by_two 5000 ((1, 12) ∷ []) (11 ∷ 12 ∷ []) (1 ∷ 2 ∷ []) plan)))
    × (sum_utility
          (sort_edges (plan_edges two_by_two 5000 ((1, 12) ∷ []) (11 ∷ 12 ∷ []) (1 ∷ 2 ∷ []) plan))
        ≡ plan_value two_by_two 5000 ((1, 12) ∷ []) (11 ∷ 12 ∷ []) (1 ∷ 2 ∷ []) plan)
    × ((rival : Plan)
        → IsPlan two_by_two ((1, 12) ∷ []) (11 ∷ 12 ∷ []) (1 ∷ 2 ∷ []) rival
        → plan_value two_by_two 5000 ((1, 12) ∷ []) (11 ∷ 12 ∷ []) (1 ∷ 2 ∷ []) rival
          ≤ plan_value two_by_two 5000 ((1, 12) ∷ []) (11 ∷ 12 ∷ []) (1 ∷ 2 ∷ []) plan)
solve_component-optimal_example =
    solve_component-optimal (1 ∷ 2 ∷ []) (11 ∷ 12 ∷ []) two_by_two 5000 exhaustive ((1, 12) ∷ [])
      exhaustive-Minimizes two_by_two-IsEligible known_edge

abbrev sample_policy : MatchingPolicy
sample_policy = record {
  assignment_floor_bp = 5000;
  automatic_threshold_bp = 8400;
  minimum_global_gap_bp = 500;
}

abbrev sample_selected : List SelectedAssignmentEdge
sample_selected =
    record { left_id = 1; right_id = 12; score_bp = 8000; utility_bp = 3000 }
    ∷ record { left_id = 2; right_id = 11; score_bp = 8500; utility_bp = 3500 }
    ∷ []

base_solved :
    solve_component (1 ∷ 2 ∷ []) (11 ∷ 12 ∷ []) two_by_two 5000 exhaustive [] ≡ ok sample_selected
unfolding solve_component exhaustive valid_selection enumerate cheapest choices with_heads
    column_count cost_row distinct contains lower ◌+ℤ◌ cost allowed edge_of first_columns covers
    select_edges select_edge insert_edge sort_edges
base_solved = refl

gate_proposals-AreGated_example :
    (ps : List ProposalEvidence) × (gate_proposals sample_policy exhaustive two_by_two
        (1 ∷ 2 ∷ [])
        (11 ∷ 12 ∷ [])
        two_by_two
        (sum_utility sample_selected)
        sample_selected
      ≡ ok ps)
    × AreGated sample_policy two_by_two
        (1 ∷ 2 ∷ [])
        (11 ∷ 12 ∷ [])
        (sum_utility sample_selected)
        sample_selected
        ps
gate_proposals-AreGated_example =
    gate_proposals-AreGated sample_policy exhaustive two_by_two two_by_two (1 ∷ 2 ∷ [])
      (11 ∷ 12 ∷ []) sample_selected exhaustive-Minimizes two_by_two-IsEligible (λ l r c e. e)
      base_solved
