-- ===== src/Assignment/Gating.antt =====
-- The automatic-acceptance gates of reconciliation/domain/gating.py: the reasons that withhold a
-- proposal, and the loop of `gate_assignment` over the selected edges of one complete component.
use reconciliation_workbench.Common.{
  ℕ, ◌-◌, Bool, true, false, not, none, some, List, [], ◌∷◌, ◌++◌, Result, ok, raise, Error, bind,
  require, if◌then◌else◌, ltb, leb, ◌==◌, ◌&&◌,
}
use reconciliation_workbench.Assignment.Domain.{
  CandidateEvidence, SelectedAssignmentEdge, sum_utility,
}
use reconciliation_workbench.Assignment.Component.{Solver, edge_of, solve_component}

-- `ProposalGateReason`
pub data ProposalGateReason : Type 0 where
  score_below_automatic_threshold insufficient_evidence hard_contradiction incomplete_computation
        global_gap_below_minimum :
      ProposalGateReason

-- The fields of `MatchingPolicy` that the assignment and its gates read.
pub record MatchingPolicy : Type 0 where
  pub assignment_floor_bp : ℕ
  pub automatic_threshold_bp : ℕ
  pub minimum_global_gap_bp : ℕ

-- `ProposalEvidence`
pub record ProposalEvidence : Type 0 where
  pub left_id : ℕ
  pub right_id : ℕ
  pub score_bp : ℕ
  pub counterfactual_objective_bp : ℕ
  pub global_gap_bp : ℕ
  pub accepted : Bool
  pub gate_reasons : List ProposalGateReason

abbrev pub is_empty {ℓ} : {A : Type ℓ} → List A → Bool
is_empty [] = true
is_empty (x ∷ xs) = false

-- One `if` of `_gate_reasons`.
abbrev pub reason_if : Bool → ProposalGateReason → List ProposalGateReason
reason_if true r = r ∷ []
reason_if false r = []

-- `_gate_reasons`
unfoldable pub gate_reasons :
    MatchingPolicy → CandidateEvidence → (global_gap_bp : ℕ) → List ProposalGateReason
gate_reasons policy c gap =
    reason_if (ltb c.score_bp policy.automatic_threshold_bp)
      ProposalGateReason.score_below_automatic_threshold
    ++ reason_if (not c.coverage_sufficient) ProposalGateReason.insufficient_evidence
    ++ reason_if (not (is_empty c.contradictions)) ProposalGateReason.hard_contradiction
    ++ reason_if (not c.complete_computation) ProposalGateReason.incomplete_computation
    ++ reason_if (ltb gap policy.minimum_global_gap_bp) ProposalGateReason.global_gap_below_minimum

-- The place of a reason in the order of the names, in which `ProposalEvidence` keeps them.
abbrev pub rank : ProposalGateReason → ℕ
rank ProposalGateReason.global_gap_below_minimum = 0
rank ProposalGateReason.hard_contradiction = 1
rank ProposalGateReason.incomplete_computation = 2
rank ProposalGateReason.insufficient_evidence = 3
rank ProposalGateReason.score_below_automatic_threshold = 4

unfoldable pub insert_reason :
    ProposalGateReason → List ProposalGateReason → List ProposalGateReason
insert_reason r [] = r ∷ []
insert_reason r (s ∷ ss) =
    let rest = insert_reason r ss in if leb (rank r) (rank s) then r ∷ s ∷ ss else s ∷ rest

unfoldable pub sort_reasons : List ProposalGateReason → List ProposalGateReason
sort_reasons [] = []
sort_reasons (r ∷ rs) = insert_reason r (sort_reasons rs)

-- The evidence that the loop appends.
abbrev pub proposal_for :
    MatchingPolicy
    → (optimal_utility_bp objective : ℕ) → SelectedAssignmentEdge
    → CandidateEvidence
    → ProposalEvidence
proposal_for policy optimal_utility_bp objective selected c = record {
  left_id = selected.left_id;
  right_id = selected.right_id;
  score_bp = selected.score_bp;
  counterfactual_objective_bp = objective;
  global_gap_bp = optimal_utility_bp - objective;
  accepted = is_empty (gate_reasons policy c (optimal_utility_bp - objective));
  gate_reasons = sort_reasons (gate_reasons policy c (optimal_utility_bp - objective));
}

module _ (policy : MatchingPolicy) (minimize : Solver) (candidates : List CandidateEvidence)
    (left_ids right_ids : List ℕ) (component_candidates : List CandidateEvidence)
    (optimal_utility_bp : ℕ) where
  -- The counterfactual of one selected edge: the component solved again without it.
  unfoldable pub counterfactual :
      SelectedAssignmentEdge → CandidateEvidence → Result ProposalEvidence
  counterfactual selected c =
      bind
        (solve_component left_ids right_ids component_candidates policy.assignment_floor_bp minimize
          ((selected.left_id, selected.right_id) ∷ []))
        λ others.
          bind (require (leb (sum_utility others) optimal_utility_bp) Error.domain_validation)
            (λ _. ok (proposal_for policy optimal_utility_bp (sum_utility others) selected c))

  -- One round of the loop over the selected edges. The utility of a selected edge is positive.
  unfoldable pub gate_proposal : SelectedAssignmentEdge → Result ProposalEvidence
  gate_proposal selected = elim (edge_of candidates selected.left_id selected.right_id) [
    | none ↦ raise Error.domain_validation
    | some c ↦
        bind
          (require
            (selected.score_bp == c.score_bp
              && selected.utility_bp == c.score_bp - policy.assignment_floor_bp)
            Error.domain_validation)
          (λ _. counterfactual selected c)
  ]

  unfoldable pub gate_proposals : List SelectedAssignmentEdge → Result (List ProposalEvidence)
  gate_proposals [] = ok []
  gate_proposals (selected ∷ rest) =
      let others = gate_proposals rest in
      bind (gate_proposal selected) (λ p. bind others (λ ps. ok (p ∷ ps)))
