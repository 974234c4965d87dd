-- ===== src/Assignment/Gated.antt =====
-- The gates on an optimal assignment: no counterfactual exceeds it, and what is accepted.
use reconciliation_workbench.Common.{
  ℕ, ◌+◌, ◌-◌, ◌≤◌, ◌≡◌, refl, sym, ◌∙◌, ◌↔◌, true, some, List, [], ◌∷◌, ok, All, arith, leb, ◌==◌,
  subst, ap,
}
use reconciliation_workbench.Assignment.Domain.{
  CandidateEvidence, SelectedAssignmentEdge, sum_utility, sort_edges,
}
use reconciliation_workbench.Assignment.Component.{Edge, Solver, edge_of, solve_component}
use reconciliation_workbench.Assignment.Plans.{Plan, IsPlan, Minimizes, plan_value, plan_edges}
use reconciliation_workbench.Assignment.Costs.{IsEligible}
use reconciliation_workbench.Assignment.Optimal.{solve_component-optimal}
use reconciliation_workbench.Assignment.Gating.{
  ProposalEvidence, MatchingPolicy, counterfactual, gate_proposal, gate_proposals, proposal_for,
}
use reconciliation_workbench.Assignment.Selected.{
  IsAcceptable, IsSelected, gate_reasons-IsAcceptable, freed, All-sort, plan_edges-IsSelected,
}

abbrev without : SelectedAssignmentEdge → List Edge
without e = (e.left_id, e.right_id) ∷ []

-- The evidence of a selected edge: its own score, the value of the best plan without it, the gap
-- from there to the optimum, and whether the candidate is acceptable at that gap.
pub record IsGated (policy : MatchingPolicy) (component : List CandidateEvidence)
    (left_ids right_ids : List ℕ) (optimum : ℕ) (e : SelectedAssignmentEdge) (p : ProposalEvidence)
    : Type 0 where
  pub left : p.left_id ≡ e.left_id
  pub right : p.right_id ≡ e.right_id
  pub score : p.score_bp ≡ e.score_bp
  pub second : Plan
  pub feasible : IsPlan component (without e) right_ids left_ids second
  pub objective :
      p.counterfactual_objective_bp
      ≡ plan_value component policy.assignment_floor_bp (without e) right_ids left_ids second
  pub greatest :
      (rival : Plan)
      → IsPlan component (without e) right_ids left_ids rival
      → plan_value component policy.assignment_floor_bp (without e) right_ids left_ids rival
        ≤ p.counterfactual_objective_bp
  pub gap : p.counterfactual_objective_bp + p.global_gap_bp ≡ optimum
  pub candidate : CandidateEvidence
  pub there : edge_of component e.left_id e.right_id ≡ some candidate
  pub accepted : (p.accepted ≡ true) ↔ IsAcceptable policy candidate p.global_gap_bp

-- One piece of evidence for each selected edge, in their order.
abbrev pub AreGated :
    MatchingPolicy
    → List CandidateEvidence
    → (left_ids right_ids : List ℕ) → (optimum : ℕ) → List SelectedAssignmentEdge
    → List ProposalEvidence
    → Type 0
AreGated policy component left_ids right_ids optimum [] [] = Unit
AreGated policy component left_ids right_ids optimum (e ∷ es) (p ∷ ps) =
    IsGated policy component left_ids right_ids optimum e p
    × AreGated policy component left_ids right_ids optimum es ps
AreGated policy component left_ids right_ids optimum _ _ = ⊥

module _ (policy : MatchingPolicy) (minimize : Solver)
    (candidates component : List CandidateEvidence) (left_ids right_ids : List ℕ)
    (minimal : Minimizes minimize)
    (eligible : All (IsEligible policy.assignment_floor_bp) component)
    (known : (l r : ℕ) (c : CandidateEvidence)
      → edge_of component l r ≡ some c
      → edge_of candidates l r ≡ some c)
    (optimum : ℕ)
    (bounded : (plan : Plan)
      → IsPlan component [] right_ids left_ids plan
      → plan_value component policy.assignment_floor_bp [] right_ids left_ids plan ≤ optimum) where
  gate_proposal_lem :
      (e : SelectedAssignmentEdge) (c : CandidateEvidence) (others : List SelectedAssignmentEdge)
      (objective : ℕ)
      → edge_of candidates e.left_id e.right_id ≡ some c
      → e.score_bp ≡ c.score_bp
      → e.utility_bp ≡ c.score_bp - policy.assignment_floor_bp
      → solve_component left_ids right_ids component policy.assignment_floor_bp minimize (without e)
        ≡ ok others
      → sum_utility others ≡ objective
      → objective ≤ optimum
      → gate_proposal policy minimize candidates left_ids right_ids component optimum e
        ≡ ok (proposal_for policy optimum objective e c)
  unfolding gate_proposal counterfactual
  gate_proposal_lem e c others objective named score utility solved sum le =
      let same_score : (e.score_bp == c.score_bp) ≡ true = ground arith in
      let same_utility : (e.utility_bp == c.score_bp - policy.assignment_floor_bp) ≡ true =
        ground arith in
      let within : leb objective optimum ≡ true = ground arith in
      rw (gate_proposal, named, same_score, same_utility, counterfactual, solved, sum, within) refl

  -- The counterfactual of a selected edge is solved, and does not exceed the optimum.
  gated :
      (e : SelectedAssignmentEdge)
      → IsSelected component policy.assignment_floor_bp e
      → (p : ProposalEvidence) × (gate_proposal policy minimize candidates left_ids right_ids
            component optimum e
          ≡ ok p)
        × IsGated policy component left_ids right_ids optimum e p
  gated e h =
      let c = h.candidate in
      let named = known e.left_id e.right_id c h.there in
      let (plan, feasible, solved, sum, greatest) =
        solve_component-optimal left_ids right_ids component policy.assignment_floor_bp minimize
          (without e) minimal eligible (rw h.there refl) in
      let (choices, same) =
        freed component policy.assignment_floor_bp (without e) right_ids left_ids plan
          feasible.choices in
      let objective =
        plan_value component policy.assignment_floor_bp (without e) right_ids left_ids plan in
      let le : objective ≤ optimum =
        omega (arith, same, bounded plan (record { choices = choices; once = feasible.once })) in
      (
        proposal_for policy optimum objective e c,
        gate_proposal_lem e c _ objective named h.score h.utility solved sum le,
        record {
          left = refl;
          right = refl;
          score = refl;
          second = plan;
          feasible = feasible;
          objective = refl;
          greatest = greatest;
          gap = omega arith;
          candidate = c;
          there = h.there;
          accepted = gate_reasons-IsAcceptable policy c (optimum - objective);
        },
      )

  gated-All :
      (es : List SelectedAssignmentEdge)
      → All (IsSelected component policy.assignment_floor_bp) es
      → (ps : List ProposalEvidence) × (gate_proposals policy minimize candidates left_ids right_ids
            component optimum es
          ≡ ok ps)
        × AreGated policy component left_ids right_ids optimum es ps
  unfolding gate_proposals
  gated-All [] h = ([], refl, tt)
  gated-All (e ∷ es) (h, hs) =
      let (p, one, is) = gated e h in
      let (ps, rest, are) = gated-All es hs in (p ∷ ps, rw (one, rest) refl, (is, are))

ok_injective : {A : Type 0} (a b : A) → ok a ≡ ok b → a ≡ b
ok_injective a b e = ground arith

-- Given a solver that finds assignments of minimal cost, component candidates that score above the
-- floor and within the scale and that stand among all candidates, and the edges that
-- `solve_component` selected for the component: the gates raise nothing and return evidence for each
-- selected edge in turn. Its objective is the greatest value of a plan without that edge, its gap
-- leads from there to the optimum, and it is accepted exactly when the candidate reaches the
-- threshold, has sufficient coverage, no contradictions and a complete computation, and the gap
-- reaches its minimum.
pub gate_proposals-AreGated :
    (policy : MatchingPolicy) (minimize : Solver) (candidates component : List CandidateEvidence)
    (left_ids right_ids : List ℕ) (selected : List SelectedAssignmentEdge)
    → Minimizes minimize
    → All (IsEligible policy.assignment_floor_bp) component
    → ((l r : ℕ) (c : CandidateEvidence)
        → edge_of component l r ≡ some c
        → edge_of candidates l r ≡ some c)
    → solve_component left_ids right_ids component policy.assignment_floor_bp minimize []
      ≡ ok selected
    → (ps : List ProposalEvidence) × (gate_proposals policy minimize candidates left_ids right_ids
          component
          (sum_utility selected)
          selected
        ≡ ok ps)
      × AreGated policy component left_ids right_ids (sum_utility selected) selected ps
gate_proposals-AreGated policy minimize candidates component left_ids right_ids selected minimal
      eligible known base =
    let floor = policy.assignment_floor_bp in
    let (plan, feasible, solved, sum, greatest) =
      solve_component-optimal left_ids right_ids component floor minimize [] minimal eligible
        refl in
    let edges = sort_edges (plan_edges component floor [] right_ids left_ids plan) in
    let same : edges ≡ selected = ok_injective edges selected (sym solved ∙ base) in
    let optimum : sum_utility selected ≡ plan_value component floor [] right_ids left_ids plan =
      ap sum_utility (sym same) ∙ sum in
    gated-All policy minimize candidates component left_ids right_ids minimal eligible known
      (sum_utility selected)
      (λ rival h.
        subst (λ n. plan_value component floor [] right_ids left_ids rival ≤ n) (sym optimum)
          (greatest rival h))
      selected
      (subst (All (IsSelected component floor)) same (
        All-sort (IsSelected component floor) _
          (plan_edges-IsSelected component floor right_ids left_ids plan feasible.choices)))
