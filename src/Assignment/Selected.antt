-- ===== src/Assignment/Selected.antt =====
-- What the gates of reconciliation/domain/gating.py read of an assignment: the acceptance of a
-- candidate, plans that avoid an edge, and the edges that a plan selects.
use reconciliation_workbench.Common.{
  ℕ, ◌-◌, ◌≤◌, ◌≡◌, refl, ◌↔◌, true, none, some, List, [], ◌∷◌, All, All-append, arith, Bool-cases,
  inl, inr,
}
use reconciliation_workbench.Assignment.Domain.{
  ContradictionCode, CandidateEvidence, SelectedAssignmentEdge, sort_edges, insert_edge,
  edge_before,
}
use reconciliation_workbench.Assignment.Component.{Edge, edge_of, allowed}
use reconciliation_workbench.Assignment.Plans.{
  Plan, AreChoices, plan_value, plan_edges, edge_for, edge_value,
}
use reconciliation_workbench.Assignment.Gating.{MatchingPolicy, gate_reasons, is_empty}

-- What an accepted proposal meets.
pub record IsAcceptable (policy : MatchingPolicy) (c : CandidateEvidence) (gap : ℕ) : Type 0 where
  pub threshold : policy.automatic_threshold_bp ≤ c.score_bp
  pub coverage : c.coverage_sufficient ≡ true
  pub contradictions : c.contradictions ≡ []
  pub computation : c.complete_computation ≡ true
  pub distance : policy.minimum_global_gap_bp ≤ gap

empty_contradictions : (cs : List ContradictionCode) → is_empty cs ≡ true → cs ≡ []
empty_contradictions [] e = refl
empty_contradictions (c ∷ cs) e = absurd (ground arith)

-- No reason withholds a proposal exactly when it is acceptable.
pub gate_reasons-IsAcceptable :
    (policy : MatchingPolicy) (c : CandidateEvidence) (gap : ℕ)
    → (is_empty (gate_reasons policy c gap) ≡ true) ↔ IsAcceptable policy c gap
unfolding gate_reasons
gate_reasons-IsAcceptable policy c gap = (
  λ e. record {
    threshold = ground arith;
    coverage = ground arith;
    contradictions = empty_contradictions c.contradictions (ground arith);
    computation = ground arith;
    distance = ground arith;
  },
  λ h.
      let t = h.threshold in
      let d = h.distance in rw (h.coverage, h.contradictions, h.computation) (ground arith),
)

module _ (candidates : List CandidateEvidence) (floor : ℕ) (forbidden : List Edge) where
  allowed-free :
      (l r : ℕ) (c : CandidateEvidence)
      → allowed candidates forbidden l r ≡ some c
      → (allowed candidates [] l r ≡ some c)
        × (edge_value candidates floor forbidden l r ≡ edge_value candidates floor [] l r)
  unfolding allowed edge_value
  allowed-free l r c e = (ground arith, ground arith)

  module _ (right_ids : List ℕ) where
    -- A plan that avoids edges is a plan, of the same value.
    pub freed :
        (ls : List ℕ) (plan : Plan)
        → AreChoices candidates forbidden right_ids ls plan
        → AreChoices candidates [] right_ids ls plan
          × (plan_value candidates floor forbidden right_ids ls plan
              ≡ plan_value candidates floor [] right_ids ls plan)
    freed [] [] h = (tt, refl)
    freed (l ∷ ls) (none ∷ plan) (_, h) =
        let (a, b) = freed ls plan h in ((tt, a), omega (arith, b))
    freed (l ∷ ls) (some j ∷ plan) ((r, here, c, e), h) =
        let (a, b) = freed ls plan h in
        let (x, y) = allowed-free l r c e in (((r, here, c, x), a), rw (here, y, b) refl)
    freed [] (o ∷ plan) h = elim h [ ]
    freed (l ∷ ls) [] h = elim h [ ]

-- A selected edge is a candidate's edge, with its score and its utility.
pub record IsSelected (candidates : List CandidateEvidence) (floor : ℕ) (e : SelectedAssignmentEdge)
    : Type 0 where
  pub candidate : CandidateEvidence
  pub there : edge_of candidates e.left_id e.right_id ≡ some candidate
  pub score : e.score_bp ≡ candidate.score_bp
  pub utility : e.utility_bp ≡ candidate.score_bp - floor

module _ (P : SelectedAssignmentEdge → Type 0) where
  All-insert :
      (e : SelectedAssignmentEdge) (es : List SelectedAssignmentEdge)
      → P e
      → All P es
      → All P (insert_edge e es)
  unfolding insert_edge
  All-insert e [] p ps = (p, tt)
  All-insert e (f ∷ fs) p (q, qs) =
      elim (Bool-cases (edge_before f.left_id f.right_id e.left_id e.right_id)) [
        | inl later ↦ rw later (q, All-insert e fs p qs)
        | inr here ↦ rw here (p, (q, qs))
      ]

  pub All-sort : (es : List SelectedAssignmentEdge) → All P es → All P (sort_edges es)
  unfolding sort_edges
  All-sort [] h = tt
  All-sort (e ∷ es) (p, ps) = All-insert e (sort_edges es) p (All-sort es ps)

module _ (candidates : List CandidateEvidence) (floor : ℕ) (right_ids : List ℕ) where
  free :
      (l r : ℕ) (c : CandidateEvidence)
      → allowed candidates [] l r ≡ some c
      → edge_of candidates l r ≡ some c
  unfolding allowed
  free l r c e = e

  edge_for-IsSelected :
      (l r : ℕ) (c : CandidateEvidence)
      → allowed candidates [] l r ≡ some c
      → All (IsSelected candidates floor) (edge_for candidates floor [] l r)
  unfolding edge_for
  edge_for-IsSelected l r c e =
      let edge : SelectedAssignmentEdge = record {
        left_id = l;
        right_id = r;
        score_bp = c.score_bp;
        utility_bp = c.score_bp - floor;
      } in
      let one : edge_for candidates floor [] l r ≡ edge ∷ [] = ground arith in
      rw one (record { candidate = c; there = free l r c e; score = refl; utility = refl }, tt)

  pub plan_edges-IsSelected :
      (ls : List ℕ) (plan : Plan)
      → AreChoices candidates [] right_ids ls plan
      → All (IsSelected candidates floor) (plan_edges candidates floor [] right_ids ls plan)
  plan_edges-IsSelected [] [] h = tt
  plan_edges-IsSelected (l ∷ ls) (none ∷ plan) (_, h) = plan_edges-IsSelected ls plan h
  plan_edges-IsSelected (l ∷ ls) (some j ∷ plan) ((r, here, c, e), h) = rw here (
      All-append (IsSelected candidates floor) _ _ (edge_for-IsSelected l r c e)
        (plan_edges-IsSelected ls plan h))
  plan_edges-IsSelected [] (o ∷ plan) h = elim h [ ]
  plan_edges-IsSelected (l ∷ ls) [] h = elim h [ ]
