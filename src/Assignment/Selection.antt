-- ===== src/Assignment/Selection.antt =====
-- What `solve_component` makes of the selections of an assignment.
use reconciliation_workbench.Common.{
  ℕ, zero, suc, ◌+◌, ◌-◌, ◌≤◌, ◌<◌, ◌≡◌, refl, true, some, none, List, [], ◌∷◌, ◌++◌, map, length,
  get_elem?, All, arith, Bool-cases, inl, inr, leb, ltb, ◌==◌, ap, subst, ok, all_of,
}
use reconciliation_workbench.Assignment.Domain.{
  CandidateEvidence, SelectedAssignmentEdge, sum_utility, sort_edges, insert_edge,
}
use reconciliation_workbench.Assignment.Component.{
  Edge, allowed, select_edge, select_edges, contains, covers, valid_selection,
}
use reconciliation_workbench.Assignment.Plans.{
  Plan, AreChoices, IsAssignment, plan_of, plan_value, plan_edges, edge_for, edge_value, enumerate,
}
use reconciliation_workbench.Assignment.Costs.{IsEligible, allowed-IsEligible}

sum-append :
    (xs ys : List SelectedAssignmentEdge) → sum_utility (xs ++ ys) ≡ sum_utility xs + sum_utility ys
unfolding sum_utility
sum-append [] ys = omega arith
sum-append (x ∷ xs) ys = omega (arith, sum-append xs ys)

sum-insert :
    (e : SelectedAssignmentEdge) (es : List SelectedAssignmentEdge)
    → sum_utility (insert_edge e es) ≡ e.utility_bp + sum_utility es
unfolding sum_utility insert_edge
sum-insert e [] = refl
sum-insert e (f ∷ fs) = ground (arith, sum-insert e fs)

pub sum-sort : (es : List SelectedAssignmentEdge) → sum_utility (sort_edges es) ≡ sum_utility es
unfolding sum_utility sort_edges
sum-sort [] = refl
sum-sort (e ∷ es) = omega (arith, sum-insert e (sort_edges es), sum-sort es)

rows_of : (i : ℕ) (cs : List ℕ) → map (λ s. s.1) (enumerate i cs) ≡ cs
unfolding enumerate
rows_of i [] = refl
rows_of i (c ∷ cs) = ap (◌∷◌ c) (rows_of (suc i) cs)

contains-rows :
    (i n : ℕ) (cs : List ℕ)
    → i ≤ n
    → n < i + length cs
    → contains n (map (λ s. s.0) (enumerate i cs)) ≡ true
unfolding enumerate contains
contains-rows i n [] h k = absurd (omega arith)
contains-rows i n (c ∷ cs) h k = elim (Bool-cases (i == n)) [
  | inl same ↦ ground arith
  | inr other ↦ ground (arith, contains-rows (suc i) n cs (ground arith) (omega arith))
]

covers-rows :
    (n : ℕ) (cs : List ℕ) → n ≤ length cs → covers n (map (λ s. s.0) (enumerate 0 cs)) ≡ true
unfolding covers
covers-rows zero cs h = refl
covers-rows (suc n) cs h =
    ground (arith, contains-rows 0 n cs (omega arith) (omega arith), covers-rows n cs (omega arith))

rows_in_range :
    (i n : ℕ) (cs : List ℕ)
    → i + length cs ≤ n
    → all_of (λ row. ltb row n) (map (λ s. s.0) (enumerate i cs)) ≡ true
unfolding enumerate
rows_in_range i n [] h = refl
rows_in_range i n (c ∷ cs) h = ground (arith, rows_in_range (suc i) n cs (omega arith))

columns_in_range : (n : ℕ) (cs : List ℕ) → All (λ c. c < n) cs → all_of (λ c. ltb c n) cs ≡ true
columns_in_range n [] h = refl
columns_in_range n (c ∷ cs) (h, hs) = ground (arith, columns_in_range n cs hs)

length-enumerate : (i : ℕ) (cs : List ℕ) → length (enumerate i cs) ≡ length cs
unfolding enumerate
length-enumerate i [] = refl
length-enumerate i (c ∷ cs) = ap suc (length-enumerate (suc i) cs)

-- The selections of an assignment pass the validation.
pub enumerate-valid :
    (rows columns : ℕ) (cs : List ℕ)
    → IsAssignment rows columns cs
    → valid_selection (enumerate 0 cs) rows columns ≡ true
unfolding valid_selection
enumerate-valid rows columns cs h = ground (
  arith,
  h.rows_covered,
  h.one_to_one,
  length-enumerate 0 cs,
  rows_of 0 cs,
  covers-rows rows cs (omega (arith, h.rows_covered)),
  rows_in_range 0 rows cs (omega (arith, h.rows_covered)),
  columns_in_range columns cs h.in_range,
)

module _ (candidates : List CandidateEvidence) (floor : ℕ) (forbidden : List Edge)
    (eligible : All (IsEligible floor) candidates) (left_ids right_ids : List ℕ) where
  select-allowed :
      (l r : ℕ) (c : CandidateEvidence)
      → allowed candidates forbidden l r ≡ some c
      → (e : SelectedAssignmentEdge) × (select_edge candidates floor forbidden l r ≡ ok e)
        × (edge_for candidates floor forbidden l r ≡ e ∷ [])
        × (e.utility_bp ≡ edge_value candidates floor forbidden l r)
  unfolding select_edge edge_for edge_value
  select-allowed l r c e =
      let fit = allowed-IsEligible candidates floor forbidden eligible l r c e in
      let above = fit.above in
      let scale = fit.scale in
      (
        record {
          left_id = l;
          right_id = r;
          score_bp = c.score_bp;
          utility_bp = c.score_bp - floor;
        },
        ground arith,
        ground arith,
        ground arith,
      )

  shifted :
      (i l : ℕ) (ls : List ℕ)
      → ((k : ℕ) → get_elem? left_ids (i + k) ≡ get_elem? (l ∷ ls) k)
      → (k : ℕ) → get_elem? left_ids (suc i + k) ≡ get_elem? ls k
  shifted i l ls at k = let e : suc i + k ≡ i + suc k = omega arith in rw e (at (suc k))

  first_row :
      (i l : ℕ) (ls : List ℕ)
      → ((k : ℕ) → get_elem? left_ids (i + k) ≡ get_elem? (l ∷ ls) k)
      → get_elem? left_ids i ≡ some l
  first_row i l ls at =
      let e : i + 0 ≡ i = omega arith in subst (λ n. get_elem? left_ids n ≡ some l) e (at 0)

  -- The loop over the selections of a plan returns the plan's edges.
  pub select_edges-plan :
      (i : ℕ) (ls cs : List ℕ)
      → ((k : ℕ) → get_elem? left_ids (i + k) ≡ get_elem? ls k)
      → AreChoices candidates forbidden right_ids ls (plan_of (length right_ids) cs)
      → select_edges candidates floor forbidden left_ids right_ids (enumerate i cs)
        ≡ ok (plan_edges candidates floor forbidden right_ids ls (plan_of (length right_ids) cs))
  unfolding select_edges enumerate plan_of
  select_edges-plan i [] [] at h = refl
  select_edges-plan i (l ∷ ls) (c ∷ cs) at h =
      let rest = select_edges-plan (suc i) ls cs (shifted i l ls at) in
      elim (Bool-cases (leb (length right_ids) c)) [
        | inl far ↦ let h' = rw far at h in rw far (rest h'.1)
        | inr near ↦
            let h' = rw near at h in
            let (r, here, d, fits) = h'.0 in
            let (edge, picked, one, _) = select-allowed l r d fits in
            let named = first_row i l ls at in rw (near, named, here, picked, rest h'.1, one) refl
      ]
  select_edges-plan i [] (c ∷ cs) at h = elim h [ ]
  select_edges-plan i (l ∷ ls) [] at h = elim h [ ]

  pub sum-plan_edges :
      (ls : List ℕ) (plan : Plan)
      → AreChoices candidates forbidden right_ids ls plan
      → sum_utility (plan_edges candidates floor forbidden right_ids ls plan)
        ≡ plan_value candidates floor forbidden right_ids ls plan
  unfolding sum_utility
  sum-plan_edges [] [] h = refl
  sum-plan_edges (l ∷ ls) (none ∷ plan) h = omega (arith, sum-plan_edges ls plan h.1)
  sum-plan_edges (l ∷ ls) (some j ∷ plan) ((r, here, c, e), h) =
      let (edge, _, one, value) = select-allowed l r c e in
      ground (
        arith,
        sum-append (edge ∷ []) (plan_edges candidates floor forbidden right_ids ls plan),
        sum-plan_edges ls plan h,
      )
  sum-plan_edges [] (o ∷ plan) h = elim h [ ]
  sum-plan_edges (l ∷ ls) [] h = elim h [ ]
