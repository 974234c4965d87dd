-- ===== src/Assignment/Optimal.antt =====
-- `solve_component` of reconciliation/domain/assignment.py against its specification: a plan of the
-- greatest utility.
use reconciliation_workbench.Common.{
  ℕ, suc, ◌+◌, ◌*◌, ◌≤◌, ◌≡◌, refl, ◌∙◌, inl, inr, true, none, List, [], ◌∷◌, ◌++◌, map, length,
  All, arith, ok, all_of, is_some, ap, subst, sub_ℕ, ℤ, pos, ◌≤ℤ◌, pos_part, neg_part,
}
use reconciliation_workbench.Assignment.Domain.{CandidateEvidence, sum_utility, sort_edges}
use reconciliation_workbench.Assignment.Component.{
  Edge, Solver, cost, cost_matrix, cost_row, distinct, edge_of, solve_component,
}
use reconciliation_workbench.Assignment.Plans.{
  Plan, AreChoices, IsPlan, IsAssignment, Minimizes, enumerate, plan_of, plan_value, plan_edges,
  columns_of, total, used,
}
use reconciliation_workbench.Assignment.Columns.{columns_of-IsAssignment, distinct-used-plan_of}
use reconciliation_workbench.Assignment.Costs.{IsEligible, total-plan, paid}
use reconciliation_workbench.Assignment.Selection.{
  enumerate-valid, select_edges-plan, sum-sort, sum-plan_edges,
}

length-map_own {ℓ κ} :
    {A : Type ℓ} {B : Type κ} (f : A → B) (xs : List A) → length (map f xs) ≡ length xs
length-map_own f [] = refl
length-map_own f (x ∷ xs) = ap suc (length-map_own f xs)

length-append_own {ℓ} : {A : Type ℓ} (xs ys : List A) → length (xs ++ ys) ≡ length xs + length ys
length-append_own [] ys = omega arith
length-append_own (x ∷ xs) ys = omega (arith, length-append_own xs ys)

All-map {ℓ κ} :
    {A : Type ℓ} {B : Type κ} (P : B → Type 0) (f : A → B)
    → ((a : A) → P (f a))
    → (xs : List A) → All P (map f xs)
All-map P f h [] = tt
All-map P f h (x ∷ xs) = (h x, All-map P f h xs)

-- The plan that leaves every record unmatched.
abbrev idle : List ℕ → Plan
idle ls = map (λ _. none) ls

module _ (candidates : List CandidateEvidence) (floor : ℕ) (forbidden : List Edge)
    (right_ids : List ℕ) where
  idle-IsPlan : (ls : List ℕ) → AreChoices candidates forbidden right_ids ls (idle ls)
  idle-IsPlan [] = tt
  idle-IsPlan (l ∷ ls) = (tt, idle-IsPlan ls)

  idle_value : (ls : List ℕ) → plan_value candidates floor forbidden right_ids ls (idle ls) ≡ 0
  idle_value [] = refl
  idle_value (l ∷ ls) = omega (arith, idle_value ls)

idle_once : (ls : List ℕ) → used (idle ls) ≡ []
unfolding used
idle_once [] = refl
idle_once (l ∷ ls) = idle_once ls

-- Values that are taken off compare the other way.
taken_off : (a b : ℕ) → sub_ℕ 0 a ≤ℤ sub_ℕ 0 b → b ≤ a
taken_off a b h = ground arith

-- No total that is at most nothing holds the forbidden cost.
forbidden_excluded :
    (t : ℤ) (n : ℕ) → t ≤ℤ sub_ℕ 0 0 → n * 10001 + 1 + neg_part t ≤ pos_part t + 10000 * n → ⊥
forbidden_excluded t n h k = ground arith

module _ (candidates : List CandidateEvidence) (floor : ℕ) (forbidden : List Edge)
    (eligible : All (IsEligible floor) candidates) (left_ids right_ids : List ℕ) where
  abbrev matrix : List (List ℤ)
  matrix = cost_matrix candidates floor forbidden left_ids right_ids

  abbrev value : Plan → ℕ
  value = plan_value candidates floor forbidden right_ids left_ids

  abbrev Feasible : Plan → Type 0
  Feasible = IsPlan candidates forbidden right_ids left_ids

  rows_even : All (λ row. length row ≡ length right_ids + length left_ids) matrix
  unfolding cost_row
  rows_even =
      All-map (λ row. length row ≡ length right_ids + length left_ids) _
        (λ l. omega (
          arith,
          length-append_own
              (map (cost candidates floor forbidden (length left_ids * 10001 + 1) l) right_ids)
              (map (λ _. pos 0) left_ids),
          length-map_own (cost candidates floor forbidden (length left_ids * 10001 + 1) l)
              right_ids,
          length-map_own (λ (_ : ℕ). pos 0) left_ids,
        ))
        left_ids

  rows_counted : length matrix ≡ length left_ids
  rows_counted = length-map_own _ left_ids

  cost_of_plan :
      (plan : Plan)
      → Feasible plan
      → total matrix (columns_of (length right_ids) 0 plan) ≡ sub_ℕ 0 (value plan)
  cost_of_plan plan h =
      total-plan candidates floor forbidden eligible left_ids right_ids _ 0 left_ids plan h.choices

  module _ (cs : List ℕ)
      (fits : IsAssignment (length left_ids) (length right_ids + length left_ids) cs)
      (cheapest : (ds : List ℕ)
        → IsAssignment (length left_ids) (length right_ids + length left_ids) ds
        → total matrix cs ≤ℤ total matrix ds) where
    abbrev chosen : Plan
    chosen = plan_of (length right_ids) cs

    least : (plan : Plan) → Feasible plan → total matrix cs ≤ℤ sub_ℕ 0 (value plan)
    least plan h =
        subst (λ t. total matrix cs ≤ℤ t) (cost_of_plan plan h)
          (cheapest _ (columns_of-IsAssignment candidates forbidden right_ids left_ids plan h))

    below_nothing : total matrix cs ≤ℤ sub_ℕ 0 0
    unfolding distinct
    below_nothing =
        subst (λ v. total matrix cs ≤ℤ sub_ℕ 0 v)
          (idle_value candidates floor forbidden right_ids left_ids)
          (least (idle left_ids) (record {
            choices = idle-IsPlan candidates floor forbidden right_ids left_ids;
            once = rw (idle_once left_ids) refl;
          }))

    -- An assignment of minimal cost stands for a plan, and its cost is that plan's value.
    minimal_paid :
        AreChoices candidates forbidden right_ids left_ids chosen
        × (total matrix cs ≡ sub_ℕ 0 (value chosen))
    minimal_paid =
        elim (paid candidates floor forbidden eligible left_ids right_ids
          (length left_ids * 10001 + 1) left_ids cs fits.rows_covered) [
            | inl (h, e, _) ↦ (h, e)
            | inr over ↦
                absurd (forbidden_excluded (total matrix cs) (length left_ids) below_nothing over)
          ]

    chosen-IsPlan : Feasible chosen
    chosen-IsPlan = record {
      choices = minimal_paid.0;
      once = distinct-used-plan_of (length right_ids) cs fits.one_to_one;
    }

    chosen_greatest : (rival : Plan) → Feasible rival → value rival ≤ value chosen
    chosen_greatest rival h =
        taken_off _ _ (subst (λ t. t ≤ℤ sub_ℕ 0 (value rival)) minimal_paid.1 (least rival h))

    solved :
        (minimize : Solver)
        → minimize matrix ≡ enumerate 0 cs
        → all_of (λ e. is_some (edge_of candidates e.0 e.1)) forbidden ≡ true
        → solve_component left_ids right_ids candidates floor minimize forbidden
          ≡ ok (sort_edges (plan_edges candidates floor forbidden right_ids left_ids chosen))
    unfolding solve_component
    solved minimize found known =
        rw
          (
            known,
            found,
            enumerate-valid (length left_ids) (length right_ids + length left_ids) cs fits,
            select_edges-plan candidates floor forbidden eligible left_ids right_ids 0 left_ids cs
                (λ k. let e : 0 + k ≡ k = omega arith in rw e refl) minimal_paid.0,
          )
          refl

-- An assignment of the given count of rows that no other one undercuts.
abbrev Cheapest : (costs : List (List ℤ)) (columns rows : ℕ) → List ℕ → Type 0
Cheapest costs columns rows cs =
    IsAssignment rows columns cs
    × ((ds : List ℕ) → IsAssignment rows columns ds → total costs cs ≤ℤ total costs ds)

-- Given a solver that finds assignments of minimal cost, candidates that score above the floor and
-- within the scale, and forbidden edges that are candidates' edges, `solve_component` returns the
-- sorted edges of a plan: no record twice, over candidates' edges that are not forbidden. The
-- utilities of the returned edges sum to the plan's value, and no other plan has a greater one.
pub solve_component-optimal :
    (left_ids right_ids : List ℕ) (candidates : List CandidateEvidence) (floor : ℕ)
    (minimize : Solver) (forbidden : List Edge)
    → Minimizes minimize
    → All (IsEligible floor) candidates
    → all_of (λ e. is_some (edge_of candidates e.0 e.1)) forbidden ≡ true
    → (plan : Plan) × IsPlan candidates forbidden right_ids left_ids plan
      × (solve_component left_ids right_ids candidates floor minimize forbidden
          ≡ ok (sort_edges (plan_edges candidates floor forbidden right_ids left_ids plan)))
      × (sum_utility (sort_edges (plan_edges candidates floor forbidden right_ids left_ids plan))
          ≡ plan_value candidates floor forbidden right_ids left_ids plan)
      × ((rival : Plan)
          → IsPlan candidates forbidden right_ids left_ids rival
          → plan_value candidates floor forbidden right_ids left_ids rival
            ≤ plan_value candidates floor forbidden right_ids left_ids plan)
solve_component-optimal left_ids right_ids candidates floor minimize forbidden minimal eligible
      known =
    let counted = rows_counted candidates floor forbidden eligible left_ids right_ids in
    let (cs, found, fits', cheapest') =
      minimal (cost_matrix candidates floor forbidden left_ids right_ids)
        (length right_ids + length left_ids)
        (rows_even candidates floor forbidden eligible left_ids right_ids)
        (omega (arith, counted)) in
    let (fits, cheapest) =
      subst
        (λ n.
          Cheapest (cost_matrix candidates floor forbidden left_ids right_ids)
            (length right_ids + length left_ids) n cs)
        counted (fits', cheapest') in
    (
      plan_of (length right_ids) cs,
      chosen-IsPlan candidates floor forbidden eligible left_ids right_ids cs fits cheapest,
      solved candidates floor forbidden eligible left_ids right_ids cs fits cheapest minimize found
          known,
      sum-sort _
          ∙ sum-plan_edges candidates floor forbidden eligible left_ids right_ids left_ids _
              (minimal_paid candidates floor forbidden eligible left_ids right_ids cs fits
                cheapest).0,
      chosen_greatest candidates floor forbidden eligible left_ids right_ids cs fits cheapest,
    )
