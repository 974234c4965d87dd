-- ===== src/Assignment/Costs.antt =====
-- The cost matrix against the utilities of plans.
use reconciliation_workbench.Common.{
  ℕ, zero, suc, ◌+◌, ◌-◌, ◌*◌, ◌≤◌, ◌<◌, ◌≡◌, refl, ◌⊎◌, true, Option, some, none, List, [], ◌∷◌,
  ◌++◌, map, length, get_elem?, get_or, All, arith, Bool-cases, Option-cases, inl, inr, leb, ℤ, pos,
  sub_ℕ, ◌+ℤ◌, pos_part, neg_part, subst, sym,
}
use reconciliation_workbench.Assignment.Domain.{CandidateEvidence}
use reconciliation_workbench.Assignment.Component.{Edge, allowed, edge_of, cost, cost_row}
use reconciliation_workbench.Assignment.Plans.{
  Plan, AreChoices, IsChoice, choice_value, edge_value, plan_value, columns_of, plan_of, total,
}
use reconciliation_workbench.Assignment.Columns.{get_elem?-of_lt}

-- A candidate of the assignment scores above the floor, and within the scale.
pub record IsEligible (floor : ℕ) (c : CandidateEvidence) : Type 0 where
  pub above : floor < c.score_bp
  pub scale : c.score_bp ≤ 10000

edge_of-All :
    (P : CandidateEvidence → Type 0) (cs : List CandidateEvidence) (l r : ℕ) (c : CandidateEvidence)
    → All P cs
    → edge_of cs l r ≡ some c
    → P c
unfolding edge_of
edge_of-All P [] l r c h e = absurd (ground arith)
edge_of-All P (d ∷ cs) l r c (h, hs) e = elim (Option-cases (edge_of cs l r)) [
  | inr (c', later) ↦ edge_of-All P cs l r c hs (ground arith)
  | inl first ↦ let same : d ≡ c = ground arith in rw same at h
]

module _ (candidates : List CandidateEvidence) (floor : ℕ) (forbidden : List Edge)
    (eligible : All (IsEligible floor) candidates) where
  pub allowed-IsEligible :
      (l r : ℕ) (c : CandidateEvidence)
      → allowed candidates forbidden l r ≡ some c
      → IsEligible floor c
  unfolding allowed
  allowed-IsEligible l r c e =
      edge_of-All (IsEligible floor) candidates l r c eligible (ground arith)

  -- The cost of an allowed edge is its utility, taken off.
  cost-allowed :
      (fc l r : ℕ) (c : CandidateEvidence)
      → allowed candidates forbidden l r ≡ some c
      → (cost candidates floor forbidden fc l r
          ≡ sub_ℕ 0 (edge_value candidates floor forbidden l r))
        × (edge_value candidates floor forbidden l r ≤ 10000)
  unfolding cost edge_value
  cost-allowed fc l r c e = let (a, b) = bounds l r c e in (ground arith, ground arith)
    where
      bounds :
          (l r : ℕ) (c : CandidateEvidence)
          → allowed candidates forbidden l r ≡ some c
          → (floor < c.score_bp) × (c.score_bp ≤ 10000)
      bounds l r c e = ((allowed-IsEligible l r c e).above, (allowed-IsEligible l r c e).scale)

get_or-const {ℓ κ} :
    {A : Type ℓ} {B : Type κ} (ys : List A) (i : ℕ) (z : B) → get_or (map (λ _. z) ys) i z ≡ z
get_or-const [] i z = refl
get_or-const (y ∷ ys) zero z = refl
get_or-const (y ∷ ys) (suc i) z = get_or-const ys i z

get_or-own {ℓ κ} :
    {A : Type ℓ} {B : Type κ} (f : A → B) (xs : List A) (ys : List A) (i : ℕ) (z : B)
    → get_or (map f xs ++ map (λ _. z) ys) (length xs + i) z ≡ z
get_or-own f [] ys i z = let e : 0 + i ≡ i = omega arith in rw e (get_or-const ys i z)
get_or-own f (x ∷ xs) ys i z =
    let e : suc (length xs) + i ≡ suc (length xs + i) = omega arith in rw e (get_or-own f xs ys i z)

get_or-real {ℓ κ} :
    {A : Type ℓ} {B : Type κ} (f : A → B) (xs : List A) (ys : List B) (i : ℕ) (a : A) (z : B)
    → get_elem? xs i ≡ some a
    → get_or (map f xs ++ ys) i z ≡ f a
get_or-real f [] ys i a z e = absurd (ground arith)
get_or-real f (x ∷ xs) ys zero a z e = ground arith
get_or-real f (x ∷ xs) ys (suc i) a z e = get_or-real f xs ys i a z e

module _ (candidates : List CandidateEvidence) (floor : ℕ) (forbidden : List Edge)
    (eligible : All (IsEligible floor) candidates) (left_ids right_ids : List ℕ) (fc : ℕ) where
  abbrev row : ℕ → List ℤ
  row = cost_row candidates floor forbidden fc left_ids right_ids

  -- Unmatched columns cost nothing.
  row_own : (l i : ℕ) → get_or (row l) (length right_ids + i) (pos 0) ≡ pos 0
  unfolding cost_row
  row_own l i = get_or-own (cost candidates floor forbidden fc l) right_ids left_ids i (pos 0)

  row_far : (l c : ℕ) → leb (length right_ids) c ≡ true → get_or (row l) c (pos 0) ≡ pos 0
  row_far l c far =
      let e : c ≡ length right_ids + (c - length right_ids) = ground arith in
      subst (λ k. get_or (row l) k (pos 0) ≡ pos 0) (sym e) (row_own l (c - length right_ids))

  row_real :
      (l j r : ℕ)
      → get_elem? right_ids j ≡ some r
      → get_or (row l) j (pos 0) ≡ cost candidates floor forbidden fc l r
  unfolding cost_row
  row_real l j r e = get_or-real (cost candidates floor forbidden fc l) right_ids _ j r (pos 0) e

  negated : (a b : ℕ) → sub_ℕ 0 a +ℤ sub_ℕ 0 b ≡ sub_ℕ 0 (a + b)
  unfolding ◌+ℤ◌
  negated a b = ground arith

  -- The columns of a plan cost its value, taken off.
  pub total-plan :
      (i : ℕ) (ls : List ℕ) (plan : Plan)
      → AreChoices candidates forbidden right_ids ls plan
      → total (map row ls) (columns_of (length right_ids) i plan)
        ≡ sub_ℕ 0 (plan_value candidates floor forbidden right_ids ls plan)
  unfolding columns_of
  total-plan i [] [] h = refl
  total-plan i (l ∷ ls) (none ∷ plan) h =
      rw (row_own l i, total-plan (suc i) ls plan h.1) (negated 0 _)
  total-plan i (l ∷ ls) (some j ∷ plan) ((r, here, c, ok), h) =
      rw
        (
          row_real l j r here,
          (cost-allowed candidates floor forbidden eligible fc l r c ok).0,
          total-plan (suc i) ls plan h,
          here,
        )
        (negated _ _)
  total-plan i [] (o ∷ plan) h = elim h [ ]
  total-plan i (l ∷ ls) [] h = elim h [ ]

  -- A cost either is a plan's value, taken off, or holds the forbidden cost, less at most 10000 for
  -- each row.
  abbrev Paid : List ℕ → Plan → ℤ → Type 0
  Paid ls plan t =
      AreChoices candidates forbidden right_ids ls plan
        × (t ≡ sub_ℕ 0 (plan_value candidates floor forbidden right_ids ls plan))
        × (plan_value candidates floor forbidden right_ids ls plan ≤ 10000 * length ls)
      ⊎ (fc + neg_part t ≤ pos_part t + 10000 * length ls)

  abbrev Head : ℕ → Option ℕ → ℤ → Type 0
  Head l o x =
      IsChoice candidates forbidden right_ids l o
        × (x ≡ sub_ℕ 0 (choice_value candidates floor forbidden right_ids l o))
        × (choice_value candidates floor forbidden right_ids l o ≤ 10000)
      ⊎ (x ≡ pos fc)

  costs_head :
      (x t : ℤ) (u n : ℕ)
      → x ≡ sub_ℕ 0 u
      → u ≤ 10000
      → fc + neg_part t ≤ pos_part t + n
      → fc + neg_part (x +ℤ t) ≤ pos_part (x +ℤ t) + (n + 10000)
  unfolding ◌+ℤ◌
  costs_head x t u n e h k = ground arith

  costs_tail :
      (x t : ℤ) (v n : ℕ)
      → x ≡ pos fc
      → t ≡ sub_ℕ 0 v
      → v ≤ n
      → fc + neg_part (x +ℤ t) ≤ pos_part (x +ℤ t) + (n + 10000)
  unfolding ◌+ℤ◌
  costs_tail x t v n e h k = ground arith

  costs_both :
      (x t : ℤ) (n : ℕ)
      → x ≡ pos fc
      → fc + neg_part t ≤ pos_part t + n
      → fc + neg_part (x +ℤ t) ≤ pos_part (x +ℤ t) + (n + 10000)
  unfolding ◌+ℤ◌
  costs_both x t n e h = ground arith

  Paid-step :
      (l : ℕ) (o : Option ℕ) (ls : List ℕ) (plan : Plan) (x t : ℤ)
      → Head l o x
      → Paid ls plan t
      → Paid (l ∷ ls) (o ∷ plan) (x +ℤ t)
  Paid-step l o ls plan x t (inl (c, e, b)) (inl (cs, f, d)) =
      inl ((c, cs), rw (e, f) (negated _ _), omega arith)
  Paid-step l o ls plan x t (inl (c, e, b)) (inr h) =
      inr (omega (arith, costs_head x t _ (10000 * length ls) e b h))
  Paid-step l o ls plan x t (inr e) (inl (cs, f, d)) =
      inr (omega (arith, costs_tail x t _ (10000 * length ls) e f d))
  Paid-step l o ls plan x t (inr e) (inr h) =
      inr (omega (arith, costs_both x t (10000 * length ls) e h))

  Head-real :
      (l j r : ℕ) → get_elem? right_ids j ≡ some r → Head l (some j) (get_or (row l) j (pos 0))
  unfolding cost
  Head-real l j r here = elim (Option-cases (allowed candidates forbidden l r)) [
    | inr (c, e) ↦
        let (a, b) = cost-allowed candidates floor forbidden eligible fc l r c e in
        inl ((r, here, c, e), rw (row_real l j r here, here) a, rw here b)
    | inl e ↦ inr (rw (row_real l j r here, cost, e))
  ]

  -- So with every assignment of columns to rows.
  pub paid :
      (ls cs : List ℕ)
      → length cs ≡ length ls
      → Paid ls (plan_of (length right_ids) cs) (total (map row ls) cs)
  unfolding plan_of
  paid [] [] e = inl (tt, refl, omega arith)
  paid (l ∷ ls) (c ∷ cs) e =
      let rest = paid ls cs (omega arith) in
      elim (Bool-cases (leb (length right_ids) c)) [
        | inl far ↦ rw far (Paid-step l none ls _ _ _ (inl (tt, row_far l c far, omega arith)) rest)
        | inr near ↦
            let (r, here) = get_elem?-of_lt right_ids c (ground arith) in
            rw near (Paid-step l (some c) ls _ _ _ (Head-real l c r here) rest)
      ]
  paid [] (c ∷ cs) e = absurd (omega arith)
  paid (l ∷ ls) [] e = absurd (omega arith)
