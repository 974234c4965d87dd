-- ===== src/Assignment/Columns.antt =====
-- Plans as assignments of columns, and back.
use reconciliation_workbench.Common.{
  ℕ, zero, suc, ◌+◌, ◌≤◌, ◌<◌, ◌≡◌, refl, true, false, some, none, List, [], ◌∷◌, length, get_elem?,
  All, arith, Bool-cases, inl, inr, leb, ap,
}
use reconciliation_workbench.Assignment.Domain.{CandidateEvidence}
use reconciliation_workbench.Assignment.Component.{Edge, distinct, contains}
use reconciliation_workbench.Assignment.Plans.{
  Plan, used, AreChoices, IsPlan, IsAssignment, columns_of, plan_of,
}

pub get_elem?-lt {ℓ} :
    {A : Type ℓ} (xs : List A) (i : ℕ) (a : A) → get_elem? xs i ≡ some a → i < length xs
get_elem?-lt [] i a e = absurd (ground arith)
get_elem?-lt (x ∷ xs) zero a e = omega arith
get_elem?-lt (x ∷ xs) (suc i) a e = omega (arith, get_elem?-lt xs i a e)

pub get_elem?-of_lt {ℓ} :
    {A : Type ℓ} (xs : List A) (i : ℕ) → i < length xs → (a : A) × (get_elem? xs i ≡ some a)
get_elem?-of_lt [] i h = absurd (omega arith)
get_elem?-of_lt (x ∷ xs) zero h = (x, refl)
get_elem?-of_lt (x ∷ xs) (suc i) h = get_elem?-of_lt xs i (omega arith)

-- A real column is among a plan's columns only if the plan uses it.
contains-columns_real :
    (n i j : ℕ) (plan : Plan) → j < n → contains j (columns_of n i plan) ≡ contains j (used plan)
unfolding columns_of used contains
contains-columns_real n i j [] h = refl
contains-columns_real n i j (none ∷ plan) h =
    ground (arith, contains-columns_real n (suc i) j plan h)
contains-columns_real n i j (some k ∷ plan) h =
    ground (arith, contains-columns_real n (suc i) j plan h)

-- An unmatched column of an earlier row is not among them.
contains-columns_own :
    (n i k : ℕ) (plan : Plan)
    → All (λ j. j < n) (used plan)
    → k < i
    → contains (n + k) (columns_of n i plan) ≡ false
unfolding columns_of used contains
contains-columns_own n i k [] h lt = refl
contains-columns_own n i k (none ∷ plan) h lt =
    ground (arith, contains-columns_own n (suc i) k plan h (omega arith))
contains-columns_own n i k (some j ∷ plan) (a, h) lt =
    ground (arith, contains-columns_own n (suc i) k plan h (omega arith))

distinct-columns :
    (n i : ℕ) (plan : Plan)
    → All (λ j. j < n) (used plan)
    → distinct (used plan) ≡ true
    → distinct (columns_of n i plan) ≡ true
unfolding columns_of used distinct
distinct-columns n i [] h d = refl
distinct-columns n i (none ∷ plan) h d = ground (
  arith,
  contains-columns_own n (suc i) i plan h (omega arith),
  distinct-columns n (suc i) plan h d,
)
distinct-columns n i (some j ∷ plan) (a, h) d =
    ground (arith, contains-columns_real n (suc i) j plan a, distinct-columns n (suc i) plan h)

contains-used-plan_of :
    (n c : ℕ) (cs : List ℕ) → contains c cs ≡ false → contains c (used (plan_of n cs)) ≡ false
unfolding used plan_of contains
contains-used-plan_of n c [] h = refl
contains-used-plan_of n c (d ∷ cs) h = elim (Bool-cases (leb n d)) [
  | inl far ↦ rw far (contains-used-plan_of n c cs (ground arith))
  | inr near ↦ rw near (ground (arith, contains-used-plan_of n c cs))
]

-- The plan of an assignment uses no right record twice.
pub distinct-used-plan_of :
    (n : ℕ) (cs : List ℕ) → distinct cs ≡ true → distinct (used (plan_of n cs)) ≡ true
unfolding used plan_of distinct
distinct-used-plan_of n [] h = refl
distinct-used-plan_of n (c ∷ cs) h = elim (Bool-cases (leb n c)) [
  | inl far ↦ rw far (distinct-used-plan_of n cs (ground arith))
  | inr near ↦ rw near (ground (arith, contains-used-plan_of n c cs, distinct-used-plan_of n cs))
]

module _ (candidates : List CandidateEvidence) (forbidden : List Edge) (right_ids : List ℕ) where
  used-lt :
      (ls : List ℕ) (plan : Plan)
      → AreChoices candidates forbidden right_ids ls plan
      → All (λ j. j < length right_ids) (used plan)
  unfolding used
  used-lt [] [] h = tt
  used-lt (l ∷ ls) (none ∷ plan) h = used-lt ls plan h.1
  used-lt (l ∷ ls) (some j ∷ plan) (c, h) =
      let (r, here, _, _) = c in (get_elem?-lt right_ids j r here, used-lt ls plan h)
  used-lt [] (o ∷ plan) h = elim h [ ]
  used-lt (l ∷ ls) [] h = elim h [ ]

  -- Columns of the choices of a plan lie below the count of columns.
  columns-lt :
      (bound i : ℕ) (ls : List ℕ) (plan : Plan)
      → AreChoices candidates forbidden right_ids ls plan
      → length right_ids + i + length ls ≤ bound
      → (length (columns_of (length right_ids) i plan) ≡ length ls)
        × All (λ c. c < bound) (columns_of (length right_ids) i plan)
  unfolding columns_of
  columns-lt bound i [] [] h le = (refl, tt)
  columns-lt bound i (l ∷ ls) (none ∷ plan) h le =
      let (a, b) = columns-lt bound (suc i) ls plan h.1 (omega arith) in
      (ap suc a, (omega arith, b))
  columns-lt bound i (l ∷ ls) (some j ∷ plan) (c, h) le =
      let (r, here, _, _) = c in
      let (a, b) = columns-lt bound (suc i) ls plan h (omega arith) in
      (ap suc a, (omega (arith, get_elem?-lt right_ids j r here), b))
  columns-lt bound i [] (o ∷ plan) h le = elim h [ ]
  columns-lt bound i (l ∷ ls) [] h le = elim h [ ]

  -- The columns of a plan are an assignment of its rows.
  pub columns_of-IsAssignment :
      (ls : List ℕ) (plan : Plan)
      → IsPlan candidates forbidden right_ids ls plan
      → IsAssignment
          (length ls)
          (length right_ids + length ls)
          (columns_of (length right_ids) 0 plan)
  columns_of-IsAssignment ls plan h =
      let (a, b) = columns-lt (length right_ids + length ls) 0 ls plan h.choices (omega arith) in
      record {
        rows_covered = a;
        in_range = b;
        one_to_one = distinct-columns (length right_ids) 0 plan (used-lt ls plan h.choices) h.once;
      }
