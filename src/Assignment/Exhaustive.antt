-- ===== src/Assignment/Exhaustive.antt =====
-- A solver that tries every assignment of columns to rows: what `Minimizes` asks for exists.
use reconciliation_workbench.Common.{
  ℕ, zero, suc, ◌+◌, ◌≤◌, ◌<◌, ◌≡◌, refl, ◌⊎◌, inl, inr, Bool, true, false, List, [], ◌∷◌, ◌++◌,
  map, length, All, All-append, arith, Bool-cases, if◌then◌else◌, ltb, ◌==◌, ap, subst, sym, ◌&&◌,
  ℤ, ◌≤ℤ◌, pos_part, neg_part,
}
use reconciliation_workbench.Assignment.Component.{Solver, distinct, contains}
use reconciliation_workbench.Assignment.Plans.{IsAssignment, Minimizes, enumerate, total}

abbrev Mem : {A : Type 0} → A → List A → Type 0
Mem a [] = ⊥
Mem a (x ∷ xs) = (x ≡ a) ⊎ Mem a xs

-- Every list over the columns below a bound, by its length.
unfoldable pub with_heads : ℕ → List (List ℕ) → List (List ℕ)
with_heads zero lists = []
with_heads (suc c) lists = map (λ cs. c ∷ cs) lists ++ with_heads c lists

unfoldable pub choices : (rows columns : ℕ) → List (List ℕ)
choices zero columns = [] ∷ []
choices (suc rows) columns = with_heads columns (choices rows columns)

-- The columns 0, 1, … of as many rows, last one first.
unfoldable pub first_columns : ℕ → List ℕ
first_columns zero = []
first_columns (suc n) = n ∷ first_columns n

unfoldable pub lower : ℤ → ℤ → Bool
lower a b = ltb (pos_part a + neg_part b) (pos_part b + neg_part a)

-- The first of the cheapest ones among distinct columns.
unfoldable pub cheapest : List (List ℤ) → List ℕ → List (List ℕ) → List ℕ
cheapest costs best [] = best
cheapest costs best (cs ∷ lists) =
    let rest = cheapest costs best lists in
    if distinct cs && lower (total costs cs) (total costs rest) then cs else rest

unfoldable pub column_count : List (List ℤ) → ℕ
column_count [] = 0
column_count (row ∷ rows) = length row

unfoldable pub exhaustive : Solver
exhaustive costs =
    enumerate 0
      (cheapest costs (first_columns (length costs)) (choices (length costs) (column_count costs)))

module _ (A : Type 0) where
  Mem-append_left : (a : A) (xs ys : List A) → Mem a xs → Mem a (xs ++ ys)
  Mem-append_left a [] ys h = elim h [ ]
  Mem-append_left a (x ∷ xs) ys (inl e) = inl e
  Mem-append_left a (x ∷ xs) ys (inr h) = inr (Mem-append_left a xs ys h)

  Mem-append_right : (a : A) (xs ys : List A) → Mem a ys → Mem a (xs ++ ys)
  Mem-append_right a [] ys h = h
  Mem-append_right a (x ∷ xs) ys h = inr (Mem-append_right a xs ys h)

  Mem-map : (f : A → A) (a : A) (xs : List A) → Mem a xs → Mem (f a) (map f xs)
  Mem-map f a [] h = elim h [ ]
  Mem-map f a (x ∷ xs) (inl e) = inl (ap f e)
  Mem-map f a (x ∷ xs) (inr h) = inr (Mem-map f a xs h)

Mem-with_heads :
    (n c : ℕ) (cs : List ℕ) (lists : List (List ℕ))
    → c < n
    → Mem cs lists
    → Mem (c ∷ cs) (with_heads n lists)
unfolding with_heads
Mem-with_heads zero c cs lists lt h = absurd (omega arith)
Mem-with_heads (suc n) c cs lists lt h = elim (Bool-cases (c == n)) [
  | inl last ↦
      let e : c ≡ n = ground arith in
      Mem-append_left _ (c ∷ cs) _ _ (
        subst (λ m. Mem (c ∷ cs) (map (λ ds. m ∷ ds) lists)) e
          (Mem-map _ (λ ds. c ∷ ds) cs lists h))
  | inr early ↦
      Mem-append_right _ (c ∷ cs) (map (λ ds. n ∷ ds) lists) _
        (Mem-with_heads n c cs lists (ground arith) h)
]

-- The enumeration is complete.
choices_complete :
    (rows columns : ℕ) (cs : List ℕ)
    → length cs ≡ rows
    → All (λ c. c < columns) cs
    → Mem cs (choices rows columns)
unfolding choices
choices_complete zero columns [] e h = inl refl
choices_complete zero columns (c ∷ cs) e h = absurd (omega arith)
choices_complete (suc rows) columns [] e h = absurd (omega arith)
choices_complete (suc rows) columns (c ∷ cs) e (lt, h) =
    Mem-with_heads columns c cs (choices rows columns) lt
      (choices_complete rows columns cs (omega arith) h)

abbrev Shape : (rows columns : ℕ) → List ℕ → Type 0
Shape rows columns cs = (length cs ≡ rows) × All (λ c. c < columns) cs

-- The enumeration is sound.
with_heads-Shape :
    (rows columns n : ℕ) (lists : List (List ℕ))
    → n ≤ columns
    → All (Shape rows columns) lists
    → All (Shape (suc rows) columns) (with_heads n lists)
unfolding with_heads
with_heads-Shape rows columns zero lists le h = tt
with_heads-Shape rows columns (suc n) lists le h =
    All-append _ _ _ (headed lists h) (with_heads-Shape rows columns n lists (omega arith) h)
  where
    headed :
        (ls : List (List ℕ))
        → All (Shape rows columns) ls
        → All (Shape (suc rows) columns) (map (λ cs. n ∷ cs) ls)
    headed [] k = tt
    headed (l ∷ ls) ((e, a), k) = ((ap suc e, (omega arith, a)), headed ls k)

choices-Shape : (rows columns : ℕ) → All (Shape rows columns) (choices rows columns)
unfolding choices
choices-Shape zero columns = ((refl, tt), tt)
choices-Shape (suc rows) columns =
    with_heads-Shape rows columns columns _ (omega arith) (choices-Shape rows columns)

first_columns-fresh : (n k : ℕ) → n ≤ k → contains k (first_columns n) ≡ false
unfolding contains first_columns
first_columns-fresh zero k h = refl
first_columns-fresh (suc n) k h = ground (arith, first_columns-fresh n k (omega arith))

first_columns-IsAssignment :
    (n columns : ℕ) → n ≤ columns → IsAssignment n columns (first_columns n)
unfolding distinct first_columns
first_columns-IsAssignment zero columns h = record {
  rows_covered = refl;
  in_range = tt;
  one_to_one = refl;
}
first_columns-IsAssignment (suc n) columns h =
    let rest = first_columns-IsAssignment n columns (omega arith) in
    record {
      rows_covered = ap suc rest.rows_covered;
      in_range = (omega arith, rest.in_range);
      one_to_one = rw (first_columns-fresh n n (omega arith), rest.one_to_one) refl;
    }

module _ (rows columns : ℕ) (costs : List (List ℤ)) where
  cheapest-IsAssignment :
      (best : List ℕ) (lists : List (List ℕ))
      → IsAssignment rows columns best
      → All (Shape rows columns) lists
      → IsAssignment rows columns (cheapest costs best lists)
  unfolding cheapest
  cheapest-IsAssignment best [] b h = b
  cheapest-IsAssignment best (cs ∷ lists) b ((e, a), h) =
      elim (Bool-cases
        (distinct cs && lower (total costs cs) (total costs (cheapest costs best lists)))) [
          | inl taken ↦
              rw taken (record { rows_covered = e; in_range = a; one_to_one = ground arith })
          | inr kept ↦ rw kept (cheapest-IsAssignment best lists b h)
        ]

  cheapest-least :
      (best ds : List ℕ) (lists : List (List ℕ))
      → distinct ds ≡ true
      → Mem ds lists
      → total costs (cheapest costs best lists) ≤ℤ total costs ds
  unfolding cheapest lower
  cheapest-least best ds [] d h = elim h [ ]
  cheapest-least best ds (cs ∷ lists) d (inl e) =
      let least = total costs (cheapest costs best lists) in
      let d' = subst (λ es. distinct es ≡ true) (sym e) d in
      subst (λ es. total costs (cheapest costs best (cs ∷ lists)) ≤ℤ total costs es) e
        (elim (Bool-cases (lower (total costs cs) least)) [
          | inl taken ↦ rw (taken, d') (omega arith)
          | inr kept ↦ rw (kept, d') (ground arith)
        ])
  cheapest-least best ds (cs ∷ lists) d (inr h) =
      let rest = cheapest-least best ds lists d h in
      elim (Bool-cases
        (distinct cs && lower (total costs cs) (total costs (cheapest costs best lists)))) [
          | inl taken ↦ rw taken (ground arith)
          | inr kept ↦ rw kept rest
        ]

-- For a matrix of even rows only the width of a first row counts.
choices-even :
    (costs : List (List ℤ)) (columns : ℕ)
    → All (λ row. length row ≡ columns) costs
    → choices (length costs) (column_count costs) ≡ choices (length costs) columns
unfolding choices column_count
choices-even [] columns even = refl
choices-even (row ∷ rows) columns (e, even) = rw e refl

-- The solver meets the documented behaviour.
pub exhaustive-Minimizes : Minimizes exhaustive
unfolding exhaustive
exhaustive-Minimizes costs columns even enough =
    let rows = length costs in
    let all = choices rows columns in
    (
      cheapest costs (first_columns rows) all,
      ap (λ lists. enumerate 0 (cheapest costs (first_columns rows) lists))
          (choices-even costs columns even),
      cheapest-IsAssignment rows columns costs (first_columns rows) all
          (first_columns-IsAssignment rows columns enough) (choices-Shape rows columns),
      λ ds h.
          cheapest-least rows columns costs (first_columns rows) ds all h.one_to_one
            (choices_complete rows columns ds h.rows_covered h.in_range),
    )
