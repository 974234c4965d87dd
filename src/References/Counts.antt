-- ===== src/References/Counts.antt =====
-- How often an identity occurs in a list, and the tests of reconciliation/domain/references.py that follow.
use reconciliation_workbench.Common.{
  ℕ, ◌≡◌, ◌≤◌, ◌+◌, refl, ◌∙◌, ap, subst, Bool, true, false, inl, inr, List, [], ◌∷◌, ◌++◌, map,
  ◌==◌, ltb, arith, if◌then◌else◌, all_of, select, Bool-cases,
}
use reconciliation_workbench.Review.Domain.{member, unique}
use reconciliation_workbench.References.Domain.{meets, insert_by, sort_by}
use reconciliation_workbench.References.Preprocessing.{without}
use reconciliation_workbench.References.Trusted.{same_set}

abbrev pub one_if : Bool → ℕ
one_if true = 1
one_if false = 0

unfoldable pub count : ℕ → List ℕ → ℕ
count x [] = 0
count x (y ∷ ys) = one_if (y == x) + count x ys

pub count-append : (x : ℕ) (xs ys : List ℕ) → count x (xs ++ ys) ≡ count x xs + count x ys
unfolding count
count-append x [] ys = ground arith
count-append x (z ∷ zs) ys = ground (arith, count-append x zs ys)

pub count-without :
    (x y : ℕ) (xs : List ℕ) → count y (without x xs) ≡ (if y == x then 0 else count y xs)
unfolding count without select
count-without x y [] = ground arith
count-without x y (z ∷ zs) = ground (arith, count-without x y zs)

pub member-count : (x : ℕ) (xs : List ℕ) → member x xs ≡ ltb 0 (count x xs)
unfolding count
member-count x [] = refl
member-count x (z ∷ zs) = ground (arith, member-count x zs)

module _ {ℓ} {A : Type ℓ} (f : A → ℕ) (before : A → A → Bool) (x : ℕ) where
  count-insert_by :
      (a : A) (cs : List A) → count x (map f (insert_by before a cs)) ≡ count x (map f (a ∷ cs))
  unfolding count insert_by
  count-insert_by a [] = refl
  count-insert_by a (b ∷ bs) = ground (arith, count-insert_by a bs)

  pub count-sort_by : (cs : List A) → count x (map f (sort_by before cs)) ≡ count x (map f cs)
  unfolding count sort_by
  count-sort_by [] = refl
  count-sort_by (a ∷ cs) =
      count-insert_by a (sort_by before cs) ∙ ap (λ n. one_if (f a == x) + n) (count-sort_by cs)

pub count-unique : (xs : List ℕ) → ((x : ℕ) → count x xs ≤ 1) → unique xs ≡ true
unfolding count unique
count-unique [] h = refl
count-unique (y ∷ ys) h =
    let here = h y in
    let m = member-count y ys in
    let rest = count-unique ys (λ x. let k = h x in ground arith) in ground arith

pub unique-count : (x : ℕ) (xs : List ℕ) → unique xs ≡ true → count x xs ≤ 1
unfolding count unique
unique-count x [] h = ground arith
unique-count x (y ∷ ys) h =
    let m = member-count y ys in
    let rest = unique-count x ys (ground arith) in
    elim (Bool-cases (y == x)) [
      | inl same ↦
          let same' : y ≡ x = ground arith in
          let m' : member y ys ≡ ltb 0 (count x ys) =
            subst (λ i. member y ys ≡ ltb 0 (count i ys)) same' m in
          ground arith
      | inr other ↦ ground arith
    ]

pub count-meets : (xs ys : List ℕ) → ((x : ℕ) → count x xs + count x ys ≤ 1) → meets xs ys ≡ false
unfolding count
count-meets [] ys h = refl
count-meets (z ∷ zs) ys h =
    let here = h z in
    let m = member-count z ys in
    let rest = count-meets zs ys (λ x. let k = h x in ground arith) in ground arith

pub meets-count :
    (x : ℕ) (xs ys : List ℕ) → meets xs ys ≡ false → member x xs ≡ true → member x ys ≡ false
meets-count x [] ys h k = absurd (ground arith)
meets-count x (z ∷ zs) ys h k = elim (Bool-cases (z == x)) [
  | inl same ↦
      let same' : z ≡ x = ground arith in subst (λ i. member i ys ≡ false) same' (ground arith)
  | inr other ↦ meets-count x zs ys (ground arith) (ground arith)
]

covered :
    (xs ys : List ℕ) → ((x : ℕ) → count x xs ≤ count x ys) → all_of (λ x. member x ys) xs ≡ true
unfolding count
covered [] ys h = refl
covered (z ∷ zs) ys h =
    let here = h z in
    let m = member-count z ys in
    let rest = covered zs ys (λ x. let k = h x in ground arith) in ground arith

pub count-same_set : (xs ys : List ℕ) → ((x : ℕ) → count x xs ≡ count x ys) → same_set xs ys ≡ true
count-same_set xs ys h =
    let a = covered xs ys (λ x. let k = h x in omega arith) in
    let b = covered ys xs (λ x. let k = h x in omega arith) in ground arith
