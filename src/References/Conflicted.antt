-- ===== src/References/Conflicted.antt =====
-- The loop over the references of `preprocess_references` of reconciliation/domain/references.py raises
-- nothing: the identities that it takes out are there.
use reconciliation_workbench.Common.{
  Bool, ℕ, ◌≡◌, ◌≤◌, ◌+◌, refl, sym, ◌∙◌, ap, true, false, List, [], ◌∷◌, map, ◌==◌, ltb, arith, ok,
  select, Option, none, some,
}
use reconciliation_workbench.Review.Domain.{RecordSide, unique}
use reconciliation_workbench.References.Domain.{
  ReferenceContract, UnpairedReason, MatchRecord, identities, sort_by,
}
use reconciliation_workbench.References.Preprocessing.{
  Progress, outcome, close, take_all, referencing, reference_key, has_key,
}
use reconciliation_workbench.References.Counts.{count, count-sort_by}
use reconciliation_workbench.References.Partition.{
  IsPlaced, AreApart, remaining, close-IsPlaced, taken, remaining_once,
}
use reconciliation_workbench.References.Reserved.{Awaits, Awaits-close}

-- What was taken out of the two sides.
pub record IsTaken (ls rs : List ℕ) (p q : Progress) : Type 0 where
  pub left : (x : ℕ) → count x q.remaining_left + count x ls ≡ count x p.remaining_left
  pub right : (x : ℕ) → count x q.remaining_right + count x rs ≡ count x p.remaining_right

abbrev pub TakenFrom : RecordSide → List ℕ → Progress → Progress → Type 0
TakenFrom RecordSide.left xs p q = IsTaken xs [] p q
TakenFrom RecordSide.right xs p q = IsTaken [] xs p q

taken_none : (side : RecordSide) (p : Progress) → TakenFrom side [] p p
unfolding count
taken_none RecordSide.left p = record { left = λ x. ground arith; right = λ x. ground arith }
taken_none RecordSide.right p = record { left = λ x. ground arith; right = λ x. ground arith }

taken_more :
    (side : RecordSide) (x : ℕ) (reason : UnpairedReason) (related xs : List ℕ) (p q : Progress)
    → count x (remaining side p) ≡ 1
    → TakenFrom side xs (close (outcome x side reason related) p) q
    → TakenFrom side (x ∷ xs) p q
unfolding count
taken_more RecordSide.left x reason related xs p q once h = record {
  left = λ y. let a = h.left y in let b = taken x y p.remaining_left once in ground arith;
  right = h.right;
}
taken_more RecordSide.right x reason related xs p q once h = record {
  left = h.left;
  right = λ y. let a = h.right y in let b = taken x y p.remaining_right once in ground arith;
}

-- The outcomes of one side of a conflict are given.
pub record IsGiven (inputs : RecordSide → ℕ → ℕ) (banned : ℕ → ℕ → Bool) (side : RecordSide)
    (related xs : List ℕ) (p : Progress) : Type 0 where
  pub after : Progress
  pub returned : take_all side related xs p ≡ ok after
  pub placed : IsPlaced inputs banned after
  pub took : TakenFrom side xs p after

module _ (inputs : RecordSide → ℕ → ℕ) (banned : ℕ → ℕ → Bool) (apart : AreApart inputs) where
  pub take_all-IsGiven :
      (side : RecordSide) (related xs : List ℕ) (p : Progress)
      → unique related ≡ true
      → IsPlaced inputs banned p
      → Awaits side xs p
      → IsGiven inputs banned side related xs p
  unfolding take_all
  take_all-IsGiven side related [] p u h a = record {
    after = p;
    returned = refl;
    placed = h;
    took = taken_none side p;
  }
  take_all-IsGiven side related (x ∷ xs) p u h a =
      let v = outcome x side UnpairedReason.duplicate_reference related in
      let (there, next) =
        Awaits-close inputs banned apart side x UnpairedReason.duplicate_reference related xs p h
          a in
      let (once, fresh) = remaining_once inputs banned apart side x p there h in
      let rest =
        take_all-IsGiven side related xs (close v p) u
          (close-IsPlaced inputs banned apart v p there h) next in
      record {
        after = rest.after;
        returned = rw (u, there) rest.returned;
        placed = rest.placed;
        took =
            taken_more side x UnpairedReason.duplicate_reference related xs p rest.after once
              rest.took;
      }

map_self : (xs : List ℕ) → map (λ x. x) xs ≡ xs
map_self [] = refl
map_self (x ∷ xs) = ap (◌∷◌ x) (map_self xs)

pub count-sorted : (x : ℕ) (xs : List ℕ) → count x (sort_by ltb xs) ≡ count x xs
count-sorted x xs =
    ap (count x) (sym (map_self (sort_by ltb xs)))
    ∙ count-sort_by (λ y. y) ltb x xs
    ∙ ap (count x) (map_self xs)

module _ (contract : ReferenceContract) (x : ℕ) where
  count-select :
      (key : ℕ) (rs : List MatchRecord)
      → count x (identities (select (λ r. has_key key (reference_key contract r)) rs))
        ≤ count x (identities rs)
  unfolding count select
  count-select key [] = ground arith
  count-select key (r ∷ rs) = ground (arith, count-select key rs)

  -- A group of identities is among those of the records.
  pub count-referencing :
      (key : ℕ) (rs : List MatchRecord)
      → count x (referencing contract key rs) ≤ count x (identities rs)
  unfolding referencing
  count-referencing key rs =
      let a =
        count-sorted x (identities (select (λ r. has_key key (reference_key contract r)) rs)) in
      let b = count-select key rs in omega arith

  one_key : (k l : ℕ) (o : Option ℕ) → (k == l) ≡ false → has_key k o ≡ true → has_key l o ≡ false
  one_key k l none d h = refl
  one_key k l (some y) d h = ground arith

  select_apart :
      (k l : ℕ) (rs : List MatchRecord)
      → (k == l) ≡ false
      → count x (identities (select (λ r. has_key k (reference_key contract r)) rs))
          + count x (identities (select (λ r. has_key l (reference_key contract r)) rs))
        ≤ count x (identities rs)
  unfolding count select
  select_apart k l [] d = ground arith
  select_apart k l (r ∷ rs) d =
      let o = one_key k l (reference_key contract r) d in
      let rest = select_apart k l rs d in ground arith

  -- The groups of two keys have no record in common.
  pub referencing_apart :
      (k l : ℕ) (rs : List MatchRecord)
      → (k == l) ≡ false
      → count x (referencing contract k rs) + count x (referencing contract l rs)
        ≤ count x (identities rs)
  unfolding referencing
  referencing_apart k l rs d =
      let a = count-sorted x (identities (select (λ r. has_key k (reference_key contract r)) rs)) in
      let b = count-sorted x (identities (select (λ r. has_key l (reference_key contract r)) rs)) in
      let c = select_apart k l rs d in omega arith
