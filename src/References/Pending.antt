-- ===== src/References/Pending.antt =====
-- The two loops over the references of `preprocess_references` in reconciliation/domain/references.py.
use reconciliation_workbench.Common.{
  Bool, ℕ, ◌≡◌, ◌≤◌, refl, sym, subst, true, false, not, ◌&&◌, inl, inr, List, [], ◌∷◌, ◌++◌, ◌==◌,
  ltb, arith, Bool-cases, ok,
}
use reconciliation_workbench.Review.Domain.{RecordSide, member, unique}
use reconciliation_workbench.References.Domain.{
  ReferenceContract, PairOrigin, MatchRecord, Relationship, identities, sort_by,
}
use reconciliation_workbench.References.Preprocessing.{
  Progress, referencing, ReferenceConflict, make_reference_conflict, is_single, is_prohibited,
}
use reconciliation_workbench.References.Trusted.{
  conflict_step, find_conflicts, pair_single, pair_references,
}
use reconciliation_workbench.References.Counts.{count, count-append, count-unique}
use reconciliation_workbench.References.Partition.{IsPlaced, AreApart, pair_up-IsPlaced}
use reconciliation_workbench.References.Reserved.{Awaits}
use reconciliation_workbench.References.Conflicted.{
  IsTaken, take_all-IsGiven, count-sorted, count-referencing, referencing_apart,
}

kept_right :
    (gl : List ℕ) (p q : Progress)
    → IsTaken gl [] p q
    → (x : ℕ) → count x q.remaining_right ≡ count x p.remaining_right
unfolding count
kept_right gl p q took x = let a = took.right x in ground arith

module _ (contract : ReferenceContract) (ls rs : List MatchRecord) where
  -- The groups of the keys that are still to read are remaining.
  pub record IsPending (keys : List ℕ) (p : Progress) : Type 0 where
    pub left : (k : ℕ) → member k keys ≡ true → Awaits RecordSide.left (referencing contract k ls) p
    pub right :
        (k : ℕ) → member k keys ≡ true → Awaits RecordSide.right (referencing contract k rs) p

  module _ (inputs : RecordSide → ℕ → ℕ) (banned : ℕ → ℕ → Bool) (apart : AreApart inputs)
      (lefts : (x : ℕ) → count x (identities ls) ≤ 1)
      (rights : (x : ℕ) → count x (identities rs) ≤ 1) where
    pub record IsStepped (key : ℕ) (keys : List ℕ) (p : Progress) (cs : List ReferenceConflict)
        : Type 0 where
      pub after : Progress
      pub conflicts : List ReferenceConflict
      pub returned : conflict_step contract ls rs key (p, cs) ≡ ok (after, conflicts)
      pub placed : IsPlaced inputs banned after
      pub pending : IsPending keys after

    groups_unique :
        (p : Progress) (gl gr : List ℕ)
        → IsPlaced inputs banned p
        → Awaits RecordSide.left gl p
        → Awaits RecordSide.right gr p
        → unique (sort_by ltb (gl ++ gr)) ≡ true
    groups_unique p gl gr h al ar = count-unique (sort_by ltb (gl ++ gr)) (λ x.
        let a = count-sorted x (gl ++ gr) in
        let b = count-append x gl gr in
        let c = al x in
        let d = ar x in
        let e = h.places RecordSide.left x in
        let f = h.places RecordSide.right x in let g = apart x in ground arith)

    later_left :
        (key : ℕ) (keys : List ℕ) (p q t : Progress)
        → member key keys ≡ false
        → IsPending (key ∷ keys) p
        → IsTaken (referencing contract key ls) [] p q
        → IsTaken [] (referencing contract key rs) q t
        → IsPending keys t
    unfolding count
    later_left key keys p q t new h a b = record {
      left = λ k there x.
          let other = distinct k there in
          let w = h.left k (ground arith) x in
          let one = lefts x in
          let two = referencing_apart contract x key k ls other in
          let c = a.left x in let d = b.left x in ground arith;
      right = λ k there x.
          let other = distinct k there in
          let w = h.right k (ground arith) x in
          let one = rights x in
          let two = referencing_apart contract x key k rs other in
          let c = a.right x in let d = b.right x in ground arith;
    }
      where
        distinct : (k : ℕ) → member k keys ≡ true → (key == k) ≡ false
        distinct k there = elim (Bool-cases (key == k)) [
          | inr other ↦ other
          | inl same ↦
              let same' : key ≡ k = ground arith in
              let there' : member key keys ≡ true =
                subst (λ i. member i keys ≡ true) (sym same') there in
              absurd (ground arith)
        ]

    conflict_step-IsStepped :
        (key : ℕ) (keys : List ℕ) (p : Progress) (cs : List ReferenceConflict)
        → member key keys ≡ false
        → IsPlaced inputs banned p
        → IsPending (key ∷ keys) p
        → IsStepped key keys p cs
    unfolding conflict_step make_reference_conflict
    conflict_step-IsStepped key keys p cs new h pending =
        let gl = referencing contract key ls in
        let gr = referencing contract key rs in
        elim (Bool-cases (is_single gl && is_single gr)) [
          | inl single ↦ record {
            after = p;
            conflicts = cs;
            returned = rw single refl;
            placed = h;
            pending = record {
              left = λ k there. pending.left k (ground arith);
              right = λ k there. pending.right k (ground arith);
            };
          }
          | inr several ↦
              let self : (key == key) ≡ true = ground arith in
              let al = pending.left key (ground arith) in
              let ar = pending.right key (ground arith) in
              let one_l : unique gl ≡ true = count-unique gl (λ x.
                let a = lefts x in let b = count-referencing contract x key ls in omega arith) in
              let one_r : unique gr ≡ true = count-unique gr (λ x.
                let a = rights x in let b = count-referencing contract x key rs in omega arith) in
              let related = sort_by ltb (gl ++ gr) in
              let all = groups_unique p gl gr h al ar in
              let first =
                take_all-IsGiven inputs banned apart RecordSide.left related gl p all h al in
              let took = first.took in
              let ar' : Awaits RecordSide.right gr first.after =
                (λ x. let a = ar x in let b = kept_right gl p first.after took x in omega arith) in
              let second =
                take_all-IsGiven inputs banned apart RecordSide.right related gr first.after all
                  first.placed ar' in
              let returned = first.returned in
              let returned' = second.returned in
              record {
                after = second.after;
                conflicts =
                    cs
                    ++ record {
                      reference_key = key;
                      left_ids = sort_by ltb gl;
                      right_ids = sort_by ltb gr;
                    }
                      ∷ [];
                returned = rw (several, one_l, one_r, returned, returned') refl;
                placed = second.placed;
                pending =
                    later_left key keys p first.after second.after new pending took second.took;
              }
        ]

    pub record IsFound (keys : List ℕ) (p : Progress) (cs : List ReferenceConflict) : Type 0 where
      pub after : Progress
      pub conflicts : List ReferenceConflict
      pub returned : find_conflicts contract ls rs keys (p, cs) ≡ ok (after, conflicts)
      pub placed : IsPlaced inputs banned after

    pub find_conflicts-IsFound :
        (keys : List ℕ) (p : Progress) (cs : List ReferenceConflict)
        → unique keys ≡ true
        → IsPlaced inputs banned p
        → IsPending keys p
        → IsFound keys p cs
    unfolding find_conflicts unique
    find_conflicts-IsFound [] p cs u h pending = record {
      after = p;
      conflicts = cs;
      returned = refl;
      placed = h;
    }
    find_conflicts-IsFound (key ∷ keys) p cs u h pending =
        let step = conflict_step-IsStepped key keys p cs (ground arith) h pending in
        let rest =
          find_conflicts-IsFound keys step.after step.conflicts (ground arith) step.placed
            step.pending in
        let returned = step.returned in
        record {
          after = rest.after;
          conflicts = rest.conflicts;
          returned = rw returned rest.returned;
          placed = rest.placed;
        }

    pair_single-IsPlaced :
        (prohibited : List Relationship)
        → ((l r : ℕ) → banned l r ≡ is_prohibited l r prohibited)
        → (gl gr : List ℕ) (p : Progress) → IsPlaced inputs banned p
        → IsPlaced inputs banned (pair_single contract ls rs prohibited gl gr p)
    pair_single-IsPlaced prohibited same [] gr p h = h
    pair_single-IsPlaced prohibited same (l ∷ l' ∷ gl) gr p h = h
    pair_single-IsPlaced prohibited same (l ∷ []) [] p h = h
    pair_single-IsPlaced prohibited same (l ∷ []) (r ∷ r' ∷ gr) p h = h
    pair_single-IsPlaced prohibited same (l ∷ []) (r ∷ []) p h =
        elim (Bool-cases (
          member l p.remaining_left
          && member r p.remaining_right
          && not (is_prohibited l r prohibited))) [
            | inl free ↦ rw free (
                pair_up-IsPlaced inputs banned apart l r PairOrigin.authoritative_reference p
                  (ground arith) (ground arith) (let k = same l r in ground arith) h)
            | inr taken ↦ rw taken h
          ]

    pub pair_references-IsPlaced :
        (prohibited : List Relationship)
        → ((l r : ℕ) → banned l r ≡ is_prohibited l r prohibited)
        → (keys : List ℕ) (p : Progress) → IsPlaced inputs banned p
        → IsPlaced inputs banned (pair_references contract ls rs prohibited keys p)
    unfolding pair_references
    pair_references-IsPlaced prohibited same [] p h = h
    pair_references-IsPlaced prohibited same (key ∷ keys) p h =
        pair_references-IsPlaced prohibited same keys _ (
          pair_single-IsPlaced prohibited same (referencing contract key ls)
            (referencing contract key rs) p h)
