-- ===== src/References/Gone.antt =====
-- The records that leave `preprocess_references` of reconciliation/domain/references.py do not come back.
use reconciliation_workbench.Common.{
  ℕ, ◌≡◌, ◌≤◌, subst, not, ◌&&◌, inl, inr, List, [], ◌∷◌, ◌++◌, ltb, arith, Bool-cases,
  Result-cases, ok,
}
use reconciliation_workbench.Review.Domain.{RecordSide, member, unique}
use reconciliation_workbench.References.Domain.{
  ReferenceContract, UnpairedReason, MatchRecord, Relationship, UnpairedOutcome, sort_by,
}
use reconciliation_workbench.References.Preprocessing.{
  Progress, is_remaining, outcome, close, take_all, without, referencing, is_single,
  ReferenceConflict, make_reference_conflict, is_prohibited,
}
use reconciliation_workbench.References.Trusted.{
  conflict_step, find_conflicts, pair_single, pair_references,
}
use reconciliation_workbench.References.Counts.{count, count-without}

-- What remains in the second remains in the first.
pub record IsWithin (p q : Progress) : Type 0 where
  pub left : (x : ℕ) → count x q.remaining_left ≤ count x p.remaining_left
  pub right : (x : ℕ) → count x q.remaining_right ≤ count x p.remaining_right

pub IsWithin-self : (p : Progress) → IsWithin p p
IsWithin-self p = record { left = λ x. omega arith; right = λ x. omega arith }

pub IsWithin-next : (p q t : Progress) → IsWithin p q → IsWithin q t → IsWithin p t
IsWithin-next p q t a b = record {
  left = λ x. let k = a.left x in let l = b.left x in omega arith;
  right = λ x. let k = a.right x in let l = b.right x in omega arith;
}

pub without_less : (y x : ℕ) (xs : List ℕ) → count x (without y xs) ≤ count x xs
without_less y x xs = let a = count-without y x xs in ground arith

pub close-IsWithin : (u : UnpairedOutcome) (p : Progress) → IsWithin p (close u p)
close-IsWithin u p = at u.side
  where
    at : (side : RecordSide) → IsWithin p (close (record u { side = side }) p)
    at RecordSide.left = record {
      left = λ x. without_less u.record_id x p.remaining_left;
      right = λ x. omega arith;
    }
    at RecordSide.right = record {
      left = λ x. omega arith;
      right = λ x. without_less u.record_id x p.remaining_right;
    }

take_all-IsWithin :
    (side : RecordSide) (related xs : List ℕ) (p q : Progress)
    → take_all side related xs p ≡ ok q
    → IsWithin p q
unfolding take_all
take_all-IsWithin side related [] p q e =
    let same : p ≡ q = ground arith in subst (IsWithin p) same (IsWithin-self p)
take_all-IsWithin side related (x ∷ xs) p q e =
    let u = outcome x side UnpairedReason.duplicate_reference related in
    elim (Bool-cases (unique related)) [
      | inr repeated ↦ absurd (ground arith)
      | inl once ↦ elim (Bool-cases (is_remaining x side p)) [
        | inr absent ↦ absurd (ground arith)
        | inl there ↦
            IsWithin-next p (close u p) q (close-IsWithin u p)
              (take_all-IsWithin side related xs (close u p) q (ground arith))
      ]
    ]

module _ (contract : ReferenceContract) (ls rs : List MatchRecord) where
  conflict_step-IsWithin :
      (key : ℕ) (p q : Progress) (cs ds : List ReferenceConflict)
      → conflict_step contract ls rs key (p, cs) ≡ ok (q, ds)
      → IsWithin p q
  unfolding conflict_step
  conflict_step-IsWithin key p q cs ds e =
      let gl = referencing contract key ls in
      let gr = referencing contract key rs in
      let related = sort_by ltb (gl ++ gr) in
      elim (Bool-cases (is_single gl && is_single gr)) [
        | inl single ↦ let same : p ≡ q = ground arith in subst (IsWithin p) same (IsWithin-self p)
        | inr several ↦
            elim (Result-cases (
              make_reference_conflict
                (record { reference_key = key; left_ids = gl; right_ids = gr }))) [
                  | inr (x, refused) ↦ absurd (ground arith)
                  | inl (c, made) ↦ elim (Result-cases (take_all RecordSide.left related gl p)) [
                    | inr (x, refused) ↦ absurd (ground arith)
                    | inl (t, first) ↦
                        elim (Result-cases (take_all RecordSide.right related gr t)) [
                          | inr (x, refused) ↦ absurd (ground arith)
                          | inl (v, second) ↦
                              let same : v ≡ q = ground arith in
                              subst (IsWithin p) same (
                                IsWithin-next p t v
                                  (take_all-IsWithin RecordSide.left related gl p t first)
                                  (take_all-IsWithin RecordSide.right related gr t v second))
                        ]
                  ]
                ]
      ]

  pub find_conflicts-IsWithin :
      (keys : List ℕ) (p q : Progress) (cs ds : List ReferenceConflict)
      → find_conflicts contract ls rs keys (p, cs) ≡ ok (q, ds)
      → IsWithin p q
  unfolding find_conflicts
  find_conflicts-IsWithin [] p q cs ds e =
      let same : p ≡ q = ground arith in subst (IsWithin p) same (IsWithin-self p)
  find_conflicts-IsWithin (key ∷ keys) p q cs ds e =
      elim (Result-cases (conflict_step contract ls rs key (p, cs))) [
        | inr (x, refused) ↦ absurd (ground arith)
        | inl ((t, es), stepped) ↦
            IsWithin-next p t q (conflict_step-IsWithin key p t cs es stepped)
              (find_conflicts-IsWithin keys t q es ds (ground arith))
      ]

  pair_single-IsWithin :
      (prohibited : List Relationship) (gl gr : List ℕ) (p : Progress)
      → IsWithin p (pair_single contract ls rs prohibited gl gr p)
  pair_single-IsWithin prohibited [] gr p = IsWithin-self p
  pair_single-IsWithin prohibited (l ∷ l' ∷ gl) gr p = IsWithin-self p
  pair_single-IsWithin prohibited (l ∷ []) [] p = IsWithin-self p
  pair_single-IsWithin prohibited (l ∷ []) (r ∷ r' ∷ gr) p = IsWithin-self p
  pair_single-IsWithin prohibited (l ∷ []) (r ∷ []) p =
      elim (Bool-cases (
        member l p.remaining_left
        && member r p.remaining_right
        && not (is_prohibited l r prohibited))) [
          | inl free ↦ rw free (record {
            left = λ x. without_less l x p.remaining_left;
            right = λ x. without_less r x p.remaining_right;
          })
          | inr taken ↦ rw taken (IsWithin-self p)
        ]

  pub pair_references-IsWithin :
      (prohibited : List Relationship) (keys : List ℕ) (p : Progress)
      → IsWithin p (pair_references contract ls rs prohibited keys p)
  unfolding pair_references
  pair_references-IsWithin prohibited [] p = IsWithin-self p
  pair_references-IsWithin prohibited (key ∷ keys) p =
      let q =
        pair_single contract ls rs prohibited (referencing contract key ls)
          (referencing contract key rs) p in
      IsWithin-next p q _
        (pair_single-IsWithin prohibited (referencing contract key ls) (referencing contract key rs)
          p)
        (pair_references-IsWithin prohibited keys q)
