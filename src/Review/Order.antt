-- ===== src/Review/Order.antt =====
-- The order that sorts the conflicts of a preview, in reconciliation/domain/review.py.
use reconciliation_workbench.Common.{
  ℕ, ◌≡◌, refl, true, false, List, [], ◌∷◌, arith, Bool-cases, inl, inr,
}
use reconciliation_workbench.Review.Previews.{
  DecisionConflict, texts_before, conflict_before, insert_conflict, sort_conflicts,
}

texts_before_asym : (ts us : List ℕ) → texts_before ts us ≡ true → texts_before us ts ≡ false
unfolding texts_before
texts_before_asym [] [] h = refl
texts_before_asym [] (u ∷ us) h = refl
texts_before_asym (t ∷ ts) [] h = absurd (ground arith)
texts_before_asym (t ∷ ts) (u ∷ us) h = ground (arith, texts_before_asym ts us)

conflict_before_asym :
    (c d : DecisionConflict) → conflict_before c d ≡ true → conflict_before d c ≡ false
conflict_before_asym c d h =
    ground (arith, texts_before_asym c.claimed_record_ids d.claimed_record_ids)

-- No conflict is before the one that it follows.
abbrev IsOrdered : List DecisionConflict → Type 0
IsOrdered [] = Unit
IsOrdered (c ∷ []) = Unit
IsOrdered (c ∷ d ∷ ds) = (conflict_before d c ≡ false) × IsOrdered (d ∷ ds)

insert_conflict-IsOrdered :
    (c : DecisionConflict) (cs : List DecisionConflict)
    → IsOrdered cs
    → IsOrdered (insert_conflict c cs)
unfolding insert_conflict
insert_conflict-IsOrdered c [] h = tt
insert_conflict-IsOrdered c (d ∷ []) h = elim (Bool-cases (conflict_before d c)) [
  | inl later ↦ rw later (conflict_before_asym d c later, tt)
  | inr here ↦ rw here (here, tt)
]
insert_conflict-IsOrdered c (d ∷ e ∷ es) (k, h) = elim (Bool-cases (conflict_before d c)) [
  | inr here ↦ rw here (here, (k, h))
  | inl later ↦
      let rest = insert_conflict-IsOrdered c (e ∷ es) h in
      rw later (elim (Bool-cases (conflict_before e c)) [
        | inl later' ↦ rw later' (k, rw later' at rest)
        | inr here' ↦ rw here' (conflict_before_asym d c later, rw here' at rest)
      ])
]

sort_conflicts-IsOrdered : (cs : List DecisionConflict) → IsOrdered (sort_conflicts cs)
unfolding sort_conflicts
sort_conflicts-IsOrdered [] = tt
sort_conflicts-IsOrdered (c ∷ cs) =
    insert_conflict-IsOrdered c (sort_conflicts cs) (sort_conflicts-IsOrdered cs)

IsOrdered-sort_conflicts : (cs : List DecisionConflict) → IsOrdered cs → sort_conflicts cs ≡ cs
unfolding sort_conflicts insert_conflict
IsOrdered-sort_conflicts [] h = refl
IsOrdered-sort_conflicts (c ∷ []) h = refl
IsOrdered-sort_conflicts (c ∷ d ∷ ds) (k, h) = rw (IsOrdered-sort_conflicts (d ∷ ds) h, k) refl

-- Sorting twice is sorting once.
pub sort_conflicts_again :
    (cs : List DecisionConflict) → sort_conflicts (sort_conflicts cs) ≡ sort_conflicts cs
sort_conflicts_again cs = IsOrdered-sort_conflicts (sort_conflicts cs) (sort_conflicts-IsOrdered cs)
