-- ===== src/Review/Replacement.antt =====
-- From a preview of a replacement to the command that approves it.
use reconciliation_workbench.Common.{
  ℕ, ◌≤◌, ◌≡◌, refl, ap, subst, Bool, true, false, some, List, [], ◌∷◌, map, length, All, ok, arith,
  Bool-cases, inl, inr, ◌==◌,
}
use reconciliation_workbench.Review.Domain.{
  DecisionAction, DecisionCommand, canonical_texts, endpoint_ids, check_action,
  require_reviewed_cardinality, make_command, unique, member, decision_ids, sort_revisions,
  insert_revision, revision_before,
}
use reconciliation_workbench.Review.Previews.{
  DecisionConflict, ReplacementPreview, make_preview, expected_conflicts, expected_revision,
  conflict_before, insert_conflict, sort_conflicts, conflict_ids,
}

-- The decisions stand in their order.
abbrev IsSorted : List DecisionConflict → Type 0
IsSorted [] = Unit
IsSorted (c ∷ cs) = All (λ d. c.decision_id ≤ d.decision_id) cs × IsSorted cs

All-insert_conflict :
    (P : DecisionConflict → Type 0) (c : DecisionConflict) (cs : List DecisionConflict)
    → P c
    → All P cs
    → All P (insert_conflict c cs)
unfolding insert_conflict
All-insert_conflict P c [] p ps = (p, tt)
All-insert_conflict P c (d ∷ ds) p (q, qs) = elim (Bool-cases (conflict_before d c)) [
  | inl later ↦ rw later (q, All-insert_conflict P c ds p qs)
  | inr here ↦ rw here (p, (q, qs))
]

All-le :
    (c d : DecisionConflict) (cs : List DecisionConflict)
    → c.decision_id ≤ d.decision_id
    → All (λ e. d.decision_id ≤ e.decision_id) cs
    → All (λ e. c.decision_id ≤ e.decision_id) cs
All-le c d [] h k = tt
All-le c d (e ∷ es) h (k, ks) = (omega arith, All-le c d es h ks)

insert_conflict-IsSorted :
    (c : DecisionConflict) (cs : List DecisionConflict)
    → IsSorted cs
    → IsSorted (insert_conflict c cs)
unfolding insert_conflict
insert_conflict-IsSorted c [] h = (tt, tt)
insert_conflict-IsSorted c (d ∷ ds) (a, h) = elim (Bool-cases (conflict_before d c)) [
  | inl later ↦
      let le : d.decision_id ≤ c.decision_id = ground arith in
      rw later (
        All-insert_conflict (λ e. d.decision_id ≤ e.decision_id) c ds le a,
        insert_conflict-IsSorted c ds h,
      )
  | inr here ↦
      let le : c.decision_id ≤ d.decision_id = ground arith in
      rw here ((le, All-le c d ds le a), (a, h))
]

sort_conflicts-IsSorted : (cs : List DecisionConflict) → IsSorted (sort_conflicts cs)
unfolding sort_conflicts
sort_conflicts-IsSorted [] = tt
sort_conflicts-IsSorted (c ∷ cs) =
    insert_conflict-IsSorted c (sort_conflicts cs) (sort_conflicts-IsSorted cs)

insert_first :
    (c : DecisionConflict) (cs : List DecisionConflict)
    → All (λ d. c.decision_id ≤ d.decision_id) cs
    → member c.decision_id (conflict_ids cs) ≡ false
    → insert_revision (expected_revision c) (map expected_revision cs)
      ≡ expected_revision c ∷ map expected_revision cs
unfolding insert_revision
insert_first c [] h k = refl
insert_first c (d ∷ ds) (le, h) k =
    let other : revision_before (expected_revision d) (expected_revision c) ≡ false =
      ground arith in
    rw other refl

-- What a preview expects is sorted already.
sorted_revisions :
    (cs : List DecisionConflict)
    → IsSorted cs
    → unique (conflict_ids cs) ≡ true
    → sort_revisions (map expected_revision cs) ≡ map expected_revision cs
unfolding sort_revisions unique
sorted_revisions [] h k = refl
sorted_revisions (c ∷ cs) (a, h) k =
    rw (sorted_revisions cs h (ground arith)) (insert_first c cs a (ground arith))

same_ids : (cs : List DecisionConflict) → decision_ids (map expected_revision cs) ≡ conflict_ids cs
same_ids [] = refl
same_ids (c ∷ cs) = ap (λ ids. c.decision_id ∷ ids) (same_ids cs)

-- The command that approves a preview.
abbrev pub approval : (reason actor : ℕ) → ReplacementPreview → List ℕ → DecisionCommand
approval reason actor p reviewed = record {
  action = DecisionAction.replace;
  reason = reason;
  actor = actor;
  expected_resolution_generation = p.resolution_generation;
  authority = some p.authority;
  target = some p.target;
  approved_conflicts = expected_conflicts p;
  reviewed_observation_ids = reviewed;
}

-- What the constructor of a preview has made sure.
record IsPreview (p : ReplacementPreview) : Type 0 where
  sorted : IsSorted p.conflicts
  once : unique (conflict_ids p.conflicts) ≡ true
  apart : member p.target.decision_id (conflict_ids p.conflicts) ≡ false

make_preview-IsPreview : (draft p : ReplacementPreview) → make_preview draft ≡ ok p → IsPreview p
unfolding make_preview
make_preview-IsPreview draft p made =
    elim (Bool-cases (unique (conflict_ids (sort_conflicts draft.conflicts)))) [
      | inr repeated ↦ absurd (ground arith)
      | inl once ↦
          elim (Bool-cases
            (member draft.target.decision_id (conflict_ids (sort_conflicts draft.conflicts)))) [
              | inl target ↦ absurd (ground arith)
              | inr apart ↦
                  let same : record draft { conflicts = sort_conflicts draft.conflicts } ≡ p =
                    ground arith in
                  subst IsPreview same (record {
                    sorted = sort_conflicts-IsSorted draft.conflicts;
                    once = once;
                    apart = apart;
                  })
            ]
    ]

-- Approving a preview that its constructor accepts, by a REPLACE command with its target, authority,
-- generation and expected conflicts, with a reason and an actor that are not blank, and with as many
-- reviewed observations as the authority has endpoints: the command is accepted as it stands, its
-- conflicts in the order of the preview and its observations sorted.
pub approval_accepted :
    (blank : ℕ → Bool) (reason actor : ℕ) (draft p : ReplacementPreview)
    (reviewed canonical : List ℕ)
    → make_preview draft ≡ ok p
    → blank reason ≡ false
    → blank actor ≡ false
    → canonical_texts blank reviewed ≡ ok canonical
    → length canonical ≡ length (endpoint_ids p.authority)
    → make_command blank (approval reason actor p reviewed) ≡ ok (approval reason actor p canonical)
unfolding make_command expected_conflicts check_action require_reviewed_cardinality
approval_accepted blank reason actor draft p reviewed canonical made r a texts count =
    let h = make_preview-IsPreview draft p made in
    let apart = h.apart in
    let sorted = sorted_revisions p.conflicts h.sorted h.once in
    let matching : (length canonical == length (endpoint_ids p.authority)) ≡ true = ground arith in
    rw (r, a, sorted, same_ids p.conflicts, h.once, texts, apart, matching) refl
