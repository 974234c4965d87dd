-- ===== src/Review/Commands.antt =====
-- The normal form of the commands that the constructor of `DecisionCommand` accepts.
use reconciliation_workbench.Common.{
  ℕ, ◌<◌, ◌≤◌, ◌≡◌, refl, ◌∙◌, ap, subst, Bool, true, false, not, ◌&&◌, ◌||◌, List, [], ◌∷◌, All,
  Result-cases, ok, arith, Bool-cases, inl, inr, ltb, all_of, any_of, length, suc,
}
use reconciliation_workbench.Review.Domain.{
  DecisionCommand, ExpectedDecisionRevision, canonical_texts, check_action, make_command, unique,
  decision_ids, sort_revisions, insert_revision, revision_before, sort_texts, insert_text, member,
}
use reconciliation_workbench.Review.Normal.{
  AreOrdered, Ascending, sort_revisions-AreOrdered, sort_revisions_kept, sort_texts-Ascending,
  all_of-sort_texts, canonical_texts_again,
}

-- Each number is less than the ones behind it.
abbrev pub AreIncreasing : List ℕ → Type 0
AreIncreasing [] = Unit
AreIncreasing (t ∷ ts) = All (λ u. t < u) ts × AreIncreasing ts

-- Both lists have the same elements, and as many of them.
abbrev pub HaveSame : {A : Type 0} → List A → List A → Type 0
HaveSame {A = A} xs ys = ((p : A → Bool) → any_of p xs ≡ any_of p ys) × (length xs ≡ length ys)

ids_above :
    (r : ExpectedDecisionRevision) (rs : List ExpectedDecisionRevision)
    → All (λ s. revision_before s r ≡ false) rs
    → member r.decision_id (decision_ids rs) ≡ false
    → All (λ d. r.decision_id < d) (decision_ids rs)
ids_above r [] h fresh = tt
ids_above r (s ∷ ss) (h, hs) fresh = (ground arith, ids_above r ss hs (ground arith))

ordered-AreIncreasing :
    (rs : List ExpectedDecisionRevision)
    → AreOrdered rs
    → unique (decision_ids rs) ≡ true
    → AreIncreasing (decision_ids rs)
unfolding unique
ordered-AreIncreasing [] h once = tt
ordered-AreIncreasing (r ∷ rs) (h, hs) once =
    (ids_above r rs h (ground arith), ordered-AreIncreasing rs hs (ground arith))

texts_above :
    (t : ℕ) (ts : List ℕ) → All (λ u. t ≤ u) ts → member t ts ≡ false → All (λ u. t < u) ts
texts_above t [] h fresh = tt
texts_above t (u ∷ us) (h, hs) fresh = (ground arith, texts_above t us hs (ground arith))

Ascending-AreIncreasing : (ts : List ℕ) → Ascending ts → unique ts ≡ true → AreIncreasing ts
unfolding unique
Ascending-AreIncreasing [] h once = tt
Ascending-AreIncreasing (t ∷ ts) (h, hs) once =
    (texts_above t ts h (ground arith), Ascending-AreIncreasing ts hs (ground arith))

insert_revision-HaveSame :
    (r : ExpectedDecisionRevision) (rs : List ExpectedDecisionRevision)
    → HaveSame (insert_revision r rs) (r ∷ rs)
unfolding insert_revision
insert_revision-HaveSame r [] = (λ p. refl, refl)
insert_revision-HaveSame r (s ∷ ss) =
    let (same, long) = insert_revision-HaveSame r ss in
    elim (Bool-cases (revision_before s r)) [
      | inl later ↦ rw later (λ p. ground (arith, same p), ground arith)
      | inr here ↦ rw here (λ p. refl, refl)
    ]

sort_revisions-HaveSame : (rs : List ExpectedDecisionRevision) → HaveSame (sort_revisions rs) rs
unfolding sort_revisions
sort_revisions-HaveSame [] = (λ p. refl, refl)
sort_revisions-HaveSame (r ∷ rs) =
    let (same, long) = sort_revisions-HaveSame rs in
    let (same', long') = insert_revision-HaveSame r (sort_revisions rs) in
    (λ p. same' p ∙ ap (λ b. p r || b) (same p), long' ∙ ap suc long)

insert_text-HaveSame : (t : ℕ) (ts : List ℕ) → HaveSame (insert_text t ts) (t ∷ ts)
unfolding insert_text
insert_text-HaveSame t [] = (λ p. refl, refl)
insert_text-HaveSame t (u ∷ us) =
    let (same, long) = insert_text-HaveSame t us in
    elim (Bool-cases (ltb u t)) [
      | inl later ↦ rw later (λ p. ground (arith, same p), ground arith)
      | inr here ↦ rw here (λ p. refl, refl)
    ]

sort_texts-HaveSame : (ts : List ℕ) → HaveSame (sort_texts ts) ts
unfolding sort_texts
sort_texts-HaveSame [] = (λ p. refl, refl)
sort_texts-HaveSame (t ∷ ts) =
    let (same, long) = sort_texts-HaveSame ts in
    let (same', long') = insert_text-HaveSame t (sort_texts ts) in
    (λ p. same' p ∙ ap (λ b. p t || b) (same p), long' ∙ ap suc long)

-- What the constructor of a command has made sure of its draft.
pub record IsAccepted (blank : ℕ → Bool) (draft c : DecisionCommand) : Type 0 where
  pub named : (not (blank draft.reason) && not (blank draft.actor)) ≡ true
  pub once : unique (decision_ids (sort_revisions draft.approved_conflicts)) ≡ true
  pub reviewed : List ℕ
  pub texts : canonical_texts blank draft.reviewed_observation_ids ≡ ok reviewed
  pub fits :
      check_action blank draft.action draft.authority draft.target
        (sort_revisions draft.approved_conflicts)
        reviewed
      ≡ ok tt
  pub same :
      record draft {
        approved_conflicts = sort_revisions draft.approved_conflicts;
        reviewed_observation_ids = reviewed;
      }
      ≡ c

pub make_command-IsAccepted :
    (blank : ℕ → Bool) (draft c : DecisionCommand)
    → make_command blank draft ≡ ok c
    → IsAccepted blank draft c
unfolding make_command
make_command-IsAccepted blank draft c h =
    elim (Bool-cases (not (blank draft.reason) && not (blank draft.actor))) [
      | inr unnamed ↦ absurd (ground arith)
      | inl named ↦
          elim (Bool-cases (unique (decision_ids (sort_revisions draft.approved_conflicts)))) [
            | inr repeated ↦ absurd (ground arith)
            | inl once ↦
                elim (Result-cases (canonical_texts blank draft.reviewed_observation_ids)) [
                  | inr (e, refused) ↦ absurd (ground arith)
                  | inl (reviewed, texts) ↦
                      elim (Result-cases (
                        check_action blank draft.action draft.authority draft.target
                          (sort_revisions draft.approved_conflicts) reviewed)) [
                            | inr (e, refused) ↦ absurd (ground arith)
                            | inl (_, fits) ↦ record {
                              named = named;
                              once = once;
                              reviewed = reviewed;
                              texts = texts;
                              fits = fits;
                              same = ground arith;
                            }
                          ]
                ]
          ]
    ]

-- An accepted command is returned unchanged by the constructor.
make_command_again :
    (blank : ℕ → Bool) (draft c : DecisionCommand)
    → make_command blank draft ≡ ok c
    → make_command blank c ≡ ok c
unfolding make_command
make_command_again blank draft c h =
    let k = make_command-IsAccepted blank draft c h in
    subst (λ d. make_command blank d ≡ ok d) k.same
      (rw
        (
          k.named,
          sort_revisions_kept (sort_revisions draft.approved_conflicts)
              (sort_revisions-AreOrdered draft.approved_conflicts),
          k.once,
          canonical_texts_again blank draft.reviewed_observation_ids k.reviewed k.texts,
          k.fits,
        )
        refl)

-- The tuples of the command are sorted, with no decision or observation named twice and no blank
-- text, and hold what the draft's hold; the rest is the draft's.
pub record IsNormal (blank : ℕ → Bool) (draft c : DecisionCommand) : Type 0 where
  pub named : (blank c.reason ≡ false) × (blank c.actor ≡ false)
  pub conflicts_increase : AreIncreasing (decision_ids c.approved_conflicts)
  pub same_conflicts : HaveSame c.approved_conflicts draft.approved_conflicts
  pub reviewed_increase : AreIncreasing c.reviewed_observation_ids
  pub reviewed_filled : all_of (λ t. not (blank t)) c.reviewed_observation_ids ≡ true
  pub same_reviewed : HaveSame c.reviewed_observation_ids draft.reviewed_observation_ids
  pub others :
      record c {
        approved_conflicts = draft.approved_conflicts;
        reviewed_observation_ids = draft.reviewed_observation_ids;
      }
      ≡ draft

-- Canonical texts are the sorted texts, which are all different, and none of them is blank.
canonical_texts-eq-ok :
    (blank : ℕ → Bool) (ts cs : List ℕ)
    → canonical_texts blank ts ≡ ok cs
    → (all_of (λ t. not (blank t)) ts ≡ true)
      × (unique (sort_texts ts) ≡ true)
      × (sort_texts ts ≡ cs)
unfolding canonical_texts
canonical_texts-eq-ok blank ts cs h = ground arith

IsAccepted-IsNormal :
    (blank : ℕ → Bool) (draft c : DecisionCommand)
    → IsAccepted blank draft c
    → IsNormal blank draft c
IsAccepted-IsNormal blank draft c k =
    let (filled, once, sorted) =
      canonical_texts-eq-ok blank draft.reviewed_observation_ids k.reviewed k.texts in
    let named = k.named in
    subst (IsNormal blank draft) k.same (record {
      named = (ground arith, ground arith);
      conflicts_increase =
          ordered-AreIncreasing (sort_revisions draft.approved_conflicts)
            (sort_revisions-AreOrdered draft.approved_conflicts) k.once;
      same_conflicts = sort_revisions-HaveSame draft.approved_conflicts;
      reviewed_increase = subst AreIncreasing sorted (
          Ascending-AreIncreasing (sort_texts draft.reviewed_observation_ids)
            (sort_texts-Ascending draft.reviewed_observation_ids) once);
      reviewed_filled =
          subst (λ ts. all_of (λ t. not (blank t)) ts ≡ true) sorted
            (all_of-sort_texts (λ t. not (blank t)) draft.reviewed_observation_ids ∙ filled);
      same_reviewed =
          subst (λ ts. HaveSame ts draft.reviewed_observation_ids) sorted
            (sort_texts-HaveSame draft.reviewed_observation_ids);
      others = refl;
    })

-- A command that the constructor accepts is in normal form. Its conflicts stand in the order of their
-- decisions, no decision twice, its reviewed observations in theirs, none twice and none blank, and
-- both are, up to order, those of the draft. Its reason and its actor are not blank, and its other
-- fields are the draft's. The constructor returns such a command unchanged.
pub make_command-IsNormal :
    (blank : ℕ → Bool) (draft c : DecisionCommand)
    → make_command blank draft ≡ ok c
    → IsNormal blank draft c × (make_command blank c ≡ ok c)
make_command-IsNormal blank draft c h = (
  IsAccepted-IsNormal blank draft c (make_command-IsAccepted blank draft c h),
  make_command_again blank draft c h,
)
