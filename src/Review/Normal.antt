-- ===== src/Review/Normal.antt =====
-- The orders that `DecisionCommand` brings its tuples into.
use reconciliation_workbench.Common.{
  ℕ, ◌≤◌, ◌≡◌, refl, ◌∙◌, ap, subst, Bool, false, not, ◌&&◌, List, [], ◌∷◌, All, ok, arith,
  Bool-cases, inl, inr, ltb, all_of,
}
use reconciliation_workbench.Review.Domain.{
  ExpectedDecisionRevision, canonical_texts, unique, sort_revisions, insert_revision,
  revision_before, sort_texts, insert_text,
}

abbrev pub AreOrdered : List ExpectedDecisionRevision → Type 0
AreOrdered [] = Unit
AreOrdered (r ∷ rs) = All (λ s. revision_before s r ≡ false) rs × AreOrdered rs

All-insert_revision :
    (P : ExpectedDecisionRevision → Type 0) (r : ExpectedDecisionRevision)
    (rs : List ExpectedDecisionRevision)
    → P r
    → All P rs
    → All P (insert_revision r rs)
unfolding insert_revision
All-insert_revision P r [] p ps = (p, tt)
All-insert_revision P r (s ∷ ss) p (q, qs) = elim (Bool-cases (revision_before s r)) [
  | inl later ↦ rw later (q, All-insert_revision P r ss p qs)
  | inr here ↦ rw here (p, (q, qs))
]

All-before :
    (r s : ExpectedDecisionRevision) (rs : List ExpectedDecisionRevision)
    → revision_before s r ≡ false
    → All (λ t. revision_before t s ≡ false) rs
    → All (λ t. revision_before t r ≡ false) rs
All-before r s [] h k = tt
All-before r s (t ∷ ts) h (k, ks) = (ground arith, All-before r s ts h ks)

insert_revision-AreOrdered :
    (r : ExpectedDecisionRevision) (rs : List ExpectedDecisionRevision)
    → AreOrdered rs
    → AreOrdered (insert_revision r rs)
unfolding insert_revision
insert_revision-AreOrdered r [] h = (tt, tt)
insert_revision-AreOrdered r (s ∷ ss) (a, h) = elim (Bool-cases (revision_before s r)) [
  | inl later ↦
      let other : revision_before r s ≡ false = ground arith in
      rw later (
        All-insert_revision (λ t. revision_before t s ≡ false) r ss other a,
        insert_revision-AreOrdered r ss h,
      )
  | inr here ↦ rw here ((here, All-before r s ss here a), (a, h))
]

pub sort_revisions-AreOrdered :
    (rs : List ExpectedDecisionRevision) → AreOrdered (sort_revisions rs)
unfolding sort_revisions
sort_revisions-AreOrdered [] = tt
sort_revisions-AreOrdered (r ∷ rs) =
    insert_revision-AreOrdered r (sort_revisions rs) (sort_revisions-AreOrdered rs)

insert_revision_first :
    (r : ExpectedDecisionRevision) (rs : List ExpectedDecisionRevision)
    → All (λ s. revision_before s r ≡ false) rs
    → insert_revision r rs ≡ r ∷ rs
unfolding insert_revision
insert_revision_first r [] h = refl
insert_revision_first r (s ∷ ss) (e, h) = rw e refl

pub sort_revisions_kept :
    (rs : List ExpectedDecisionRevision) → AreOrdered rs → sort_revisions rs ≡ rs
unfolding sort_revisions
sort_revisions_kept [] h = refl
sort_revisions_kept (r ∷ rs) (a, h) = rw (sort_revisions_kept rs h) (insert_revision_first r rs a)

abbrev pub Ascending : List ℕ → Type 0
Ascending [] = Unit
Ascending (t ∷ ts) = All (λ u. t ≤ u) ts × Ascending ts

All-insert_text : (P : ℕ → Type 0) (t : ℕ) (ts : List ℕ) → P t → All P ts → All P (insert_text t ts)
unfolding insert_text
All-insert_text P t [] p ps = (p, tt)
All-insert_text P t (u ∷ us) p (q, qs) = elim (Bool-cases (ltb u t)) [
  | inl later ↦ rw later (q, All-insert_text P t us p qs)
  | inr here ↦ rw here (p, (q, qs))
]

All-above : (t u : ℕ) (us : List ℕ) → t ≤ u → All (λ v. u ≤ v) us → All (λ v. t ≤ v) us
All-above t u [] h k = tt
All-above t u (v ∷ vs) h (k, ks) = (omega arith, All-above t u vs h ks)

insert_text-Ascending : (t : ℕ) (ts : List ℕ) → Ascending ts → Ascending (insert_text t ts)
unfolding insert_text
insert_text-Ascending t [] h = (tt, tt)
insert_text-Ascending t (u ∷ us) (a, h) = elim (Bool-cases (ltb u t)) [
  | inl later ↦
      let le : u ≤ t = ground arith in
      rw later (All-insert_text (λ v. u ≤ v) t us le a, insert_text-Ascending t us h)
  | inr here ↦ let le : t ≤ u = ground arith in rw here ((le, All-above t u us le a), (a, h))
]

pub sort_texts-Ascending : (ts : List ℕ) → Ascending (sort_texts ts)
unfolding sort_texts
sort_texts-Ascending [] = tt
sort_texts-Ascending (t ∷ ts) = insert_text-Ascending t (sort_texts ts) (sort_texts-Ascending ts)

insert_text_first : (t : ℕ) (ts : List ℕ) → All (λ u. t ≤ u) ts → insert_text t ts ≡ t ∷ ts
unfolding insert_text
insert_text_first t [] h = refl
insert_text_first t (u ∷ us) (le, h) = let e : ltb u t ≡ false = ground arith in rw e refl

sort_texts_kept : (ts : List ℕ) → Ascending ts → sort_texts ts ≡ ts
unfolding sort_texts
sort_texts_kept [] h = refl
sort_texts_kept (t ∷ ts) (a, h) = rw (sort_texts_kept ts h) (insert_text_first t ts a)

all_of-insert_text :
    (p : ℕ → Bool) (t : ℕ) (ts : List ℕ) → all_of p (insert_text t ts) ≡ p t && all_of p ts
unfolding insert_text
all_of-insert_text p t [] = refl
all_of-insert_text p t (u ∷ us) = elim (Bool-cases (ltb u t)) [
  | inl later ↦ rw later (ground (arith, all_of-insert_text p t us))
  | inr here ↦ rw here refl
]

pub all_of-sort_texts : (p : ℕ → Bool) (ts : List ℕ) → all_of p (sort_texts ts) ≡ all_of p ts
unfolding sort_texts
all_of-sort_texts p [] = refl
all_of-sort_texts p (t ∷ ts) =
    all_of-insert_text p t (sort_texts ts) ∙ ap (λ b. p t && b) (all_of-sort_texts p ts)

module _ (blank : ℕ → Bool) where
  -- Canonical texts are canonical.
  pub canonical_texts_again :
      (ts cs : List ℕ) → canonical_texts blank ts ≡ ok cs → canonical_texts blank cs ≡ ok cs
  unfolding canonical_texts
  canonical_texts_again ts cs h = elim (Bool-cases (all_of (λ t. not (blank t)) ts)) [
    | inr some_blank ↦ absurd (ground arith)
    | inl filled ↦ elim (Bool-cases (unique (sort_texts ts))) [
      | inr repeated ↦ absurd (ground arith)
      | inl once ↦
          let same : sort_texts ts ≡ cs = ground arith in
          subst (λ us. canonical_texts blank us ≡ ok us) same
            (rw
              (
                all_of-sort_texts (λ t. not (blank t)) ts,
                filled,
                sort_texts_kept (sort_texts ts) (sort_texts-Ascending ts),
                once,
              )
              refl)
    ]
  ]
