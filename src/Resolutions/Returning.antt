-- ===== src/Resolutions/Returning.antt =====
-- That the writes of a replacement in resolutions/services.py meet the constraints of the tables.
use reconciliation_workbench.Common.{
  ℕ, ◌≡◌, refl, sym, ◌∙◌, ap, subst, Bool, true, false, not, ◌&&◌, inl, inr, Option, some, none,
  List, [], ◌∷◌, ◌==◌, arith, map, Bool-cases, Option-cases, select, any_of, all_of, ok,
}
use reconciliation_workbench.Review.Domain.{DecisionAuthority, member, unique, reserves_endpoints}
use reconciliation_workbench.Review.Previews.{
  DecisionConflict, conflict_before, insert_conflict, sort_conflicts,
}
use reconciliation_workbench.Resolutions.Tables.{
  ActiveDecisionClaim, DecisionRevision, DecisionSupersession, Store, revision_at,
}
use reconciliation_workbench.Resolutions.Checks.{
  claim_conflicts, conflict_of, distinct_revisions, overlapping, endpoints, is_excluded,
  decision_of,
}
use reconciliation_workbench.Resolutions.Commands.{
  is_claimed, delete_claims, are_free, reserve_claims, create_claims, claim_for,
}
use reconciliation_workbench.Resolutions.Consistency.{IsConsistent, same_claim, holds, authorised}
use reconciliation_workbench.Resolutions.Writes.{IsFresh, with_claims}
use reconciliation_workbench.Resolutions.Conflicts.{
  conflict_revisions, member-insert_conflict, member-sort_conflicts, named, conflict_claim,
  holds_self,
}
use reconciliation_workbench.Resolutions.Lifecycle.{IsCurrent, live_own}

unique-insert_conflict :
    (c : DecisionConflict) (cs : List DecisionConflict)
    → unique (conflict_revisions (insert_conflict c cs))
      ≡ not (member c.revision_id (conflict_revisions cs)) && unique (conflict_revisions cs)
unfolding insert_conflict unique
unique-insert_conflict c [] = refl
unique-insert_conflict c (d ∷ ds) = elim (Bool-cases (conflict_before d c)) [
  | inl later ↦
      rw later
        (ground (arith, unique-insert_conflict c ds, member-insert_conflict d.revision_id c ds))
  | inr here ↦ rw here refl
]

unique-sort_conflicts :
    (cs : List DecisionConflict)
    → unique (conflict_revisions (sort_conflicts cs)) ≡ unique (conflict_revisions cs)
unfolding sort_conflicts unique
unique-sort_conflicts [] = refl
unique-sort_conflicts (c ∷ cs) = ground (
  arith,
  unique-insert_conflict c (sort_conflicts cs),
  member-sort_conflicts c.revision_id cs,
  unique-sort_conflicts cs,
)

unique-distinct_revisions : (cs : List ActiveDecisionClaim) → unique (distinct_revisions cs) ≡ true
unfolding distinct_revisions unique
unique-distinct_revisions [] = refl
unique-distinct_revisions (c ∷ cs) = ground (arith, unique-distinct_revisions cs)

-- The revision of a claim that a query selects is one of those that it finds.
member-distinct_revisions :
    (q : ActiveDecisionClaim → Bool) (c : ActiveDecisionClaim) (cs : List ActiveDecisionClaim)
    → holds c cs ≡ true
    → q c ≡ true
    → member c.decision_revision (distinct_revisions (select q cs)) ≡ true
unfolding distinct_revisions select
member-distinct_revisions q c [] h e = absurd (ground arith)
member-distinct_revisions q c (x ∷ xs) h e = elim (Bool-cases (same_claim c x)) [
  | inl here ↦
      let same : c ≡ x = ground arith in
      let e' : q x ≡ true = subst (λ y. q y ≡ true) same e in rw e' (ground arith)
  | inr other ↦
      let later = member-distinct_revisions q c xs (ground arith) e in
      elim (Bool-cases (q x)) [ inl meets ↦ rw meets (ground arith) | inr fails ↦ rw fails later ]
]

-- A deletion of all claims of an endpoint leaves it free.
deleted-free :
    (w b l : ℕ) (rs : List ℕ) (cs : List ActiveDecisionClaim)
    → ((c : ActiveDecisionClaim)
        → holds c cs ≡ true
        → (c.book == b && c.logical_transaction == l) ≡ true
        → (c.workspace == w && c.book == b && member c.decision_revision rs) ≡ true)
    → is_claimed b l
        (select (λ c. not (c.workspace == w && c.book == b && member c.decision_revision rs)) cs)
      ≡ false
unfolding select
deleted-free w b l rs [] h = refl
deleted-free w b l rs (x ∷ xs) h =
    let rest = deleted-free w b l rs xs (λ c k. h c (rw k (ground arith))) in
    let own = h x (rw (holds_self x) refl) in
    elim (Bool-cases (x.workspace == w && x.book == b && member x.decision_revision rs)) [
      | inl gone ↦ rw gone rest
      | inr kept ↦ elim (Bool-cases (x.book == b && x.logical_transaction == l)) [
        | inl hit ↦ absurd (let gone = own hit in ground arith)
        | inr miss ↦ rw kept (ground arith)
      ]
    ]

all_of-members :
    (p : ℕ → Bool) (ls : List ℕ) → ((l : ℕ) → member l ls ≡ true → p l ≡ true) → all_of p ls ≡ true
all_of-members p [] h = refl
all_of-members p (l ∷ ls) h =
    let here = h l (ground arith) in
    let rest = all_of-members p ls (λ k m. h k (ground arith)) in ground arith

module _ (w b n : ℕ) (a : DecisionAuthority) (s : Store) (h : IsConsistent s)
    (cur : DecisionRevision) (now : IsCurrent w b s cur) (fresh : IsFresh n s) where
  abbrev pub conflicts : List ℕ
  conflicts = conflict_revisions (claim_conflicts w b a (some cur.decision) s)

  -- A claim of the table is of a revision that is there.
  claim_revision :
      (c : ActiveDecisionClaim)
      → holds c s.claims ≡ true
      → (r : DecisionRevision) × (revision_at c.decision_revision s ≡ some r)
  unfolding authorised
  claim_revision c k = elim (Option-cases (revision_at c.decision_revision s)) [
    | inl none_there ↦ absurd (let live = sym (h.exact c) ∙ k in ground arith)
    | inr found ↦ found
  ]

  -- The current revision is none of the conflicts.
  current_apart : member cur.id conflicts ≡ false
  current_apart = elim (Bool-cases (member cur.id conflicts)) [
    | inr apart ↦ apart
    | inl inside ↦
        let f = conflict_claim w b a (some cur.decision) s cur.id inside in
        let row = now.row in
        let same = f.revision in
        let test = f.test in
        absurd (
          excluded (decision_of f.claim.decision_revision s)
            (ap (λ i. decision_of i s) same ∙ rw (decision_of, row) refl) (ground arith))
  ]
    where
      excluded :
          (o : Option ℕ) → o ≡ some cur.decision → is_excluded (some cur.decision) o ≡ false → ⊥
      excluded none e k = absurd (ground arith)
      excluded (some d) e k = absurd (ground arith)

  pub fresh_apart : member n (cur.id ∷ conflicts) ≡ false
  fresh_apart = elim (Bool-cases (member n (cur.id ∷ conflicts))) [
    | inr apart ↦ apart
    | inl inside ↦ elim (Bool-cases (cur.id == n)) [
      | inl own ↦ absurd (
          let there = now.row in
          let nothing = fresh.revision in
          let same : cur.id ≡ n = ground arith in
          let nothing' = subst (λ i. revision_at i s ≡ none) (sym same) nothing in ground arith)
      | inr other ↦
          let f = conflict_claim w b a (some cur.decision) s n (ground arith) in
          let (r, found) = claim_revision f.claim f.there in
          let nothing = fresh.revision in
          let same = ap (λ i. revision_at i s) f.revision in absurd (ground arith)
    ]
  ]

  unique_conflicts : unique conflicts ≡ true
  unfolding claim_conflicts unique
  unique_conflicts = elim (Bool-cases (reserves_endpoints a)) [
    | inr no_claims ↦ rw no_claims refl
    | inl reserves ↦
        let rs = distinct_revisions (overlapping w b (endpoints a) (some cur.decision) s) in
        rw reserves (
          unique-sort_conflicts (map (conflict_of w b s) rs)
          ∙ ap unique (named w b a (some cur.decision) s rs)
          ∙ unique-distinct_revisions (overlapping w b (endpoints a) (some cur.decision) s))
  ]

  -- The revision of a claim that overlaps the endpoints, of another decision, is a conflict.
  member-conflicts :
      (c : ActiveDecisionClaim)
      → reserves_endpoints a ≡ true
      → holds c s.claims ≡ true
      → (c.workspace == w
          && c.book == b
          && member c.logical_transaction (endpoints a)
          && not (is_excluded (some cur.decision) (decision_of c.decision_revision s)))
        ≡ true
      → member c.decision_revision conflicts ≡ true
  unfolding claim_conflicts overlapping
  member-conflicts c reserves k meets =
      let rs = distinct_revisions (overlapping w b (endpoints a) (some cur.decision) s) in
      rw reserves (
        member-sort_conflicts c.decision_revision (map (conflict_of w b s) rs)
        ∙ ap (member c.decision_revision) (named w b a (some cur.decision) s rs)
        ∙ member-distinct_revisions
            (λ c.
              c.workspace == w
              && c.book == b
              && member c.logical_transaction (endpoints a)
              && not (is_excluded (some cur.decision) (decision_of c.decision_revision s)))
            c s.claims k meets)

  pub unique_superseded : unique (cur.id ∷ conflicts) ≡ true
  unfolding unique
  unique_superseded = rw current_apart unique_conflicts

  -- Each claim of an endpoint in the book is one of a superseded revision.
  covered :
      (of_book : (c : ActiveDecisionClaim)
        → holds c s.claims ≡ true
        → (c.book == b) ≡ true
        → (c.workspace == w) ≡ true)
      (l : ℕ)
      → reserves_endpoints a ≡ true
      → member l (endpoints a) ≡ true
      → (c : ActiveDecisionClaim) → holds c s.claims ≡ true
      → (c.book == b && c.logical_transaction == l) ≡ true
      → (c.workspace == w && c.book == b && member c.decision_revision (cur.id ∷ conflicts)) ≡ true
  covered of_book l reserves inside c k hit =
      let (r, found) = claim_revision c k in
      let live : authorised c s ≡ true = sym (h.exact c) ∙ k in
      let in_workspace = of_book c k (ground arith) in
      elim (Bool-cases (r.decision == cur.decision)) [
        | inl own ↦
            let (_, same) = live_own w b s cur now c r found (ground arith) live in ground arith
        | inr other ↦
            let conflict = member-conflicts c reserves k (
              let of : decision_of c.decision_revision s ≡ some r.decision =
                rw (decision_of, found) refl in
              let same : c.logical_transaction ≡ l = ground arith in
              rw (of, same) (ground arith)) in
            ground arith
      ]

  -- The deletion of the claims of the superseded revisions leaves the endpoints free.
  pub freed :
      ((c : ActiveDecisionClaim)
        → holds c s.claims ≡ true
        → (c.book == b) ≡ true
        → (c.workspace == w) ≡ true)
      → reserves_endpoints a ≡ true
      → all_of
          (λ l. not (is_claimed b l (delete_claims w b (cur.id ∷ conflicts) s).claims))
          (endpoints a)
        ≡ true
  freed of_book reserves = all_of-members _ (endpoints a) λ l inside.
      let free =
        deleted-free w b l (cur.id ∷ conflicts) s.claims (covered of_book l reserves inside) in
      rw free refl

pub narrower :
    (n : ℕ) (rs : List ℕ) (xs : List DecisionSupersession)
    → any_of (λ x. x.replacement_revision == n) xs ≡ false
    → any_of (λ x. x.replacement_revision == n && member x.superseded_revision rs) xs ≡ false
narrower n rs [] h = refl
narrower n rs (x ∷ xs) h = let rest = narrower n rs xs (ground arith) in ground arith

-- A reservation of free endpoints goes through.
pub reserve_claims_free :
    (w b n : ℕ) (a : DecisionAuthority) (s : Store)
    → (reserves_endpoints a ≡ true → are_free b (endpoints a) s ≡ true)
    → (s' : Store) × (reserve_claims w b n a s ≡ ok s')
unfolding reserve_claims create_claims
reserve_claims_free w b n a s free = elim (Bool-cases (reserves_endpoints a)) [
  | inr no_claims ↦ (s, rw no_claims refl)
  | inl reserves ↦
      let fits = free reserves in
      (with_claims (map (claim_for w b n) (endpoints a)) s, rw (reserves, fits) refl)
]
