-- ===== src/Resolutions/Rows.antt =====
-- The tables of the decisions behind each statement of a commit.
use reconciliation_workbench.Common.{
  ℕ, ◌≡◌, refl, ◌∙◌, ap, subst, Bool, true, false, not, ◌&&◌, ◌||◌, inl, inr, Option, none, some,
  List, [], ◌∷◌, ◌++◌, ◌==◌, arith, map, any_of, all_of, find, find-append, find-update_where,
  find-eq-some, map_option, or_else, if◌then◌else◌, Bool-cases, select, update_where,
}
use reconciliation_workbench.Review.Domain.{member, unique}
use reconciliation_workbench.Resolutions.Tables.{
  Decision, DecisionRevision, DecisionSupersession, ActiveDecisionClaim, Store, decision_at,
  revision_at,
}
use reconciliation_workbench.Resolutions.Commands.{
  add_decision, set_current, claim_for, is_claimed, supersession,
}
use reconciliation_workbench.Resolutions.Consistency.{same_claim, holds, AreSingle}

pub any_of-append {ℓ} :
    {A : Type ℓ} (p : A → Bool) (xs ys : List A) → any_of p (xs ++ ys) ≡ any_of p xs || any_of p ys
any_of-append p [] ys = refl
any_of-append p (x ∷ xs) ys = ground (arith, any_of-append p xs ys)

abbrev pub with_revision : DecisionRevision → Store → Store
with_revision r s = record s { revisions = s.revisions ++ r ∷ [] }

pub revision_at-with_revision :
    (i : ℕ) (r : DecisionRevision) (s : Store)
    → revision_at i (with_revision r s)
      ≡ or_else (revision_at i s) (if r.id == i then some r else none)
unfolding revision_at find
revision_at-with_revision i r s = find-append (λ x. x.id == i) s.revisions (r ∷ [])

pub decision_at-set_current_other :
    (d k n : ℕ) (s : Store) → (d == k) ≡ false → decision_at d (set_current k n s) ≡ decision_at d s
unfolding decision_at
decision_at-set_current_other d k n s o =
    find-update_where (λ x. x.id == d) (λ x. x.id == k)
      (λ x. record x { current_revision = some n }) s.decisions (λ x. refl)
    ∙ left_alone (find (λ x. x.id == d) s.decisions)
        (λ x e. find-eq-some (λ x. x.id == d) s.decisions x e)
  where
    left_alone :
        (f : Option Decision)
        → ((x : Decision) → f ≡ some x → (x.id == d) ≡ true)
        → map_option (λ x. if x.id == k then record x { current_revision = some n } else x) f ≡ f
    left_alone none h = refl
    left_alone (some x) h =
        let same = h x refl in let other : (x.id == k) ≡ false = ground arith in rw other refl

pub decision_at-set_current :
    (k n : ℕ) (s : Store) (d : Decision)
    → decision_at k s ≡ some d
    → decision_at k (set_current k n s) ≡ some (record d { current_revision = some n })
unfolding decision_at
decision_at-set_current k n s d e =
    let own = find-eq-some (λ x. x.id == k) s.decisions d e in
    find-update_where (λ x. x.id == k) (λ x. x.id == k)
      (λ x. record x { current_revision = some n }) s.decisions (λ x. refl)
    ∙ rw (e, own) refl

pub decision_at-add_decision :
    (i : ℕ) (d : Decision) (s : Store)
    → decision_at i (add_decision d s)
      ≡ or_else (decision_at i s) (if d.id == i then some d else none)
unfolding decision_at find
decision_at-add_decision i d s = find-append (λ x. x.id == i) s.decisions (d ∷ [])

-- The supersessions that are added name the revisions that are given.
pub superseded-added :
    (w n at r : ℕ) (revisions : List ℕ) (xs : List DecisionSupersession)
    → any_of (λ x. x.superseded_revision == r) (xs ++ map (supersession w n at) revisions)
      ≡ any_of (λ x. x.superseded_revision == r) xs || member r revisions
superseded-added w n at r revisions xs =
    any_of-append (λ x. x.superseded_revision == r) xs (map (supersession w n at) revisions)
    ∙ ap (λ b. any_of (λ x. x.superseded_revision == r) xs || b) (named revisions)
  where
    named :
        (rs : List ℕ)
        → any_of (λ x. x.superseded_revision == r) (map (supersession w n at) rs) ≡ member r rs
    named [] = refl
    named (x ∷ rs) = ap (λ b. (x == r) || b) (named rs)

module _ (c : ActiveDecisionClaim) (w b : ℕ) where
  -- The claims that are created.
  pub holds-created :
      (n : ℕ) (ends : List ℕ)
      → holds c (map (claim_for w b n) ends) ≡ (
          c.workspace == w
          && c.book == b
          && c.decision_revision == n
          && member c.logical_transaction ends)
  holds-created n [] = ground arith
  holds-created n (l ∷ ends) = ground (arith, holds-created n ends)

  pub holds-deleted :
      (gone : ℕ → Bool) (cs : List ActiveDecisionClaim)
      → holds c (select (λ x. not (x.workspace == w && x.book == b && gone x.decision_revision)) cs)
        ≡ (holds c cs && not (c.workspace == w && c.book == b && gone c.decision_revision))
  unfolding select
  holds-deleted gone [] = refl
  holds-deleted gone (x ∷ cs) =
      let rest = holds-deleted gone cs in
      settled (x.workspace == w && x.book == b && gone x.decision_revision)
        (c.workspace == w && c.book == b && gone c.decision_revision) (alike x) rest
    where
      alike :
          (x : ActiveDecisionClaim)
          → same_claim c x ≡ true
          → (x.workspace == w && x.book == b && gone x.decision_revision)
            ≡ (c.workspace == w && c.book == b && gone c.decision_revision)
      alike x same =
          let e1 : x.workspace ≡ c.workspace = ground arith in
          let e2 : x.book ≡ c.book = ground arith in
          let e3 : x.decision_revision ≡ c.decision_revision = ground arith in
          ap (λ i. (i == w) && (x.book == b) && gone x.decision_revision) e1
          ∙ ap (λ i. (c.workspace == w) && (i == b) && gone x.decision_revision) e2
          ∙ ap (λ i. (c.workspace == w) && (c.book == b) && gone i) e3

      settled :
          (here there : Bool)
          → (same_claim c x ≡ true → here ≡ there)
          → holds c
              (select (λ x. not (x.workspace == w && x.book == b && gone x.decision_revision)) cs)
            ≡ (holds c cs && not there)
          → holds c (
              if not here
              then x
                ∷ select (λ x. not (x.workspace == w && x.book == b && gone x.decision_revision)) cs
              else select
                  (λ x. not (x.workspace == w && x.book == b && gone x.decision_revision))
                  cs)
            ≡ ((same_claim c x || holds c cs) && not there)
      settled true there same rest = ground arith
      settled false there same rest = ground arith

  pub holds-moved :
      (old n : ℕ) (cs : List ActiveDecisionClaim)
      → holds c (
          update_where
            (λ x. x.workspace == w && x.book == b && x.decision_revision == old)
            (λ x. record x { decision_revision = n })
            cs)
        ≡ ((holds c cs && not (c.workspace == w && c.book == b && c.decision_revision == old))
            || (c.decision_revision == n
                && c.workspace == w
                && c.book == b
                && holds (record c { decision_revision = old }) cs))
  unfolding update_where
  holds-moved old n [] = ground arith
  holds-moved old n (x ∷ cs) = ground (arith, holds-moved old n cs)

claimed-select :
    (p : ActiveDecisionClaim → Bool) (b l : ℕ) (cs : List ActiveDecisionClaim)
    → is_claimed b l cs ≡ false
    → is_claimed b l (select p cs) ≡ false
unfolding select
claimed-select p b l [] h = refl
claimed-select p b l (c ∷ cs) h = elim (Bool-cases (p c)) [
  | inl stays ↦ rw stays (ground (arith, claimed-select p b l cs))
  | inr goes ↦ rw goes (claimed-select p b l cs (ground arith))
]

pub select-AreSingle :
    (p : ActiveDecisionClaim → Bool) (cs : List ActiveDecisionClaim)
    → AreSingle cs
    → AreSingle (select p cs)
unfolding select
select-AreSingle p [] h = tt
select-AreSingle p (c ∷ cs) (a, h) = elim (Bool-cases (p c)) [
  | inl stays ↦
      rw stays (claimed-select p c.book c.logical_transaction cs a, select-AreSingle p cs h)
  | inr goes ↦ rw goes (select-AreSingle p cs h)
]

module _ (p : ActiveDecisionClaim → Bool) (n : ℕ) where
  claimed-update :
      (b l : ℕ) (cs : List ActiveDecisionClaim)
      → is_claimed b l (update_where p (λ x. record x { decision_revision = n }) cs)
        ≡ is_claimed b l cs
  unfolding update_where
  claimed-update b l [] = refl
  claimed-update b l (c ∷ cs) = elim (Bool-cases (p c)) [
    | inl moves ↦ rw (moves, claimed-update b l cs) refl
    | inr stays ↦ rw (stays, claimed-update b l cs) refl
  ]

  pub update-AreSingle :
      (cs : List ActiveDecisionClaim)
      → AreSingle cs
      → AreSingle (update_where p (λ x. record x { decision_revision = n }) cs)
  unfolding update_where
  update-AreSingle [] h = tt
  update-AreSingle (c ∷ cs) (a, h) = elim (Bool-cases (p c)) [
    | inl moves ↦
        rw moves (claimed-update c.book c.logical_transaction cs ∙ a, update-AreSingle cs h)
    | inr stays ↦
        rw stays (claimed-update c.book c.logical_transaction cs ∙ a, update-AreSingle cs h)
  ]

module _ (w b n : ℕ) where
  claimed-created :
      (l : ℕ) (ends : List ℕ) → is_claimed b l (map (claim_for w b n) ends) ≡ member l ends
  claimed-created l [] = refl
  claimed-created l (e ∷ ends) = ground (arith, claimed-created l ends)

  created-AreSingle : (ends : List ℕ) → unique ends ≡ true → AreSingle (map (claim_for w b n) ends)
  unfolding unique
  created-AreSingle [] h = tt
  created-AreSingle (e ∷ ends) h =
      (claimed-created e ends ∙ ground arith, created-AreSingle ends (ground arith))

  claimed-other :
      (c : ActiveDecisionClaim) (ends : List ℕ)
      → ((l : ℕ) → member l ends ≡ true → (c.book == b && c.logical_transaction == l) ≡ false)
      → is_claimed c.book c.logical_transaction (map (claim_for w b n) ends) ≡ false
  claimed-other c [] h = refl
  claimed-other c (e ∷ ends) h =
      let first = h e (ground arith) in
      let rest = claimed-other c ends (λ l m. h l (ground arith)) in ground arith

  pub append-AreSingle :
      (ends : List ℕ) (cs : List ActiveDecisionClaim)
      → AreSingle cs
      → unique ends ≡ true
      → ((l : ℕ) → member l ends ≡ true → is_claimed b l cs ≡ false)
      → AreSingle (cs ++ map (claim_for w b n) ends)
  append-AreSingle ends [] h u k = created-AreSingle ends u
  append-AreSingle ends (c ∷ cs) (a, h) u k =
      let rest = claimed-other c ends (λ l m. let f = k l m in ground arith) in
      (
        any_of-append (λ x. x.book == c.book && x.logical_transaction == c.logical_transaction) cs
              (map (claim_for w b n) ends)
            ∙ rw (a, rest) refl,
        append-AreSingle ends cs h u (λ l m. let f = k l m in ground arith),
      )

-- What `all` of a list meets, its members meet.
pub all_of-member :
    (p : ℕ → Bool) (xs : List ℕ) (x : ℕ) → all_of p xs ≡ true → member x xs ≡ true → p x ≡ true
all_of-member p [] x h m = absurd (ground arith)
all_of-member p (y ∷ ys) x h m = elim (Bool-cases (y == x)) [
  | inl same ↦
      let e : y ≡ x = ground arith in
      let here : p y ≡ true = ground arith in subst (λ z. p z ≡ true) e here
  | inr other ↦ all_of-member p ys x (ground arith) (ground arith)
]
