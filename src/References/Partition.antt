-- ===== src/References/Partition.antt =====
-- Each input of `preprocess_references` of reconciliation/domain/references.py is in one place.
use reconciliation_workbench.Common.{
  false, Bool, any_of, ℕ, ◌≡◌, ◌≤◌, ◌+◌, refl, ◌∙◌, ap, subst, true, ◌&&◌, ◌||◌, inl, inr, List, [],
  ◌∷◌, ◌++◌, map, ◌==◌, arith, select, Bool-cases,
}
use reconciliation_workbench.Review.Domain.{RecordSide, member, is_side}
use reconciliation_workbench.References.Domain.{PairOrigin, PairOutcome, UnpairedOutcome}
use reconciliation_workbench.References.Preprocessing.{
  Progress, set_terminal, remove, is_remaining, close, pair_up, without,
}
use reconciliation_workbench.References.Trusted.{terminal_ids}
use reconciliation_workbench.References.Counts.{one_if, count, count-without, member-count}

-- The identities of one side: paired, closed with an outcome, and remaining.
abbrev pub paired : RecordSide → List PairOutcome → List ℕ
paired RecordSide.left qs = map (λ q. q.left_id) qs
paired RecordSide.right qs = map (λ q. q.right_id) qs

abbrev pub remaining : RecordSide → Progress → List ℕ
remaining RecordSide.left p = p.remaining_left
remaining RecordSide.right p = p.remaining_right

-- How many outcomes of a side an identity has.
abbrev pub closed : RecordSide → ℕ → List UnpairedOutcome → ℕ
closed side x [] = 0
closed side x (u ∷ us) = one_if (is_side u.side side && u.record_id == x) + closed side x us

-- How often an identity is placed on a side.
abbrev pub placed : RecordSide → ℕ → Progress → ℕ
placed side x p =
    count x (paired side p.pairs) + closed side x p.terminal + count x (remaining side p)

abbrev pub is_authoritative : PairOrigin → Bool
is_authoritative PairOrigin.authoritative_reference = true
is_authoritative _ = false

-- A reference has paired what the reviewer has banned.
abbrev pub breaks : (ℕ → ℕ → Bool) → PairOutcome → Bool
breaks banned q = is_authoritative q.origin && banned q.left_id q.right_id

-- No pair of a reference is banned, and every identity is placed as often as it is an input: `inputs` are the counts of the two sides, which
-- no identity has twice.
pub record IsPlaced (inputs : RecordSide → ℕ → ℕ) (banned : ℕ → ℕ → Bool) (p : Progress)
    : Type 0 where
  pub respects : any_of (breaks banned) p.pairs ≡ false
  pub places : (side : RecordSide) (x : ℕ) → placed side x p ≡ inputs side x

abbrev pub AreApart : (RecordSide → ℕ → ℕ) → Type 0
AreApart inputs = (x : ℕ) → inputs RecordSide.left x + inputs RecordSide.right x ≤ 1

pub count-terminal_ids :
    (side : RecordSide) (x : ℕ) (us : List UnpairedOutcome)
    → count x (terminal_ids side us) ≡ closed side x us
unfolding count select
count-terminal_ids side x [] = refl
count-terminal_ids side x (u ∷ us) = elim (Bool-cases (is_side u.side side)) [
  | inl own ↦ rw own (ap (λ n. one_if (u.record_id == x) + n) (count-terminal_ids side x us))
  | inr other ↦ rw other (ground (arith, count-terminal_ids side x us))
]

some_side :
    (side : RecordSide) → (is_side side RecordSide.left || is_side side RecordSide.right) ≡ true
some_side RecordSide.left = refl
some_side RecordSide.right = refl

-- An outcome of a new identity is added.
closed-set_terminal :
    (side : RecordSide) (x : ℕ) (u : UnpairedOutcome) (us : List UnpairedOutcome)
    → closed RecordSide.left u.record_id us + closed RecordSide.right u.record_id us ≡ 0
    → closed side x (set_terminal u us)
      ≡ one_if (is_side u.side side && u.record_id == x) + closed side x us
unfolding set_terminal
closed-set_terminal side x u [] h = refl
closed-set_terminal side x u (v ∷ vs) h =
    let some_side' = some_side v.side in
    let rest = closed-set_terminal side x u vs (ground arith) in
    elim (Bool-cases (v.record_id == u.record_id)) [
      | inl same ↦ absurd (ground arith)
      | inr other ↦ rw other (ground arith)
    ]

-- An identity that is there once is taken out.
pub taken :
    (i x : ℕ) (xs : List ℕ) → count i xs ≡ 1 → one_if (i == x) + count x (without i xs) ≡ count x xs
taken i x xs once = elim (Bool-cases (i == x)) [
  | inr other ↦ let gone = count-without i x xs in ground arith
  | inl same ↦
      let same' : i ≡ x = ground arith in
      let gone = count-without i x xs in
      let once' : count x xs ≡ 1 = subst (λ y. count y xs ≡ 1) same' once in ground arith
]

module _ (inputs : RecordSide → ℕ → ℕ) (banned : ℕ → ℕ → Bool) (apart : AreApart inputs) where
  -- A remaining identity has no outcome.
  -- A remaining identity is there once, and has no outcome.
  pub remaining_once :
      (side : RecordSide) (x : ℕ) (p : Progress)
      → is_remaining x side p ≡ true
      → IsPlaced inputs banned p
      → (count x (remaining side p) ≡ 1)
        × (closed RecordSide.left x p.terminal + closed RecordSide.right x p.terminal ≡ 0)
  remaining_once RecordSide.left x p there h =
      let m = member-count x p.remaining_left in
      let l = h.places RecordSide.left x in
      let r = h.places RecordSide.right x in let one = apart x in (ground arith, ground arith)
  remaining_once RecordSide.right x p there h =
      let m = member-count x p.remaining_right in
      let l = h.places RecordSide.left x in
      let r = h.places RecordSide.right x in let one = apart x in (ground arith, ground arith)

  close_at :
      (s side : RecordSide) (u : UnpairedOutcome) (p : Progress)
      → u.side ≡ s
      → is_remaining u.record_id s p ≡ true
      → IsPlaced inputs banned p
      → (x : ℕ)
      → placed side x (remove u.record_id s (record p { terminal = set_terminal u p.terminal }))
        ≡ inputs side x
  close_at s side u p e there h x =
      let (once, fresh) = remaining_once s u.record_id p there h in
      let new : closed side x (set_terminal u p.terminal)
          ≡ one_if (is_side s side && u.record_id == x) + closed side x p.terminal =
        closed-set_terminal side x u p.terminal fresh
        ∙ ap (λ t. one_if (is_side t side && u.record_id == x) + closed side x p.terminal) e in
      placed_again s side new once
    where
      placed_again :
          (s side : RecordSide)
          → closed side x (set_terminal u p.terminal)
            ≡ one_if (is_side s side && u.record_id == x) + closed side x p.terminal
          → count u.record_id (remaining s p) ≡ 1
          → placed side x (remove u.record_id s (record p { terminal = set_terminal u p.terminal }))
            ≡ inputs side x
      placed_again RecordSide.left RecordSide.left new once =
          let here = h.places RecordSide.left x in
          let gone = taken u.record_id x p.remaining_left once in ground arith
      placed_again RecordSide.left RecordSide.right new once =
          let here = h.places RecordSide.right x in ground arith
      placed_again RecordSide.right RecordSide.left new once =
          let here = h.places RecordSide.left x in ground arith
      placed_again RecordSide.right RecordSide.right new once =
          let here = h.places RecordSide.right x in
          let gone = taken u.record_id x p.remaining_right once in ground arith

  -- Giving a remaining identity its outcome.
  pub close-IsPlaced :
      (u : UnpairedOutcome) (p : Progress)
      → is_remaining u.record_id u.side p ≡ true
      → IsPlaced inputs banned p
      → IsPlaced inputs banned (close u p)
  close-IsPlaced u p there h = record {
    respects = ap (any_of (breaks banned)) (pairs-remove u.side) ∙ h.respects;
    places = λ side x. close_at u.side side u p refl there h x;
  }
    where
      pairs-remove :
          (side : RecordSide)
          → (remove u.record_id side (record p { terminal = set_terminal u p.terminal })).pairs
            ≡ p.pairs
      pairs-remove RecordSide.left = refl
      pairs-remove RecordSide.right = refl

  pub pair_up-IsPlaced :
      (l r : ℕ) (origin : PairOrigin) (p : Progress)
      → member l p.remaining_left ≡ true
      → member r p.remaining_right ≡ true
      → (is_authoritative origin && banned l r) ≡ false
      → IsPlaced inputs banned p
      → IsPlaced inputs banned (pair_up l r origin p)
  unfolding count
  pair_up-IsPlaced l r origin p hl hr free h =
      let (once, fresh) = remaining_once RecordSide.left l p hl h in
      let (once', fresh') = remaining_once RecordSide.right r p hr h in
      record { respects = kept p.pairs free h.respects; places = λ side x. both side x once once' }
    where
      new : PairOutcome
      new = record { left_id = l; right_id = r; origin = origin }

      kept :
          (qs : List PairOutcome)
          → (is_authoritative origin && banned l r) ≡ false
          → any_of (breaks banned) qs ≡ false
          → any_of (breaks banned) (qs ++ new ∷ []) ≡ false
      kept [] free h = ground arith
      kept (q ∷ qs) free h = ground (arith, kept qs free)

      lefts :
          (qs : List PairOutcome) (x : ℕ)
          → count x (paired RecordSide.left (qs ++ new ∷ []))
            ≡ one_if (l == x) + count x (paired RecordSide.left qs)
      lefts [] x = refl
      lefts (q ∷ qs) x = ground (arith, lefts qs x)

      rights :
          (qs : List PairOutcome) (x : ℕ)
          → count x (paired RecordSide.right (qs ++ new ∷ []))
            ≡ one_if (r == x) + count x (paired RecordSide.right qs)
      rights [] x = refl
      rights (q ∷ qs) x = ground (arith, rights qs x)

      both :
          (side : RecordSide) (x : ℕ)
          → count l p.remaining_left ≡ 1
          → count r p.remaining_right ≡ 1
          → placed side x (pair_up l r origin p) ≡ inputs side x
      both RecordSide.left x once once' =
          let here = h.places RecordSide.left x in
          let gone = taken l x p.remaining_left once in let added = lefts p.pairs x in ground arith
      both RecordSide.right x once once' =
          let here = h.places RecordSide.right x in
          let gone = taken r x p.remaining_right once' in
          let added = rights p.pairs x in ground arith
