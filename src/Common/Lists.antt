-- ===== src/Common/Lists.antt =====
-- Tables as lists of rows: what a query finds, counts and updates.
use Prim.Native.Nat.{ℕ, zero, suc}
use mathlib.Core.Path.{◌≡◌, refl}
use mathlib.Core.Logic.{inl, inr}
use mathlib.Core.Bool.{Bool, true, false, ◌&&◌, ◌||◌}
use mathlib.Core.Option.{Option, none, some}
use mathlib.Core.List.{List, [], ◌∷◌, ◌++◌}
use native.Mathlib.Omega.{arith}
use reconciliation_workbench.Common.Tests.{if◌then◌else◌, Bool-cases}

module _ {ℓ} {A : Type ℓ} where
  abbrev pub length : List A → ℕ
  length [] = 0
  length (x ∷ xs) = suc (length xs)

  abbrev pub take : ℕ → List A → List A
  take zero xs = []
  take (suc n) [] = []
  take (suc n) (x ∷ xs) = x ∷ take n xs

  abbrev pub get_elem? : List A → ℕ → Option A
  get_elem? [] i = none
  get_elem? (x ∷ xs) zero = some x
  get_elem? (x ∷ xs) (suc i) = get_elem? xs i

  abbrev pub get_or : List A → ℕ → A → A
  get_or [] i d = d
  get_or (x ∷ xs) zero d = x
  get_or (x ∷ xs) (suc i) d = get_or xs i d

  -- `.filter(...).first()`
  unfoldable pub find : (A → Bool) → List A → Option A
  find p [] = none
  find p (x ∷ xs) = if p x then some x else find p xs

  -- `.filter(...)` as a list
  unfoldable pub select : (A → Bool) → List A → List A
  select p [] = []
  select p (x ∷ xs) = let rest = select p xs in if p x then x ∷ rest else rest

  -- `.filter(...).update(...)`
  unfoldable pub update_where : (A → Bool) → (A → A) → List A → List A
  update_where p f [] = []
  update_where p f (x ∷ xs) = (if p x then f x else x) ∷ update_where p f xs

  abbrev pub all_of : (A → Bool) → List A → Bool
  all_of p [] = true
  all_of p (x ∷ xs) = p x && all_of p xs

  abbrev pub any_of : (A → Bool) → List A → Bool
  any_of p [] = false
  any_of p (x ∷ xs) = p x || any_of p xs

  -- `P` holds of each element.
  abbrev pub All {κ} : (A → Type κ) → List A → Type κ
  All P [] = Unit
  All P (x ∷ xs) = P x × All P xs

abbrev pub or_else {ℓ} : {A : Type ℓ} → Option A → Option A → Option A
or_else none b = b
or_else (some a) b = some a

abbrev pub map_option {ℓ κ} : {A : Type ℓ} {B : Type κ} → (A → B) → Option A → Option B
map_option f none = none
map_option f (some a) = some (f a)

module _ {ℓ} {A : Type ℓ} where
  pub find-append :
      (p : A → Bool) (xs ys : List A) → find p (xs ++ ys) ≡ or_else (find p xs) (find p ys)
  unfolding find
  find-append p [] ys = refl
  find-append p (x ∷ xs) ys = ground (arith, find-append p xs ys)

  -- An update that leaves the test of a query alone changes only the row that the query finds.
  pub find-update_where :
      (p q : A → Bool) (f : A → A) (xs : List A)
      → ((x : A) → p (f x) ≡ p x)
      → find p (update_where q f xs) ≡ map_option (λ x. if q x then f x else x) (find p xs)
  unfolding find update_where
  find-update_where p q f [] h = refl
  find-update_where p q f (x ∷ xs) h = ground (arith, h x, find-update_where p q f xs h)

  -- A query that no updated row meets, and that contains the update's, finds nothing.
  pub find-update_where-none :
      (p q : A → Bool) (f : A → A) (xs : List A)
      → ((x : A) → q x ≡ false → p x ≡ false)
      → ((x : A) → q x ≡ true → p (f x) ≡ false)
      → find p (update_where q f xs) ≡ none
  unfolding find update_where
  find-update_where-none p q f [] h k = refl
  find-update_where-none p q f (x ∷ xs) h k =
      ground (arith, h x, k x, find-update_where-none p q f xs h k)

  -- What a query finds meets it.
  pub find-eq-some : (p : A → Bool) (xs : List A) (a : A) → find p xs ≡ some a → p a ≡ true
  unfolding find
  find-eq-some p [] a h = cc
  find-eq-some p (x ∷ xs) a h = ground (arith, find-eq-some p xs a)

  -- A query finds something if a narrower one does.
  pub find_wider :
      (p q : A → Bool) (xs : List A) (a : A)
      → ((x : A) → p x ≡ true → q x ≡ true)
      → find p xs ≡ some a
      → (b : A) × (find q xs ≡ some b)
  unfolding find
  find_wider p q [] a h e = absurd (ground arith)
  find_wider p q (x ∷ xs) a h e = elim (Bool-cases (q x)) [
    | inl here ↦ (x, rw here)
    | inr later ↦
        let (b, found) = find_wider p q xs a h (ground (arith, h x)) in (b, rw later found)
  ]

module _ {ℓ κ} {A : Type ℓ} (P : A → Type κ) where
  pub All-append : (xs ys : List A) → All P xs → All P ys → All P (xs ++ ys)
  All-append [] ys hx hy = hy
  All-append (x ∷ xs) ys hx hy = (hx.0, All-append xs ys hx.1 hy)

  pub All-update_where :
      (q : A → Bool) (f : A → A) (xs : List A)
      → ((x : A) → P x → P (f x))
      → All P xs
      → All P (update_where q f xs)
  unfolding update_where
  All-update_where q f [] h k = k
  All-update_where q f (x ∷ xs) h (k, ks) = elim (Bool-cases (q x)) [
    | inl e ↦ (rw e (h x k), All-update_where q f xs h ks)
    | inr e ↦ (rw e k, All-update_where q f xs h ks)
  ]

  pub All-weaken {μ} : {Q : A → Type μ} (xs : List A) → ((x : A) → P x → Q x) → All P xs → All Q xs
  All-weaken [] h k = tt
  All-weaken (x ∷ xs) h (k, ks) = (h x k, All-weaken xs h ks)

  pub All-both {μ} : (Q : A → Type μ) (xs : List A) → All P xs → All Q xs → All (λ x. P x × Q x) xs
  All-both Q [] h k = tt
  All-both Q (x ∷ xs) (h, hs) (k, ks) = ((h, k), All-both Q xs hs ks)

  -- Rows that meet `P`, and meet `Q` where the update changes them and where it does not.
  pub All-update_where_if {μ} :
      {Q : A → Type μ} (q : A → Bool) (f : A → A) (xs : List A)
      → ((x : A) → q x ≡ true → P x → Q (f x))
      → ((x : A) → q x ≡ false → P x → Q x)
      → All P xs
      → All Q (update_where q f xs)
  unfolding update_where
  All-update_where_if q f [] h h' k = tt
  All-update_where_if q f (x ∷ xs) h h' (k, ks) = elim (Bool-cases (q x)) [
    | inl e ↦ (rw e (h x e k), All-update_where_if q f xs h h' ks)
    | inr e ↦ (rw e (h' x e k), All-update_where_if q f xs h h' ks)
  ]

  pub All-find : (q : A → Bool) (xs : List A) (a : A) → All P xs → find q xs ≡ some a → P a
  unfolding find
  All-find q [] a h e = absurd (ground arith)
  All-find q (x ∷ xs) a (h, hs) e = elim (Bool-cases (q x)) [
    | inl t ↦ let same : x ≡ a = ground arith in rw same at h
    | inr t ↦ All-find q xs a hs (ground arith)
  ]
