-- ===== src/Common/Effects.antt =====
-- Exceptions, and statements over a mutable state that may raise. The state outlives an exception,
-- unless a transaction restores it.
use Prim.Native.Nat.{ℕ}
use mathlib.Core.Path.{◌≡◌, refl}
use mathlib.Core.Bool.{Bool, true, false}
use mathlib.Core.Logic.{◌⊎◌, inl, inr}
use mathlib.Core.List.{List}
use native.Mathlib.Omega.{arith}

-- The three resources of `QuotaResource` in reconciliation/domain/workspaces.py.
pub data QuotaResource : Type 0 where
  retained_bytes_resource books_resource active_jobs_resource : QuotaResource

-- The codes of `ReviewConflictCode` in reconciliation/domain/review.py.
pub data ReviewConflictCode : Type 0 where
  stale_generation stale_revision endpoint_claimed conflict_set_changed : ReviewConflictCode

-- The exceptions of the modelled code, one constructor for each class.
pub data Error : Type 0 where
  domain_validation value_error key_error assertion_error : Error
  quota_exceeded : (resource : QuotaResource) (current requested limit : ℕ) → Error
  quota_release_conflict workspace_unavailable work_item_unavailable integrity_error : Error
  decision_mutation_unavailable initial_decision_action_required : Error
  decision_mutation_conflict : (code : ReviewConflictCode) (affected : List (ℕ × ℕ)) → Error

pub data Result {ℓ} (A : Type ℓ) : Type ℓ where
  ok : A → Result A
  raise : Error → Result A

abbrev pub bind {ℓ κ} : {A : Type ℓ} {B : Type κ} → Result A → (A → Result B) → Result B
bind (ok a) f = f a
bind (raise e) f = raise e

pub Result-cases {ℓ} :
    {A : Type ℓ} (r : Result A) → ((a : A) × (r ≡ ok a)) ⊎ ((e : Error) × (r ≡ raise e))
Result-cases (ok a) = inl (a, refl)
Result-cases (raise e) = inr (e, refl)

abbrev pub require : Bool → Error → Result (Unit {0})
require true e = ok tt
require false e = raise e

abbrev pub Action : Type 0 → Type 0 → Type 0
Action S A = S → Result A × S

module _ {S A : Type 0} where
  abbrev pub pure : A → Action S A
  pure a s = (ok a, s)

  abbrev pub throw : Error → Action S A
  throw e s = (raise e, s)

  abbrev pub lift : Result A → Action S A
  lift r s = (r, s)

  -- What a transaction leaves: the new state of a run that returned, the old one of a run that raised.
  abbrev pub settle : S → Result A × S → Result A × S
  settle s (ok a, s') = (ok a, s')
  settle s (raise e, s') = (raise e, s)

  -- `with transaction.atomic():`
  abbrev pub atomic : Action S A → Action S A
  atomic m s = settle s (m s)

module _ {S : Type 0} where
  abbrev pub get : Action S S
  get s = (ok s, s)

  abbrev pub modify : (S → S) → Action S (Unit {0})
  modify f s = (ok tt, f s)

  abbrev pub guard : Bool → Error → Action S (Unit {0})
  guard true e s = (ok tt, s)
  guard false e s = (raise e, s)

module _ {S A B : Type 0} where
  abbrev pub and_then : Result A × S → (A → S → Result B × S) → Result B × S
  and_then (ok a, s) f = f a s
  and_then (raise e, s) f = (raise e, s)

  infixl 5 ◌>>=◌
  abbrev pub ◌>>=◌ : Action S A → (A → Action S B) → Action S B
  ◌>>=◌ m f s = and_then (m s) f

infixl 5 ◌>>◌
abbrev pub ◌>>◌ : {S B : Type 0} → Action S (Unit {0}) → Action S B → Action S B
◌>>◌ m k s = and_then (m s) (λ _. k)

pub and_then-eq-ok :
    {S A B : Type 0} (p : Result A × S) (f : A → S → Result B × S) (b : B) (s' : S)
    → and_then p f ≡ (ok b, s')
    → (a : A) × (s : S) × (p ≡ (ok a, s)) × (f a s ≡ (ok b, s'))
and_then-eq-ok (ok a, s) f b s' h = (a, s, refl, h)
and_then-eq-ok (raise e, s) f b s' h = absurd (ground arith)

pub settle-eq-ok :
    {S A : Type 0} (s : S) (r : Result A × S) (a : A) (s' : S)
    → settle s r ≡ (ok a, s')
    → r ≡ (ok a, s')
settle-eq-ok s (ok b, s₁) a s' h = h
settle-eq-ok s (raise e, s₁) a s' h = absurd (ground arith)

pub settle-raise :
    {S A : Type 0} (s : S) (r : Result A × S) (e : Error)
    → r.0 ≡ raise e
    → settle s r ≡ (raise e, s)
settle-raise s (ok a, s') e h = absurd (ground arith)
settle-raise s (raise e', s') e h = ground arith

-- A transaction either raises and changes nothing, or returns.
pub settle_cases :
    {S A : Type 0} (s : S) (r : Result A × S)
    → ((e : Error) × (settle s r ≡ (raise e, s))) ⊎ ((a : A) × (s' : S) × (settle s r ≡ (ok a, s')))
settle_cases s (ok a, s') = inr (a, s', refl)
settle_cases s (raise e, s') = inl (e, refl)

-- A statement keeps a property of the state, whether it returns or raises.
abbrev pub Keeps : {S A : Type 0} → (S → Type 0) → Action S A → Type 0
Keeps {S = S} P m = (s : S) → P s → P (m s).1

pub and_then_keeps :
    {S A B : Type 0} (P : S → Type 0) (p : Result A × S) (f : A → Action S B)
    → P p.1
    → ((a : A) → Keeps P (f a))
    → P (and_then p f).1
and_then_keeps P (ok a, s) f h k = k a s h
and_then_keeps P (raise e, s) f h k = h

settle_keeps :
    {S A : Type 0} (P : S → Type 0) (s : S) (r : Result A × S) → P s → P r.1 → P (settle s r).1
settle_keeps P s (ok a, s') p q = q
settle_keeps P s (raise e, s') p q = p

pub atomic-Keeps : {S A : Type 0} (P : S → Type 0) (m : Action S A) → Keeps P m → Keeps P (atomic m)
atomic-Keeps P m h s p = settle_keeps P s (m s) p (h s p)

-- A statement keeps a property if each of its returns does, and it changes nothing when it raises.
pub settled_keeps :
    {S A : Type 0} (P : S → Type 0) (s : S) (r : Result A × S)
    → P s
    → ((a : A) (s' : S) → settle s r ≡ (ok a, s') → P s')
    → P (settle s r).1
settled_keeps P s (ok a, s') p h = h a s' refl
settled_keeps P s (raise e, s') p h = p
