-- ===== src/Jobs/Retry.antt =====
-- What `RetryPolicy.decide` of reconciliation/domain/jobs.py answers.
use native.Mathlib.Nat.{pow-suc}
use reconciliation_workbench.Common.{
  ℕ, zero, suc, ◌+◌, ◌-◌, ◌*◌, ◌^◌, ◌≤◌, ◌<◌, ◌≡◌, ap, ◌↔◌, ok, arith,
}
use reconciliation_workbench.Workspaces.Domain.{Datetime}
use reconciliation_workbench.Workspaces.Tables.{FailureCategory}
use reconciliation_workbench.Jobs.Domain.{RetryPolicy, RetryOutcome, decide, make_retry_policy}

-- From the first attempt on, a retry is scheduled exactly when the failure is transient and attempts
-- are left, and then for `backoff * 2 ** (attempt_count - 1)` after the failure.
pub decide-ready_iff :
    (policy : RetryPolicy) (n : ℕ) (category : FailureCategory) (now at : ℕ)
    → 1 ≤ n
    → (decide policy n category (Datetime.aware now) ≡ ok (RetryOutcome.ready_at at)) ↔ (
        (category ≡ FailureCategory.transient)
        × (n < policy.max_attempts)
        × (at ≡ now + policy.backoff * 2 ^ (n - 1)))
unfolding decide
decide-ready_iff policy n FailureCategory.transient now at h = ground arith
decide-ready_iff policy n FailureCategory.permanent now at h = ground arith

retry_time :
    (policy : RetryPolicy) (n now at : ℕ)
    → decide policy (suc n) FailureCategory.transient (Datetime.aware now)
      ≡ ok (RetryOutcome.ready_at at)
    → at ≡ now + policy.backoff * 2 ^ n
retry_time policy n now at h =
    let e : suc n - 1 ≡ n = omega arith in
    rw e at ((decide-ready_iff policy (suc n) FailureCategory.transient now at (omega arith)).0 h).2

backoff_positive :
    (max_attempts backoff : ℕ) {policy : RetryPolicy}
    → make_retry_policy max_attempts backoff ≡ ok policy
    → 0 < policy.backoff
unfolding make_retry_policy
backoff_positive max_attempts backoff h = ground arith

pow-pos : (n : ℕ) → 0 < 2 ^ n
pow-pos zero = omega arith
pow-pos (suc n) = omega (arith, pow-pos n, pow-suc 2 n)

mul_positive : (a b : ℕ) → 0 < a → 0 < b → 0 < a * b
mul_positive a b p q = grind arith

backoff_doubles :
    (b n now u v : ℕ)
    → 0 < b
    → now + u ≡ now + b * 2 ^ n
    → now + v ≡ now + b * 2 ^ suc n
    → (0 < u) × (v ≡ 2 * u)
backoff_doubles b n now u v h p q =
    let positive : 0 < b * 2 ^ n = mul_positive b (2 ^ n) h (pow-pos n) in
    let double : b * 2 ^ suc n ≡ b * (2 ^ n * 2) = ap (λ t. b * t) (pow-suc 2 n) in
    (omega arith, omega arith)

-- Under a policy that its constructor accepts, a retry lies after the failure, and the delay after
-- the next failure is twice as long.
pub decide_backoff :
    (max_attempts backoff n now u v : ℕ) {policy : RetryPolicy}
    → make_retry_policy max_attempts backoff ≡ ok policy
    → decide policy (suc n) FailureCategory.transient (Datetime.aware now)
      ≡ ok (RetryOutcome.ready_at (now + u))
    → decide policy (suc (suc n)) FailureCategory.transient (Datetime.aware now)
      ≡ ok (RetryOutcome.ready_at (now + v))
    → (0 < u) × (v ≡ 2 * u)
decide_backoff max_attempts backoff n now u v {policy} h a b =
    let first : now + u ≡ now + policy.backoff * 2 ^ n = retry_time policy n now (now + u) a in
    let second : now + v ≡ now + policy.backoff * 2 ^ suc n =
      retry_time policy (suc n) now (now + v) b in
    backoff_doubles policy.backoff n now u v (backoff_positive max_attempts backoff h) first second
