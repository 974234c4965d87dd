-- ===== src/Jobs/Domain.antt =====
-- reconciliation/domain/jobs.py: claim, lease and retry contracts, without a database.
use reconciliation_workbench.Common.{
  ℕ, ◌+◌, ◌-◌, ◌*◌, ◌^◌, Bool, true, false, Option, none, some, Result, ok, raise, Error, bind,
  require, if◌then◌else◌, ltb, leb, is_none, is_some,
}
use reconciliation_workbench.Workspaces.Domain.{Datetime, as_utc}
use reconciliation_workbench.Workspaces.Tables.{JobState, FailureCategory}

pub record ClaimSnapshot : Type 0 where
  pub state : JobState
  pub available_at : ℕ
  pub lease_until : Option ℕ

abbrev pub is_leased : JobState → Bool
is_leased JobState.leased = true
is_leased JobState.ready = false
is_leased JobState.succeeded = false
is_leased JobState.failed = false

abbrev pub optional_utc : Option Datetime → Result (Option ℕ)
optional_utc none = ok none
optional_utc (some t) = bind (as_utc t) (λ u. ok (some u))

-- `ClaimSnapshot.__post_init__`
unfoldable pub make_snapshot : JobState → Datetime → Option Datetime → Result ClaimSnapshot
unfolding as_utc
make_snapshot state available_at lease_until = bind (as_utc available_at) λ available.
    bind (optional_utc lease_until) λ lease.
      if is_leased state
      then (if is_none lease
          then raise Error.domain_validation
          else ok (record { state = state; available_at = available; lease_until = lease }))
      else (if is_some lease
          then raise Error.domain_validation
          else ok (record { state = state; available_at = available; lease_until = lease }))

-- The `assert` of `is_claimable`; a snapshot that `make_snapshot` built does not meet the `none`.
abbrev pub lease_over : Option ℕ → ℕ → Bool
lease_over none current = false
lease_over (some lease) current = ltb lease current

-- The tests of `is_claimable`, at an instant.
unfoldable pub claimable_at : ClaimSnapshot → ℕ → Bool
claimable_at s current = elim s.state [
  | JobState.ready ↦ leb s.available_at current
  | JobState.leased ↦ lease_over s.lease_until current
  | _ ↦ false
]

-- `is_claimable`
unfoldable pub is_claimable : ClaimSnapshot → Datetime → Result Bool
unfolding as_utc claimable_at
is_claimable s now = bind (as_utc now) (λ current. ok (claimable_at s current))

-- A `RetryOutcome` that its `__post_init__` accepts: ready at a time, or failed with none.
pub data RetryOutcome : Type 0 where
  ready_at : (available_at : ℕ) → RetryOutcome
  failed : RetryOutcome

pub record RetryPolicy : Type 0 where
  pub max_attempts : ℕ
  pub backoff : ℕ

-- `RetryPolicy.__post_init__`
unfoldable pub make_retry_policy : (max_attempts backoff : ℕ) → Result RetryPolicy
make_retry_policy max_attempts backoff =
    bind (require (leb 1 max_attempts) Error.domain_validation) λ _.
      bind (require (ltb 0 backoff) Error.domain_validation)
        λ _. ok (record { max_attempts = max_attempts; backoff = backoff })

-- The branches of `RetryPolicy.decide` behind its two checks. The range errors of `timedelta` and
-- `datetime`, which a delay beyond their bounds meets, are left out.
unfoldable pub outcome_at : RetryPolicy → (attempt_count : ℕ) → FailureCategory → ℕ → RetryOutcome
outcome_at policy attempt_count FailureCategory.permanent current = RetryOutcome.failed
outcome_at policy attempt_count FailureCategory.transient current =
    if leb policy.max_attempts attempt_count
    then RetryOutcome.failed
    else RetryOutcome.ready_at (current + policy.backoff * 2 ^ (attempt_count - 1))

-- `RetryPolicy.decide`
unfoldable pub decide :
    RetryPolicy → (attempt_count : ℕ) → FailureCategory → Datetime → Result RetryOutcome
unfolding as_utc outcome_at
decide policy attempt_count category now =
    bind (require (leb 1 attempt_count) Error.domain_validation)
      λ _. bind (as_utc now) (λ current. ok (outcome_at policy attempt_count category current))
