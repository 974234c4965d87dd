-- ===== src/Workspaces/Domain.antt =====
-- reconciliation/domain/workspaces.py: lifecycle and quota contracts, without a database.
-- A duration or an instant is a number of microseconds; an instant counts from a fixed origin.
use reconciliation_workbench.Common.{
  ℕ, ◌+◌, Bool, true, false, Option, none, some, Result, ok, raise, Error, QuotaResource, bind,
  if◌then◌else◌, ltb, leb, ◌==◌,
}

-- A `datetime`: without a zone, or the instant that it denotes with its zone's offset taken off.
pub data Datetime : Type 0 where
  naive : (wall : ℕ) → Datetime
  aware : (instant : ℕ) → Datetime

-- `_as_utc`
unfoldable pub as_utc : Datetime → Result ℕ
as_utc (Datetime.naive wall) = raise Error.domain_validation
as_utc (Datetime.aware instant) = ok instant

pub data WorkspaceState : Type 0 where
  active revoked deleted : WorkspaceState

abbrev pub is_active : WorkspaceState → Bool
is_active WorkspaceState.active = true
is_active WorkspaceState.revoked = false
is_active WorkspaceState.deleted = false

pub data WorkspaceAccessFailure : Type 0 where
  expired revoked deleted : WorkspaceAccessFailure

pub record WorkspaceLifecycleResult : Type 0 where
  pub state : WorkspaceState
  pub access_allowed : Bool
  pub failure : Option WorkspaceAccessFailure
  pub requires_revocation : Bool

pub record ExpiryPolicy : Type 0 where
  pub retention : ℕ

-- `ExpiryPolicy.__post_init__`
unfoldable pub make_policy : ℕ → Result ExpiryPolicy
make_policy retention =
    if retention == 0 then raise Error.domain_validation else ok (record { retention = retention })

-- `ExpiryPolicy.expires_at`
unfoldable pub expires_at : ExpiryPolicy → Datetime → Result ℕ
expires_at policy created_at = bind (as_utc created_at) (λ t. ok (t + policy.retention))

-- The branches of `ExpiryPolicy.evaluate` behind its two conversions.
unfoldable pub evaluate_at : WorkspaceState → (expiry current : ℕ) → WorkspaceLifecycleResult
evaluate_at WorkspaceState.deleted expiry current = record {
  state = WorkspaceState.deleted;
  access_allowed = false;
  failure = some WorkspaceAccessFailure.deleted;
  requires_revocation = false;
}
evaluate_at WorkspaceState.revoked expiry current = record {
  state = WorkspaceState.revoked;
  access_allowed = false;
  failure = some WorkspaceAccessFailure.revoked;
  requires_revocation = false;
}
evaluate_at WorkspaceState.active expiry current =
    if leb expiry current
    then record {
      state = WorkspaceState.revoked;
      access_allowed = false;
      failure = some WorkspaceAccessFailure.expired;
      requires_revocation = true;
    }
    else record {
      state = WorkspaceState.active;
      access_allowed = true;
      failure = none;
      requires_revocation = false;
    }

-- `ExpiryPolicy.evaluate`
unfoldable pub evaluate :
    WorkspaceState → (expires_at now : Datetime) → Result WorkspaceLifecycleResult
unfolding as_utc evaluate_at
evaluate state expires_at now =
    bind (as_utc expires_at)
      (λ expiry. bind (as_utc now) (λ current. ok (evaluate_at state expiry current)))

-- Validated amounts: `__post_init__` refuses a negative one, so each is a natural number.
pub record QuotaAmounts : Type 0 where
  pub retained_bytes : ℕ
  pub books : ℕ
  pub active_jobs : ℕ

-- `QuotaAmounts.plus`
unfoldable pub plus : QuotaAmounts → QuotaAmounts → QuotaAmounts
plus a b = record {
  retained_bytes = a.retained_bytes + b.retained_bytes;
  books = a.books + b.books;
  active_jobs = a.active_jobs + b.active_jobs;
}

-- One round of the loop of `QuotaPolicy.reserve`.
unfoldable pub check : QuotaResource → (current addition total limit : ℕ) → Result (Unit {0})
check resource current addition total limit =
    if ltb limit total then raise (Error.quota_exceeded resource current addition limit) else ok tt

-- `QuotaPolicy.reserve`
unfoldable pub reserve_amounts : (limits usage requested : QuotaAmounts) → Result QuotaAmounts
unfolding plus check
reserve_amounts limits usage requested =
    let resulting = plus usage requested in
    bind
      (check QuotaResource.retained_bytes_resource usage.retained_bytes requested.retained_bytes
        resulting.retained_bytes limits.retained_bytes)
      λ _.
        bind
          (check QuotaResource.books_resource usage.books requested.books resulting.books
            limits.books)
          λ _.
            bind
              (check QuotaResource.active_jobs_resource usage.active_jobs requested.active_jobs
                resulting.active_jobs limits.active_jobs)
              (λ _. ok resulting)
