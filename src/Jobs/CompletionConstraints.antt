-- ===== src/Jobs/CompletionConstraints.antt =====
-- Completing and failing work keep the constraints.
use reconciliation_workbench.Common.{
  ◌≢◌, ℕ, ◌≡◌, true, arith, inl, inr, Keeps, and_then_keeps, ◌>>=◌, ◌>>◌, refl, false, atomic-Keeps,
  Bool-cases, pure,
}
use reconciliation_workbench.Workspaces.Domain.{QuotaAmounts}
use reconciliation_workbench.Workspaces.Tables.{
  WorkItem, Database, JobState, JobAttemptOutcome, FailureCategory,
}
use reconciliation_workbench.Workspaces.Quotas.{release}
use reconciliation_workbench.Jobs.Domain.{RetryOutcome}
use reconciliation_workbench.Jobs.Services.{
  update_item, write_attempt, finished_row, fence, settle_success, settle_failure, leased_item,
  holds_token, mark_succeeded, mark_failed, release_job, one_active_job, succeed, fail,
  release_failed, outcome_state, next_available_at, closed_attempt, failed_attempt,
}
use reconciliation_workbench.Jobs.Constraints.{IsSound, release-Keeps}
use reconciliation_workbench.Jobs.ClaimConstraints.{
  update_item-Keeps, write_attempt-Keeps, finished_row-IsItem,
}

module _ (m u : ℕ) (limits : QuotaAmounts) (clock : ℕ) where
  pub release_job-Keeps : (k : ℕ) → Keeps (IsSound limits) (release_job m u limits clock k)
  release_job-Keeps k db h =
      and_then_keeps (IsSound limits) (release m u limits clock k one_active_job db) (λ _. pure tt)
        (release-Keeps m u limits clock k one_active_job db h) (λ _ _ p. p)

  pub succeed-Keeps :
      (token now : ℕ) (i : WorkItem) → Keeps (IsSound limits) (succeed m u limits clock token now i)
  unfolding succeed
  succeed-Keeps token now i db h =
      let db₁ = update_item i.id (λ j. finished_row JobState.succeeded j.available_at now j) db in
      and_then_keeps (IsSound limits)
        (write_attempt token (closed_attempt JobAttemptOutcome.succeeded now) db₁)
        (λ _. release_job m u limits clock i.workspace >> pure true)
        (write_attempt-Keeps limits token _ (λ a. refl) (λ a g. g) db₁
          (update_item-Keeps limits i.id _
            (λ j. finished_row-IsItem limits JobState.succeeded j.available_at now j (λ e. cc)) db
            h))
        λ _ db₂ h₂.
          and_then_keeps (IsSound limits) (release_job m u limits clock i.workspace db₂)
            (λ _. pure true) (release_job-Keeps i.workspace db₂ h₂) (λ _ _ p. p)

  pub release_failed-Keeps :
      (outcome : RetryOutcome) (k : ℕ)
      → Keeps (IsSound limits) (release_failed m u limits clock outcome k)
  release_failed-Keeps (RetryOutcome.ready_at t) k db h = h
  release_failed-Keeps RetryOutcome.failed k db h = release_job-Keeps k db h

  pub outcome_state-ne : (outcome : RetryOutcome) → outcome_state outcome ≢ JobState.leased
  outcome_state-ne (RetryOutcome.ready_at t) = λ e. cc
  outcome_state-ne RetryOutcome.failed = λ e. cc

  pub fail-Keeps :
      (token : ℕ) (outcome : RetryOutcome) (category : FailureCategory) (now : ℕ) (i : WorkItem)
      → Keeps (IsSound limits) (fail m u limits clock token outcome category now i)
  unfolding fail
  fail-Keeps token outcome category now i db h =
      let db₁ =
        update_item i.id (finished_row (outcome_state outcome) (next_available_at outcome i) now)
          db in
      and_then_keeps (IsSound limits) (write_attempt token (failed_attempt category now) db₁)
        (λ _. release_failed m u limits clock outcome i.workspace >> pure true)
        (write_attempt-Keeps limits token _ (λ a. refl) (λ a g. g) db₁
          (update_item-Keeps limits i.id _
            (λ j. finished_row-IsItem limits _ _ now j (outcome_state-ne outcome)) db h))
        λ _ db₂ h₂.
          and_then_keeps (IsSound limits) (release_failed m u limits clock outcome i.workspace db₂)
            (λ _. pure true) (release_failed-Keeps outcome i.workspace db₂ h₂) (λ _ _ p. p)

  fence-Keeps : (token now : ℕ) → Keeps (IsSound limits) (fence token now)
  unfolding fence
  fence-Keeps token now db h =
      and_then_keeps (IsSound limits)
        (write_attempt token (closed_attempt JobAttemptOutcome.expired now) db) (λ _. pure false)
        (write_attempt-Keeps limits token _ (λ a. refl) (λ a g. g) db h) (λ _ _ p. p)

  settle_success-Keeps :
      (token now : ℕ) (i : WorkItem)
      → Keeps (IsSound limits) (settle_success m u limits clock token now i)
  unfolding settle_success
  settle_success-Keeps token now i db h = elim (Bool-cases (holds_token i.current_token token)) [
    | inl held ↦ rw held (succeed-Keeps token now i db h)
    | inr lost ↦ rw lost (fence-Keeps token now db h)
  ]

  settle_failure-Keeps :
      (token : ℕ) (outcome : RetryOutcome) (category : FailureCategory) (now : ℕ) (i : WorkItem)
      → Keeps (IsSound limits) (settle_failure m u limits clock token outcome category now i)
  unfolding settle_failure
  settle_failure-Keeps token outcome category now i db h =
      elim (Bool-cases (holds_token i.current_token token)) [
        | inl held ↦ rw held (fail-Keeps token outcome category now i db h)
        | inr lost ↦ rw lost (fence-Keeps token now db h)
      ]

  leased_item-state : (token : ℕ) (db : Database) → (leased_item token db).1 ≡ db
  unfolding leased_item
  leased_item-state token db = ground arith

  leased_item-Keeps : (token : ℕ) → Keeps (IsSound limits) (leased_item token)
  leased_item-Keeps token db h = rw (leased_item-state token db) h

  pub mark_succeeded-Keeps :
      (token now : ℕ) → Keeps (IsSound limits) (mark_succeeded m u limits clock token now)
  unfolding mark_succeeded
  mark_succeeded-Keeps token now =
      atomic-Keeps (IsSound limits)
        (leased_item token >>= settle_success m u limits clock token now)
        λ db h.
          and_then_keeps (IsSound limits) (leased_item token db)
            (settle_success m u limits clock token now) (leased_item-Keeps token db h)
            (settle_success-Keeps token now)

  pub mark_failed-Keeps :
      (token : ℕ) (outcome : RetryOutcome) (category : FailureCategory) (now : ℕ)
      → Keeps (IsSound limits) (mark_failed m u limits clock token outcome category now)
  unfolding mark_failed
  mark_failed-Keeps token outcome category now =
      atomic-Keeps (IsSound limits)
        (leased_item token >>= settle_failure m u limits clock token outcome category now)
        λ db h.
          and_then_keeps (IsSound limits) (leased_item token db)
            (settle_failure m u limits clock token outcome category now)
            (leased_item-Keeps token db h) (settle_failure-Keeps token outcome category now)
