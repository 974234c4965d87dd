-- ===== src/Jobs/Services/Claiming.antt =====
-- Claiming work in jobs/services.py: `claim_batch` and `claim_one`.
use reconciliation_workbench.Common.{
  ℕ, suc, ◌+◌, Bool, false, Option, none, some, List, [], ◌∷◌, ◌++◌, ◌&&◌, Error, Action, ◌>>=◌,
  ◌>>◌, pure, get, modify, guard, atomic, if◌then◌else◌, ltb, leb, ◌==◌, not, is_none, find, select,
  take, update_where,
}
use reconciliation_workbench.Workspaces.Tables.{
  JobKind, JobState, WorkItem, JobAttempt, Database, same_kind, attempt_of,
}

abbrev pub lease_before : Option ℕ → ℕ → Bool
lease_before none now = false
lease_before (some lease) now = ltb lease now

-- `_claimable`: the condition of the SQL query. A comparison with NULL does not hold.
unfoldable pub claimable_row : ℕ → WorkItem → Bool
claimable_row now i = elim i.state [
  | JobState.ready ↦ leb i.available_at now
  | JobState.leased ↦ lease_before i.lease_until now
  | _ ↦ false
]

-- What `_claim_row` writes to the work item.
abbrev pub leased_row : (token lease_until now : ℕ) → WorkItem → WorkItem
leased_row token lease_until now i = record i {
  state = JobState.leased;
  lease_until = some lease_until;
  current_token = some token;
  attempt_count = i.attempt_count + 1;
  updated_at = now;
}

abbrev pub update_item : ℕ → (WorkItem → WorkItem) → Database → Database
update_item i f db = record db { work_items = update_where (λ w. w.id == i) f db.work_items }

abbrev pub update_attempt : ℕ → (JobAttempt → JobAttempt) → Database → Database
update_attempt t f db = record db {
  job_attempts = update_where (λ a. a.token == t) f db.job_attempts;
}

-- The attempt that `_claim_row` creates.
abbrev pub granted : (token now lease_until : ℕ) → WorkItem → JobAttempt
granted token now lease_until item = record {
  workspace = item.workspace;
  work_item = item.id;
  token = token;
  leased_at = now;
  lease_until = lease_until;
  completed_at = none;
  outcome = none;
  failure_category = none;
}

-- `JobAttempt.objects.create`: the token is unique, and a lease ends after its grant
-- (`job_attempt_lease_after_grant`).
unfoldable pub create_attempt : WorkItem → (token now lease_until : ℕ) → Action Database (Unit {0})
create_attempt item token now lease_until = do
  db ← get
  guard (is_none (attempt_of token db)) Error.integrity_error
  guard (ltb now lease_until) Error.integrity_error
  modify (λ db. record db {
    job_attempts = db.job_attempts ++ granted token now lease_until item ∷ [];
  })

-- `ClaimedWork`
pub record ClaimedWork : Type 0 where
  pub work_item : WorkItem
  pub token : ℕ

-- `_claim_row`
unfoldable pub claim_row : (token now lease_duration : ℕ) → WorkItem → Action Database ClaimedWork
claim_row token now lease_duration item = do
  modify (update_item item.id (leased_row token (now + lease_duration) now))
  create_attempt item token now (now + lease_duration)
  pure (record { work_item = leased_row token (now + lease_duration) now item; token = token })

-- `order_by("available_at")`
unfoldable pub insert_by_available : WorkItem → List WorkItem → List WorkItem
insert_by_available i [] = i ∷ []
insert_by_available i (j ∷ js) =
    let rest = insert_by_available i js in
    if leb i.available_at j.available_at then i ∷ j ∷ js else j ∷ rest

unfoldable pub order_by_available : List WorkItem → List WorkItem
order_by_available [] = []
order_by_available (i ∷ is) = insert_by_available i (order_by_available is)

-- The list comprehension of `claim_batch`: the n-th row takes the n-th token drawn.
unfoldable pub claim_rows :
    (draw : ℕ → ℕ) (n now lease_duration : ℕ) → List WorkItem → Action Database (List ClaimedWork)
claim_rows draw n now lease_duration [] = pure []
claim_rows draw n now lease_duration (i ∷ is) = do
  work ← claim_row (draw n) now lease_duration i
  rest ← claim_rows draw (suc n) now lease_duration is
  pure (work ∷ rest)

-- The rows that the query of `claim_batch` selects and locks.
unfoldable pub candidates :
    (locked : ℕ → Bool) → JobKind → (now batch_size : ℕ) → Database → List WorkItem
candidates locked kind now batch_size db = take batch_size (
    order_by_available (
      select (λ i. not (locked i.id) && same_kind i.kind kind && claimable_row now i)
        db.work_items))

-- `claim_batch`
unfoldable pub claim_batch :
    (locked : ℕ → Bool) (draw : ℕ → ℕ)
    → JobKind
    → (now lease_duration batch_size : ℕ) → Action Database (List ClaimedWork)
claim_batch locked draw kind now lease_duration batch_size =
    atomic
      (do db ← get; claim_rows draw 0 now lease_duration (candidates locked kind now batch_size db))

-- What `claim_one` does with the first row of its query.
unfoldable pub claim_found :
    (token now lease_duration : ℕ) → Option WorkItem → Action Database (Option ClaimedWork)
claim_found token now lease_duration none = pure none
claim_found token now lease_duration (some i) = do
  work ← claim_row token now lease_duration i
  pure (some work)

-- `claim_one`
unfoldable pub claim_one :
    (locked : ℕ → Bool) (token item now lease_duration : ℕ) → Action Database (Option ClaimedWork)
claim_one locked token item now lease_duration = atomic (do
  db ← get
  claim_found token now lease_duration
      (find (λ i. i.id == item && not (locked i.id) && claimable_row now i) db.work_items))
