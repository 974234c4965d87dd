-- ===== src/Jobs/Claims.antt =====
-- Which work items can be claimed, and what a claim of one item answers and leaves.
use reconciliation_workbench.Common.{
  ℕ, ◌+◌, inl, inr, Option-cases, ◌&&◌, not, ◌==◌, find, [], ◌∷◌, ◌++◌, ◌≡◌, Bool, true, some, none,
  ok, bind, map_option, arith,
}
use reconciliation_workbench.Workspaces.Domain.{Datetime}
use reconciliation_workbench.Workspaces.Tables.{WorkItem, Database, lease_shape, attempt_of}
use reconciliation_workbench.Jobs.Domain.{make_snapshot, is_claimable}
use reconciliation_workbench.Jobs.Services.{
  claimable_row, claim_one, ClaimedWork, leased_row, claim_row, claim_found, create_attempt,
  granted, update_item,
}

-- The condition of the SQL query agrees with the domain's rule on each row that meets the check
-- constraint on its lease.
pub claimable_row-is_claimable :
    (i : WorkItem) (now : ℕ)
    → lease_shape i.state i.lease_until i.current_token ≡ true
    → bind
        (make_snapshot i.state
          (Datetime.aware i.available_at)
          (map_option Datetime.aware i.lease_until))
        (λ s. is_claimable s (Datetime.aware now))
      ≡ ok (claimable_row now i)
unfolding make_snapshot is_claimable claimable_row lease_shape
claimable_row-is_claimable i now h = ground arith

-- The database after a claim of the row `i`.
abbrev pub after_claim : (token now duration : ℕ) → WorkItem → Database → Database
after_claim token now duration i db =
    let db' = update_item i.id (leased_row token (now + duration) now) db in
    record db' { job_attempts = db.job_attempts ++ granted token now (now + duration) i ∷ [] }

-- A claim that returns work has found a claimable row that no other transaction holds, and a token
-- that was not in use.
pub claim_one-eq-some :
    (locked : ℕ → Bool) (token item now duration : ℕ) (db db' : Database) (work : ClaimedWork)
    → claim_one locked token item now duration db ≡ (ok (some work), db')
    → (i : WorkItem) × (find
          (λ i. i.id == item && not (locked i.id) && claimable_row now i)
          db.work_items
        ≡ some i)
      × (attempt_of token db ≡ none)
      × (db' ≡ after_claim token now duration i db)
      × (work ≡ record { work_item = leased_row token (now + duration) now i; token = token })
unfolding claim_one claim_found claim_row create_attempt attempt_of
claim_one-eq-some locked token item now duration db db' work h =
    elim (Option-cases
      (find (λ i. i.id == item && not (locked i.id) && claimable_row now i) db.work_items)) [
        | inl e ↦ absurd (ground arith)
        | inr (i, e) ↦ (i, e, ground arith, ground arith, ground arith)
      ]

-- A call that finds no claimable row returns nothing and changes nothing.
pub claim_one-none :
    (locked : ℕ → Bool) (token item now duration : ℕ) (db : Database)
    → find (λ i. i.id == item && not (locked i.id) && claimable_row now i) db.work_items ≡ none
    → claim_one locked token item now duration db ≡ (ok none, db)
unfolding claim_one claim_found
claim_one-none locked token item now duration db h = ground arith
