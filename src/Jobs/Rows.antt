-- ===== src/Jobs/Rows.antt =====
-- What the queries for a work item and for an attempt answer after the updates of jobs/services.py.
use reconciliation_workbench.Common.{
  ℕ, ◌≡◌, some, none, find, find-append, find-update_where, ◌==◌, ◌++◌, [], ◌∷◌, map_option,
  or_else, if◌then◌else◌,
}
use reconciliation_workbench.Workspaces.Tables.{WorkItem, JobAttempt, Database, attempt_of, item_of}
use reconciliation_workbench.Jobs.Services.{update_item, update_attempt}

pub item_of-update_item :
    (k i : ℕ) (f : WorkItem → WorkItem) (db : Database)
    → ((w : WorkItem) → (f w).id ≡ w.id)
    → item_of k (update_item i f db) ≡ map_option (λ w. if w.id == i then f w else w) (item_of k db)
unfolding item_of
item_of-update_item k i f db h =
    find-update_where (λ w. w.id == k) (λ w. w.id == i) f db.work_items (λ w. rw (h w))

pub attempt_of-update_attempt :
    (k t : ℕ) (f : JobAttempt → JobAttempt) (db : Database)
    → ((a : JobAttempt) → (f a).token ≡ a.token)
    → attempt_of k (update_attempt t f db)
      ≡ map_option (λ a. if a.token == t then f a else a) (attempt_of k db)
unfolding attempt_of
attempt_of-update_attempt k t f db h =
    find-update_where (λ a. a.token == k) (λ a. a.token == t) f db.job_attempts (λ a. rw (h a))

pub attempt_of-append :
    (k : ℕ) (a : JobAttempt) (db : Database)
    → attempt_of k (record db { job_attempts = db.job_attempts ++ a ∷ [] })
      ≡ or_else (attempt_of k db) (if a.token == k then some a else none)
unfolding attempt_of find
attempt_of-append k a db = find-append (λ a. a.token == k) db.job_attempts (a ∷ [])
