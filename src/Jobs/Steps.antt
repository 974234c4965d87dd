-- ===== src/Jobs/Steps.antt =====
-- The calls that workers, request handlers and the cleanup make on one database, as a step
-- relation: each is one transaction, or a short row of them, and they follow one another in any
-- order.
use reconciliation_workbench.Common.{ℕ, Bool, ◌≡◌, ◌≢◌, none}
use reconciliation_workbench.Workspaces.Domain.{Datetime, QuotaAmounts}
use reconciliation_workbench.Workspaces.Tables.{JobKind, FailureCategory, Target, Database, item_of}
use reconciliation_workbench.Workspaces.Lifecycle
use reconciliation_workbench.Jobs.Domain.{RetryOutcome}
use reconciliation_workbench.Jobs.Services

-- Only the lifecycle service creates cleanup work, and `uuid4` draws an identity that is not in use.
pub data Step (m : ℕ) (limits : QuotaAmounts) (db db' : Database) : Type 0 where
  enqueue :
      (uuid clock workspace item : ℕ) (kind : JobKind) (max_attempts now : ℕ) (target : Target)
      → kind ≢ JobKind.workspace_cleanup
      → item_of item db ≡ none
      → db'
        ≡ (Services.enqueue m uuid limits clock workspace item kind max_attempts now target db).1
      → Step m limits db db'
  claim_one :
      (locked : ℕ → Bool) (token item now lease_duration : ℕ)
      → db' ≡ (Services.claim_one locked token item now lease_duration db).1
      → Step m limits db db'
  claim_batch :
      (locked : ℕ → Bool) (draw : ℕ → ℕ) (kind : JobKind) (now lease_duration batch_size : ℕ)
      → db' ≡ (Services.claim_batch locked draw kind now lease_duration batch_size db).1
      → Step m limits db db'
  mark_succeeded :
      (uuid clock token now : ℕ)
      → db' ≡ (Services.mark_succeeded m uuid limits clock token now db).1
      → Step m limits db db'
  mark_failed :
      (uuid clock token : ℕ) (outcome : RetryOutcome) (category : FailureCategory) (now : ℕ)
      → db' ≡ (Services.mark_failed m uuid limits clock token outcome category now db).1
      → Step m limits db db'
  expire :
      (uuid workspace : ℕ) (now : Datetime)
      → item_of uuid db ≡ none
      → db' ≡ (Lifecycle.expire m uuid workspace now db).1
      → Step m limits db db'
  delete :
      (uuid workspace : ℕ) (now : Datetime)
      → item_of uuid db ≡ none
      → db' ≡ (Lifecycle.delete m uuid workspace now db).1
      → Step m limits db db'

pub data Reach (m : ℕ) (limits : QuotaAmounts) (db : Database) : Database → Type 0 where
  here : Reach m limits db db
  next :
      {db' db'' : Database}
      → Reach m limits db db'
      → Step m limits db' db''
      → Reach m limits db db''
