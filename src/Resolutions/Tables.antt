-- ===== src/Resolutions/Tables.antt =====
-- The rows of resolutions/models.py, and the columns that the command service reads of books/models.py
-- and ingestion/models.py. A text that names a row is the number of its UUID: any other text names no
-- row. The source of a logical transaction is joined to it, with its book and its role.
use reconciliation_workbench.Common.{ℕ, Bool, true, false, Option, List, ◌==◌, find}
use reconciliation_workbench.Workspaces.Tables.{Database}
use reconciliation_workbench.Review.Domain.{DecisionAction, DecisionAuthority, RecordSide}

pub record ReconciliationBook : Type 0 where
  pub id : ℕ
  pub workspace : ℕ
  pub resolution_generation : ℕ

pub record ReconciliationScope : Type 0 where
  pub id : ℕ
  pub workspace : ℕ
  pub book : ℕ
  pub is_dirty : Bool
  pub generation : ℕ

pub record LogicalTransaction : Type 0 where
  pub id : ℕ
  pub workspace : ℕ
  pub book : ℕ
  pub role : RecordSide

pub record TransactionObservation : Type 0 where
  pub id : ℕ
  pub workspace : ℕ
  pub logical_transaction : ℕ
  pub fingerprint : ℕ

pub record Decision : Type 0 where
  pub id : ℕ
  pub workspace : ℕ
  pub book : ℕ
  pub current_revision : Option ℕ
  pub created_at : ℕ

-- The columns of an authority are null together, or are those of one authority
-- (`decision_authority_shape_valid`).
pub record DecisionRevision : Type 0 where
  pub id : ℕ
  pub workspace : ℕ
  pub decision : ℕ
  pub predecessor : Option ℕ
  pub revision : ℕ
  pub action : DecisionAction
  pub authority : Option DecisionAuthority
  pub reason : ℕ
  pub actor : ℕ
  pub reviewed_observation_ids : List ℕ
  pub reviewed_evidence_digest : Option ℕ
  pub created_at : ℕ

pub record DecisionSupersession : Type 0 where
  pub workspace : ℕ
  pub replacement_revision : ℕ
  pub superseded_revision : ℕ
  pub created_at : ℕ

pub record ActiveDecisionClaim : Type 0 where
  pub workspace : ℕ
  pub book : ℕ
  pub logical_transaction : ℕ
  pub decision_revision : ℕ

abbrev pub is_revocation : DecisionAction → Bool
is_revocation DecisionAction.revoke = true
is_revocation _ = false

-- The tables of workspaces and jobs, and those of the decisions.
pub record Store : Type 0 where
  pub base : Database
  pub books : List ReconciliationBook
  pub scopes : List ReconciliationScope
  pub logical_transactions : List LogicalTransaction
  pub observations : List TransactionObservation
  pub decisions : List Decision
  pub revisions : List DecisionRevision
  pub supersessions : List DecisionSupersession
  pub claims : List ActiveDecisionClaim

-- `.get(id=...)`: an identity is a primary key.
unfoldable pub book_at : ℕ → Store → Option ReconciliationBook
book_at i s = find (λ b. b.id == i) s.books

unfoldable pub logical_at : ℕ → Store → Option LogicalTransaction
logical_at i s = find (λ l. l.id == i) s.logical_transactions

unfoldable pub decision_at : ℕ → Store → Option Decision
decision_at i s = find (λ d. d.id == i) s.decisions

unfoldable pub revision_at : ℕ → Store → Option DecisionRevision
revision_at i s = find (λ r. r.id == i) s.revisions
