-- ===== src/Resolutions/Steps.antt =====
-- The calls of the command service of resolutions/services.py on one store, in any order. `uuid4` draws
-- identities that no row carries.
use reconciliation_workbench.Common.{ℕ, ◌≡◌, List, none, Action}
use reconciliation_workbench.Review.Domain.{
  DecisionAuthority, DecisionCommand, ExpectedDecisionRevision,
}
use reconciliation_workbench.Resolutions.Tables.{Store, TransactionObservation, decision_at}
use reconciliation_workbench.Resolutions.Commands
use reconciliation_workbench.Resolutions.Writes.{IsFresh}

-- The two methods that commit.
pub data Method : Type 0 where
  initial change : Method

-- What a call passes, with the clock and the identities that it draws.
pub record Call : Type 0 where
  pub uuid : ℕ
  pub now : ℕ
  pub decision : ℕ
  pub revision : ℕ
  pub workspace : ℕ
  pub book : ℕ
  pub command : DecisionCommand

-- The identities that a call draws are new.
pub record IsDrawn (x : Call) (s : Store) : Type 0 where
  pub decision : decision_at x.decision s ≡ none
  pub revision : IsFresh x.revision s

module _ (m : ℕ) (strip : ℕ → ℕ) (digest : List TransactionObservation → ℕ) where
  abbrev pub commit : Method → Call → Action Store (Unit {0})
  commit Method.initial x s =
      Commands.commit_initial m x.uuid strip digest x.now x.decision x.revision x.workspace x.book
        x.command s
  commit Method.change x s =
      Commands.commit_change m x.uuid strip digest x.now x.revision x.workspace x.book x.command s

  pub data Step (s s' : Store) : Type 0 where
    committed : (f : Method) (x : Call) → IsDrawn x s → s' ≡ (commit f x s).1 → Step s s'
    previewed :
        (uuid now workspace book : ℕ) (target : ExpectedDecisionRevision)
        (authority : DecisionAuthority)
        → s' ≡ (Commands.preview_replacement m uuid now workspace book target authority s).1
        → Step s s'

  pub data Reach (s : Store) : Store → Type 0 where
    here : Reach s s
    next : {s' s'' : Store} → Reach s s' → Step s' s'' → Reach s s''
