-- ===== src/Resolutions/Approval.antt =====
-- From `preview_replacement` to the REPLACE of `commit_change`, in resolutions/services.py.
use reconciliation_workbench.Common.{ℕ, ◌≡◌, true, some, ok}
use reconciliation_workbench.Review.Domain.{DecisionAuthority, ExpectedDecisionRevision}
use reconciliation_workbench.Review.Previews.{ReplacementPreview}
use reconciliation_workbench.Resolutions.Tables.{ReconciliationBook, DecisionRevision, Store}
use reconciliation_workbench.Resolutions.Checks.{find_book, resolves, claim_conflicts}

-- What a preview has shown of the store.
record IsShown (w b : ℕ) (target : ExpectedDecisionRevision) (a : DecisionAuthority) (s : Store)
    (p : ReplacementPreview) (cur : DecisionRevision) : Type 0 where
  book : ReconciliationBook
  found : find_book w b s ≡ ok book
  resolved : resolves w b s a ≡ true
  shown :
      record {
        authority = a;
        target = target;
        conflicts = claim_conflicts w b a (some cur.decision) s;
        resolution_generation = book.resolution_generation;
      }
      ≡ p
