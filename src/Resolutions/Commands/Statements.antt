-- ===== src/Resolutions/Commands/Statements.antt =====
-- The statements on the tables that `DecisionCommandService` of resolutions/services.py is made of, under
-- the constraints of resolutions/models.py.
use reconciliation_workbench.Common.{
  ℕ, ◌+◌, Bool, true, false, not, ◌&&◌, ◌||◌, Option, none, some, List, [], ◌∷◌, ◌++◌, map, Result,
  ok, raise, Error, ReviewConflictCode, bind, require, if◌then◌else◌, ◌==◌, select, update_where,
  any_of, all_of,
}
use reconciliation_workbench.Workspaces.Tables.{Database}
use reconciliation_workbench.Review.Domain.{
  DecisionAction, DecisionAuthority, DecisionCommand, member, reserves_endpoints, unique,
}
use reconciliation_workbench.Resolutions.Tables.{
  ReconciliationBook, TransactionObservation, Decision, DecisionRevision, DecisionSupersession,
  ActiveDecisionClaim, Store,
}
use reconciliation_workbench.Resolutions.Checks.{conflict, endpoints}

-- `except (Workspace.DoesNotExist, WorkspaceUnavailable)`
abbrev pub translated : Error → Error
translated Error.workspace_unavailable = Error.decision_mutation_unavailable
translated e = e

abbrev pub entered : Store → Result (Unit {0}) × Database → Result (Unit {0}) × Store
entered s (ok u, base) = (ok u, record s { base = base })
entered s (raise e, base) = (raise (translated e), record s { base = base })

-- The rows that are added.
abbrev pub add_decision : Decision → Store → Store
add_decision d s = record s { decisions = s.decisions ++ d ∷ [] }

abbrev pub set_current : (decision revision : ℕ) → Store → Store
set_current decision revision s = record s {
  decisions =
      update_where (λ d. d.id == decision) (λ d. record d { current_revision = some revision })
        s.decisions;
}

abbrev pub same_number : Option ℕ → Option ℕ → Bool
same_number (some a) (some b) = a == b
same_number _ _ = false

abbrev pub is_taken : DecisionRevision → Store → Bool
is_taken r s =
    any_of
      (λ x.
        x.decision == r.decision && x.revision == r.revision
        || same_number x.predecessor r.predecessor)
      s.revisions

-- `DecisionRevision.objects.create`, under the constraints on the number of a revision in its decision
-- and on the successor of a revision.
unfoldable pub create_revision : DecisionRevision → Store → Result Store
create_revision r s =
    bind (require (not (is_taken r s)) Error.integrity_error)
      (λ _. ok (record s { revisions = s.revisions ++ r ∷ [] }))

abbrev pub claim_for : (workspace book revision : ℕ) → ℕ → ActiveDecisionClaim
claim_for workspace book revision logical = record {
  workspace = workspace;
  book = book;
  logical_transaction = logical;
  decision_revision = revision;
}

abbrev pub is_claimed : (book logical : ℕ) → List ActiveDecisionClaim → Bool
is_claimed book logical cs = any_of (λ c. c.book == book && c.logical_transaction == logical) cs

abbrev pub are_free : (book : ℕ) → List ℕ → Store → Bool
are_free book ends s = unique ends && all_of (λ l. not (is_claimed book l s.claims)) ends

-- `ActiveDecisionClaim.objects.bulk_create`, under the constraint that a book's logical transaction has
-- one claim. The service turns the `IntegrityError` into a conflict.
unfoldable pub create_claims : (workspace book revision : ℕ) → List ℕ → Store → Result Store
create_claims workspace book revision ends s =
    bind (require (are_free book ends s) (conflict ReviewConflictCode.endpoint_claimed []))
      (λ _. ok (record s { claims = s.claims ++ map (claim_for workspace book revision) ends }))

-- `if authority.reserves_endpoints`
unfoldable pub reserve_claims :
    (workspace book revision : ℕ) → DecisionAuthority → Store → Result Store
reserve_claims workspace book revision a s =
    if reserves_endpoints a then create_claims workspace book revision (endpoints a) s else ok s

-- The update of the book's generation, and of the scopes that are made dirty.
unfoldable pub advance : (workspace book : ℕ) → Store → Store
advance workspace book s = record s {
  books =
      update_where (λ b. b.id == book)
        (λ b. record b { resolution_generation = b.resolution_generation + 1 }) s.books;
  scopes =
      update_where (λ x. x.workspace == workspace && x.book == book)
        (λ x. record x { is_dirty = true; generation = x.generation + 1 }) s.scopes;
}

abbrev pub is_initial : DecisionAction → Bool
is_initial DecisionAction.link = true
is_initial DecisionAction.accept_unmatched = true
is_initial DecisionAction.reject_candidate = true
is_initial _ = false

abbrev pub require_generation : DecisionCommand → ReconciliationBook → Result (Unit {0})
require_generation command b =
    require (b.resolution_generation == command.expected_resolution_generation)
      (conflict ReviewConflictCode.stale_generation [])

abbrev pub observation_ids : List TransactionObservation → List ℕ
observation_ids os = map (λ o. o.id) os

abbrev pub digest_of : (List TransactionObservation → ℕ) → List TransactionObservation → Option ℕ
digest_of digest [] = none
digest_of digest (o ∷ os) = some (digest (o ∷ os))

-- The deletion of the claims of some revisions.
abbrev pub delete_claims : (workspace book : ℕ) → List ℕ → Store → Store
delete_claims workspace book revisions s = record s {
  claims =
      select
        (λ c.
          not (c.workspace == workspace && c.book == book && member c.decision_revision revisions))
        s.claims;
}

abbrev pub move_claims : (workspace book old new : ℕ) → Store → Store
move_claims workspace book old new s = record s {
  claims =
      update_where (λ c. c.workspace == workspace && c.book == book && c.decision_revision == old)
        (λ c. record c { decision_revision = new }) s.claims;
}

abbrev pub supersession : (workspace replacement created_at : ℕ) → ℕ → DecisionSupersession
supersession workspace replacement created_at revision = record {
  workspace = workspace;
  replacement_revision = replacement;
  superseded_revision = revision;
  created_at = created_at;
}

abbrev pub can_supersede : (replacement : ℕ) → List ℕ → Store → Bool
can_supersede replacement revisions s =
    unique revisions
    && not (member replacement revisions)
    && not (
        any_of
          (λ x. x.replacement_revision == replacement && member x.superseded_revision revisions)
          s.supersessions)

-- `DecisionSupersession.objects.bulk_create`, under the constraints that the pairs are unique and that
-- no revision supersedes itself.
unfoldable pub supersede : (workspace replacement created_at : ℕ) → List ℕ → Store → Result Store
supersede workspace replacement created_at revisions s =
    bind (require (can_supersede replacement revisions s) Error.integrity_error) λ _. ok (record s {
      supersessions =
          s.supersessions ++ map (supersession workspace replacement created_at) revisions;
    })
