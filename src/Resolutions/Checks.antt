-- ===== src/Resolutions/Checks.antt =====
-- What `DecisionCommandService` of resolutions/services.py reads before it writes: each function
-- returns what it found, or raises.
use reconciliation_workbench.Common.{
  ℕ, Bool, false, not, ◌&&◌, ◌||◌, Option, none, some, List, [], ◌∷◌, map, length, Result, ok,
  raise, Error, ReviewConflictCode, bind, require, if◌then◌else◌, ltb, ◌==◌, select, any_of, all_of,
}
use reconciliation_workbench.Review.Domain.{
  is_side, DecisionAuthority, DecisionAuthorityKind, ExpectedDecisionRevision, RecordSide,
  endpoint_ids, reserves_endpoints, member,
}
use reconciliation_workbench.Review.Previews.{DecisionConflict, sort_conflicts}
use reconciliation_workbench.Resolutions.Tables.{
  ReconciliationBook, LogicalTransaction, TransactionObservation, Decision, DecisionRevision,
  ActiveDecisionClaim, Store, is_revocation, book_at, logical_at, decision_at, revision_at,
}

abbrev pub conflict : ReviewConflictCode → List (ℕ × ℕ) → Error
conflict = Error.decision_mutation_conflict

-- `_book` and `_locked_book`
abbrev pub own_book : ℕ → Option ReconciliationBook → Result ReconciliationBook
own_book workspace none = raise Error.decision_mutation_unavailable
own_book workspace (some b) =
    if b.workspace == workspace then ok b else raise Error.decision_mutation_unavailable

unfoldable pub find_book : (workspace book : ℕ) → Store → Result ReconciliationBook
find_book workspace book s = own_book workspace (book_at book s)

-- The values of an authority's endpoints that are there: all of them, in an accepted authority.
abbrev pub present : List (Option ℕ) → List ℕ
present [] = []
present (none ∷ os) = present os
present (some t ∷ os) = t ∷ present os

unfoldable pub endpoints : DecisionAuthority → List ℕ
endpoints a = present (endpoint_ids a)

-- The endpoint is a logical transaction of the workspace and the book, with the role of its side. Each
-- of these tests of `_resolve_authority` raises the same exception.
abbrev pub plays : (workspace book : ℕ) → RecordSide → Option LogicalTransaction → Bool
plays workspace book side none = false
plays workspace book side (some l) =
    l.workspace == workspace && l.book == book && is_side l.role side

abbrev pub endpoint_plays : (workspace book : ℕ) → Store → RecordSide → Option ℕ → Bool
endpoint_plays workspace book s side none = false
endpoint_plays workspace book s side (some t) = plays workspace book side (logical_at t s)

abbrev pub single_plays : (workspace book : ℕ) → Store → Option ℕ → Option RecordSide → Bool
single_plays workspace book s record_id none = false
single_plays workspace book s record_id (some side) = endpoint_plays workspace book s side record_id

-- `_resolve_authority`
unfoldable pub resolves : (workspace book : ℕ) → Store → DecisionAuthority → Bool
resolves workspace book s a = elim a.kind [
  | DecisionAuthorityKind.accept_unmatched ↦ single_plays workspace book s a.record_id a.record_side
  | _ ↦
      endpoint_plays workspace book s RecordSide.left a.left_id
      && endpoint_plays workspace book s RecordSide.right a.right_id
]

-- `.order_by("id")`
unfoldable pub insert_observation :
    TransactionObservation → List TransactionObservation → List TransactionObservation
insert_observation o [] = o ∷ []
insert_observation o (p ∷ ps) =
    let rest = insert_observation o ps in if ltb p.id o.id then p ∷ rest else o ∷ p ∷ ps

unfoldable pub order_observations : List TransactionObservation → List TransactionObservation
order_observations [] = []
order_observations (o ∷ os) = insert_observation o (order_observations os)

-- The rows that `_resolve_reviewed_observations` reads.
unfoldable pub reviewed_rows : (workspace : ℕ) → List ℕ → Store → List TransactionObservation
reviewed_rows workspace ids s =
    order_observations (select (λ o. o.workspace == workspace && member o.id ids) s.observations)

abbrev pub lies_in : (book : ℕ) → Option LogicalTransaction → Bool
lies_in book none = false
lies_in book (some l) = l.book == book

-- `_resolve_reviewed_observations`
unfoldable pub resolve_reviewed :
    (workspace book : ℕ) → List ℕ → List ℕ → Store → Result (List TransactionObservation)
resolve_reviewed workspace book ids logicals s =
    let rows = reviewed_rows workspace ids s in
    bind
      (require
        (length rows == length ids
          && all_of
              (λ o.
                lies_in book (logical_at o.logical_transaction s)
                && member o.logical_transaction logicals)
              rows
          && all_of (λ l. member l (map (λ o. o.logical_transaction) rows)) logicals)
        Error.decision_mutation_unavailable)
      (λ _. ok rows)

-- The decision of a claim's revision, which the foreign key keeps there.
abbrev pub decision_of : ℕ → Store → Option ℕ
decision_of revision s = elim (revision_at revision s) [ none ↦ none | some r ↦ some r.decision ]

abbrev pub is_excluded : Option ℕ → Option ℕ → Bool
is_excluded (some e) (some d) = d == e
is_excluded _ _ = false

-- The claims that overlap the endpoints.
unfoldable pub overlapping :
    (workspace book : ℕ) → List ℕ → (excluding : Option ℕ) → Store → List ActiveDecisionClaim
overlapping workspace book ends excluding s =
    select
      (λ c.
        c.workspace == workspace
        && c.book == book
        && member c.logical_transaction ends
        && not (is_excluded excluding (decision_of c.decision_revision s)))
      s.claims

-- `{item.decision_revision_id for item in overlapping}`
unfoldable pub distinct_revisions : List ActiveDecisionClaim → List ℕ
distinct_revisions [] = []
distinct_revisions (c ∷ cs) =
    let rest = distinct_revisions cs in
    if member c.decision_revision rest then rest else c.decision_revision ∷ rest

unfoldable pub insert_number : ℕ → List ℕ → List ℕ
insert_number n [] = n ∷ []
insert_number n (m ∷ ms) = let rest = insert_number n ms in if ltb m n then m ∷ rest else n ∷ m ∷ ms

unfoldable pub sort_numbers : List ℕ → List ℕ
sort_numbers [] = []
sort_numbers (n ∷ ns) = insert_number n (sort_numbers ns)

abbrev pub or_zero : Option ℕ → ℕ
or_zero none = 0
or_zero (some n) = n

-- The conflict of one revision: its decision, and all its claims in the book.
unfoldable pub conflict_of : (workspace book : ℕ) → Store → ℕ → DecisionConflict
conflict_of workspace book s revision = record {
  decision_id = or_zero (decision_of revision s);
  revision_id = revision;
  claimed_record_ids = sort_numbers (
      map (λ c. c.logical_transaction)
        (select (λ c. c.workspace == workspace && c.book == book && c.decision_revision == revision)
          s.claims));
}

-- `_claim_conflicts`
unfoldable pub claim_conflicts :
    (workspace book : ℕ)
    → DecisionAuthority
    → (excluding : Option ℕ) → Store
    → List DecisionConflict
claim_conflicts workspace book a excluding s =
    if reserves_endpoints a
    then sort_conflicts (
        map (conflict_of workspace book s)
          (distinct_revisions (overlapping workspace book (endpoints a) excluding s)))
    else []

abbrev pub affected : List DecisionConflict → List (ℕ × ℕ)
affected cs = map (λ c. (c.decision_id, c.revision_id)) cs

abbrev pub refuse_conflicts : List DecisionConflict → Result (Unit {0})
refuse_conflicts [] = ok tt
refuse_conflicts (c ∷ cs) = raise (conflict ReviewConflictCode.endpoint_claimed (affected (c ∷ cs)))

-- `_reject_claim_conflicts`
unfoldable pub reject_claim_conflicts :
    (workspace book : ℕ) → DecisionAuthority → Store → Result (Unit {0})
reject_claim_conflicts workspace book a s =
    refuse_conflicts (claim_conflicts workspace book a none s)

unfoldable pub is_superseded : ℕ → Store → Bool
is_superseded revision s = any_of (λ x. x.superseded_revision == revision) s.supersessions

-- The tests of `_current_revision` on the revision that it found: of the workspace, when it reads under a
-- lock.
abbrev pub still_current :
    (lock : Bool) (workspace : ℕ)
    → ExpectedDecisionRevision
    → Decision
    → Store
    → Option DecisionRevision
    → Result DecisionRevision
still_current lock workspace target d s none = raise Error.decision_mutation_unavailable
still_current lock workspace target d s (some r) =
    if lock && not (r.workspace == workspace)
    then raise Error.decision_mutation_unavailable
    else if not (r.id == target.revision_id)
    then raise (conflict ReviewConflictCode.stale_revision ((d.id, r.id) ∷ []))
    else if is_revocation r.action || is_superseded r.id s
    then raise (conflict ReviewConflictCode.stale_revision [])
    else ok r

abbrev pub current_of :
    (lock : Bool) (workspace : ℕ)
    → ExpectedDecisionRevision
    → Decision
    → Store
    → Option ℕ
    → Result DecisionRevision
current_of lock workspace target d s none = raise (conflict ReviewConflictCode.stale_revision [])
current_of lock workspace target d s (some r) =
    still_current lock workspace target d s (revision_at r s)

abbrev pub target_decision :
    (lock : Bool) (workspace book : ℕ)
    → ExpectedDecisionRevision
    → Store
    → Option Decision
    → Result DecisionRevision
target_decision lock workspace book target s none = raise Error.decision_mutation_unavailable
target_decision lock workspace book target s (some d) =
    if d.workspace == workspace && d.book == book
    then current_of lock workspace target d s d.current_revision
    else raise Error.decision_mutation_unavailable

-- `_current_revision`
unfoldable pub current_revision :
    (lock : Bool) (workspace book : ℕ) → ExpectedDecisionRevision → Store → Result DecisionRevision
current_revision lock workspace book target s =
    target_decision lock workspace book target s (decision_at target.decision_id s)

abbrev pub authority_of : Option DecisionAuthority → Result DecisionAuthority
authority_of none = raise Error.value_error
authority_of (some a) = ok a

-- `_authority_from_revision`: the columns of an authority that has been stored are one again.
abbrev pub authority_from_revision : DecisionRevision → Result DecisionAuthority
authority_from_revision r = authority_of r.authority

-- `assert` on a field of a command that its constructor has accepted.
abbrev pub asserted {ℓ} : {A : Type ℓ} → Option A → Result A
asserted none = raise Error.assertion_error
asserted (some a) = ok a
