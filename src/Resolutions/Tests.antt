-- ===== src/Resolutions/Tests.antt =====
-- The theorems on decisions, each applied to a small book.
use reconciliation_workbench.Common.{
  ℕ, ◌≡◌, refl, sym, ap, subst, arith, true, false, none, some, List, [], ◌∷◌, ok, raise, Error,
  length, find, ℕ, select, update_where, ◌⊎◌,
}
use reconciliation_workbench.Workspaces.Domain.{evaluate, evaluate_at, as_utc}
use reconciliation_workbench.Workspaces.Lifecycle.{require_active, enforce}
use reconciliation_workbench.Workspaces.Tables.{workspace_of}
use reconciliation_workbench.Workspaces.Samples.{sample_database}
use reconciliation_workbench.Review.Domain.{
  DecisionAction, DecisionCommand, ExpectedDecisionRevision, RecordSide, link_authority, unique,
  endpoint_ids, reserves_endpoints,
}
use reconciliation_workbench.Resolutions.Tables.{
  TransactionObservation, DecisionRevision, ActiveDecisionClaim, Store, book_at, logical_at,
  decision_at, revision_at,
}
use reconciliation_workbench.Review.Previews.{ReplacementPreview, sort_conflicts}
use reconciliation_workbench.Resolutions.Checks.{
  find_book, resolves, resolve_reviewed, reviewed_rows, order_observations, insert_observation,
  endpoints, claim_conflicts, distinct_revisions, overlapping, reject_claim_conflicts,
  current_revision, is_superseded,
}
use reconciliation_workbench.Resolutions.Commands
use reconciliation_workbench.Resolutions.Consistency.{IsConsistent, authorised}
use reconciliation_workbench.Resolutions.Steps.{Method, Call, IsDrawn, Step, Reach, commit}
use reconciliation_workbench.Resolutions.Reachable.{Reach-IsConsistent}
use reconciliation_workbench.Resolutions.Exclusive.{undecided-IsConsistent, one_live_decision}
use reconciliation_workbench.Resolutions.Stale.{IsCounted, commit-IsCounted, stale_commit}

abbrev same_text : ℕ → ℕ
same_text t = t

abbrev count_digest : List TransactionObservation → ℕ
count_digest os = length os

abbrev sample_store : Store
sample_store = record {
  base = sample_database;
  books = record { id = 4; workspace = 1; resolution_generation = 0 } ∷ [];
  scopes = record { id = 6; workspace = 1; book = 4; is_dirty = false; generation = 2 } ∷ [];
  logical_transactions =
      record { id = 21; workspace = 1; book = 4; role = RecordSide.left }
      ∷ record { id = 31; workspace = 1; book = 4; role = RecordSide.right }
      ∷ [];
  observations =
      record { id = 42; workspace = 1; logical_transaction = 31; fingerprint = 8 }
      ∷ record { id = 41; workspace = 1; logical_transaction = 21; fingerprint = 7 }
      ∷ [];
  decisions = [];
  revisions = [];
  supersessions = [];
  claims = [];
}

abbrev link_command : DecisionCommand
link_command = record {
  action = DecisionAction.link;
  reason = 1;
  actor = 2;
  expected_resolution_generation = 0;
  authority = some (link_authority 21 31);
  target = none;
  approved_conflicts = [];
  reviewed_observation_ids = 41 ∷ 42 ∷ [];
}

abbrev link_call : Call
link_call = record {
  uuid = 9;
  now = 100;
  decision = 5;
  revision = 50;
  workspace = 1;
  book = 4;
  command = link_command;
}

abbrev linked : Store
linked = record sample_store {
  books = record { id = 4; workspace = 1; resolution_generation = 1 } ∷ [];
  scopes = record { id = 6; workspace = 1; book = 4; is_dirty = true; generation = 3 } ∷ [];
  decisions =
      record { id = 5; workspace = 1; book = 4; current_revision = some 50; created_at = 100 } ∷ [];
  revisions =
      record {
        id = 50;
        workspace = 1;
        decision = 5;
        predecessor = none;
        revision = 1;
        action = DecisionAction.link;
        authority = some (link_authority 21 31);
        reason = 1;
        actor = 2;
        reviewed_observation_ids = 41 ∷ 42 ∷ [];
        reviewed_evidence_digest = some 2;
        created_at = 100;
      }
      ∷ [];
  claims =
      record { workspace = 1; book = 4; logical_transaction = 21; decision_revision = 50 }
      ∷ record { workspace = 1; book = 4; logical_transaction = 31; decision_revision = 50 }
      ∷ [];
}

abbrev revoke_call : Call
revoke_call = record link_call {
  now = 120;
  decision = 7;
  revision = 51;
  command = record link_command {
    action = DecisionAction.revoke;
    expected_resolution_generation = 1;
    authority = none;
    target = some (record { decision_id = 5; revision_id = 50 });
    reviewed_observation_ids = [];
  };
}

link_runs : commit 5 same_text count_digest Method.initial link_call sample_store ≡ (ok tt, linked)
unfolding Commands.commit_initial Commands.initial_changes Commands.write_initial
    Commands.require_active_workspace workspace_of find require_active evaluate evaluate_at as_utc
    enforce find_book book_at resolves logical_at resolve_reviewed reviewed_rows order_observations
    insert_observation select endpoints endpoint_ids update_where claim_conflicts distinct_revisions
    overlapping reject_claim_conflicts sort_conflicts Commands.advance Commands.create_claims
    Commands.create_revision Commands.reserve_claims reserves_endpoints unique
link_runs = refl

link-IsDrawn : IsDrawn link_call sample_store
unfolding decision_at find revision_at is_superseded
link-IsDrawn = record {
  decision = refl;
  revision = record { revision = refl; supersession = refl };
}

revoke-IsDrawn : IsDrawn revoke_call linked
unfolding decision_at find revision_at is_superseded
revoke-IsDrawn = record {
  decision = refl;
  revision = record { revision = refl; supersession = refl };
}

to_linked : Reach 5 same_text count_digest sample_store linked
to_linked =
    Reach.next Reach.here
      (Step.committed Method.initial link_call link-IsDrawn (sym (ap (λ r. r.1) link_runs)))

abbrev revoked : Store
revoked = (commit 5 same_text count_digest Method.change revoke_call linked).1

to_revoked : Reach 5 same_text count_digest sample_store revoked
to_revoked = Reach.next to_linked (Step.committed Method.change revoke_call revoke-IsDrawn refl)

Reach-IsConsistent_example : IsConsistent revoked
Reach-IsConsistent_example =
    Reach-IsConsistent 5 same_text count_digest sample_store revoked
      (undecided-IsConsistent sample_store) to_revoked

abbrev left_claim : ActiveDecisionClaim
left_claim = record { workspace = 1; book = 4; logical_transaction = 21; decision_revision = 50 }

left_live : authorised left_claim linked ≡ true
unfolding authorised revision_at find decision_at is_superseded reserves_endpoints endpoints
    endpoint_ids
left_live = refl

one_live_decision_example : left_claim.decision_revision ≡ left_claim.decision_revision
one_live_decision_example =
    one_live_decision 5 same_text count_digest sample_store linked to_linked left_claim left_claim
      refl refl left_live left_live

commit-IsCounted_example :
    ((e : Error) × (commit 5 same_text count_digest Method.change revoke_call linked
        ≡ (raise e, linked)))
    ⊎ IsCounted 4 1 linked revoked
commit-IsCounted_example =
    commit-IsCounted 5 same_text count_digest Method.change revoke_call linked

stale_commit_example :
    (e : Error) × (commit 5 same_text count_digest Method.initial link_call revoked
      ≡ (raise e, revoked))
stale_commit_example =
    stale_commit 5 same_text count_digest sample_store revoked Method.initial Method.initial
      link_call link_call (ap (λ r. r.0) link_runs)
      (subst (λ t. Reach 5 same_text count_digest t revoked) (sym (ap (λ r. r.1) link_runs))
        (Reach.next Reach.here (Step.committed Method.change revoke_call revoke-IsDrawn refl)))
      refl (omega arith)

abbrev revision : (id decision left right : ℕ) → List ℕ → DecisionRevision
revision id decision left right reviewed = record {
  id = id;
  workspace = 1;
  decision = decision;
  predecessor = none;
  revision = 1;
  action = DecisionAction.link;
  authority = some (link_authority left right);
  reason = 1;
  actor = 2;
  reviewed_observation_ids = reviewed;
  reviewed_evidence_digest = some 2;
  created_at = 100;
}

abbrev claim : (logical revision : ℕ) → ActiveDecisionClaim
claim logical revision = record {
  workspace = 1;
  book = 4;
  logical_transaction = logical;
  decision_revision = revision;
}

-- Two decisions: 21 with 31, and 22 with 32.
abbrev crowded : Store
crowded = record sample_store {
  books = record { id = 4; workspace = 1; resolution_generation = 2 } ∷ [];
  logical_transactions =
      record { id = 22; workspace = 1; book = 4; role = RecordSide.left }
      ∷ record { id = 32; workspace = 1; book = 4; role = RecordSide.right }
      ∷ sample_store.logical_transactions;
  observations =
      record { id = 44; workspace = 1; logical_transaction = 32; fingerprint = 6 }
      ∷ record { id = 43; workspace = 1; logical_transaction = 22; fingerprint = 5 }
      ∷ sample_store.observations;
  decisions =
      record { id = 5; workspace = 1; book = 4; current_revision = some 50; created_at = 100 }
      ∷ record { id = 6; workspace = 1; book = 4; current_revision = some 60; created_at = 101 }
      ∷ [];
  revisions = revision 50 5 21 31 (41 ∷ 42 ∷ []) ∷ revision 60 6 22 32 (43 ∷ 44 ∷ []) ∷ [];
  claims = claim 21 50 ∷ claim 31 50 ∷ claim 22 60 ∷ claim 32 60 ∷ [];
}

abbrev own_target : ExpectedDecisionRevision
own_target = record { decision_id = 5; revision_id = 50 }

abbrev shown : ReplacementPreview
shown = record {
  authority = link_authority 21 32;
  target = own_target;
  conflicts = record { decision_id = 6; revision_id = 60; claimed_record_ids = 22 ∷ 32 ∷ [] } ∷ [];
  resolution_generation = 2;
}

abbrev reviewed : List TransactionObservation
reviewed =
    record { id = 41; workspace = 1; logical_transaction = 21; fingerprint = 7 }
    ∷ record { id = 44; workspace = 1; logical_transaction = 32; fingerprint = 6 }
    ∷ []
