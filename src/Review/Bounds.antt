-- ===== src/Review/Bounds.antt =====
-- How much an accepted `DecisionCommand` of reconciliation/domain/review.py reviews.
use reconciliation_workbench.Common.{
  ℕ, ◌≤◌, ◌≡◌, Bool, true, Option, none, some, List, [], ◌∷◌, length, ok, arith, subst,
}
use reconciliation_workbench.Review.Domain.{
  DecisionAction, DecisionAuthority, DecisionAuthorityKind, DecisionCommand,
  ExpectedDecisionRevision, check_action, endpoint_ids, make_command, require_reviewed_cardinality,
  check_initial, check_replace, is_nil,
}
use reconciliation_workbench.Review.Commands.{make_command-IsAccepted}

length-endpoint_ids : (a : DecisionAuthority) → length (endpoint_ids a) ≤ 2
unfolding endpoint_ids
length-endpoint_ids a = ground arith

cardinality_bounded :
    (reviewed : List ℕ) (a : DecisionAuthority)
    → require_reviewed_cardinality reviewed a ≡ ok tt
    → length reviewed ≤ 2
unfolding require_reviewed_cardinality
cardinality_bounded reviewed a h = ground (arith, length-endpoint_ids a)

initial_bounded :
    (blank : ℕ → Bool) (kind : DecisionAuthorityKind) (a : Option DecisionAuthority)
    (t : Option ExpectedDecisionRevision) (conflicts : List ExpectedDecisionRevision)
    (reviewed : List ℕ)
    → check_initial blank kind a t conflicts reviewed ≡ ok tt
    → length reviewed ≤ 2
initial_bounded blank kind none t conflicts reviewed h = absurd (ground arith)
initial_bounded blank kind (some a) t conflicts reviewed h =
    cardinality_bounded reviewed a (ground arith)

replace_bounded :
    (blank : ℕ → Bool) (a : Option DecisionAuthority) (t : Option ExpectedDecisionRevision)
    (conflicts : List ExpectedDecisionRevision) (reviewed : List ℕ)
    → check_replace blank a t conflicts reviewed ≡ ok tt
    → length reviewed ≤ 2
replace_bounded blank (some a) (some t) conflicts reviewed h =
    cardinality_bounded reviewed a (ground arith)
replace_bounded blank none t conflicts reviewed h = absurd (ground arith)
replace_bounded blank (some a) none conflicts reviewed h = absurd (ground arith)

nothing_reviewed : (reviewed : List ℕ) → is_nil reviewed ≡ true → length reviewed ≤ 2
nothing_reviewed [] h = omega arith
nothing_reviewed (t ∷ ts) h = absurd (ground arith)

action_bounded :
    (blank : ℕ → Bool) (action : DecisionAction) (a : Option DecisionAuthority)
    (t : Option ExpectedDecisionRevision) (conflicts : List ExpectedDecisionRevision)
    (reviewed : List ℕ)
    → check_action blank action a t conflicts reviewed ≡ ok tt
    → length reviewed ≤ 2
unfolding check_action
action_bounded blank DecisionAction.link a t conflicts reviewed h =
    initial_bounded blank DecisionAuthorityKind.link a t conflicts reviewed h
action_bounded blank DecisionAction.accept_unmatched a t conflicts reviewed h =
    initial_bounded blank DecisionAuthorityKind.accept_unmatched a t conflicts reviewed h
action_bounded blank DecisionAction.reject_candidate a t conflicts reviewed h =
    initial_bounded blank DecisionAuthorityKind.reject_candidate a t conflicts reviewed h
action_bounded blank DecisionAction.reaffirm a t conflicts reviewed h = ground arith
action_bounded blank DecisionAction.revoke a t conflicts reviewed h =
    nothing_reviewed reviewed (ground arith)
action_bounded blank DecisionAction.replace a t conflicts reviewed h =
    replace_bounded blank a t conflicts reviewed h

-- A command of any action that its constructor accepts carries at most two reviewed observations.
pub make_command_bounded :
    (blank : ℕ → Bool) (draft c : DecisionCommand)
    → make_command blank draft ≡ ok c
    → length c.reviewed_observation_ids ≤ 2
make_command_bounded blank draft c h =
    let k = make_command-IsAccepted blank draft c h in
    subst (λ d. length d.reviewed_observation_ids ≤ 2) k.same
      (action_bounded blank draft.action draft.authority draft.target _ k.reviewed k.fits)
