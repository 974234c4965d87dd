-- ===== src/Review/Health.antt =====
-- `project_decision_health` of reconciliation/domain/review.py: how current evidence bears on a
-- decision. The identities that the projection repeats are left out.
use reconciliation_workbench.Common.{
  ℕ, ◌≡◌, ◌≢◌, ◌≤◌, ◌↔◌, refl, ap, length, Bool, true, false, not, ◌&&◌, ◌||◌, List, [], ◌∷◌, ◌++◌,
  Result, ok, Error, bind, require, if◌then◌else◌, arith, ltb,
}
use reconciliation_workbench.Review.Domain.{DecisionAuthorityKind, same_authority}

pub data DecisionHealth : Type 0 where
  unchanged evidence_changed partner_unavailable new_candidate : DecisionHealth

pub data DecisionAttention : Type 0 where
  comparison_changed authoritative_reference_conflict diagnostic_incomplete : DecisionAttention

-- `DecisionHealthEvidence`
pub record DecisionHealthEvidence : Type 0 where
  pub authority_kind : DecisionAuthorityKind
  pub endpoints_available : Bool
  pub evidence_changed : Bool
  pub new_candidate : Bool
  pub diagnostic_complete : Bool
  pub comparison_changed : Bool
  pub authoritative_reference_conflict : Bool

-- `DecisionHealthEvidence.__post_init__`
unfoldable pub make_evidence : DecisionHealthEvidence → Result DecisionHealthEvidence
make_evidence e =
    bind
      (require
        (same_authority e.authority_kind DecisionAuthorityKind.accept_unmatched
          || not (e.new_candidate || not e.diagnostic_complete))
        Error.domain_validation)
      λ _.
        bind
          (require
            (same_authority e.authority_kind DecisionAuthorityKind.link || not e.comparison_changed)
            Error.domain_validation)
          λ _.
            bind
              (require
                (same_authority e.authority_kind DecisionAuthorityKind.reject_candidate
                  || not e.authoritative_reference_conflict)
                Error.domain_validation)
              (λ _. ok e)

-- `DecisionHealthProjection`
pub record DecisionHealthProjection : Type 0 where
  pub health : DecisionHealth
  pub attention : List DecisionAttention

abbrev pub attention_if : Bool → DecisionAttention → List DecisionAttention
attention_if true a = a ∷ []
attention_if false a = []

-- The attention of the evidence, in the order of the tests.
unfoldable pub attention_of : DecisionHealthEvidence → List DecisionAttention
attention_of e =
    attention_if e.comparison_changed DecisionAttention.comparison_changed
    ++ attention_if e.authoritative_reference_conflict
        DecisionAttention.authoritative_reference_conflict
    ++ attention_if (not e.diagnostic_complete) DecisionAttention.diagnostic_incomplete

unfoldable pub health_of : DecisionHealthEvidence → DecisionHealth
health_of e =
    if not e.endpoints_available
    then DecisionHealth.partner_unavailable
    else if same_authority e.authority_kind DecisionAuthorityKind.accept_unmatched
        && e.new_candidate
    then DecisionHealth.new_candidate
    else if e.evidence_changed || e.comparison_changed
    then DecisionHealth.evidence_changed
    else DecisionHealth.unchanged

-- The place of an attention reason in the order of the names, in which the projection keeps them.
abbrev pub place : DecisionAttention → ℕ
place DecisionAttention.authoritative_reference_conflict = 0
place DecisionAttention.comparison_changed = 1
place DecisionAttention.diagnostic_incomplete = 2

unfoldable pub insert_attention :
    DecisionAttention → List DecisionAttention → List DecisionAttention
insert_attention a [] = a ∷ []
insert_attention a (b ∷ bs) =
    let rest = insert_attention a bs in if ltb (place b) (place a) then b ∷ rest else a ∷ b ∷ bs

unfoldable pub sort_attention : List DecisionAttention → List DecisionAttention
sort_attention [] = []
sort_attention (a ∷ rest) = insert_attention a (sort_attention rest)

-- `project_decision_health`
unfoldable pub project_decision_health : DecisionHealthEvidence → DecisionHealthProjection
project_decision_health e = record {
  health = health_of e;
  attention = sort_attention (attention_of e);
}

-- Nothing calls for the reviewer: every flag of the evidence is at rest.
pub record IsQuiet (e : DecisionHealthEvidence) : Type 0 where
  pub available : e.endpoints_available ≡ true
  pub same_evidence : e.evidence_changed ≡ false
  pub no_candidate : e.new_candidate ≡ false
  pub complete : e.diagnostic_complete ≡ true
  pub same_comparison : e.comparison_changed ≡ false
  pub no_conflict : e.authoritative_reference_conflict ≡ false

abbrev pub quiet : DecisionHealthProjection
quiet = record { health = DecisionHealth.unchanged; attention = [] }

-- What the constructor of the evidence has made sure.
record IsEvidence (e : DecisionHealthEvidence) : Type 0 where
  unmatched :
      (same_authority e.authority_kind DecisionAuthorityKind.accept_unmatched
        || not (e.new_candidate || not e.diagnostic_complete))
      ≡ true
  linked :
      (same_authority e.authority_kind DecisionAuthorityKind.link || not e.comparison_changed)
      ≡ true
  rejected :
      (same_authority e.authority_kind DecisionAuthorityKind.reject_candidate
        || not e.authoritative_reference_conflict)
      ≡ true

make_evidence-IsEvidence :
    (draft e : DecisionHealthEvidence) → make_evidence draft ≡ ok e → IsEvidence e
unfolding make_evidence
make_evidence-IsEvidence draft e h = record {
  unmatched = ground arith;
  linked = ground arith;
  rejected = ground arith;
}

insert_attention_filled :
    (a : DecisionAttention) (rest : List DecisionAttention) → insert_attention a rest ≢ []
unfolding insert_attention
insert_attention_filled a [] h = absurd (ground arith)
insert_attention_filled a (b ∷ bs) h = absurd (ground arith)

no_attention : (xs : List DecisionAttention) → sort_attention xs ≡ [] → xs ≡ []
unfolding sort_attention
no_attention [] h = refl
no_attention (a ∷ xs) h = absurd (insert_attention_filled a (sort_attention xs) h)

IsQuiet-flags :
    (e : DecisionHealthEvidence)
    → IsEvidence e
    → health_of e ≡ DecisionHealth.unchanged
    → attention_of e ≡ []
    → IsQuiet e
unfolding health_of attention_of
IsQuiet-flags e v h a =
    let unmatched = v.unmatched in
    record {
      available = ground arith;
      same_evidence = ground arith;
      no_candidate = ground arith;
      complete = ground arith;
      same_comparison = ground arith;
      no_conflict = ground arith;
    }

quiet_projection : (e : DecisionHealthEvidence) → IsQuiet e → project_decision_health e ≡ quiet
unfolding project_decision_health health_of attention_of sort_attention
quiet_projection e h =
    rw (h.available, h.same_evidence, h.no_candidate, h.complete, h.same_comparison, h.no_conflict)
      (ground arith)

one_reason :
    (e : DecisionHealthEvidence) → IsEvidence e → length (sort_attention (attention_of e)) ≤ 1
unfolding attention_of sort_attention insert_attention
one_reason e v =
    let unmatched = v.unmatched in
    let linked = v.linked in let rejected = v.rejected in ground arith

-- On evidence that its constructor accepts the projection is unchanged and without attention exactly
-- when every flag of the evidence is at rest, and it never has more than one attention reason.
pub project_decision_health-IsQuiet :
    (draft e : DecisionHealthEvidence)
    → make_evidence draft ≡ ok e
    → ((project_decision_health e ≡ quiet) ↔ IsQuiet e)
      × (length (project_decision_health e).attention ≤ 1)
unfolding project_decision_health
project_decision_health-IsQuiet draft e made =
    let v = make_evidence-IsEvidence draft e made in
    (
      (
        λ h.
            IsQuiet-flags e v (ap (λ p. p.health) h)
              (no_attention (attention_of e) (ap (λ p. p.attention) h)),
        quiet_projection e,
      ),
      one_reason e v,
    )
