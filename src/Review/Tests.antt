-- ===== src/Review/Tests.antt =====
-- The theorems on decisions, each applied to small inputs.
use reconciliation_workbench.Common.{
  ℕ, ◌≡◌, ◌≤◌, ◌↔◌, refl, Bool, true, false, ok, any_of, List, [], ◌∷◌, ◌==◌, length,
}
use reconciliation_workbench.Review.Domain.{
  DecisionAuthorityKind, link_authority, canonical_texts, make_command, sort_texts, insert_text,
  unique, endpoint_ids,
}
use reconciliation_workbench.Review.Previews.{
  DecisionConflict, ReplacementPreview, make_preview, sort_conflicts, insert_conflict,
}
use reconciliation_workbench.Review.Replacement.{approval, approval_accepted}
use reconciliation_workbench.Review.Transitions.{
  CaseKind, CaseKey, CaseTransitionNode, CaseLineageEdge, plan_case_transitions, edges_between,
  edges_from, make_edge, make_plan, sort_nodes, insert_node, sort_lineage, insert_lineage,
  unique_edges, overlap,
}
use reconciliation_workbench.Review.Lineage.{links, is_lineage, plan_case_transitions-links}
use reconciliation_workbench.Review.Commands.{IsNormal, make_command-IsNormal}
use reconciliation_workbench.Review.Bounds.{make_command_bounded}
use reconciliation_workbench.Review.Health.{
  DecisionHealthEvidence, make_evidence, project_decision_health, quiet, IsQuiet,
  project_decision_health-IsQuiet,
}

-- The text 0 is blank.
abbrev zero_blank : ℕ → Bool
zero_blank t = t == 0

abbrev conflict : (decision revision : ℕ) → DecisionConflict
conflict decision revision = record {
  decision_id = decision;
  revision_id = revision;
  claimed_record_ids = 21 ∷ [];
}

abbrev draft : ReplacementPreview
draft = record {
  authority = link_authority 21 31;
  target = record { decision_id = 5; revision_id = 50 };
  conflicts = conflict 8 80 ∷ conflict 6 60 ∷ [];
  resolution_generation = 4;
}

abbrev preview : ReplacementPreview
preview = record draft { conflicts = conflict 6 60 ∷ conflict 8 80 ∷ [] }

previewed : make_preview draft ≡ ok preview
unfolding make_preview sort_conflicts insert_conflict unique
previewed = refl

canonical : canonical_texts zero_blank (42 ∷ 41 ∷ []) ≡ ok (41 ∷ 42 ∷ [])
unfolding canonical_texts sort_texts insert_text unique
canonical = refl

counted : length {A = ℕ} (41 ∷ 42 ∷ []) ≡ length (endpoint_ids (link_authority 21 31))
unfolding endpoint_ids
counted = refl

approval_accepted_example :
    make_command zero_blank (approval 1 2 preview (42 ∷ 41 ∷ []))
    ≡ ok (approval 1 2 preview (41 ∷ 42 ∷ []))
approval_accepted_example =
    approval_accepted zero_blank 1 2 draft preview (42 ∷ 41 ∷ []) (41 ∷ 42 ∷ []) previewed refl refl
      canonical counted

approved :
    make_command zero_blank (approval 1 2 preview (42 ∷ 41 ∷ []))
    ≡ ok (approval 1 2 preview (41 ∷ 42 ∷ []))
approved =
    approval_accepted zero_blank 1 2 draft preview (42 ∷ 41 ∷ []) (41 ∷ 42 ∷ []) previewed refl refl
      canonical counted

make_command-IsNormal_example :
    IsNormal zero_blank (approval 1 2 preview (42 ∷ 41 ∷ [])) (approval 1 2 preview (41 ∷ 42 ∷ []))
    × (make_command zero_blank (approval 1 2 preview (41 ∷ 42 ∷ []))
        ≡ ok (approval 1 2 preview (41 ∷ 42 ∷ [])))
make_command-IsNormal_example =
    make_command-IsNormal zero_blank (approval 1 2 preview (42 ∷ 41 ∷ []))
      (approval 1 2 preview (41 ∷ 42 ∷ [])) approved

make_command_bounded_example : length {A = ℕ} (41 ∷ 42 ∷ []) ≤ 2
make_command_bounded_example =
    make_command_bounded zero_blank (approval 1 2 preview (42 ∷ 41 ∷ []))
      (approval 1 2 preview (41 ∷ 42 ∷ [])) approved

abbrev rejected : DecisionHealthEvidence
rejected = record {
  authority_kind = DecisionAuthorityKind.reject_candidate;
  endpoints_available = true;
  evidence_changed = false;
  new_candidate = false;
  diagnostic_complete = true;
  comparison_changed = false;
  authoritative_reference_conflict = true;
}

accepted_evidence : make_evidence rejected ≡ ok rejected
unfolding make_evidence
accepted_evidence = refl

project_decision_health-IsQuiet_example :
    ((project_decision_health rejected ≡ quiet) ↔ IsQuiet rejected)
    × (length (project_decision_health rejected).attention ≤ 1)
project_decision_health-IsQuiet_example =
    project_decision_health-IsQuiet rejected rejected accepted_evidence

abbrev key : ℕ → CaseKey
key digest = record { kind = CaseKind.pair; digest = digest }

abbrev before : List CaseTransitionNode
before =
    record { case_key = key 3; member_ids = 21 ∷ 31 ∷ [] }
    ∷ record { case_key = key 1; member_ids = 22 ∷ [] }
    ∷ []

abbrev after : List CaseTransitionNode
after =
    record { case_key = key 2; member_ids = 31 ∷ [] }
    ∷ record { case_key = key 1; member_ids = 22 ∷ [] }
    ∷ []

abbrev lineage : List CaseLineageEdge
lineage = record { predecessor = key 3; successor = key 2 } ∷ []

planned : plan_case_transitions before after ≡ ok lineage
unfolding plan_case_transitions edges_between edges_from make_edge make_plan sort_nodes insert_node
    sort_lineage insert_lineage unique_edges overlap
planned = refl

plan_case_transitions-links_example :
    (any_of (is_lineage (key 3) (key 2)) lineage
      ≡ any_of (λ old. any_of (links (key 3) (key 2) old) after) before)
    × (unique_edges lineage ≡ true)
plan_case_transitions-links_example =
    plan_case_transitions-links before after lineage (key 3) (key 2) planned
