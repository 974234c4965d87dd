-- ===== src/Review/Transitions.antt =====
-- Case keys and `plan_case_transitions` of reconciliation/domain/review.py. The digest of a key is
-- the number that its hexadecimal digits stand for, so digests compare as numbers.
use reconciliation_workbench.Common.{
  ℕ, Bool, true, not, ◌&&◌, ◌||◌, List, [], ◌∷◌, ◌++◌, Result, ok, Error, bind, require,
  if◌then◌else◌, ltb, ◌==◌, any_of,
}
use reconciliation_workbench.Review.Domain.{canonical_texts, is_nil, member}

pub data CaseKind : Type 0 where
  pair unpaired ambiguity : CaseKind

-- The place of a kind in the order of the names.
abbrev pub kind_place : CaseKind → ℕ
kind_place CaseKind.ambiguity = 0
kind_place CaseKind.pair = 1
kind_place CaseKind.unpaired = 2

-- `CaseKey`
pub record CaseKey : Type 0 where
  pub kind : CaseKind
  pub digest : ℕ

abbrev pub same_key : CaseKey → CaseKey → Bool
same_key a b = kind_place a.kind == kind_place b.kind && a.digest == b.digest

abbrev pub key_before : CaseKey → CaseKey → Bool
key_before a b =
    ltb (kind_place a.kind) (kind_place b.kind)
    || kind_place a.kind == kind_place b.kind && ltb a.digest b.digest

-- `CaseTransitionNode`
pub record CaseTransitionNode : Type 0 where
  pub case_key : CaseKey
  pub member_ids : List ℕ

-- `CaseTransitionNode.__post_init__`
unfoldable pub make_node : (blank : ℕ → Bool) → CaseTransitionNode → Result CaseTransitionNode
make_node blank n = bind (canonical_texts blank n.member_ids) λ members.
    bind (require (not (is_nil members)) Error.domain_validation)
      (λ _. ok (record n { member_ids = members }))

-- `CaseLineageEdge`
pub record CaseLineageEdge : Type 0 where
  pub predecessor : CaseKey
  pub successor : CaseKey

-- `CaseLineageEdge.__post_init__`
unfoldable pub make_edge : CaseKey → CaseKey → Result CaseLineageEdge
make_edge a b =
    bind (require (not (same_key a b)) Error.domain_validation)
      (λ _. ok (record { predecessor = a; successor = b }))

abbrev pub same_edge : CaseLineageEdge → CaseLineageEdge → Bool
same_edge e f = same_key e.predecessor f.predecessor && same_key e.successor f.successor

abbrev pub edge_before : CaseLineageEdge → CaseLineageEdge → Bool
edge_before e f =
    key_before e.predecessor f.predecessor
    || same_key e.predecessor f.predecessor && key_before e.successor f.successor

unfoldable pub insert_lineage : CaseLineageEdge → List CaseLineageEdge → List CaseLineageEdge
insert_lineage e [] = e ∷ []
insert_lineage e (f ∷ fs) =
    let rest = insert_lineage e fs in if edge_before f e then f ∷ rest else e ∷ f ∷ fs

unfoldable pub sort_lineage : List CaseLineageEdge → List CaseLineageEdge
sort_lineage [] = []
sort_lineage (e ∷ es) = insert_lineage e (sort_lineage es)

unfoldable pub unique_edges : List CaseLineageEdge → Bool
unique_edges [] = true
unique_edges (e ∷ es) = not (any_of (same_edge e) es) && unique_edges es

-- `CaseTransitionPlan.__post_init__`
unfoldable pub make_plan : List CaseLineageEdge → Result (List CaseLineageEdge)
make_plan edges =
    bind (require (unique_edges (sort_lineage edges)) Error.domain_validation)
      (λ _. ok (sort_lineage edges))

unfoldable pub insert_node : CaseTransitionNode → List CaseTransitionNode → List CaseTransitionNode
insert_node n [] = n ∷ []
insert_node n (m ∷ ms) =
    let rest = insert_node n ms in if key_before m.case_key n.case_key then m ∷ rest else n ∷ m ∷ ms

unfoldable pub sort_nodes : List CaseTransitionNode → List CaseTransitionNode
sort_nodes [] = []
sort_nodes (n ∷ ns) = insert_node n (sort_nodes ns)

-- `set(old.member_ids).intersection(new.member_ids)`
unfoldable pub overlap : List ℕ → List ℕ → Bool
overlap old new = any_of (λ t. member t new) old

-- The condition under which a case continues another one.
abbrev pub continues : CaseTransitionNode → CaseTransitionNode → Bool
continues old new =
    not (same_key old.case_key new.case_key) && overlap old.member_ids new.member_ids

-- The inner and the outer loop of the comprehension.
unfoldable pub edges_from :
    CaseTransitionNode → List CaseTransitionNode → Result (List CaseLineageEdge)
edges_from old [] = ok []
edges_from old (new ∷ rest) =
    let others = edges_from old rest in
    if continues old new
    then bind (make_edge old.case_key new.case_key) (λ e. bind others (λ es. ok (e ∷ es)))
    else others

unfoldable pub edges_between :
    (before after : List CaseTransitionNode) → Result (List CaseLineageEdge)
edges_between [] after = ok []
edges_between (old ∷ rest) after =
    let others = edges_between rest after in
    bind (edges_from old after) (λ es. bind others (λ fs. ok (es ++ fs)))

-- `plan_case_transitions`
unfoldable pub plan_case_transitions :
    (previous current : List CaseTransitionNode) → Result (List CaseLineageEdge)
plan_case_transitions previous current =
    bind (edges_between (sort_nodes previous) (sort_nodes current)) make_plan
