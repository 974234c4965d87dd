-- ===== src/Review/Lineage.antt =====
-- Which lineage edges `plan_case_transitions` plans.
use reconciliation_workbench.Common.{
  ◌≡◌, refl, sym, ◌∙◌, ap, Bool, true, false, ◌&&◌, ◌||◌, List, [], ◌∷◌, ◌++◌, ok, any_of, arith,
  Bool-cases, inl, inr, subst,
}
use reconciliation_workbench.Review.Transitions.{
  CaseKey, CaseTransitionNode, CaseLineageEdge, same_key, key_before, edge_before, make_edge,
  insert_lineage, sort_lineage, unique_edges, make_plan, insert_node, sort_nodes, continues,
  edges_from, edges_between, plan_case_transitions,
}

module _ (p : CaseLineageEdge → Bool) where
  any_of-insert_lineage :
      (e : CaseLineageEdge) (es : List CaseLineageEdge)
      → any_of p (insert_lineage e es) ≡ p e || any_of p es
  unfolding insert_lineage
  any_of-insert_lineage e [] = refl
  any_of-insert_lineage e (f ∷ fs) = elim (Bool-cases (edge_before f e)) [
    | inl later ↦ rw later (ground (arith, any_of-insert_lineage e fs))
    | inr here ↦ rw here refl
  ]

  any_of-sort_lineage : (es : List CaseLineageEdge) → any_of p (sort_lineage es) ≡ any_of p es
  unfolding sort_lineage
  any_of-sort_lineage [] = refl
  any_of-sort_lineage (e ∷ es) =
      any_of-insert_lineage e (sort_lineage es) ∙ ap (λ b. p e || b) (any_of-sort_lineage es)

module _ (p : CaseTransitionNode → Bool) where
  any_of-insert_node :
      (e : CaseTransitionNode) (es : List CaseTransitionNode)
      → any_of p (insert_node e es) ≡ p e || any_of p es
  unfolding insert_node
  any_of-insert_node e [] = refl
  any_of-insert_node e (f ∷ fs) = elim (Bool-cases (key_before f.case_key e.case_key)) [
    | inl later ↦ rw later (ground (arith, any_of-insert_node e fs))
    | inr here ↦ rw here refl
  ]

  any_of-sort_nodes : (es : List CaseTransitionNode) → any_of p (sort_nodes es) ≡ any_of p es
  unfolding sort_nodes
  any_of-sort_nodes [] = refl
  any_of-sort_nodes (e ∷ es) =
      any_of-insert_node e (sort_nodes es) ∙ ap (λ b. p e || b) (any_of-sort_nodes es)

any_of-append :
    (p : CaseLineageEdge → Bool) (xs ys : List CaseLineageEdge)
    → any_of p (xs ++ ys) ≡ any_of p xs || any_of p ys
any_of-append p [] ys = refl
any_of-append p (x ∷ xs) ys = ground (arith, any_of-append p xs ys)

any_of_same :
    (p q : CaseTransitionNode → Bool)
    → ((n : CaseTransitionNode) → p n ≡ q n)
    → (ns : List CaseTransitionNode) → any_of p ns ≡ any_of q ns
any_of_same p q h [] = refl
any_of_same p q h (n ∷ ns) = rw (h n, any_of_same p q h ns) refl

module _ (a b : CaseKey) where
  -- The node continues the other one, and their keys are the two given ones.
  abbrev pub links : CaseTransitionNode → CaseTransitionNode → Bool
  links old new = continues old new && (same_key old.case_key a && same_key new.case_key b)

  abbrev pub is_lineage : CaseLineageEdge → Bool
  is_lineage e = same_key e.predecessor a && same_key e.successor b

  -- The loops raise nothing.
  edges_from_lem :
      (old : CaseTransitionNode) (after : List CaseTransitionNode)
      → (es : List CaseLineageEdge) × (edges_from old after ≡ ok es)
        × (any_of is_lineage es ≡ any_of (links old) after)
  unfolding edges_from make_edge
  edges_from_lem old [] = ([], refl, refl)
  edges_from_lem old (new ∷ rest) =
      let (es, e, same) = edges_from_lem old rest in
      elim (Bool-cases (continues old new)) [
        | inl linked ↦
            let apart : same_key old.case_key new.case_key ≡ false = ground arith in
            (
              record { predecessor = old.case_key; successor = new.case_key } ∷ es,
              rw (linked, apart, e) refl,
              rw (linked, same) refl,
            )
        | inr apart ↦ (es, rw apart e, rw (apart, same) refl)
      ]

  edges_between_lem :
      (before after : List CaseTransitionNode)
      → (es : List CaseLineageEdge) × (edges_between before after ≡ ok es)
        × (any_of is_lineage es ≡ any_of (λ old. any_of (links old) after) before)
  unfolding edges_between
  edges_between_lem [] after = ([], refl, refl)
  edges_between_lem (old ∷ rest) after =
      let (es, e, same) = edges_from_lem old after in
      let (fs, f, same') = edges_between_lem rest after in
      (es ++ fs, rw (e, f) refl, rw (any_of-append is_lineage es fs, same, same') refl)

make_plan_lem :
    (p : CaseLineageEdge → Bool) (es plan : List CaseLineageEdge)
    → make_plan es ≡ ok plan
    → (any_of p plan ≡ any_of p es) × (unique_edges plan ≡ true)
unfolding make_plan
make_plan_lem p es plan h = elim (Bool-cases (unique_edges (sort_lineage es))) [
  | inr repeated ↦ absurd (ground arith)
  | inl once ↦
      let same : sort_lineage es ≡ plan = ground arith in
      subst (λ fs. (any_of p fs ≡ any_of p es) × (unique_edges fs ≡ true)) same
        (any_of-sort_lineage p es, once)
]

-- A plan of transitions that is returned has an edge from one key to another exactly when a previous
-- node of the first key and a current node of the second one have different keys and a member in
-- common, in whatever order the nodes are given. It has no edge twice.
pub plan_case_transitions-links :
    (previous current : List CaseTransitionNode) (plan : List CaseLineageEdge) (a b : CaseKey)
    → plan_case_transitions previous current ≡ ok plan
    → (any_of (is_lineage a b) plan ≡ any_of (λ old. any_of (links a b old) current) previous)
      × (unique_edges plan ≡ true)
unfolding plan_case_transitions
plan_case_transitions-links previous current plan a b h =
    let (es, e, same) = edges_between_lem a b (sort_nodes previous) (sort_nodes current) in
    let made : make_plan es ≡ ok plan = sym (rw e refl) ∙ h in
    let (kept, once) = make_plan_lem (is_lineage a b) es plan made in
    (
      kept
          ∙ same
          ∙ any_of_same (λ old. any_of (links a b old) (sort_nodes current))
              (λ old. any_of (links a b old) current)
              (λ old. any_of-sort_nodes (links a b old) current) (sort_nodes previous)
          ∙ any_of-sort_nodes (λ old. any_of (links a b old) current) previous,
      once,
    )
