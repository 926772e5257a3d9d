-- ===== src/Graph/Soundness.antt =====
-- validateGraph of internal/engine/graph.go: what holds of a graph that it accepts.
use canal.Prelude.{
  ℕ, ◌≡◌, refl, subst, true, false, Option, none, some, List, [], ◌∷◌, ◌++◌, ◌==◌, length, ◌⊎◌, inl,
  inr, Bool-cases,
}
use canal.Negotiate.{Node, kind_sink, find_node}
use canal.Graph.{is_in, ids, inputs_of, terminals}
use canal.Graph.Cycles.{Cyclic}
use canal.Graph.Acyclicity.{check_acyclic-Cyclic}
use canal.Graph.Walks.{From}
use canal.Graph.Reachability.{Depended, terminals-ids, check_reachable-Depended}
use canal.Graph.Validation.{
  Registry, Issues, check_ids, check_nodes, check_terminals, issues, cycle_issues, reach_issues,
  validate_graph, no_nodes,
}
use canal.Graph.Silence.{
  Unique, check_ids-nil, nil_left, nil_right, check_nodes-nil, find_node-ids, check_terminals-nil,
  cycle_issues-nil, reach_issues-nil,
}

-- Ids are not empty and none is there twice, no node is upstream of itself, edges come from nodes, and each node is a sink or upstream of one.
abbrev pub Flows : List Node → Type 0
Flows graph =
    (is_in 0 (ids graph) ≡ false)
    × Unique (ids graph)
    × (Cyclic graph → ⊥)
    × ((a b : ℕ) → is_in b (inputs_of a graph) ≡ true → is_in b (ids graph) ≡ true)
    × ((a : ℕ)
        → is_in a (ids graph) ≡ true
        → (t : ℕ) × (n : Node) × (find_node t graph ≡ some n)
          × (n.kind ≡ kind_sink)
          × From graph t a)

module _ (reg : Registry) (graph : List Node) where
  issues-Flows :
      (found : Option ℕ) (us : List ℕ)
      → (found ≡ none → Cyclic graph → ⊥)
      → ((a : ℕ) → is_in a (ids graph) ≡ true → (is_in a us ≡ true) ⊎ Depended graph a)
      → issues reg graph found us ≡ []
      → Flows graph
  unfolding issues terminals
  issues-Flows found us acyclic reached h =
      let ends = check_terminals graph (terminals graph) in
      let searches = cycle_issues found ++ reach_issues us in
      let h1 =
        nil_right (check_ids [] graph) (check_nodes reg graph graph ++ (ends ++ searches)) h in
      let h2 = nil_right (check_nodes reg graph graph) (ends ++ searches) h1 in
      let h3 = nil_right ends searches h2 in
      let nodes = nil_left (check_nodes reg graph graph) (ends ++ searches) h1 in
      let none_lost = reach_issues-nil us (nil_right (cycle_issues found) (reach_issues us) h3) in
      let (apart, unique, filled) =
        check_ids-nil [] graph
          (nil_left (check_ids [] graph) (check_nodes reg graph graph ++ (ends ++ searches)) h) in
      (
        filled,
        unique,
        acyclic (cycle_issues-nil found (nil_left (cycle_issues found) (reach_issues us) h3)),
        (λ a b m. check_nodes-nil reg graph a b graph nodes m),
        λ a known. elim (reached a known) [
          | inl lost ↦ absurd (cc (subst (λ l. is_in a l ≡ true) none_lost lost))
          | inr (t, at, from) ↦
              let (n, e) = find_node-ids t graph (terminals-ids graph t at) in
              (
                t,
                n,
                e,
                check_terminals-nil graph t (terminals graph) n (nil_left ends searches h2) at e,
                from,
              )
        ],
      )

  -- validateGraph ends on every graph; and if it reports nothing, no id is empty or there twice, no
  -- node is upstream of itself, every edge comes from a node of the graph, and every node leads
  -- along edges to a terminal whose node is a sink, or is one.
  pub validate_graph-Flows :
      (ds : Issues) × (validate_graph reg graph ≡ some ds) × (ds ≡ [] → Flows graph)
  unfolding validate_graph
  validate_graph-Flows = elim (Bool-cases (length graph == 0)) [
    | inl y ↦ ((0, no_nodes) ∷ [], rw y refl, λ h. absurd (cc h))
    | inr z ↦
        let (us, lost, rep) = check_reachable-Depended graph in
        elim (check_acyclic-Cyclic graph) [
          | inl (e, acyclic) ↦ (
            issues reg graph none us,
            rw (z, e, lost) refl,
            issues-Flows none us (λ h. acyclic) (λ a known. (rep a).1 known),
          )
          | inr (id, e, cyclic) ↦ (
            issues reg graph (some id) us,
            rw (z, e, lost) refl,
            issues-Flows (some id) us (λ h. absurd (cc h)) (λ a known. (rep a).1 known),
          )
        ]
  ]
