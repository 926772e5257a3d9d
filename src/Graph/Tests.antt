-- ===== src/Graph/Tests.antt =====
-- The searches of internal/engine/graph.go at concrete graphs.
use canal.Prelude.{ℕ, ◌≡◌, refl, false, true, none, some, List, [], ◌∷◌, ◌⊎◌}
use canal.Prelude.Assoc.{lookup, insert}
use canal.Negotiate.{
  Edge, Node, edge_main, find_node, carries_failed, Kind, kind_source, kind_sink, kind_transform,
}
use canal.Graph.{
  colour_of, inputs_of, visit_each, visit, check_each, check_acyclic, terminals, terminals_from,
  walk_each, walk, check_reachable,
}
use canal.Graph.Cycles.{Cyclic}
use canal.Graph.Validation.{
  Registry, Issues, validate_graph, issues, check_ids, check_nodes, check_node, check_edges,
  check_inputs, check_merge, check_failed_edges, seen_ids, check_terminals, consumes, produces,
  cycle_issues, reach_issues,
}
use canal.Graph.Soundness.{Flows, validate_graph-Flows}
use canal.Graph.Acyclicity.{check_acyclic-Cyclic}
use canal.Graph.Reachability.{Reported, check_reachable-Depended}

abbrev from_node : ℕ → Edge
from_node id = record { origin = id; select = edge_main; best_effort = false }

abbrev node : ℕ → Kind → List Edge → Node
node id kind inputs = record { id = id; kind = kind; name = 7; inputs = inputs; guarantee = none }

-- A source, a transform, and two sinks.
abbrev fan_out : List Node
fan_out =
    node 4 kind_sink (from_node 2 ∷ [])
    ∷ node 1 kind_source []
    ∷ node 2 kind_transform (from_node 1 ∷ [])
    ∷ node 3 kind_sink (from_node 2 ∷ from_node 1 ∷ [])
    ∷ []

-- Two nodes that feed each other, beside a source and a sink.
abbrev detached_loop : List Node
detached_loop =
    node 1 kind_source []
    ∷ node 2 kind_sink (from_node 1 ∷ [])
    ∷ node 5 kind_transform (from_node 6 ∷ [])
    ∷ node 6 kind_transform (from_node 5 ∷ [])
    ∷ []

fan_out_acyclic : check_acyclic fan_out ≡ some none
unfolding check_acyclic check_each visit visit_each colour_of lookup insert inputs_of
fan_out_acyclic = refl

loop_found : check_acyclic detached_loop ≡ some (some 5)
unfolding check_acyclic check_each visit visit_each colour_of lookup insert inputs_of
loop_found = refl

fan_out_reachable : check_reachable fan_out ≡ some []
unfolding check_reachable walk walk_each terminals terminals_from inputs_of
fan_out_reachable = refl

loop_unreachable : check_reachable detached_loop ≡ some (5 ∷ 6 ∷ [])
unfolding check_reachable walk walk_each terminals terminals_from inputs_of
loop_unreachable = refl

check_acyclic-Cyclic_example :
    ((check_acyclic detached_loop ≡ some none) × (Cyclic detached_loop → ⊥))
    ⊎ ((id : ℕ) × (check_acyclic detached_loop ≡ some (some id)) × Cyclic detached_loop)
check_acyclic-Cyclic_example = check_acyclic-Cyclic detached_loop

check_reachable-Depended_example :
    (us : List ℕ) × (check_reachable detached_loop ≡ some us)
    × ((a : ℕ) → Reported detached_loop us a)
check_reachable-Depended_example = check_reachable-Depended detached_loop

-- Every component is there, and every sink can fail in part.
abbrev open_registry : Registry
open_registry = record {
  has = λ k n. true;
  regroups = λ n. some true;
  partial_failure = λ n. some true;
}

fan_out_accepted : validate_graph open_registry fan_out ≡ some []
unfolding validate_graph issues check_acyclic check_each visit visit_each colour_of lookup insert
    inputs_of check_reachable walk walk_each terminals terminals_from check_ids check_nodes
    check_node check_edges check_inputs check_merge check_failed_edges seen_ids check_terminals
    consumes produces find_node cycle_issues reach_issues carries_failed
fan_out_accepted = refl

validate_graph-Flows_example :
    (ds : Issues) × (validate_graph open_registry fan_out ≡ some ds) × (ds ≡ [] → Flows fan_out)
validate_graph-Flows_example = validate_graph-Flows open_registry fan_out
