-- ===== src/Graph/Validation.antt =====
-- validateGraph of internal/engine/graph.go. The registry is its lookups; a diagnostic is a node, 0 where
-- it has none, and what is wrong with it.
use canal.Prelude.{
  ℕ, Bool, true, false, not, Option, none, some, List, [], ◌∷◌, ◌++◌, ◌==◌, ◌&&◌, ltb,
  if◌then◌else◌, length,
}
use canal.Negotiate.{
  Edge, Node, Kind, kind_source, kind_sink, kind_transform, kind_buffer, kind_encoder, kind_decoder,
  carries_failed, find_node,
}
use canal.Graph.{is_in, terminals, check_acyclic, check_reachable}

-- Which components there are, whether a transform regroups, and whether a sink can fail in part.
pub record Registry : Type 0 where
  pub has : Kind → ℕ → Bool
  pub regroups : ℕ → Option Bool
  pub partial_failure : ℕ → Option Bool

pub data Issue : Type 0 where
  no_nodes no_id duplicate_id unknown_component unknown_input own_input no_inputs source_inputs :
      Issue
  buffer_inputs not_regrouping cannot_fail not_consuming cycle unreachable : Issue

abbrev pub Issues : Type 0
Issues = List (ℕ × Issue)

unfoldable pub produces : Kind → Bool
produces kind_source = true
produces _ = false

unfoldable pub consumes : Kind → Bool
consumes kind_sink = true
consumes _ = false

abbrev pub flag : Bool → ℕ → Issue → Issues
flag b id issue = if b then (id, issue) ∷ [] else []

-- The ids that are not empty: the map `seen`.
unfoldable pub seen_ids : List Node → List ℕ
seen_ids [] = []
seen_ids (n ∷ ns) = if n.id == 0 then seen_ids ns else n.id ∷ seen_ids ns

unfoldable pub check_ids : List ℕ → List Node → Issues
check_ids seen [] = []
check_ids seen (n ∷ ns) =
    if n.id == 0
    then (0, no_id) ∷ check_ids seen ns
    else flag (is_in n.id seen) n.id duplicate_id ++ check_ids (n.id ∷ seen) ns

unfoldable pub check_edges : List ℕ → ℕ → List Edge → Issues
check_edges seen id [] = []
check_edges seen id (e ∷ es) =
    flag (not (is_in e.origin seen)) id unknown_input
    ++ (flag (e.origin == id) id own_input ++ check_edges seen id es)

unfoldable pub check_inputs : Node → Issues
check_inputs n =
    if length n.inputs == 0 && not (produces n.kind)
    then (n.id, no_inputs) ∷ []
    else flag (ltb 0 (length n.inputs) && produces n.kind) n.id source_inputs

abbrev pub is_buffer : Kind → Bool
is_buffer kind_buffer = true
is_buffer _ = false

abbrev pub is_transform : Kind → Bool
is_transform kind_transform = true
is_transform _ = false

unfoldable pub check_merge : Registry → Node → Issues
check_merge reg n =
    flag (is_buffer n.kind && not (length n.inputs == 1)) n.id buffer_inputs
    ++ (if is_transform n.kind && ltb 1 (length n.inputs)
        then elim (reg.regroups n.name) [ none ↦ [] | some ok ↦ flag (not ok) n.id not_regrouping ]
        else [])

unfoldable pub can_fail_per_record : Registry → Node → Bool
can_fail_per_record reg n = elim n.kind [
  | kind_source ↦ true
  | kind_transform ↦ true
  | kind_encoder ↦ true
  | kind_decoder ↦ true
  | kind_sink ↦ elim (reg.partial_failure n.name) [ none ↦ false | some ok ↦ ok ]
  | _ ↦ false
]

unfoldable pub check_failed_edges : Registry → List Node → ℕ → List Edge → Issues
check_failed_edges reg graph id [] = []
check_failed_edges reg graph id (e ∷ es) =
    (if carries_failed e.select
      then elim (find_node e.origin graph) [
        | none ↦ []
        | some from ↦ flag (not (can_fail_per_record reg from)) id cannot_fail
      ]
      else [])
    ++ check_failed_edges reg graph id es

unfoldable pub check_node : Registry → List Node → Node → Issues
check_node reg graph n =
    flag (not (reg.has n.kind n.name)) n.id unknown_component
    ++ (check_edges (seen_ids graph) n.id n.inputs
        ++ (check_inputs n ++ (check_merge reg n ++ check_failed_edges reg graph n.id n.inputs)))

unfoldable pub check_nodes : Registry → List Node → List Node → Issues
check_nodes reg graph [] = []
check_nodes reg graph (n ∷ ns) = check_node reg graph n ++ check_nodes reg graph ns

abbrev pub terminal_issues : List Node → ℕ → Issues
terminal_issues graph t = elim (find_node t graph) [
  | none ↦ []
  | some n ↦ flag (not (consumes n.kind)) t not_consuming
]

unfoldable pub check_terminals : List Node → List ℕ → Issues
check_terminals graph [] = []
check_terminals graph (t ∷ ts) = terminal_issues graph t ++ check_terminals graph ts

unfoldable pub cycle_issues : Option ℕ → Issues
cycle_issues none = []
cycle_issues (some id) = (id, cycle) ∷ []

unfoldable pub reach_issues : List ℕ → Issues
reach_issues [] = []
reach_issues (id ∷ rest) = (id, unreachable) ∷ reach_issues rest

-- What is wrong with a graph that has nodes, from what the two searches found.
unfoldable pub issues : Registry → List Node → Option ℕ → List ℕ → Issues
issues reg graph found lost =
    check_ids [] graph
    ++ (check_nodes reg graph graph
        ++ (check_terminals graph (terminals graph) ++ (cycle_issues found ++ reach_issues lost)))

-- none where a search would run out of fuel.
unfoldable pub validate_graph : Registry → List Node → Option Issues
validate_graph reg graph =
    if length graph == 0 then some ((0, no_nodes) ∷ []) else elim (check_acyclic graph) [
      | none ↦ none
      | some found ↦ elim (check_reachable graph) [
        | none ↦ none
        | some lost ↦ some (issues reg graph found lost)
      ]
    ]
