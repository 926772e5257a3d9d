-- ===== src/Graph.antt =====
-- internal/engine/graph.go: checkAcyclic and checkReachable, the searches in the graph of a
-- pipeline, and Terminals of pkg/spec/spec.go.
-- The nodes and their edges are those of Negotiate; a diagnostic is the node that it names.
pub mod Colours
pub mod Cycles
pub mod Search
pub mod Acyclicity
pub mod Walks
pub mod Reachability
pub mod Validation
pub mod Silence
pub mod Soundness
mod Tests
use canal.Prelude.{
  ℕ, zero, suc, ◌+◌, ◌≡◌, refl, Bool, true, false, Option, none, some, List, [], ◌∷◌, ◌++◌, ◌==◌,
  ◌||◌, if◌then◌else◌, length, map,
}
use canal.Prelude.Assoc.{lookup, insert}
use canal.Negotiate.{Edge, Node}

pub data Colour : Type 0 where
  white grey black : Colour

abbrev pub Colours : Type 0
Colours = List (ℕ × Colour)

-- A node that is not in the map is white.
unfoldable pub colour_of : ℕ → Colours → Colour
colour_of id colours = elim (lookup id colours) [ none ↦ white | some colour ↦ colour ]

abbrev pub origins : List Edge → List ℕ
origins [] = []
origins (e ∷ es) = e.origin ∷ origins es

abbrev pub ids : List Node → List ℕ
ids [] = []
ids (n ∷ ns) = n.id ∷ ids ns

-- A set of ids.
abbrev pub is_in : ℕ → List ℕ → Bool
is_in k [] = false
is_in k (x ∷ xs) = x == k || is_in k xs

-- inputs[id], with the edges of every node of this id.
unfoldable pub inputs_of : ℕ → List Node → List ℕ
inputs_of id [] = []
inputs_of id (n ∷ ns) = if n.id == id then origins n.inputs ++ inputs_of id ns else inputs_of id ns

-- Whether visit returns true, and the colours it leaves; none where the fuel is spent.
abbrev pub Visit : Type 0
Visit = Option (Bool × Colours)

abbrev pub followed : (Colours → Visit) → Visit → Visit
followed rest none = none
followed rest (some (false, colours)) = some (false, colours)
followed rest (some (true, colours)) = rest colours

abbrev pub blackened : ℕ → Visit → Visit
blackened id none = none
blackened id (some (false, colours)) = some (false, colours)
blackened id (some (true, colours)) = some (true, insert id black colours)

-- The loop over the inputs, where `each` is a visit.
unfoldable pub visit_each : (ℕ → Colours → Visit) → List ℕ → Colours → Visit
visit_each each [] colours = some (true, colours)
visit_each each (up ∷ ups) colours = followed (visit_each each ups) (each up colours)

unfoldable pub visit : ℕ → List Node → ℕ → Colours → Visit
visit zero graph id colours = none
visit (suc fuel) graph id colours = elim (colour_of id colours) [
  | grey ↦ some (false, colours)
  | black ↦ some (true, colours)
  | white ↦
      blackened id (visit_each (visit fuel graph) (inputs_of id graph) (insert id grey colours))
]

-- Every id and every end of an edge.
abbrev pub names : List Node → List ℕ
names [] = []
names (n ∷ ns) = n.id ∷ (origins n.inputs ++ names ns)

-- The node through which a cycle is reported, if there is one.
abbrev pub Verdict : Type 0
Verdict = Option (Option ℕ)

abbrev pub reported : ℕ → (Colours → Verdict) → Visit → Verdict
reported id rest none = none
reported id rest (some (false, colours)) = some (some id)
reported id rest (some (true, colours)) = rest colours

unfoldable pub check_each : ℕ → List Node → List Node → Colours → Verdict
check_each fuel graph [] colours = some none
check_each fuel graph (n ∷ ns) colours =
    reported n.id (check_each fuel graph ns) (visit fuel graph n.id colours)

-- A visit is within visits of different nodes, so that one more than the names is enough.
unfoldable pub check_acyclic : List Node → Verdict
check_acyclic graph = check_each (suc (length (names graph))) graph graph []

abbrev pub all_origins : List Node → List ℕ
all_origins [] = []
all_origins (n ∷ ns) = origins n.inputs ++ all_origins ns

unfoldable pub terminals_from : List ℕ → List Node → List ℕ
terminals_from has [] = []
terminals_from has (n ∷ ns) =
    if is_in n.id has then terminals_from has ns else n.id ∷ terminals_from has ns

-- The nodes with no outgoing edge.
unfoldable pub terminals : List Node → List ℕ
terminals graph = terminals_from (all_origins graph) graph

-- The ids that are marked; none where the fuel is spent.
abbrev pub Marks : Type 0
Marks = Option (List ℕ)

abbrev pub and_then : (List ℕ → Marks) → Marks → Marks
and_then rest none = none
and_then rest (some marks) = rest marks

-- A loop over nodes, where `each` is a walk.
unfoldable pub walk_each : (ℕ → List ℕ → Marks) → List ℕ → List ℕ → Marks
walk_each each [] marks = some marks
walk_each each (up ∷ ups) marks = and_then (walk_each each ups) (each up marks)

unfoldable pub walk : ℕ → List Node → ℕ → List ℕ → Marks
walk zero graph id marks = none
walk (suc fuel) graph id marks =
    if is_in id marks
    then some marks
    else walk_each (walk fuel graph) (inputs_of id graph) (id ∷ marks)

abbrev pub unmarked : List Node → List ℕ → List ℕ
unmarked [] marks = []
unmarked (n ∷ ns) marks = if is_in n.id marks then unmarked ns marks else n.id ∷ unmarked ns marks

-- The nodes that are reported.
unfoldable pub check_reachable : List Node → Marks
check_reachable graph =
    elim (walk_each (walk (suc (length (names graph))) graph) (terminals graph) []) [
      | none ↦ none
      | some marks ↦ some (unmarked graph marks)
    ]
