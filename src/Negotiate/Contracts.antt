-- ===== src/Negotiate/Contracts.antt =====
-- internal/engine/negotiate.go: the tier of every branch, and the summary of the pipeline.
use canal.Prelude.{
  ℕ, zero, suc, Bool, true, false, not, Option, none, some, List, [], ◌∷◌, ltb, leb, ◌&&◌, ◌||◌,
  if◌then◌else◌,
}
use canal.Negotiate.{
  StoreCaps, supports, weaker, exactly_once, at_most_once, at_least_once, SourceCaps, ResolvedSink,
  max_guarantee, AckPoint, ack_point, ack_write, Edge, find_node, Spec, Resolved,
}

-- The loop over the tiers, from the strongest down.
unfoldable pub ceiling_from : StoreCaps → ℕ → ℕ
ceiling_from c zero = at_most_once
ceiling_from c (suc g) = let below = ceiling_from c g in if supports c (suc g) then suc g else below

unfoldable pub store_ceiling : StoreCaps → ℕ
store_ceiling c = ceiling_from c exactly_once

-- What one source does to the tier that the sources can support.
unfoldable pub source_tier : SourceCaps → ℕ → ℕ
source_tier c g =
    let replayed : ℕ = if c.replayable || c.redelivers_unacked then g else weaker g at_most_once in
    if c.stable_keys then replayed else weaker replayed at_least_once

unfoldable pub source_ceiling : List (ℕ × SourceCaps) → ℕ → ℕ
source_ceiling [] g = g
source_ceiling ((id, c) ∷ rest) g = source_ceiling rest (source_tier c g)

unfoldable pub requested_by : Spec → ℕ → ℕ
requested_by s id = elim (find_node id s.graph) [
  | none ↦ s.guarantee
  | some n ↦ elim n.guarantee [ none ↦ s.guarantee | some g ↦ g ]
]

unfoldable pub every_best_effort : List Edge → Bool
every_best_effort [] = true
every_best_effort (e ∷ es) = e.best_effort && every_best_effort es

abbrev pub is_empty {ℓ} : {A : Type ℓ} → List A → Bool
is_empty [] = true
is_empty (x ∷ xs) = false

unfoldable pub node_is_best_effort : Spec → ℕ → Bool
node_is_best_effort s id = elim (find_node id s.graph) [
  | none ↦ false
  | some n ↦ not (is_empty n.inputs) && every_best_effort n.inputs
]

-- `edge` is the sink whose durability is meant.
pub record NodeContract : Type 0 where
  pub guarantee : ℕ
  pub ack : AckPoint
  pub edge : ℕ
  pub best_effort : Bool

unfoldable pub branch : StoreCaps → Resolved → ResolvedSink → ℕ
branch sc res sk =
    weaker (weaker (source_ceiling res.sources exactly_once) (max_guarantee sk.caps))
      (store_ceiling sc)

unfoldable pub contract : Spec → StoreCaps → Resolved → ℕ → ResolvedSink → NodeContract
contract s sc res id sk = record {
  guarantee = weaker (requested_by s id) (branch sc res sk);
  ack = ack_point sk;
  edge = id;
  best_effort = node_is_best_effort s id;
}

unfoldable pub contracts : Spec → StoreCaps → Resolved → List (ℕ × ResolvedSink) → List NodeContract
contracts s sc res [] = []
contracts s sc res ((id, sk) ∷ rest) = contract s sc res id sk ∷ contracts s sc res rest

-- Guarantee, DurabilityEdge and AckPoint of the whole pipeline, while the loop over its nodes runs.
pub record Summary : Type 0 where
  pub guarantee : ℕ
  pub edge : Option ℕ
  pub ack : Option AckPoint

abbrev pub is_unset : Option ℕ → Bool
is_unset none = true
is_unset (some e) = false

unfoldable pub summarise_one : Summary → NodeContract → Summary
summarise_one out n =
    let lowest : ℕ = if ltb n.guarantee out.guarantee then n.guarantee else out.guarantee in
    if n.best_effort
    then out
    else if is_unset out.edge || leb n.guarantee lowest
    then record { guarantee = lowest; edge = some n.edge; ack = some n.ack }
    else record out { guarantee = lowest }

unfoldable pub summarise_from : Summary → List NodeContract → Summary
summarise_from out [] = out
summarise_from out (n ∷ ns) = summarise_from (summarise_one out n) ns

abbrev pub initial_guarantee : List NodeContract → ℕ
initial_guarantee [] = at_most_once
initial_guarantee (n ∷ ns) = exactly_once

unfoldable pub summarise : List NodeContract → Summary
summarise ns =
    let out =
      summarise_from (record { guarantee = initial_guarantee ns; edge = none; ack = none }) ns in
    record out { ack = some (elim out.ack [ none ↦ ack_write | some a ↦ a ]) }
