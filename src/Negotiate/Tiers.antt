-- ===== src/Negotiate/Tiers.antt =====
-- The tiers that negotiate discloses: of every branch, and of the pipeline.
use canal.Prelude.{
  ℕ, zero, suc, ◌≤◌, ◌≡◌, refl, true, List, [], ◌∷◌, ◌⊎◌, inl, inr, Bool-cases, All, arith,
}
use canal.Negotiate.{
  StoreCaps, supports, weaker, at_most_once, at_least_once, exactly_once, SourceCaps, ResolvedSink,
  max_guarantee, Spec, Resolved, Diagnostic,
}
use canal.Negotiate.Contracts.{
  ceiling_from, store_ceiling, source_tier, source_ceiling, requested_by, NodeContract, branch,
  contract, contracts,
}
use canal.Negotiate.Outcome.{negotiate}

-- What a source must declare for a tier.
abbrev pub Grounds : ℕ → SourceCaps → Type 0
Grounds g c =
    ((g ≡ at_most_once) ⊎ (c.replayable ≡ true) ⊎ (c.redelivers_unacked ≡ true))
    × ((g ≤ at_least_once) ⊎ (c.stable_keys ≡ true))

-- The disclosed tier of a branch, against each of the parts it depends on.
pub record Honest (s : Spec) (sc : StoreCaps) (res : Resolved) (id : ℕ) (sk : ResolvedSink)
    (n : NodeContract) : Type 0 where
  pub asked : n.guarantee ≤ requested_by s id
  pub sink : n.guarantee ≤ max_guarantee sk.caps
  pub stored : (n.guarantee ≡ at_most_once) ⊎ (supports sc n.guarantee ≡ true)
  pub grounded : All (λ src. Grounds n.guarantee src.1) res.sources

-- One contract for each sink, in the order of the sinks.
abbrev pub EachHonest :
    Spec → StoreCaps → Resolved → List (ℕ × ResolvedSink) → List NodeContract → Type 0
EachHonest s sc res [] [] = Unit
EachHonest s sc res [] (n ∷ ns) = ⊥
EachHonest s sc res (sink ∷ sinks) [] = ⊥
EachHonest s sc res (sink ∷ sinks) (n ∷ ns) =
    Honest s sc res sink.0 sink.1 n × EachHonest s sc res sinks ns

supports-le : (c : StoreCaps) (g h : ℕ) → h ≤ g → supports c g ≡ true → supports c h ≡ true
unfolding supports
supports-le c g h le ok = ground arith

ceiling_from-supports :
    (c : StoreCaps) (g : ℕ)
    → (ceiling_from c g ≡ at_most_once) ⊎ (supports c (ceiling_from c g) ≡ true)
unfolding ceiling_from
ceiling_from-supports c zero = inl refl
ceiling_from-supports c (suc g) = elim (Bool-cases (supports c (suc g))) [
  | inl y ↦ inr (rw (y, y) refl)
  | inr z ↦ rw z (ceiling_from-supports c g)
]

source_tier-le : (c : SourceCaps) (g : ℕ) → source_tier c g ≤ g
unfolding source_tier
source_tier-le c g = ground arith

source_tier-Grounds : (c : SourceCaps) (g h : ℕ) → h ≤ source_tier c g → Grounds h c
unfolding source_tier
source_tier-Grounds c g h le = ground arith

source_ceiling-le : (sources : List (ℕ × SourceCaps)) (g : ℕ) → source_ceiling sources g ≤ g
unfolding source_ceiling
source_ceiling-le [] g = omega arith
source_ceiling-le ((id, c) ∷ rest) g =
    omega (arith, source_ceiling-le rest (source_tier c g), source_tier-le c g)

source_ceiling-Grounds :
    (sources : List (ℕ × SourceCaps)) (g h : ℕ)
    → h ≤ source_ceiling sources g
    → All (λ src. Grounds h src.1) sources
unfolding source_ceiling
source_ceiling-Grounds [] g h le = tt
source_ceiling-Grounds ((id, c) ∷ rest) g h le = (
  source_tier-Grounds c g h (omega (arith, source_ceiling-le rest (source_tier c g))),
  source_ceiling-Grounds rest (source_tier c g) h le,
)

branch-le :
    (sc : StoreCaps) (res : Resolved) (sk : ResolvedSink)
    → (branch sc res sk ≤ source_ceiling res.sources exactly_once)
      × (branch sc res sk ≤ max_guarantee sk.caps)
      × (branch sc res sk ≤ store_ceiling sc)
unfolding branch
branch-le sc res sk = ground arith

stored_from :
    (c : StoreCaps) (g : ℕ) → g ≤ store_ceiling c → (g ≡ at_most_once) ⊎ (supports c g ≡ true)
unfolding store_ceiling
stored_from c g le = elim (ceiling_from-supports c exactly_once) [
  | inl none_held ↦ inl (omega arith)
  | inr held ↦ inr (supports-le c (ceiling_from c exactly_once) g le held)
]

contract-Honest :
    (s : Spec) (sc : StoreCaps) (res : Resolved) (id : ℕ) (sk : ResolvedSink)
    → Honest s sc res id sk (contract s sc res id sk)
unfolding contract
contract-Honest s sc res id sk =
    let (source, sink, store) = branch-le sc res sk in
    let tier : ℕ = weaker (requested_by s id) (branch sc res sk) in
    let under : tier ≤ branch sc res sk = ground arith in
    record {
      asked = ground arith;
      sink = omega arith;
      stored = stored_from sc tier (omega arith);
      grounded = source_ceiling-Grounds res.sources exactly_once tier (omega arith);
    }

contracts-Honest :
    (s : Spec) (sc : StoreCaps) (res : Resolved) (sinks : List (ℕ × ResolvedSink))
    → EachHonest s sc res sinks (contracts s sc res sinks)
unfolding contracts
contracts-Honest s sc res [] = tt
contracts-Honest s sc res ((id, sk) ∷ rest) =
    (contract-Honest s sc res id sk, contracts-Honest s sc res rest)

-- The tier that negotiate discloses for a branch is at most what was requested for it and what its
-- sink can support, is one that the state store supports unless it is at_most_once, is above
-- at_most_once only if every source can be had again, and above at_least_once only if every source
-- has stable keys. There is one such contract for every sink, in order.
pub negotiate-EachHonest :
    (s : Spec) (res : Resolved) (sc : StoreCaps) (d : List Diagnostic)
    → EachHonest s sc res res.sinks ((negotiate s res sc d).0.nodes)
unfolding negotiate
negotiate-EachHonest s res sc d = contracts-Honest s sc res res.sinks
