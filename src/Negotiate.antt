-- ===== src/Negotiate.antt =====
-- internal/engine/negotiate.go: what a pipeline may promise, computed from its spec and from what its
-- parts declare, before anything runs. A name is only compared, so a number stands for it, and 0 for
-- the empty one; an ordered enumeration (Guarantee, Durability) is its number, and so are lane kinds,
-- write modes and schema changes. Messages, hints and the prose of Why are left out.
pub mod Waivers
pub mod Contracts
pub mod Refusals
pub mod Acceptance
pub mod Outcome
pub mod Sources
pub mod Negotiation
pub mod Tiers
pub mod Folding
pub mod Weakest
pub mod Lifting
mod Tests
use canal.Prelude.{
  ℕ, zero, suc, Bool, true, false, not, Option, none, some, List, [], ◌∷◌, ◌++◌, ltb, leb, ◌==◌,
  ◌&&◌, ◌||◌, if◌then◌else◌,
}
use canal.Fault.Policy.{Terminal, dead_letter}

abbrev pub at_most_once : ℕ
at_most_once = 0

abbrev pub at_least_once : ℕ
at_least_once = 1

abbrev pub effectively_once : ℕ
effectively_once = 2

abbrev pub exactly_once : ℕ
exactly_once = 3

-- Guarantee.Min
abbrev pub weaker : ℕ → ℕ → ℕ
weaker g h = if ltb h g then h else g

pub record StoreCaps : Type 0 where
  pub cas : Bool
  pub atomic_multi_key : Bool
  pub epoch_fencing : Bool
  pub durability : ℕ
  pub flush_is_durable : Bool

abbrev pub durability_node : ℕ
durability_node = 2

unfoldable pub supports : StoreCaps → ℕ → Bool
supports c g =
    c.flush_is_durable
    && (c.cas && c.epoch_fencing)
    && not (ltb at_least_once g && ltb c.durability durability_node)
    && not (ltb at_least_once g && not c.atomic_multi_key)

pub data Retention : Type 0 where
  retention_unknown prunes_on_commit retention_window retention_unbounded : Retention

abbrev pub prunes : Retention → Bool
prunes prunes_on_commit = true
prunes r = false

pub record SourceCaps : Type 0 where
  pub lane_kinds : List ℕ
  pub max_lanes : ℕ
  pub upstream_retention : Retention
  pub heartbeats : Bool
  pub complete_images : Bool
  pub replayable : Bool
  pub redelivers_unacked : Bool
  pub stable_keys : Bool

pub record SinkCaps : Type 0 where
  pub idempotent : Bool
  pub modes : List ℕ
  pub requires_complete_images : Bool
  pub requires_key : Bool
  pub schema_changes : List ℕ
  pub commits : Bool
  pub stores_token : Bool

unfoldable pub max_guarantee : SinkCaps → ℕ
max_guarantee c =
    if c.commits || c.stores_token
    then exactly_once
    else if c.idempotent
    then effectively_once
    else at_least_once

-- A sink and the optional interfaces that it was resolved to.
pub record ResolvedSink : Type 0 where
  pub caps : SinkCaps
  pub token : Bool
  pub committer : Bool
  pub flusher : Bool
  pub schema_app : Bool

pub data AckPoint : Type 0 where
  ack_token ack_commit ack_flush ack_write : AckPoint

unfoldable pub ack_point : ResolvedSink → AckPoint
ack_point r =
    if r.token
    then ack_token
    else if r.committer
    then ack_commit
    else if r.flusher
    then ack_flush
    else ack_write

pub data EdgeSelect : Type 0 where
  edge_main edge_failed edge_all : EdgeSelect

unfoldable pub carries_failed : EdgeSelect → Bool
carries_failed edge_main = false
carries_failed edge_failed = true
carries_failed edge_all = true

pub record Edge : Type 0 where
  pub origin : ℕ
  pub select : EdgeSelect
  pub best_effort : Bool

pub data Kind : Type 0 where
  kind_source kind_sink kind_transform kind_buffer kind_encoder kind_decoder : Kind
  kind_framer kind_deframer kind_compressor : Kind

pub record Node : Type 0 where
  pub id : ℕ
  pub kind : Kind
  pub name : ℕ
  pub inputs : List Edge
  pub guarantee : Option ℕ

-- `dedupe` is the window, where there is one.
pub record StreamConfig : Type 0 where
  pub stream : ℕ
  pub node : ℕ
  pub read : List ℕ
  pub write : ℕ
  pub dedupe : Option ℕ

pub record Downgrade : Type 0 where
  pub requested : ℕ
  pub effective : ℕ
  pub missing : List ℕ
  pub node : ℕ
  pub acknowledged_by : ℕ
  pub reason : ℕ

pub data Drift : Type 0 where
  drift_lenient drift_evolve drift_try_evolve drift_ignore drift_fail : Drift

-- `retry_valid` is the answer of RetryPolicy.Validate, and `retry_end` its terminal.
pub record Spec : Type 0 where
  pub graph : List Node
  pub guarantee : ℕ
  pub retry_valid : Bool
  pub retry_end : Terminal
  pub when_full : ℕ
  pub drift : Drift
  pub parallelism : ℕ
  pub streams : List StreamConfig
  pub downgrades : List Downgrade

-- The maps of `resolved`, in the order of an iteration; `when_full` is what a node's own config says.
pub record Resolved : Type 0 where
  pub sources : List (ℕ × SourceCaps)
  pub sinks : List (ℕ × ResolvedSink)
  pub when_full : ℕ → Option ℕ

pub data Severity : Type 0 where
  error warning : Severity

pub data Code : Type 0 where
  capability guarantee_refused graph_invalid out_of_range : Code

-- `iface` is the interface that would mend it.
pub record Diagnostic : Type 0 where
  pub node : ℕ
  pub severity : Severity
  pub code : Code
  pub iface : ℕ

abbrev pub is_error : Severity → Bool
is_error error = true
is_error warning = false

unfoldable pub has_errors : List Diagnostic → Bool
has_errors [] = false
has_errors (d ∷ ds) = is_error d.severity || has_errors ds

abbrev pub heartbeater : ℕ
heartbeater = 1

abbrev pub committer_iface : ℕ
committer_iface = 2

abbrev pub buffer_iface : ℕ
buffer_iface = 3

abbrev pub cap_diag : ℕ → ℕ → Diagnostic
cap_diag id iface = record { node = id; severity = error; code = capability; iface = iface }

-- d.Errorf, which names no node.
abbrev pub refusal : Code → Diagnostic
refusal c = record { node = 0; severity = error; code = c; iface = 0 }

abbrev pub when : Bool → Diagnostic → List Diagnostic
when true d = d ∷ []
when false d = []

unfoldable pub find_node : ℕ → List Node → Option Node
find_node id [] = none
find_node id (n ∷ ns) = if n.id == id then some n else find_node id ns

unfoldable pub has_number : List ℕ → ℕ → Bool
has_number [] k = false
has_number (x ∷ xs) k = x == k || has_number xs k
