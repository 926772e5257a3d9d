-- ===== src/Negotiate/Tests.antt =====
-- One pipeline: a replayable source with stable keys, and two idempotent sinks.
use canal.Prelude.{ℕ, ◌≡◌, refl, Bool, true, false, none, some, List, [], ◌∷◌, arith}
use canal.Fault.Policy.{dead_letter}
use canal.Negotiate.{
  effectively_once, durability_node, StoreCaps, supports, SourceCaps, prunes_on_commit,
  max_guarantee, ResolvedSink, ack_point, ack_write, edge_main, kind_source, kind_sink, edge_failed,
  Edge, carries_failed, drift_lenient, Spec, Resolved, Diagnostic, has_errors, find_node,
  has_number, Downgrade, cap_diag, committer_iface, heartbeater,
}
use canal.Negotiate.Contracts.{
  NodeContract, contracts, contract, branch, store_ceiling, ceiling_from, source_ceiling,
  source_tier, requested_by, node_is_best_effort, every_best_effort, summarise, summarise_from,
  summarise_one,
}
use canal.Negotiate.Refusals.{
  refusals, refuse_overflow, overflows, refuse_sources, refuse_source, refuse_sinks, refuse_sink,
  refuse_retry, unread_streams, unwritten_streams, streams_for, own_streams, general_streams, gates,
  every_source_declares, every_other, has_failed_edge, any_failed,
}
use canal.Negotiate.Waivers.{waiver_covers, apply_waivers, waive_all, waive, first_cover}
use canal.Negotiate.Outcome.{negotiate, Accepted}
use canal.Negotiate.Negotiation.{negotiate-Accepted}
use canal.Negotiate.Tiers.{EachHonest, negotiate-EachHonest}
use canal.Negotiate.Lifting.{EachLifted, apply_waivers-EachLifted}
use canal.Negotiate.Weakest.{IsWeakest, negotiate-IsWeakest, summarise-edge_last}

abbrev tables : SourceCaps
tables = record {
  lane_kinds = 0 ∷ 1 ∷ [];
  max_lanes = 4;
  upstream_retention = prunes_on_commit;
  heartbeats = true;
  complete_images = true;
  replayable = true;
  redelivers_unacked = false;
  stable_keys = true;
}

abbrev warehouse : ResolvedSink
warehouse = record {
  caps = record {
    idempotent = true;
    modes = 0 ∷ [];
    requires_complete_images = true;
    requires_key = true;
    schema_changes = [];
    commits = false;
    stores_token = false;
  };
  token = false;
  committer = false;
  flusher = false;
  schema_app = false;
}

abbrev durable : StoreCaps
durable = record {
  cas = true;
  atomic_multi_key = true;
  epoch_fencing = true;
  durability = durability_node;
  flush_is_durable = true;
}

abbrev wire : List Edge
wire = record { origin = 1; select = edge_main; best_effort = false } ∷ []

abbrev failures : List Edge
failures = record { origin = 1; select = edge_failed; best_effort = true } ∷ []

abbrev pipeline : Spec
pipeline = record {
  graph =
      record { id = 1; kind = kind_source; name = 7; inputs = []; guarantee = none }
      ∷ record { id = 2; kind = kind_sink; name = 8; inputs = wire; guarantee = none }
      ∷ record { id = 3; kind = kind_sink; name = 8; inputs = failures; guarantee = none }
      ∷ [];
  guarantee = effectively_once;
  retry_valid = true;
  retry_end = dead_letter;
  when_full = 0;
  drift = drift_lenient;
  parallelism = 2;
  streams = [];
  downgrades = [];
}

abbrev parts : Resolved
parts = record {
  sources = (1, tables) ∷ [];
  sinks = (2, warehouse) ∷ (3, warehouse) ∷ [];
  when_full = λ id. none;
}

accepted : has_errors (negotiate pipeline parts durable []).1 ≡ false
unfolding negotiate refusals refuse_overflow overflows refuse_sources refuse_source refuse_sinks
    refuse_sink refuse_retry unread_streams unwritten_streams streams_for own_streams
    general_streams gates every_source_declares every_other has_failed_edge any_failed
    carries_failed apply_waivers has_errors supports requested_by find_node
accepted = refl

negotiate-Accepted_example : Accepted pipeline parts durable
negotiate-Accepted_example = negotiate-Accepted pipeline parts durable [] accepted

negotiate-EachHonest_example :
    EachHonest pipeline durable parts parts.sinks ((negotiate pipeline parts durable []).0.nodes)
negotiate-EachHonest_example = negotiate-EachHonest pipeline parts durable []

negotiate-IsWeakest_example :
    IsWeakest
      ((negotiate pipeline parts durable []).0.nodes)
      (negotiate pipeline parts durable []).0.summary.guarantee
negotiate-IsWeakest_example = negotiate-IsWeakest pipeline parts durable []

two_tiers : (negotiate pipeline parts durable []).0.summary.guarantee ≡ effectively_once
unfolding negotiate contracts contract branch store_ceiling ceiling_from supports source_ceiling
    source_tier max_guarantee requested_by find_node node_is_best_effort every_best_effort summarise
    summarise_from summarise_one ack_point
two_tiers = refl

-- A waiver that is signed for the sink 2 does not touch what is refused at the source 1.
abbrev signed : Downgrade
signed = record {
  requested = 3;
  effective = 1;
  missing = 2 ∷ [];
  node = 2;
  acknowledged_by = 8;
  reason = 9;
}

abbrev refused : List Diagnostic
refused = cap_diag 2 committer_iface ∷ cap_diag 1 heartbeater ∷ []

apply_waivers-EachLifted_example :
    EachLifted (signed ∷ []) refused (apply_waivers (signed ∷ []) refused)
apply_waivers-EachLifted_example = apply_waivers-EachLifted (signed ∷ []) refused

still_refused : has_errors (apply_waivers (signed ∷ []) refused) ≡ true
unfolding apply_waivers waive_all waive first_cover waiver_covers has_errors has_number
still_refused = refl

abbrev at_tier : ℕ → ℕ → Bool → NodeContract
at_tier g id lossy = record { guarantee = g; ack = ack_write; edge = id; best_effort = lossy }

summarise-edge_last_example :
    summarise (
      at_tier 2 4 false
      ∷ at_tier 1 5 false
      ∷ at_tier 1 6 false
      ∷ at_tier 0 7 true
      ∷ at_tier 3 8 false
      ∷ [])
    ≡ record { guarantee = 1; edge = some 6; ack = some ack_write }
summarise-edge_last_example =
    summarise-edge_last (at_tier 2 4 false ∷ at_tier 1 5 false ∷ []) (at_tier 1 6 false)
      (at_tier 0 7 true ∷ at_tier 3 8 false ∷ []) refl (omega arith) (ground arith) (ground arith)
