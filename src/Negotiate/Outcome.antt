-- ===== src/Negotiate/Outcome.antt =====
-- internal/engine/negotiate.go: negotiate as a whole, and what an accepted pipeline is to have.
use canal.Prelude.{ℕ, ◌≤◌, ◌≡◌, ◌≢◌, true, false, List, ◌++◌, ◌⊎◌, All}
use canal.Negotiate.{
  StoreCaps, SourceCaps, ResolvedSink, Spec, Resolved, Diagnostic, has_number, prunes, at_most_once,
  effectively_once,
}
use canal.Negotiate.Waivers.{apply_waivers}
use canal.Negotiate.Contracts.{requested_by, NodeContract, contracts, Summary, summarise}
use canal.Negotiate.Refusals.{refusals, streams_for, dead_letters, has_failed_edge}

pub record Negotiated : Type 0 where
  pub nodes : List NodeContract
  pub summary : Summary

-- `d` is what the phases before have found.
unfoldable pub negotiate :
    Spec → Resolved → StoreCaps → List Diagnostic → Negotiated × List Diagnostic
negotiate s res sc d =
    let nodes : List NodeContract = contracts s sc res res.sinks in
    (
      record { nodes = nodes; summary = summarise nodes },
      apply_waivers s.downgrades (d ++ refusals s sc res),
    )

-- Every kind of lane that a stream asks for is one that the source produces.
abbrev pub Produces : List ℕ → List ℕ → Type 0
Produces kinds ks = All (λ k. has_number kinds k ≡ true) ks

pub record SourceFits (s : Spec) (sc : StoreCaps) (id : ℕ) (c : SourceCaps) : Type 0 where
  -- Above at_most_once, a window that is lost in flight can be had again.
  pub replay : (s.guarantee ≡ at_most_once) ⊎ (c.replayable ≡ true) ⊎ (c.redelivers_unacked ≡ true)
  -- Canal's own record is durable before an upstream discards its own.
  pub record_first : (prunes c.upstream_retention ≡ false) ⊎ (sc.flush_is_durable ≡ true)
  pub lanes : (s.parallelism ≡ 0) ⊎ (c.max_lanes ≡ 0) ⊎ (s.parallelism ≤ c.max_lanes)
  pub reads : All (λ stream. Produces c.lane_kinds stream.read) (streams_for id s.streams)

pub record SinkFits (s : Spec) (res : Resolved) (id : ℕ) (sk : ResolvedSink) : Type 0 where
  pub absorbs : (requested_by s id ≢ effectively_once) ⊎ (sk.caps.idempotent ≡ true)
  pub images :
      (sk.caps.requires_complete_images ≡ false)
      ⊎ All (λ src. src.1.complete_images ≡ true) res.sources
  pub keys : (sk.caps.requires_key ≡ false) ⊎ All (λ src. src.1.stable_keys ≡ true) res.sources
  pub writes :
      All (λ stream. has_number sk.caps.modes stream.write ≡ true) (streams_for id s.streams)

pub record Accepted (s : Spec) (res : Resolved) (sc : StoreCaps) : Type 0 where
  pub sources : All (λ src. SourceFits s sc src.0 src.1) res.sources
  pub sinks : All (λ sink. SinkFits s res sink.0 sink.1) res.sinks
  pub retries : s.retry_valid ≡ true
  pub dead : (dead_letters s.retry_end ≡ false) ⊎ (has_failed_edge s.graph ≡ true)
