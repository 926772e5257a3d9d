-- ===== src/Negotiate/Negotiation.antt =====
-- Why a pipeline that internal/engine/negotiate.go accepts has what it is to have: its sinks, its retry
-- policy, and the whole.
use canal.Prelude.{
  ℕ, ◌≡◌, ◌≢◌, refl, Bool, true, false, not, none, some, List, [], ◌∷◌, ◌++◌, ◌==◌, ◌&&◌, ◌⊎◌, inl,
  inr, All, arith,
}
use canal.Negotiate.{
  StoreCaps, supports, SourceCaps, ResolvedSink, StreamConfig, Spec, Resolved, Diagnostic,
  has_errors, cap_diag, refusal, guarantee_refused, graph_invalid, out_of_range, committer_iface,
  exactly_once, when, has_number, effectively_once,
}
use canal.Negotiate.Contracts.{requested_by}
use canal.Negotiate.Refusals.{
  refusals, refuse_overflow, refuse_sources, refuse_sink, refuse_sinks, refuse_retry, every_other,
  every_source_declares, streams_for, unwritten_streams, dead_letters, has_failed_edge,
}
use canal.Negotiate.Acceptance.{has_blocker, accepted_parts, accepted-unblocked, unmet_by, unmet}
use canal.Negotiate.Outcome.{negotiate, SinkFits, Accepted}
use canal.Negotiate.Sources.{not-false, not_both, refuse_sources-Fits}

every_other-All :
    (pred : SourceCaps → Bool) (sources : List (ℕ × SourceCaps))
    → every_other pred sources ≡ true
    → All (λ src. pred src.1 ≡ true) sources
unfolding every_other
every_other-All pred [] h = tt
every_other-All pred ((id, c) ∷ rest) h = ground (arith, every_other-All pred rest)

every_source_declares-All :
    (pred : SourceCaps → Bool) (sources : List (ℕ × SourceCaps))
    → every_source_declares pred sources ≡ true
    → All (λ src. pred src.1 ≡ true) sources
unfolding every_source_declares
every_source_declares-All pred [] h = tt
every_source_declares-All pred ((id, c) ∷ rest) h = ground (arith, every_other-All pred rest)

unwritten_streams-All :
    (id : ℕ) (modes : List ℕ) (cs : List StreamConfig)
    → has_blocker (unwritten_streams id modes cs) ≡ false
    → All (λ stream. has_number modes stream.write ≡ true) cs
unfolding unwritten_streams
unwritten_streams-All id modes [] h = tt
unwritten_streams-All id modes (c ∷ cs) h =
    let (one, h1) = accepted_parts (when (not (has_number modes c.write)) (cap_diag id 0)) _ h in
    let (window, rest) =
      accepted_parts
        (when (elim c.dedupe [ none ↦ false | some window ↦ window == 0 ])
          (refusal guarantee_refused))
        (unwritten_streams id modes cs) h1 in
    (not-false _ (unmet _ id one), unwritten_streams-All id modes cs rest)

absorbs_choice :
    (g : ℕ) (b : Bool)
    → (g == effectively_once && not b) ≡ false
    → (g ≢ effectively_once) ⊎ (b ≡ true)
absorbs_choice g true h = inr refl
absorbs_choice g false h = inl (λ e. ground (arith, h, e))

declared :
    (wants : Bool) (pred : SourceCaps → Bool) (sources : List (ℕ × SourceCaps))
    → (wants && not (every_source_declares pred sources)) ≡ false
    → (wants ≡ false) ⊎ All (λ src. pred src.1 ≡ true) sources
declared wants pred sources h = elim (not_both wants (every_source_declares pred sources) h) [
  | inl unwanted ↦ inl unwanted
  | inr every ↦ inr (every_source_declares-All pred sources every)
]

refuse_sink-Fits :
    (s : Spec) (res : Resolved) (id : ℕ) (sk : ResolvedSink)
    → has_blocker (refuse_sink s res id sk) ≡ false
    → SinkFits s res id sk
unfolding refuse_sink
refuse_sink-Fits s res id sk h =
    let (commits, h1) =
      accepted_parts
        (when (not sk.committer && not sk.token && requested_by s id == exactly_once)
          (cap_diag id committer_iface))
        _ h in
    let (absorbs, h2) =
      accepted_parts
        (when (requested_by s id == effectively_once && not sk.caps.idempotent) (cap_diag id 0)) _
        h1 in
    let (images, h3) =
      accepted_parts
        (when
          (sk.caps.requires_complete_images
            && not (every_source_declares (λ c. c.complete_images) res.sources))
          (cap_diag id 0))
        _ h2 in
    let (keys, h4) =
      accepted_parts
        (when (sk.caps.requires_key && not (every_source_declares (λ c. c.stable_keys) res.sources))
          (cap_diag id 0))
        _ h3 in
    let (writes, drift) =
      accepted_parts (unwritten_streams id sk.caps.modes (streams_for id s.streams)) _ h4 in
    record {
      absorbs = absorbs_choice (requested_by s id) sk.caps.idempotent (unmet _ id absorbs);
      images =
          declared sk.caps.requires_complete_images (λ c. c.complete_images) res.sources
            (unmet _ id images);
      keys = declared sk.caps.requires_key (λ c. c.stable_keys) res.sources (unmet _ id keys);
      writes = unwritten_streams-All id sk.caps.modes (streams_for id s.streams) writes;
    }

refuse_sinks-Fits :
    (s : Spec) (res : Resolved) (sinks : List (ℕ × ResolvedSink))
    → has_blocker (refuse_sinks s res sinks) ≡ false
    → All (λ sink. SinkFits s res sink.0 sink.1) sinks
unfolding refuse_sinks
refuse_sinks-Fits s res [] h = tt
refuse_sinks-Fits s res ((id, sk) ∷ rest) h =
    let (one, more) = accepted_parts (refuse_sink s res id sk) (refuse_sinks s res rest) h in
    (refuse_sink-Fits s res id sk one, refuse_sinks-Fits s res rest more)

refuse_retry-valid :
    (s : Spec)
    → has_blocker (refuse_retry s) ≡ false
    → (s.retry_valid ≡ true)
      × ((dead_letters s.retry_end ≡ false) ⊎ (has_failed_edge s.graph ≡ true))
unfolding refuse_retry
refuse_retry-valid s h =
    let lost : Bool = dead_letters s.retry_end && not (has_failed_edge s.graph) in
    let (valid, dead) =
      accepted_parts (when (not s.retry_valid) (refusal out_of_range))
        (when lost (refusal graph_invalid)) h in
    (
      not-false _ (unmet_by _ (refusal out_of_range) refl valid),
      not_both _ _ (unmet_by _ (refusal graph_invalid) refl dead),
    )

-- A pipeline that negotiate accepts, under whatever waivers: every source can be had again after a
-- loss unless the pipeline asks for at_most_once only, no upstream that prunes on commit is read
-- without a durable store, lanes and streams are such as the sources produce, an effectively_once
-- branch has an idempotent sink, complete images and keys are declared by every source where a sink
-- needs them, write modes are supported, and the retry policy is valid and has somewhere to
-- dead-letter to.
pub negotiate-Accepted :
    (s : Spec) (res : Resolved) (sc : StoreCaps) (d : List Diagnostic)
    → has_errors (negotiate s res sc d).1 ≡ false
    → Accepted s res sc
unfolding negotiate refusals
negotiate-Accepted s res sc d h =
    let none_left = accepted-unblocked s.downgrades (d ++ refusals s sc res) h in
    let (before, h1) = accepted_parts d (refusals s sc res) none_left in
    let (overflow, h2) = accepted_parts (refuse_overflow s res) _ h1 in
    let (store, h3) =
      accepted_parts (when (not (supports sc s.guarantee)) (refusal guarantee_refused)) _ h2 in
    let (sources, h4) = accepted_parts (refuse_sources s sc res.sources) _ h3 in
    let (sinks, retry) = accepted_parts (refuse_sinks s res res.sinks) (refuse_retry s) h4 in
    let (valid, dead) = refuse_retry-valid s retry in
    record {
      sources = refuse_sources-Fits s sc res.sources sources;
      sinks = refuse_sinks-Fits s res res.sinks sinks;
      retries = valid;
      dead = dead;
    }
