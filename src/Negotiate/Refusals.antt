-- ===== src/Negotiate/Refusals.antt =====
-- internal/engine/negotiate.go: the refusals, row by row, before any waiver.
use canal.Prelude.{
  ℕ, Bool, true, false, not, Option, none, some, List, [], ◌∷◌, ◌++◌, ltb, ◌==◌, ◌&&◌, ◌||◌,
  if◌then◌else◌,
}
use canal.Fault.Policy.{Terminal, dead_letter}
use canal.Negotiate.{
  StoreCaps, supports, at_most_once, effectively_once, exactly_once, SourceCaps, prunes,
  ResolvedSink, carries_failed, Edge, Node, StreamConfig, Drift, drift_evolve, drift_ignore,
  drift_fail, Spec, Resolved, warning, capability, guarantee_refused, graph_invalid, out_of_range,
  Diagnostic, heartbeater, committer_iface, buffer_iface, cap_diag, refusal, when, has_number,
}
use canal.Negotiate.Contracts.{requested_by}

-- The order in which connector declares LaneKind, and in which it declares WhenFull.
abbrev pub lane_stream : ℕ
lane_stream = 0

abbrev pub lane_scan : ℕ
lane_scan = 1

abbrev pub overflow : ℕ
overflow = 3

unfoldable pub overflows : (ℕ → Option ℕ) → List Node → List Diagnostic
overflows when_full [] = []
overflows when_full (n ∷ ns) =
    when (elim (when_full n.id) [ none ↦ false | some w ↦ w == overflow ])
      (cap_diag n.id buffer_iface)
    ++ overflows when_full ns

unfoldable pub refuse_overflow : Spec → Resolved → List Diagnostic
refuse_overflow s res =
    when (s.when_full == overflow) (cap_diag 0 buffer_iface) ++ overflows res.when_full s.graph

unfoldable pub gates : List StreamConfig → Bool
gates [] = false
gates (c ∷ cs) = (has_number c.read lane_scan && has_number c.read lane_stream) || gates cs

unfoldable pub own_streams : ℕ → List StreamConfig → List StreamConfig
own_streams id [] = []
own_streams id (c ∷ cs) =
    if c.node == 0 || not (c.node == id) then own_streams id cs else c ∷ own_streams id cs

unfoldable pub names_stream : ℕ → List StreamConfig → Bool
names_stream name [] = false
names_stream name (c ∷ cs) = c.stream == name || names_stream name cs

unfoldable pub general_streams : List StreamConfig → List StreamConfig → List StreamConfig
general_streams own [] = []
general_streams own (c ∷ cs) =
    if not (c.node == 0) || names_stream c.stream own
    then general_streams own cs
    else c ∷ general_streams own cs

-- Spec.StreamsFor
unfoldable pub streams_for : ℕ → List StreamConfig → List StreamConfig
streams_for id cs = own_streams id cs ++ general_streams (own_streams id cs) cs

unfoldable pub unread_lanes : ℕ → List ℕ → List ℕ → List Diagnostic
unread_lanes id kinds [] = []
unread_lanes id kinds (k ∷ ks) =
    when (not (has_number kinds k)) (cap_diag id 0) ++ unread_lanes id kinds ks

unfoldable pub unread_streams : ℕ → List ℕ → List StreamConfig → List Diagnostic
unread_streams id kinds [] = []
unread_streams id kinds (c ∷ cs) = unread_lanes id kinds c.read ++ unread_streams id kinds cs

unfoldable pub refuse_source : Spec → StoreCaps → ℕ → SourceCaps → List Diagnostic
refuse_source s sc id c =
    when (not (c.replayable || c.redelivers_unacked) && ltb at_most_once s.guarantee)
      (cap_diag id 0)
    ++ (when (prunes c.upstream_retention && not sc.flush_is_durable) (cap_diag id 0)
        ++ (when (prunes c.upstream_retention && gates s.streams && not c.heartbeats)
              (cap_diag id heartbeater)
            ++ (when (ltb 0 s.parallelism && ltb 0 c.max_lanes && ltb c.max_lanes s.parallelism)
                  (cap_diag id 0)
                ++ unread_streams id c.lane_kinds (streams_for id s.streams))))

unfoldable pub refuse_sources : Spec → StoreCaps → List (ℕ × SourceCaps) → List Diagnostic
refuse_sources s sc [] = []
refuse_sources s sc ((id, c) ∷ rest) = refuse_source s sc id c ++ refuse_sources s sc rest

unfoldable pub every_other : (SourceCaps → Bool) → List (ℕ × SourceCaps) → Bool
every_other pred [] = true
every_other pred ((id, c) ∷ rest) = pred c && every_other pred rest

unfoldable pub every_source_declares : (SourceCaps → Bool) → List (ℕ × SourceCaps) → Bool
every_source_declares pred [] = false
every_source_declares pred ((id, c) ∷ rest) = pred c && every_other pred rest

unfoldable pub unwritten_streams : ℕ → List ℕ → List StreamConfig → List Diagnostic
unwritten_streams id modes [] = []
unwritten_streams id modes (c ∷ cs) =
    when (not (has_number modes c.write)) (cap_diag id 0)
    ++ (when (elim c.dedupe [ none ↦ false | some window ↦ window == 0 ])
          (refusal guarantee_refused)
        ++ unwritten_streams id modes cs)

-- ChangeKind, in the order of its declaration from CreateStream on.
abbrev pub change_kinds : List ℕ
change_kinds = 1 ∷ 2 ∷ 3 ∷ 4 ∷ 5 ∷ 6 ∷ 7 ∷ 8 ∷ 9 ∷ []

-- DropField, AlterFieldType, TruncateStream and DropStream.
unfoldable pub destructive : ℕ → Bool
destructive k = k == 3 || k == 5 || k == 8 || k == 9

unfoldable pub permits_change : Drift → ℕ → Bool
permits_change drift_evolve k = true
permits_change drift_ignore k = false
permits_change drift_fail k = false
permits_change d k = not (destructive k)

unfoldable pub drift_warnings : ℕ → Drift → List ℕ → List ℕ → List Diagnostic
drift_warnings id d declared [] = []
drift_warnings id d declared (k ∷ ks) =
    when (permits_change d k && not (has_number declared k))
      (record { node = id; severity = warning; code = capability; iface = 0 })
    ++ drift_warnings id d declared ks

unfoldable pub refuse_sink : Spec → Resolved → ℕ → ResolvedSink → List Diagnostic
refuse_sink s res id sk =
    when (not sk.committer && not sk.token && requested_by s id == exactly_once)
      (cap_diag id committer_iface)
    ++ (when (requested_by s id == effectively_once && not sk.caps.idempotent) (cap_diag id 0)
        ++ (when
              (sk.caps.requires_complete_images
                && not (every_source_declares (λ c. c.complete_images) res.sources))
              (cap_diag id 0)
            ++ (when
                  (sk.caps.requires_key
                    && not (every_source_declares (λ c. c.stable_keys) res.sources))
                  (cap_diag id 0)
                ++ (unwritten_streams id sk.caps.modes (streams_for id s.streams)
                    ++ (if sk.schema_app
                        then drift_warnings id s.drift sk.caps.schema_changes change_kinds
                        else [])))))

unfoldable pub refuse_sinks : Spec → Resolved → List (ℕ × ResolvedSink) → List Diagnostic
refuse_sinks s res [] = []
refuse_sinks s res ((id, sk) ∷ rest) = refuse_sink s res id sk ++ refuse_sinks s res rest

unfoldable pub any_failed : List Edge → Bool
any_failed [] = false
any_failed (e ∷ es) = carries_failed e.select || any_failed es

unfoldable pub has_failed_edge : List Node → Bool
has_failed_edge [] = false
has_failed_edge (n ∷ ns) = any_failed n.inputs || has_failed_edge ns

abbrev pub dead_letters : Terminal → Bool
dead_letters dead_letter = true
dead_letters t = false

unfoldable pub refuse_retry : Spec → List Diagnostic
refuse_retry s =
    when (not s.retry_valid) (refusal out_of_range)
    ++ when (dead_letters s.retry_end && not (has_failed_edge s.graph)) (refusal graph_invalid)

-- Everything that is refused, in the order of negotiate.
unfoldable pub refusals : Spec → StoreCaps → Resolved → List Diagnostic
refusals s sc res =
    refuse_overflow s res
    ++ (when (not (supports sc s.guarantee)) (refusal guarantee_refused)
        ++ (refuse_sources s sc res.sources ++ (refuse_sinks s res res.sinks ++ refuse_retry s)))
