-- ===== src/Negotiate/Sources.antt =====
-- Why the sources of a pipeline that internal/engine/negotiate.go accepts fit it, row by row of the
-- table of refusals.
use canal.Prelude.{
  ℕ, zero, suc, ◌≤◌, ◌≡◌, refl, Bool, true, false, not, List, [], ◌∷◌, ltb, ◌&&◌, ◌||◌, ◌⊎◌, inl,
  inr, All, arith,
}
use canal.Negotiate.{
  StoreCaps, SourceCaps, StreamConfig, Spec, cap_diag, heartbeater, when, has_number, prunes,
  at_most_once,
}
use canal.Negotiate.Refusals.{
  refuse_source, refuse_sources, streams_for, unread_lanes, unread_streams, gates,
}
use canal.Negotiate.Acceptance.{has_blocker, accepted_parts, unmet}
use canal.Negotiate.Outcome.{Produces, SourceFits}

pub not-false : (b : Bool) → not b ≡ false → b ≡ true
not-false true h = refl
not-false false h = cc

pub not_both : (a b : Bool) → (a && not b) ≡ false → (a ≡ false) ⊎ (b ≡ true)
not_both true true h = inr refl
not_both true false h = cc
not_both false b h = inl refl

unread_lanes-Produces :
    (id : ℕ) (kinds ks : List ℕ)
    → has_blocker (unread_lanes id kinds ks) ≡ false
    → Produces kinds ks
unfolding unread_lanes
unread_lanes-Produces id kinds [] h = tt
unread_lanes-Produces id kinds (k ∷ ks) h =
    let (one, rest) =
      accepted_parts (when (not (has_number kinds k)) (cap_diag id 0)) (unread_lanes id kinds ks)
        h in
    (not-false _ (unmet _ id one), unread_lanes-Produces id kinds ks rest)

replay_choice :
    (g : ℕ) (a b : Bool)
    → (not (a || b) && ltb at_most_once g) ≡ false
    → (g ≡ at_most_once) ⊎ (a ≡ true) ⊎ (b ≡ true)
replay_choice g true b h = inr (inl refl)
replay_choice g false true h = inr (inr refl)
replay_choice g false false h = inl (ground arith)

lanes_choice : (p m : ℕ) → (ltb 0 p && ltb 0 m && ltb m p) ≡ false → (p ≡ 0) ⊎ (m ≡ 0) ⊎ (p ≤ m)
lanes_choice zero m h = inl refl
lanes_choice (suc p) zero h = inr (inl refl)
lanes_choice (suc p) (suc m) h = inr (inr (ground arith))

unread_streams-Produces :
    (id : ℕ) (kinds : List ℕ) (cs : List StreamConfig)
    → has_blocker (unread_streams id kinds cs) ≡ false
    → All (λ stream. Produces kinds stream.read) cs
unfolding unread_streams
unread_streams-Produces id kinds [] h = tt
unread_streams-Produces id kinds (c ∷ cs) h =
    let (one, rest) =
      accepted_parts (unread_lanes id kinds c.read) (unread_streams id kinds cs) h in
    (unread_lanes-Produces id kinds c.read one, unread_streams-Produces id kinds cs rest)

refuse_source-Fits :
    (s : Spec) (sc : StoreCaps) (id : ℕ) (c : SourceCaps)
    → has_blocker (refuse_source s sc id c) ≡ false
    → SourceFits s sc id c
unfolding refuse_source
refuse_source-Fits s sc id c h =
    let (replay, h1) =
      accepted_parts
        (when (not (c.replayable || c.redelivers_unacked) && ltb at_most_once s.guarantee)
          (cap_diag id 0))
        _ h in
    let (first, h2) =
      accepted_parts (when (prunes c.upstream_retention && not sc.flush_is_durable) (cap_diag id 0))
        _ h1 in
    let (beats, h3) =
      accepted_parts
        (when (prunes c.upstream_retention && gates s.streams && not c.heartbeats)
          (cap_diag id heartbeater))
        _ h2 in
    let (lanes, reads) =
      accepted_parts
        (when (ltb 0 s.parallelism && ltb 0 c.max_lanes && ltb c.max_lanes s.parallelism)
          (cap_diag id 0))
        (unread_streams id c.lane_kinds (streams_for id s.streams)) h3 in
    record {
      replay = replay_choice s.guarantee c.replayable c.redelivers_unacked (unmet _ id replay);
      record_first = not_both _ _ (unmet _ id first);
      lanes = lanes_choice s.parallelism c.max_lanes (unmet _ id lanes);
      reads = unread_streams-Produces id c.lane_kinds (streams_for id s.streams) reads;
    }

pub refuse_sources-Fits :
    (s : Spec) (sc : StoreCaps) (sources : List (ℕ × SourceCaps))
    → has_blocker (refuse_sources s sc sources) ≡ false
    → All (λ src. SourceFits s sc src.0 src.1) sources
unfolding refuse_sources
refuse_sources-Fits s sc [] h = tt
refuse_sources-Fits s sc ((id, c) ∷ rest) h =
    let (one, more) = accepted_parts (refuse_source s sc id c) (refuse_sources s sc rest) h in
    (refuse_source-Fits s sc id c one, refuse_sources-Fits s sc rest more)
