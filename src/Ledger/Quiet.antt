-- ===== src/Ledger/Quiet.antt =====
-- Each change that internal/ledger/ledger.go makes to one lane: quiet, or with one acknowledgement.
use canal.Prelude.{
  ℕ, ◌+◌, add64, ◌≡◌, refl, ◌∙◌, inl, inr, Bool, true, false, ◌&&◌, Option, none, some, List, [],
  ◌∷◌, arith, Bool-cases,
}
use canal.Tracker.{Tracker}
use canal.Ledger.{Position, Outcome, Group, LaneState, Ledger, fenced, is_discrete}
use canal.Ledger.Admission.{publish_position}
use canal.Ledger.Settlement.{
  note_outcome, discharge_ticket, close_group, account_group, emit_lane, emit_lanes, discrete_ack,
  is_empty,
}
use canal.Ledger.Commit.{
  flush_lane, flush_lanes, commit_lane, commit_one, commit_all, prefix_ack, retire_lanes,
  is_retirable, revoke_lane, fence_mark, close_trackers,
}
use canal.Ledger.Acks.{Quiet}
use canal.Ledger.Sweep.{Sweep, nil, calm, Change, Sweep-cons}

pub Quiet-publish : (st : LaneState) (r : Option Position) → Quiet st (publish_position st r)
unfolding publish_position fenced
Quiet-publish st none = ground arith
Quiet-publish st (some p) = ground arith

Quiet-close_group : (st : LaneState) (g : Group) → Quiet st (close_group st g)
unfolding close_group account_group fenced
Quiet-close_group st g = ground arith

pub Quiet-revoke : (st : LaneState) → Quiet st (revoke_lane st)
unfolding revoke_lane fence_mark fenced
Quiet-revoke st = ground arith

pub Quiet-seq : (st : LaneState) (seq : ℕ) → Quiet st (record st { seq = seq })
unfolding fenced
Quiet-seq st seq = ground arith

pub Quiet-tracker : (st : LaneState) (t : Tracker Position) → Quiet st (record st { tracker = t })
unfolding fenced
Quiet-tracker st t = ground arith

pub Quiet-passes :
    (st : LaneState) (r : Option Position)
    → Quiet st (record (publish_position st r) { blocked = false })
unfolding publish_position fenced
Quiet-passes st none = ground arith
Quiet-passes st (some p) = ground arith

pub Quiet-shed :
    (st : LaneState) (r : Option Position) (n : ℕ)
    → let s = publish_position st r in
      Quiet st (record s {
        records_read = add64 s.records_read n;
        shed = add64 s.shed n;
        ack_abandoned = add64 s.ack_abandoned n;
        blocked = false;
      })
unfolding publish_position fenced
Quiet-shed st none n = ground arith
Quiet-shed st (some p) n = ground arith

pub Quiet-open :
    (st : LaneState) (n : ℕ)
    → Quiet st (record st {
      pending = st.pending + 1;
      records_read = add64 st.records_read n;
      admitted_since_safe = add64 st.admitted_since_safe n;
      blocked = false;
    })
unfolding fenced
Quiet-open st n = ground arith

pub note_outcome-lane : (g : Group) (o : Outcome) → (note_outcome g o).lane ≡ g.lane
unfolding note_outcome
note_outcome-lane g o = ground arith

pub Quiet-closing :
    (st : LaneState) (g : Group) (o : Outcome)
    → Quiet st (close_group (record st { tracker = (discharge_ticket st.tracker g o).0 }) g)
unfolding close_group account_group fenced
Quiet-closing st g o = ground arith

pub Quiet-finish : (st : LaneState) → Quiet st (record st { lane_finished = true })
unfolding fenced
Quiet-finish st = ground arith

pub Quiet-retire :
    (st : LaneState) (b : Bool)
    → Quiet st (record st { lane_finished = true; retire_requested = true; retire_reported = b })
unfolding fenced
Quiet-retire st b = ground arith

commit_one-kept :
    (l : Ledger) (id : ℕ) (p : Position)
    → ((commit_one l id p).0.closed ≡ l.closed) × ((commit_one l id p).0.acks ≡ l.acks)
unfolding commit_one
commit_one-kept l id p = ground arith

pub commit_all-kept :
    (l : Ledger) (m : List (ℕ × Position))
    → ((commit_all l m).0.closed ≡ l.closed) × ((commit_all l m).0.acks ≡ l.acks)
unfolding commit_all
commit_all-kept l [] = (refl, refl)
commit_all-kept l ((id, p) ∷ rest) =
    let k = commit_all-kept (commit_one l id p).0 rest in
    let j = commit_one-kept l id p in (k.0 ∙ j.0, k.1 ∙ j.1)

flush_lane-Quiet : (st : LaneState) → Quiet st (flush_lane st).0
unfolding flush_lane fenced
flush_lane-Quiet st = ground arith

pub flush_lanes-Sweep : (lanes : List (ℕ × LaneState)) → Sweep lanes (flush_lanes lanes).0 []
unfolding flush_lanes
flush_lanes-Sweep [] = nil
flush_lanes-Sweep ((id, st) ∷ rest) = calm id (flush_lane-Quiet st) (flush_lanes-Sweep rest)

pub retire_lanes-Sweep : (lanes : List (ℕ × LaneState)) → Sweep lanes (retire_lanes lanes).0 []
unfolding retire_lanes fenced
retire_lanes-Sweep [] = nil
retire_lanes-Sweep ((id, st) ∷ rest) = elim (Bool-cases (is_retirable st)) [
  | inl y ↦ rw y (calm id (ground arith) (retire_lanes-Sweep rest))
  | inr z ↦ rw z (calm id (ground arith) (retire_lanes-Sweep rest))
]

pub close_trackers-Sweep : (lanes : List (ℕ × LaneState)) → Sweep lanes (close_trackers lanes) []
unfolding fenced
close_trackers-Sweep [] = nil
close_trackers-Sweep ((id, st) ∷ rest) = calm id (ground arith) (close_trackers-Sweep rest)

emit_lane-Change : (id : ℕ) (st : LaneState) → Change id st (emit_lane id st).0 (emit_lane id st).1
unfolding emit_lane discrete_ack fenced
emit_lane-Change id st = elim (Bool-cases (is_discrete st.ordering)) [
  | inr z ↦ inl (ground arith, ground arith)
  | inl y ↦ elim (Bool-cases (is_empty st.settled_handles && is_empty st.abandoned_handles)) [
    | inl none_left ↦ inl (ground arith, ground arith)
    | inr left ↦ elim (Bool-cases st.finish_acked) [
      | inl told ↦ inl (ground arith, ground arith)
      | inr more ↦ elim (Bool-cases (fenced st)) [
        | inl fence ↦ inl (ground arith, ground arith)
        | inr held ↦ inr (discrete_ack id st, ground arith, ground arith)
      ]
    ]
  ]
]

pub commit_lane-Change :
    (id : ℕ) (st : LaneState) (p : Position)
    → Change id st (commit_lane id st p).0 (commit_lane id st p).1
unfolding commit_lane prefix_ack fenced
commit_lane-Change id st p = elim (Bool-cases (is_discrete st.ordering)) [
  | inl y ↦ inl (ground arith, ground arith)
  | inr z ↦ elim (Bool-cases st.finish_acked) [
    | inl told ↦ inl (ground arith, ground arith)
    | inr more ↦ elim (Bool-cases (fenced st)) [
      | inl fence ↦ inl (ground arith, ground arith)
      | inr held ↦ inr (prefix_ack id st p, ground arith, ground arith)
    ]
  ]
]

pub emit_lanes-Sweep :
    (lanes : List (ℕ × LaneState)) → Sweep lanes (emit_lanes lanes).0 (emit_lanes lanes).1
unfolding emit_lanes
emit_lanes-Sweep [] = nil
emit_lanes-Sweep ((id, st) ∷ rest) =
    Sweep-cons id (emit_lane id st).1 (emit_lane-Change id st) (emit_lanes-Sweep rest)
