-- ===== src/Ledger/Commit.antt =====
-- The commit side of internal/ledger/ledger.go: Flushable, Committed, FinishLane, RequestRetire,
-- Retirable, Revoke, Stats and Close.
use canal.Prelude.{
  ℕ, ◌+◌, Bool, true, false, not, ◌&&◌, ◌||◌, Option, none, some, List, [], ◌∷◌, ◌++◌, ltb, leb,
  ◌==◌, if◌then◌else◌, add64,
}
use canal.Prelude.Assoc.{lookup}
use canal.Tracker.{close}
use canal.Ledger.{Position, Group, LaneState, Ack, Ledger, fenced, is_discrete}
use canal.Ledger.Registration.{set_lane}
use canal.Ledger.Settlement.{clear_acks, clear_handles, is_last, send_all}

-- bytes.Compare(a, b) <= 0.
unfoldable pub bytes_le : List ℕ → List ℕ → Bool
bytes_le [] b = true
bytes_le (x ∷ a) [] = false
bytes_le (x ∷ a) (y ∷ b) = ltb x y || x == y && bytes_le a b

-- Position.Compare(p, q) says comparable and not after.
unfoldable pub not_after : Position → Position → Bool
unfolding bytes_le
not_after p q = elim p.order [
  | none ↦ false
  | some a ↦ elim q.order [ none ↦ false | some b ↦ bytes_le a b ]
]

abbrev pub is_behind : Position → Option Position → Bool
is_behind p none = false
is_behind p (some c) = not_after p c || leb p.seq c.seq

-- One lane of Flushable: the position to persist, if any.
unfoldable pub flush_lane : LaneState → LaneState × Option Position
unfolding fenced not_after
flush_lane st = elim st.pending_flush [
  | none ↦ (st, none)
  | some p ↦
      if fenced st
      then (st, none)
      else if is_behind p st.committed
      then (record st { pending_flush = none }, none)
      else (record st { pending_flush = none }, some p)
]

unfoldable pub flush_lanes : List (ℕ × LaneState) → List (ℕ × LaneState) × List (ℕ × Position)
unfolding flush_lane
flush_lanes [] = ([], [])
flush_lanes ((id, st) ∷ rest) =
    let (st', r) = flush_lane st in
    let (rest', out) = flush_lanes rest in
    ((id, st') ∷ rest', elim r [ none ↦ out | some p ↦ (id, p) ∷ out ])

unfoldable pub flushable : Ledger → Ledger × List (ℕ × Position)
unfolding flush_lanes
flushable l = let (lanes, out) = flush_lanes l.lanes in (record l { lanes = lanes }, out)

unfoldable pub prefix_ack : ℕ → LaneState → Position → Ack
prefix_ack id st pos = record {
  lane = id;
  epoch = st.epoch;
  through = some pos;
  handles = [];
  abandoned_handles = [];
  records = st.ack_records;
  abandoned = st.ack_abandoned;
  abandoned_by = st.ack_abandoned_by;
  lane_finished = is_last st;
}

-- One lane of Committed.
unfoldable pub commit_lane : ℕ → LaneState → Position → LaneState × List Ack
unfolding fenced prefix_ack
commit_lane id st0 pos =
    let st : LaneState = record st0 { committed = some pos; admitted_since_safe = 0 } in
    if is_discrete st.ordering
    then (st, [])
    else if st.finish_acked
    then (clear_acks st, [])
    else if fenced st
    then (clear_acks st, [])
    else (
      record (clear_acks st) {
        finish_acked = is_last st;
        records_committed = add64 st.records_committed st.ack_records;
      },
      prefix_ack id st pos ∷ [],
    )

unfoldable pub commit_one : Ledger → ℕ → Position → Ledger × List Ack
unfolding commit_lane
commit_one l id pos = elim (lookup id l.lanes) [
  | none ↦ (l, [])
  | some st ↦ (set_lane l id (commit_lane id st pos).0, (commit_lane id st pos).1)
]

unfoldable pub commit_all : Ledger → List (ℕ × Position) → Ledger × List Ack
unfolding commit_one
commit_all l [] = (l, [])
commit_all l ((id, pos) ∷ rest) =
    let (l1, a1) = commit_one l id pos in let (l2, a2) = commit_all l1 rest in (l2, a1 ++ a2)

unfoldable pub committed : Ledger → List (ℕ × Position) → Ledger
unfolding commit_all send_all
committed l m = let (l', out) = commit_all l m in send_all l' out

unfoldable pub finish_lane : Ledger → ℕ → Ledger
finish_lane l id = elim (lookup id l.lanes) [
  | none ↦ l
  | some st ↦ set_lane l id (record st { lane_finished = true })
]

unfoldable pub request_retire : Ledger → ℕ → Ledger × Bool
request_retire l id = elim (lookup id l.lanes) [
  | none ↦ (l, true)
  | some st ↦
      let st' : LaneState = record st { lane_finished = true; retire_requested = true } in
      if st.pending == 0
      then (set_lane l id (record st' { retire_reported = true }), true)
      else (set_lane l id st', false)
]

abbrev pub is_retirable : LaneState → Bool
is_retirable st = st.retire_requested && st.pending == 0 && not st.retire_reported

unfoldable pub retire_lanes : List (ℕ × LaneState) → List (ℕ × LaneState) × List ℕ
retire_lanes [] = ([], [])
retire_lanes ((id, st) ∷ rest) =
    let (rest', out) = retire_lanes rest in
    if is_retirable st
    then ((id, record st { retire_reported = true }) ∷ rest', id ∷ out)
    else ((id, st) ∷ rest', out)

unfoldable pub retirable : Ledger → Ledger × List ℕ
unfolding retire_lanes
retirable l = let (lanes, out) = retire_lanes l.lanes in (record l { lanes = lanes }, out)

-- The watermark of a revocation is at least 1, and never falls.
unfoldable pub fence_mark : LaneState → ℕ
fence_mark st =
    let at : ℕ = if ltb st.epoch 1 then 1 else st.epoch in
    if ltb st.fenced_through at then at else st.fenced_through

unfoldable pub revoke_lane : LaneState → LaneState
unfolding fence_mark
revoke_lane st = record (clear_handles st) {
  fenced_through = fence_mark st;
  resolved = none;
  pending_flush = none;
}

unfoldable pub unsettled : ℕ → List (ℕ × Group) → ℕ
unsettled lane [] = 0
unsettled lane ((id, g) ∷ rest) =
    let n = unsettled lane rest in if g.lane == lane then add64 n g.records else n

unfoldable pub revoke : Ledger → ℕ → Ledger × ℕ
unfolding revoke_lane unsettled
revoke l id = elim (lookup id l.lanes) [
  | none ↦ (l, 0)
  | some st ↦ (set_lane l id (revoke_lane st), unsettled id l.groups)
]

unfoldable pub open_groups : ℕ → List (ℕ × Group) → ℕ
open_groups lane [] = 0
open_groups lane ((id, g) ∷ rest) =
    let n = open_groups lane rest in if g.lane == lane then n + 1 else n

pub record LaneStats : Type 0 where
  pub resolved : Option Position
  pub committed : Option Position
  pub records_read : ℕ
  pub records_committed : ℕ
  pub settled : ℕ
  pub abandoned_total : ℕ
  pub in_flight : ℕ
  pub pending_groups : ℕ
  pub in_flight_budget : ℕ
  pub replay_records : ℕ
  pub blocked : Bool

-- Stats, less the two durations; `none` is a lane that is not registered.
unfoldable pub stats : Ledger → ℕ → Option LaneStats
unfolding open_groups
stats l id = elim (lookup id l.lanes) [
  | none ↦ none
  | some st ↦ some (record {
    resolved = st.resolved;
    committed = st.committed;
    records_read = st.records_read;
    records_committed = st.records_committed;
    settled = st.tracker.settled;
    abandoned_total = add64 st.tracker.abandoned st.shed;
    in_flight = st.tracker.pending;
    pending_groups = open_groups id l.groups;
    in_flight_budget = st.budget;
    replay_records = st.admitted_since_safe;
    blocked = st.blocked;
  })
]

abbrev pub close_trackers : List (ℕ × LaneState) → List (ℕ × LaneState)
close_trackers [] = []
close_trackers ((id, st) ∷ rest) =
    (id, record st { tracker = close st.tracker }) ∷ close_trackers rest

unfoldable pub close_ledger : Ledger → Ledger
close_ledger l = if l.closed then l else record l { closed = true; lanes = close_trackers l.lanes }
