-- ===== src/Ledger/Settlement.antt =====
-- Settlement of internal/ledger/ledger.go: Settle, one outcome after the other, and emitDiscrete.
use canal.Prelude.{
  ℕ, ◌-◌, Bool, true, false, not, ◌&&◌, Option, none, some, List, [], ◌∷◌, ◌++◌, leb, ◌==◌,
  if◌then◌else◌, add64, add32,
}
use canal.Prelude.Assoc.{lookup, insert, remove}
use canal.Tracker.{Tracker, release, abandon}
use canal.Ledger.{
  Position, Outcome, Group, LaneState, Ack, Ledger, fenced, fenced_group, is_abandoned, is_discrete,
}
use canal.Ledger.Registration.{set_lane}
use canal.Ledger.Admission.{publish_position}

-- n[k] += d on a map of counters; a missing counter is 0.
unfoldable pub bump : ℕ → ℕ → List (ℕ × ℕ) → List (ℕ × ℕ)
bump k d m = elim (lookup k m) [ none ↦ insert k d m | some n ↦ insert k (add64 n d) m ]

unfoldable pub merge_counts : List (ℕ × ℕ) → List (ℕ × ℕ) → List (ℕ × ℕ)
unfolding bump
merge_counts [] m = m
merge_counts ((k, n) ∷ rest) m = merge_counts rest (bump k n m)

-- The handle of a settled record goes to one of the two lists of its group.
unfoldable pub partition_handle : Group → Outcome → Group
partition_handle g o = elim (lookup o.rec g.handles) [
  | none ↦ g
  | some h ↦ record g {
    handles = remove o.rec g.handles;
    landed = if is_abandoned o.disposition then g.landed else g.landed ++ h ∷ [];
    abandoned_handles =
        if is_abandoned o.disposition then g.abandoned_handles ++ h ∷ [] else g.abandoned_handles;
  }
]

unfoldable pub count_abandoned : Group → Outcome → Group
unfolding bump
count_abandoned g o =
    if is_abandoned o.disposition
    then record g {
      abandoned = add64 g.abandoned 1;
      abandoned_by = if o.node == 0 then g.abandoned_by else bump o.node 1 g.abandoned_by;
    }
    else g

unfoldable pub note_outcome : Group → Outcome → Group
unfolding partition_handle count_abandoned
note_outcome g o = count_abandoned (partition_handle (record g { settled = add32 g.settled 1 }) o) o

-- The ticket is discharged by one reference, or abandoned by the last outcome.
unfoldable pub discharge_ticket :
    Tracker Position → Group → Outcome → Tracker Position × Option Position
discharge_ticket t g o = elim g.ticket [
  | none ↦ (t, none)
  | some id ↦
      if is_abandoned o.disposition && leb g.refs g.settled
      then abandon t (some id)
      else release t (some id) 1
]

-- The counters of the lane's next acknowledgement take over a group that is complete.
unfoldable pub account_group : LaneState → Group → LaneState
unfolding merge_counts
account_group st g = record st {
  ack_records = add64 st.ack_records g.records;
  ack_abandoned = add64 st.ack_abandoned g.abandoned;
  ack_abandoned_by = merge_counts g.abandoned_by st.ack_abandoned_by;
  settled_handles =
      if is_discrete st.ordering then st.settled_handles ++ g.landed else st.settled_handles;
  abandoned_handles =
      if is_discrete st.ordering
      then st.abandoned_handles ++ g.abandoned_handles
      else st.abandoned_handles;
}

-- A group whose references are all settled is closed; one of a fenced epoch is not accounted.
unfoldable pub close_group : LaneState → Group → LaneState
unfolding fenced_group account_group
close_group st g =
    if fenced_group st g.epoch
    then record st { pending = st.pending - 1 }
    else record (account_group st g) { pending = st.pending - 1 }

abbrev pub Advance : Type 0
Advance = ℕ × Position

unfoldable pub advances_of : LaneState → Group → Option Position → List Advance
unfolding fenced_group
advances_of st g none = []
advances_of st g (some p) =
    if not (is_discrete st.ordering) && not (fenced_group st g.epoch) then (g.lane, p) ∷ [] else []

-- One outcome on an open group `g`, already taken out of by_rec and noted.
unfoldable pub settle_group : Ledger → ℕ → Group → Outcome → LaneState → Ledger × List Advance
unfolding discharge_ticket advances_of close_group
settle_group l gid g o st =
    let st' : LaneState = record st { tracker = (discharge_ticket st.tracker g o).0 } in
    let advances : List Advance = advances_of st g (discharge_ticket st.tracker g o).1 in
    if leb g.refs g.settled
    then (
      record l { groups = remove gid l.groups; lanes = insert g.lane (close_group st' g) l.lanes },
      advances,
    )
    else (record l { groups = insert gid g l.groups; lanes = insert g.lane st' l.lanes }, advances)

unfoldable pub settle_one : Ledger → Outcome → Ledger × List Advance
unfolding note_outcome settle_group
settle_one l o = elim (lookup o.rec l.by_rec) [
  | none ↦ (l, [])
  | some gid ↦ elim (lookup gid l.groups) [
    | none ↦ (l, [])
    | some g ↦
        let l' : Ledger = record l { by_rec = remove o.rec l.by_rec } in
        elim (lookup g.lane l.lanes) [
          | none ↦ (record l' { groups = insert gid (note_outcome g o) l.groups }, [])
          | some st ↦ settle_group l' gid (note_outcome g o) o st
        ]
  ]
]

unfoldable pub settle_all : Ledger → List Outcome → Ledger × List Advance
unfolding settle_one
settle_all l [] = (l, [])
settle_all l (o ∷ os) =
    let (l1, a1) = settle_one l o in let (l2, a2) = settle_all l1 os in (l2, a1 ++ a2)

unfoldable pub publish_all : Ledger → List Advance → Ledger
unfolding publish_position
publish_all l [] = l
publish_all l ((id, p) ∷ rest) =
    publish_all
      (elim (lookup id l.lanes) [
        | none ↦ l
        | some st ↦ set_lane l id (publish_position st (some p))
      ])
      rest

-- The acknowledgement counters of a lane start again.
abbrev pub clear_acks : LaneState → LaneState
clear_acks st = record st { ack_records = 0; ack_abandoned = 0; ack_abandoned_by = [] }

abbrev pub clear_handles : LaneState → LaneState
clear_handles st = record (clear_acks st) { settled_handles = []; abandoned_handles = [] }

abbrev pub is_last : LaneState → Bool
is_last st = st.lane_finished && st.pending == 0

unfoldable pub discrete_ack : ℕ → LaneState → Ack
discrete_ack id st = record {
  lane = id;
  epoch = st.epoch;
  through = none;
  handles = st.settled_handles;
  abandoned_handles = st.abandoned_handles;
  records = st.ack_records;
  abandoned = st.ack_abandoned;
  abandoned_by = st.ack_abandoned_by;
  lane_finished = is_last st;
}

abbrev pub is_empty {ℓ} : {A : Type ℓ} → List A → Bool
is_empty [] = true
is_empty (x ∷ xs) = false

-- One lane of emitDiscrete.
unfoldable pub emit_lane : ℕ → LaneState → LaneState × List Ack
unfolding fenced discrete_ack
emit_lane id st =
    if not (is_discrete st.ordering)
    then (st, [])
    else if is_empty st.settled_handles && is_empty st.abandoned_handles
    then (st, [])
    else if st.finish_acked
    then (clear_handles st, [])
    else if fenced st
    then (clear_handles st, [])
    else (
      record (clear_handles st) {
        finish_acked = is_last st;
        records_committed = add64 st.records_committed st.ack_records;
      },
      discrete_ack id st ∷ [],
    )

unfoldable pub emit_lanes : List (ℕ × LaneState) → List (ℕ × LaneState) × List Ack
unfolding emit_lane
emit_lanes [] = ([], [])
emit_lanes ((id, st) ∷ rest) =
    let (st', a1) = emit_lane id st in
    let (rest', a2) = emit_lanes rest in ((id, st') ∷ rest', a1 ++ a2)

-- What has been sent once `out` has been offered: a closed ledger drops it.
abbrev pub sent : Bool → List Ack → List Ack → List Ack
sent true acks out = acks
sent false acks out = acks ++ out

unfoldable pub send_all : Ledger → List Ack → Ledger
send_all l out = record l { acks = sent l.closed l.acks out }

unfoldable pub emit_discrete : Ledger → Ledger
unfolding emit_lanes send_all
emit_discrete l = let (lanes, out) = emit_lanes l.lanes in send_all (record l { lanes = lanes }) out

-- Settle up to its unlock.
unfoldable pub settle_locked : Ledger → List Outcome → Ledger
unfolding settle_all publish_all
settle_locked l outs = let (l', advances) = settle_all l outs in publish_all l' advances

-- One undisturbed call of Settle.
unfoldable pub settle : Ledger → List Outcome → Ledger
unfolding settle_locked emit_discrete
settle l outs = emit_discrete (settle_locked l outs)
