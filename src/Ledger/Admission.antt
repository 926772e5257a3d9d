-- ===== src/Ledger/Admission.antt =====
-- Admission of internal/ledger/ledger.go: Admit, shed, Expand and
-- Register. Admit releases the mutex round the call of the tracker, so it is three functions: what
-- it does before, the tracker's part, and what it does after.
use canal.Prelude.{
  ℕ, ◌+◌, Bool, true, false, not, ◌&&◌, Option, none, some, List, [], ◌∷◌, ◌==◌, if◌then◌else◌,
  add64, add32, length,
}
use canal.Prelude.Assoc.{lookup, insert}
use canal.Tracker.{
  Node, Tracker, Ticket, track, Tracked, entered, tracker_closed, interrupted, waiting, try_track,
  track_resolved, abandon,
}
use canal.Ledger.{
  Position, WhenFull, Item, Batch, Group, LaneState, Ledger, fenced, sheds, is_discrete,
}
use canal.Ledger.Registration.{
  Refusal, stopped, shed_records, set_lane, lane, not_registered, is_fenced, mislabelled,
  duplicate_group, not_open,
}

abbrev pub agree : ℕ → List Item → Bool
agree lane [] = true
agree lane (r ∷ rs) = r.lane == lane && agree lane rs

-- The sum of the references wraps as a uint32.
abbrev pub total_refs : List Item → ℕ
total_refs [] = 0
total_refs (r ∷ rs) = add32 r.refs (total_refs rs)

abbrev pub handles_of : List Item → List (ℕ × ℕ)
handles_of [] = []
handles_of (r ∷ rs) = elim r.handle [
  | none ↦ handles_of rs
  | some h ↦ insert r.id h (handles_of rs)
]

abbrev pub first_node : List Item → ℕ
first_node [] = 0
first_node (r ∷ rs) = r.node

-- What one call of Admit carries over the unlocked tracker call.
pub record Admission : Type 0 where
  pub batch : Batch
  pub unit : Group
  pub when_full : WhenFull

unfoldable pub new_group : LaneState → Batch → ℕ → Group
new_group st b now = record {
  lane = b.lane;
  node = first_node b.items;
  epoch = st.epoch;
  ticket = none;
  refs = total_refs b.items;
  records = length b.items;
  handles = if is_discrete st.ordering then handles_of b.items else [];
  landed = [];
  abandoned_handles = [];
  abandoned_by = [];
  at = now;
  abandoned = 0;
  settled = 0;
}

pub data Begun : Type 0 where
  refused : Refusal → Begun
  begun : Ledger → Admission → Begun

-- Admit up to its first unlock.
unfoldable pub admit_begin : Ledger → Batch → ℕ → Begun
unfolding fenced new_group
admit_begin l b now = elim (lookup b.lane l.lanes) [
  | none ↦ refused not_registered
  | some st ↦
      if fenced st
      then refused is_fenced
      else if not (agree b.lane b.items)
      then refused mislabelled
      else let seq : ℕ = add64 st.seq 1 in
        let b' : Batch = record b { position = record b.position { seq = seq } } in
        begun (set_lane l b.lane (record st { seq = seq }))
          (record { batch = b'; unit = new_group st b' now; when_full = st.when_full })
]

-- What the tracker answered: a ticket, a position that needs none, or no room.
pub data Tracking : Type 0 where
  holds : Ticket → Tracking
  passes : Option Position → Tracking
  sheds_batch : Option Position → Tracking
  stops : Tracking

abbrev pub set_tracker : Ledger → ℕ → LaneState → Tracker Position → Ledger
set_tracker l id st t = set_lane l id (record st { tracker = t })

abbrev pub pair_resolved :
    (Option Position → Tracking)
    → Tracker Position × Option Position
    → Tracker Position × Option Tracking
pair_resolved f (t, moved) = (t, some (f moved))

abbrev pub pair_tracked : Tracker Position → Tracked Position → Tracker Position × Option Tracking
pair_tracked t (entered t' k) = (t', some (holds k))
pair_tracked t tracker_closed = (t, some stops)
pair_tracked t interrupted = (t, some stops)
pair_tracked t (waiting t') = (t, none)

-- TryTrack, and shed with its TrackResolved where that finds no room.
abbrev pub pair_shed :
    Tracker Position
    → Position
    → ℕ
    → Tracker Position × Option Ticket
    → Tracker Position × Option Tracking
pair_shed t p now (t', some k) = (t', some (holds k))
pair_shed t p now (t', none) = pair_resolved sheds_batch (track_resolved t p now)

-- What the lane's tracker does and answers; `none` is a Track that blocks.
unfoldable pub tracker_part : Tracker Position → Admission → ℕ → Tracker Position × Option Tracking
unfolding sheds
tracker_part t a now =
    let p : Position = a.batch.position in
    let n : ℕ = length a.batch.items in
    if n == 0
    then pair_resolved passes (track_resolved t p now)
    else if sheds a.when_full
    then pair_shed t p now (try_track t p n a.unit.refs now)
    else pair_tracked t (track t [] p n a.unit.refs now)

-- The tracker's part of Admit. After a wake the call is made again.
unfoldable pub admit_track : Ledger → Admission → ℕ → Ledger × Option Tracking
unfolding tracker_part
admit_track l a now = elim (lookup a.batch.lane l.lanes) [
  | none ↦ (l, some stops)
  | some st ↦ (
    set_tracker l a.batch.lane st (tracker_part st.tracker a now).0,
    (tracker_part st.tracker a now).1,
  )
]

-- The resolved prefix of a lane moves, and with it the position to flush if that is a safe one.
unfoldable pub publish_position : LaneState → Option Position → LaneState
publish_position st none = st
publish_position st (some p) = record st {
  resolved = some p;
  pending_flush = if p.safe then some p else st.pending_flush;
}

abbrev pub register_all : List Item → ℕ → List (ℕ × ℕ) → List (ℕ × ℕ)
register_all [] g m = m
register_all (r ∷ rs) g m = register_all rs g (insert r.id g m)

unfoldable pub open_group : Ledger → Admission → LaneState → Ticket → Ledger
open_group l a st k = record l {
  lanes =
      insert a.batch.lane
        (record st {
          pending = st.pending + 1;
          records_read = add64 st.records_read (length a.batch.items);
          admitted_since_safe = add64 st.admitted_since_safe (length a.batch.items);
          blocked = false;
        })
        l.lanes;
  groups = insert a.batch.group (record a.unit { ticket = k }) l.groups;
  by_rec = register_all a.batch.items a.batch.group l.by_rec;
}

-- Admit after its second lock; a shed batch goes through `shed`.
unfoldable pub admit_finish : Ledger → Admission → Tracking → Ledger × Option Refusal
unfolding publish_position open_group
admit_finish l a stops = (l, some stopped)
admit_finish l a (passes moved) = elim (lookup a.batch.lane l.lanes) [
  | none ↦ (l, none)
  | some st ↦
      (set_lane l a.batch.lane (record (publish_position st moved) { blocked = false }), none)
]
admit_finish l a (sheds_batch moved) = elim (lookup a.batch.lane l.lanes) [
  | none ↦ (l, some (shed_records (length a.batch.items)))
  | some st ↦
      let n : ℕ = length a.batch.items in
      let st' : LaneState = publish_position st moved in
      (
        set_lane l a.batch.lane (record st' {
          records_read = add64 st'.records_read n;
          shed = add64 st'.shed n;
          ack_abandoned = add64 st'.ack_abandoned n;
          blocked = false;
        }),
        some (shed_records n),
      )
]
admit_finish l a (holds k) = elim (lookup a.batch.lane l.lanes) [
  | none ↦ (l, some stopped)
  | some st ↦ elim (lookup a.batch.group l.groups) [
    | some g ↦ (set_tracker l a.batch.lane st (abandon st.tracker k).0, some duplicate_group)
    | none ↦ (open_group l a st k, none)
  ]
]

-- One undisturbed call of Admit; `blocks` is a call that waits for room.
pub data Admitted : Type 0 where
  returns : Ledger → Option Refusal → Admitted
  blocks : Ledger → Admitted

unfoldable pub admit : Ledger → Batch → ℕ → Admitted
unfolding admit_begin admit_track admit_finish
admit l b now = elim (admit_begin l b now) [
  | refused r ↦ returns l (some r)
  | begun l1 a ↦ elim (admit_track l1 a now).1 [
    | none ↦ blocks (admit_track l1 a now).0
    | some tr ↦
        returns (admit_finish (admit_track l1 a now).0 a tr).0
          (admit_finish (admit_track l1 a now).0 a tr).1
  ]
]

-- Expand adds references to a group and to its node in the tracker.
abbrev pub expand_node : ℕ → ℕ → List (Node Position) → List (Node Position)
expand_node id n [] = []
expand_node id n (m ∷ rest) =
    (if m.id == id then record m { refs = add32 m.refs n } else m) ∷ expand_node id n rest

abbrev pub expand_tracker : Tracker Position → Ticket → ℕ → Tracker Position
expand_tracker t none n = t
expand_tracker t (some id) n = record t { list = expand_node id n t.list }

unfoldable pub expand : Ledger → ℕ → ℕ → Ledger × Option Refusal
expand l gid n = if n == 0 then (l, none) else elim (lookup gid l.groups) [
  | none ↦ (l, some not_open)
  | some g ↦
      let l1 : Ledger = record l {
        groups = insert gid (record g { refs = add32 g.refs n }) l.groups;
      } in
      (
        elim (lookup g.lane l.lanes) [
          | none ↦ l1
          | some st ↦ set_tracker l1 g.lane st (expand_tracker st.tracker g.ticket n)
        ],
        none,
      )
]

unfoldable pub register : Ledger → ℕ → ℕ → Ledger
register l id gid = elim (lookup gid l.groups) [
  | none ↦ l
  | some g ↦ record l { by_rec = insert id gid l.by_rec }
]
