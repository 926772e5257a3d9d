-- ===== src/Ledger.antt =====
-- internal/ledger/ledger.go and disposition.go: the state of the settlement graph of one pipeline.
-- Lane, node, record and group ids are only compared, so a number stands for an id, and 0 for the
-- empty name. A Go map is an association list. The mutex makes each locked section one function.
pub mod Registration
pub mod Admission
pub mod Settlement
pub mod Commit
pub mod Trace
pub mod Acks
pub mod Sweep
pub mod Quiet
pub mod Admits
pub mod Keeps
pub mod Delivery
pub mod Revocation
pub mod Reclaim
pub mod Flush
pub mod Groups
pub mod Opening
pub mod Counting
pub mod Pending
pub mod Endings
mod Tests
use canal.Prelude.{
  ℕ, Bool, true, false, ◌&&◌, ◌||◌, not, Option, none, some, List, [], ◌∷◌, ltb, leb,
}
use canal.Tracker.{Tracker, Ticket}

-- `token` stands for the opaque payload; Scalar, Label and At are never read here.
pub record Position : Type 0 where
  pub seq : ℕ
  pub token : ℕ
  pub order : Option (List ℕ)
  pub safe : Bool

pub data Ordering : Type 0 where
  prefix discrete : Ordering

pub data WhenFull : Type 0 where
  block drop_newest reject overflow : WhenFull

pub data Disposition : Type 0 where
  delivered duplicate abandoned : Disposition

pub record Outcome : Type 0 where
  pub rec : ℕ
  pub disposition : Disposition
  pub node : ℕ

-- One record of a batch: what Origin and Handle say of it.
pub record Item : Type 0 where
  pub id : ℕ
  pub lane : ℕ
  pub node : ℕ
  pub refs : ℕ
  pub handle : Option ℕ

pub record Batch : Type 0 where
  pub lane : ℕ
  pub group : ℕ
  pub items : List Item
  pub position : Position

pub record Group : Type 0 where
  pub lane : ℕ
  pub node : ℕ
  pub epoch : ℕ
  pub ticket : Ticket
  pub refs : ℕ
  pub records : ℕ
  pub handles : List (ℕ × ℕ)
  pub landed : List ℕ
  pub abandoned_handles : List ℕ
  pub abandoned_by : List (ℕ × ℕ)
  pub at : ℕ
  pub abandoned : ℕ
  pub settled : ℕ

-- A pair (position, OK) of the source is an option.
pub record LaneState : Type 0 where
  pub ordering : Ordering
  pub budget : ℕ
  pub when_full : WhenFull
  pub tracker : Tracker Position
  pub seq : ℕ
  pub resolved : Option Position
  pub committed : Option Position
  pub pending_flush : Option Position
  pub settled_handles : List ℕ
  pub abandoned_handles : List ℕ
  pub ack_abandoned_by : List (ℕ × ℕ)
  pub admitted_since_safe : ℕ
  pub ack_records : ℕ
  pub ack_abandoned : ℕ
  pub lane_finished : Bool
  pub pending : ℕ
  pub finish_acked : Bool
  pub retire_requested : Bool
  pub retire_reported : Bool
  pub fenced_through : ℕ
  pub epoch : ℕ
  pub blocked : Bool
  pub records_read : ℕ
  pub records_committed : ℕ
  pub shed : ℕ

pub record Ack : Type 0 where
  pub lane : ℕ
  pub epoch : ℕ
  pub through : Option Position
  pub handles : List ℕ
  pub abandoned_handles : List ℕ
  pub records : ℕ
  pub abandoned : ℕ
  pub abandoned_by : List (ℕ × ℕ)
  pub lane_finished : Bool

-- `acks` lists the acknowledgements that are to be sent, in the order in which the locked sections
-- built them. The sends follow the unlock; those of concurrent calls may overtake each other.
pub record Ledger : Type 0 where
  pub default_budget : ℕ
  pub lanes : List (ℕ × LaneState)
  pub groups : List (ℕ × Group)
  pub by_rec : List (ℕ × ℕ)
  pub acks : List Ack
  pub closed : Bool

-- laneState.fenced and laneState.fencedGroup.
unfoldable pub fenced : LaneState → Bool
fenced st = ltb 0 st.fenced_through && leb st.epoch st.fenced_through

unfoldable pub fenced_group : LaneState → ℕ → Bool
fenced_group st epoch = ltb 0 st.fenced_through && leb epoch st.fenced_through

unfoldable pub sheds : WhenFull → Bool
sheds drop_newest = true
sheds reject = true
sheds _ = false

abbrev pub is_abandoned : Disposition → Bool
is_abandoned abandoned = true
is_abandoned _ = false

abbrev pub is_discrete : Ordering → Bool
is_discrete discrete = true
is_discrete prefix = false
