-- ===== src/Store/Wal.antt =====
-- pkg/store/wal/wal.go: the state store on a log. The file after its header is a list of frames; a
-- frame that a failed write left incomplete is torn. What the machine does to a write is an argument.
-- How long the payload of an entry is (encode, in Store/Wal/Format) depends on the strings that the
-- numbers of keys stand for, and is a function that the store is opened with.
pub mod Maps
pub mod Rows
pub mod Compaction
pub mod Durable
pub mod Format
pub mod Bytes
pub mod Reading
pub mod RoundTrip
pub mod Framing
pub mod Torn
pub mod Recovery
mod Tests
use canal.Prelude.{
  ℕ, Bool, false, Option, none, some, List, [], ◌∷◌, ◌++◌, ltb, leb, if◌then◌else◌, add64,
}
use canal.Prelude.Assoc.{lookup, insert, remove}
use canal.Store.{
  Versioned, Deletion, Batch, epoch_for, epoch_for_delete, Refusal, store_closed, unknown,
  not_compacted, floor, raise, version_of, check,
}

abbrev pub max_frame : ℕ
max_frame = 67108864

pub record AppliedWrite : Type 0 where
  pub key : ℕ
  pub value : List ℕ
  pub version : ℕ
  pub epoch_seen : ℕ

pub record Entry : Type 0 where
  pub writes : List AppliedWrite
  pub deletes : List Deletion

pub data Frame : Type 0 where
  whole : Entry → Frame
  torn : Frame

-- The maps data, epochs and floorKeys; `held` is data.
pub record Index : Type 0 where
  pub held : List (ℕ × Versioned)
  pub epochs : List (ℕ × ℕ)
  pub floor_keys : List (ℕ × ℕ)

pub record Wal : Type 0 where
  pub index : Index
  pub log : List Frame
  pub closed : Bool
  pub size : Entry → ℕ

abbrev pub stored : ℕ → List ℕ → ℕ → Versioned
stored key value version = record {
  key = key;
  value = value;
  if_version = 0;
  version = version;
  epoch = 0;
}

unfoldable pub apply_write : Index → AppliedWrite → Index
unfolding raise
apply_write s w = record {
  held = insert w.key (stored w.key w.value w.version) s.held;
  epochs = raise w.key w.epoch_seen s.epochs;
  floor_keys = remove w.key s.floor_keys;
}

unfoldable pub apply_delete : Index → Deletion → Index
unfolding raise floor
apply_delete s d =
    let epochs : List (ℕ × ℕ) = raise d.key d.epoch s.epochs in
    record {
      held = remove d.key s.held;
      epochs = epochs;
      floor_keys =
          if ltb 0 (floor d.key epochs) then insert d.key d.key s.floor_keys else s.floor_keys;
    }

unfoldable pub apply_writes : Index → List AppliedWrite → Index
unfolding apply_write
apply_writes s [] = s
apply_writes s (w ∷ ws) = apply_writes (apply_write s w) ws

unfoldable pub apply_deletes : Index → List Deletion → Index
unfolding apply_delete
apply_deletes s [] = s
apply_deletes s (d ∷ ds) = apply_deletes (apply_delete s d) ds

unfoldable pub apply : Index → Entry → Index
unfolding apply_writes apply_deletes
apply s e = apply_deletes (apply_writes s e.writes) e.deletes

abbrev pub empty_index : Index
empty_index = record { held = []; epochs = []; floor_keys = [] }

-- A frame as readFrame sees it: one whose payload is longer than maxFrame is torn to it.
unfoldable pub as_read : (Entry → ℕ) → Frame → Frame
as_read size torn = torn
as_read size (whole e) = if leb (size e) max_frame then whole e else torn

unfoldable pub all_read : (Entry → ℕ) → List Frame → List Frame
all_read size [] = []
all_read size (f ∷ fs) = as_read size f ∷ all_read size fs

-- The frames, as they are read, up to the first torn one, at which replay truncates the file.
unfoldable pub intact : List Frame → List Frame
intact [] = []
intact (torn ∷ fs) = []
intact (whole e ∷ fs) = whole e ∷ intact fs

-- Over frames as they are read.
unfoldable pub replay_from : Index → List Frame → Index
unfolding apply
replay_from s [] = s
replay_from s (torn ∷ fs) = s
replay_from s (whole e ∷ fs) = replay_from (apply s e) fs

unfoldable pub replay : List Frame → Index
unfolding replay_from
replay fs = replay_from empty_index fs

unfoldable pub open_log : (Entry → ℕ) → List Frame → Wal
unfolding replay intact all_read
open_log size fs =
    let read = all_read size fs in
    record { index = replay read; log = intact read; closed = false; size = size }

-- What becomes of the write and the sync of one frame: done, nothing written, a part of the frame
-- written, or all of it written and the sync failed; or it is done, and maybeCompact then fails, before
-- the new log is in the place of the old one, or after. A compaction that goes well is a call of
-- compact. One that fails may leave the handle of the file closed, and the later appends unwritten.
pub data Append : Type 0 where
  done unwritten partly unsynced uncompacted swapped : Append

abbrev pub appended : Append → List Frame → Entry → List Frame
appended done fs e = fs ++ whole e ∷ []
appended unwritten fs e = fs
appended partly fs e = fs ++ torn ∷ []
appended how fs e = fs ++ whole e ∷ []

unfoldable pub seen_epoch : Batch → Index → ℕ → Versioned → ℕ
unfolding epoch_for floor
seen_epoch b s name v =
    if ltb (epoch_for b v) (floor name s.epochs) then floor name s.epochs else epoch_for b v

unfoldable pub entry_writes : Batch → Index → List (ℕ × Versioned) → List AppliedWrite
unfolding version_of seen_epoch
entry_writes b s [] = []
entry_writes b s ((name, v) ∷ rest) =
    record {
      key = v.key;
      value = v.value;
      version = add64 (version_of name s.held) 1;
      epoch_seen = seen_epoch b s name v;
    }
    ∷ entry_writes b s rest

unfoldable pub entry_deletes : Batch → List Deletion → List Deletion
unfolding epoch_for_delete
entry_deletes b [] = []
entry_deletes b (d ∷ ds) = record { key = d.key; epoch = epoch_for_delete b d } ∷ entry_deletes b ds

unfoldable pub entry_of : Batch → Index → Entry
unfolding entry_writes entry_deletes
entry_of b s = record { writes = entry_writes b s b.writes; deletes = entry_deletes b b.deletes }

unfoldable pub live_frames : List (ℕ × ℕ) → List (ℕ × Versioned) → List Frame
unfolding floor
live_frames epochs [] = []
live_frames epochs ((name, v) ∷ rest) =
    whole (record {
      writes =
          record {
            key = v.key;
            value = v.value;
            version = v.version;
            epoch_seen = floor name epochs;
          }
          ∷ [];
      deletes = [];
    })
    ∷ live_frames epochs rest

unfoldable pub floor_frames : List (ℕ × ℕ) → List (ℕ × ℕ) → List Frame
unfolding floor
floor_frames epochs [] = []
floor_frames epochs ((name, key) ∷ rest) =
    whole (record { writes = []; deletes = record { key = key; epoch = floor name epochs } ∷ [] })
    ∷ floor_frames epochs rest

-- compactLocked, where every call of the file system succeeds.
unfoldable pub compact : Wal → Wal
unfolding live_frames floor_frames
compact s = record s {
  log = live_frames s.index.epochs s.index.held ++ floor_frames s.index.epochs s.index.floor_keys;
}

-- The append of one entry, and its application if that went well.
unfoldable pub applied : Wal → Entry → Wal
unfolding apply
applied s e = record s { index = apply s.index e; log = appended done s.log e }

unfoldable pub commit : Wal → Entry → Append → Wal × Option Refusal
unfolding applied compact
commit s e done = (applied s e, none)
commit s e uncompacted = (applied s e, some not_compacted)
commit s e swapped = (compact (applied s e), some not_compacted)
commit s e how = (record s { log = appended how s.log e }, some unknown)

unfoldable pub set : Wal → Batch → Append → Wal × Option Refusal
unfolding check entry_of commit
set s b how =
    if s.closed then (s, some store_closed) else elim (check b s.index.held s.index.epochs) [
      | some r ↦ (s, some r)
      | none ↦ commit s (entry_of b s.index) how
    ]

abbrev pub unfenced : List ℕ → List Deletion
unfenced [] = []
unfenced (k ∷ ks) = record { key = k; epoch = 0 } ∷ unfenced ks

unfoldable pub delete : Wal → List ℕ → Append → Wal × Option Refusal
unfolding commit
delete s [] how = (s, none)
delete s (k ∷ ks) how =
    if s.closed
    then (s, some store_closed)
    else commit s (record { writes = []; deletes = unfenced (k ∷ ks) }) how

unfoldable pub get : Wal → ℕ → Option Versioned
get s k = lookup k s.index.held

-- The store as the next process finds it.
unfoldable pub reopen : Wal → Wal
unfolding open_log
reopen s = open_log s.size s.log
