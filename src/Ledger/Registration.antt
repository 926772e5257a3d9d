-- ===== src/Ledger/Registration.antt =====
-- Lane and SetEpoch of internal/ledger/ledger.go, and what its calls may be refused for.
use canal.Prelude.{ℕ, Bool, true, false, Option, none, some, [], ltb, ◌==◌, if◌then◌else◌}
use canal.Prelude.Assoc.{lookup, insert}
use canal.Tracker.{new_tracker}
use canal.Ledger.{Ordering, prefix, discrete, WhenFull, LaneState, Ledger}

pub data Refusal : Type 0 where
  lane_unnamed lane_reordered not_registered is_fenced mislabelled duplicate_group not_open :
      Refusal
  stopped : Refusal
  shed_records : ℕ → Refusal

abbrev pub new_lane : Ordering → ℕ → WhenFull → LaneState
new_lane ord budget when_full = record {
  ordering = ord;
  budget = budget;
  when_full = when_full;
  tracker = new_tracker budget;
  seq = 0;
  resolved = none;
  committed = none;
  pending_flush = none;
  settled_handles = [];
  abandoned_handles = [];
  ack_abandoned_by = [];
  admitted_since_safe = 0;
  ack_records = 0;
  ack_abandoned = 0;
  lane_finished = false;
  pending = 0;
  finish_acked = false;
  retire_requested = false;
  retire_reported = false;
  fenced_through = 0;
  epoch = 0;
  blocked = false;
  records_read = 0;
  records_committed = 0;
  shed = 0;
}

abbrev pub same_ordering : Ordering → Ordering → Bool
same_ordering prefix prefix = true
same_ordering discrete discrete = true
same_ordering _ _ = false

abbrev pub set_lane : Ledger → ℕ → LaneState → Ledger
set_lane l id st = record l { lanes = insert id st l.lanes }

unfoldable pub lane : Ledger → ℕ → Ordering → ℕ → WhenFull → Ledger × Option Refusal
lane l id ord budget when_full =
    if id == 0 then (l, some lane_unnamed) else elim (lookup id l.lanes) [
      | some st ↦ (l, if same_ordering st.ordering ord then none else some lane_reordered)
      | none ↦ (
        set_lane l id (new_lane ord (if ltb budget 1 then l.default_budget else budget) when_full),
        none,
      )
    ]

unfoldable pub set_epoch : Ledger → ℕ → ℕ → Ledger
set_epoch l id epoch = elim (lookup id l.lanes) [
  | none ↦ l
  | some st ↦ set_lane l id (record st { epoch = epoch })
]
