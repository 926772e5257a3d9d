-- ===== src/Ledger/Tests.antt =====
-- Runs of the ledger on small inputs.
use canal.Prelude.{ℕ, ◌≡◌, refl, true, false, none, some, List, [], ◌∷◌, arith}
use canal.Prelude.Assoc.{lookup, insert, remove}
use canal.Ledger.{
  Position, prefix, block, Disposition, delivered, abandoned, Outcome, Item, Batch, LaneState,
}
use canal.Ledger.Registration.{new_lane, lane, set_epoch}
use canal.Ledger.Admission.{Admission, holds, admit_begin, admit_track, admit_finish}
use canal.Ledger.Commit.{flushable, revoke, finish_lane, committed}
use canal.Ledger.Settlement.{settle_locked}
use canal.Tracker.{track, new_tracker, release, abandon}
use canal.Ledger.Acks.{acks_of}
use canal.Ledger.Trace.{
  Op, announces, holds_at, begins, tracks, finishes, settles, flushes, commits, ends_lane, step,
  run, new_ledger,
}
use canal.Ledger.Delivery.{
  FinalOnce, acks_of-run-FinalOnce, total_records, records_committed-acks_of,
}
use canal.Ledger.Revocation.{Silent, revoke-Silent}
use canal.Ledger.Reclaim.{OnlyNewer, revoke-OnlyNewer}
use canal.Ledger.Flush.{AllMayFlush, flushable-AllMayFlush}
use canal.Prelude.{◌==◌, All}
use canal.Ledger.Settlement.{emit_lanes}
use canal.Ledger.Commit.{request_retire, retirable, open_groups, commit_all}
use canal.Ledger.Opening.{Labelled, CountedIn}
use canal.Ledger.Pending.{new_ledger-run-CountedIn}
use canal.Ledger.Endings.{request_retire-run, retirable-run, FinalIdle, acks-FinalIdle}

abbrev item : ℕ → Item
item id = record { id = id; lane = 1; node = 7; refs = 1; handle = none }

abbrev position : ℕ → Position
position seq = record { seq = seq; token = 40; order = none; safe = true }

-- Two records on lane 1.
abbrev batch : Batch
batch = record { lane = 1; group = 5; items = item 21 ∷ item 22 ∷ []; position = position 0 }

abbrev admission : Admission
admission = record {
  batch = record batch { position = position 1 };
  unit = record {
    lane = 1;
    node = 7;
    epoch = 3;
    ticket = none;
    refs = 2;
    records = 2;
    handles = [];
    landed = [];
    abandoned_handles = [];
    abandoned_by = [];
    at = 0;
    abandoned = 0;
    settled = 0;
  };
  when_full = block;
}

abbrev outcome : ℕ → Disposition → Outcome
outcome rec d = record { rec = rec; disposition = d; node = 9 }

abbrev admitting : List Op
admitting =
    announces 1 prefix 8 block
    ∷ holds_at 1 3
    ∷ begins batch 0
    ∷ tracks admission 0
    ∷ finishes admission (holds (some 0))
    ∷ []

-- Both records settle, one of them abandoned.
abbrev settling : List Op
settling =
    announces 1 prefix 8 block
    ∷ holds_at 1 3
    ∷ begins batch 0
    ∷ tracks admission 0
    ∷ finishes admission (holds (some 0))
    ∷ settles (outcome 21 delivered ∷ outcome 22 abandoned ∷ [])
    ∷ []

-- Its position is flushed and committed after the lane has ended.
abbrev committing : List Op
committing =
    announces 1 prefix 8 block
    ∷ holds_at 1 3
    ∷ begins batch 0
    ∷ tracks admission 0
    ∷ finishes admission (holds (some 0))
    ∷ settles (outcome 21 delivered ∷ outcome 22 abandoned ∷ [])
    ∷ flushes
    ∷ ends_lane 1
    ∷ commits ((1, position 1) ∷ [])
    ∷ []

committing_acks :
    (run (new_ledger 8) committing).acks
    ≡ record {
      lane = 1;
      epoch = 3;
      through = some (position 1);
      handles = [];
      abandoned_handles = [];
      records = 2;
      abandoned = 1;
      abandoned_by = (9, 1) ∷ [];
      lane_finished = true;
    }
      ∷ []
unfolding run step new_ledger lookup insert remove lane set_epoch admit_begin admit_track
    admit_finish settle_locked track new_tracker release abandon flushable finish_lane committed
committing_acks = refl

settling_flush : (flushable (run (new_ledger 8) settling)).1 ≡ (1, position 1) ∷ []
unfolding run step new_ledger lookup insert remove lane set_epoch admit_begin admit_track
    admit_finish settle_locked track new_tracker release abandon flushable
settling_flush = refl

-- Lane 1 after a run.
abbrev lane_after : List Op → LaneState
lane_after os = elim (lookup 1 (run (new_ledger 8) os).lanes) [
  | none ↦ new_lane prefix 8 block
  | some st ↦ st
]

admitting_lane : lookup 1 (run (new_ledger 8) admitting).lanes ≡ some (lane_after admitting)
unfolding run step new_ledger lookup insert remove lane set_epoch admit_begin admit_track
    admit_finish settle_locked track new_tracker release abandon
admitting_lane = refl

committing_lane : lookup 1 (run (new_ledger 8) committing).lanes ≡ some (lane_after committing)
unfolding run step new_ledger lookup insert remove lane set_epoch admit_begin admit_track
    admit_finish settle_locked track new_tracker release abandon flushable finish_lane committed
committing_lane = refl

committing_open : (run (new_ledger 8) committing).closed ≡ false
unfolding run step new_ledger lookup insert remove lane set_epoch admit_begin admit_track
    admit_finish settle_locked track new_tracker release abandon flushable finish_lane committed
committing_open = refl

acks_of-run-FinalOnce_example : FinalOnce (acks_of 1 (run (new_ledger 8) committing).acks)
acks_of-run-FinalOnce_example = acks_of-run-FinalOnce 8 committing 1

records_committed-acks_of_example :
    (lane_after committing).records_committed
    ≡ total_records (acks_of 1 (run (new_ledger 8) committing).acks)
records_committed-acks_of_example =
    records_committed-acks_of 8 committing 1 (lane_after committing) committing_open committing_lane

-- What was in flight settles after the revocation.
abbrev late : List Op
late =
    settles (outcome 21 delivered ∷ outcome 22 delivered ∷ [])
    ∷ flushes
    ∷ commits ((1, position 1) ∷ [])
    ∷ []

revoke-Silent_example :
    Silent 1
      (run (revoke (run (new_ledger 8) admitting) 1).0 late)
      (acks_of 1 (run (new_ledger 8) admitting).acks)
revoke-Silent_example =
    revoke-Silent 8 admitting late 1 (lane_after admitting) admitting_lane (ground arith)

-- The lane is claimed again at epoch 4 before that.
abbrev reclaimed : List Op
reclaimed =
    holds_at 1 4
    ∷ settles (outcome 21 delivered ∷ outcome 22 delivered ∷ [])
    ∷ commits ((1, position 1) ∷ [])
    ∷ []

revoke-OnlyNewer_example :
    OnlyNewer
      (acks_of 1 (run (new_ledger 8) admitting).acks)
      (lane_after admitting).epoch
      (acks_of 1 (run (revoke (run (new_ledger 8) admitting) 1).0 reclaimed).acks)
revoke-OnlyNewer_example =
    revoke-OnlyNewer 8 admitting reclaimed 1 (lane_after admitting) admitting_lane

flushable-AllMayFlush_example :
    AllMayFlush (run (new_ledger 8) settling).lanes (flushable (run (new_ledger 8) settling)).1
flushable-AllMayFlush_example = flushable-AllMayFlush 8 settling

settling-Labelled : All Labelled settling
settling-Labelled = ground arith

admitting-Labelled : All Labelled admitting
admitting-Labelled = ground arith

new_ledger-run-CountedIn_example : CountedIn (run (new_ledger 8) admitting)
new_ledger-run-CountedIn_example = new_ledger-run-CountedIn 8 admitting admitting-Labelled

request_retire-run_example :
    (request_retire (run (new_ledger 8) admitting) 1).1
    ≡ (open_groups 1 (run (new_ledger 8) admitting).groups == 0)
request_retire-run_example = request_retire-run 8 admitting 1 admitting-Labelled

retirable-run_example :
    All
      (λ id. open_groups id (run (new_ledger 8) settling).groups ≡ 0)
      (retirable (run (new_ledger 8) settling)).1
retirable-run_example = retirable-run 8 settling settling-Labelled

acks-FinalIdle_example :
    let l = run (new_ledger 8) settling in
    All (FinalIdle l.groups) (commit_all l ((1, position 1) ∷ [])).1
    × All (FinalIdle l.groups) (emit_lanes l.lanes).1
acks-FinalIdle_example = acks-FinalIdle 8 settling ((1, position 1) ∷ []) settling-Labelled
