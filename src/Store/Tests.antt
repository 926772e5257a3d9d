-- ===== src/Store/Tests.antt =====
-- Runs of the state stores on small inputs.
use canal.Prelude.{
  suc, ◌+◌, ◌*◌, length, ℕ, ◌≡◌, ◌≢◌, ◌⊎◌, refl, none, some, List, [], ◌∷◌, arith, All,
}
use canal.Prelude.Assoc.{lookup, insert, remove}
use canal.Store.{Versioned, Batch, fenced, unknown, not_compacted, put_fenced, epoch_for}
use canal.Prelude.{◌↔◌, true}
use canal.Store.Key.{Key, string, string-inj, has_prefix, has_prefix_iff}
use canal.Store.Memory.{new_memory}
use canal.Store.Memory as Memory
use canal.Store.Wal.{
  Entry, Wal, Index, Append, done, unwritten, partly, swapped, max_frame, set, open_log, reopen,
  compact, applied, as_read, commit,
}
use canal.Store.Wal as Wal
use canal.Store.Wal.Maps.{Alike}
use canal.Store.Wal.Durable.{
  Op, sets, deletes, compacts, reopens, CleanRun, step, run, reopen-run-Alike,
}
use canal.Store.Agreement.{strip}
use canal.Store.Calls.{Keyed, Served}
use canal.Store.Equivalence.{
  put_fenced-Keyed, wal_replies, memory_replies, memory_run, wal_replies-memory_replies,
}
use canal.Store.Fencing.{set-run-fenced, set-refused}

abbrev new_batch : ℕ → Batch
new_batch epoch = record { epoch = epoch; writes = []; deletes = [] }

new_batch-Keyed : (epoch : ℕ) → Keyed (new_batch epoch)
unfolding lookup
new_batch-Keyed epoch = record { once = tt; names = λ k v e. absurd (cc e) }

-- One row, written under an epoch.
abbrev one_row : ℕ → ℕ → ℕ → Batch
one_row k if_version epoch = put_fenced (new_batch 0) k (7 ∷ []) if_version epoch

one_row-Keyed : (k if_version epoch : ℕ) → Keyed (one_row k if_version epoch)
one_row-Keyed k if_version epoch =
    put_fenced-Keyed (new_batch 0) k (7 ∷ []) if_version epoch (new_batch-Keyed 0)

-- Eleven bytes for the version and the counts, and the bytes of each row.
abbrev sized : Entry → ℕ
sized e = 11 + 64 * (length e.writes + length e.deletes)

-- Row 1 is made under epoch 5, changed by a stale writer, changed again, and removed; row 2 stays.
abbrev history : List Op
history =
    sets (one_row 1 0 5) done
    ∷ sets (one_row 1 1 4) done
    ∷ sets (one_row 2 0 1) done
    ∷ sets (one_row 1 1 6) done
    ∷ deletes (1 ∷ []) done
    ∷ compacts
    ∷ reopens
    ∷ sets (one_row 1 0 5) done
    ∷ []

history_replies :
    wal_replies (open_log sized []) history
    ≡ none ∷ some fenced ∷ none ∷ none ∷ none ∷ none ∷ none ∷ some fenced ∷ []
unfolding wal_replies open_log step set Wal.delete commit compact reopen lookup insert remove
    put_fenced as_read
history_replies = refl

history-CleanRun : CleanRun (open_log sized []) history
unfolding open_log step set Wal.delete commit compact reopen lookup insert remove put_fenced as_read
history-CleanRun = ground arith

reopen-run-Alike_example :
    Alike (reopen (run (open_log sized []) history)).index (run (open_log sized []) history).index
reopen-run-Alike_example = reopen-run-Alike sized history history-CleanRun

history-Served : All Served history
history-Served = (
  (one_row-Keyed 1 0 5, refl),
  (
    (one_row-Keyed 1 1 4, refl),
    (
      (one_row-Keyed 2 0 1, refl),
      ((one_row-Keyed 1 1 6, refl), (refl, (tt, (tt, ((one_row-Keyed 1 0 5, refl), tt))))),
    ),
  ),
)

wal_replies-memory_replies_example :
    (wal_replies (open_log sized []) history ≡ memory_replies new_memory history)
    × ((k : ℕ)
        → Wal.get (run (open_log sized []) history) k
          ≡ strip (Memory.get (memory_run new_memory history) k))
wal_replies-memory_replies_example =
    wal_replies-memory_replies sized history history-Served history-CleanRun

abbrev removal : List Op
removal = deletes (1 ∷ []) done ∷ compacts ∷ reopens ∷ []

removal-CleanRun : CleanRun (run (open_log sized []) []) (sets (one_row 1 0 5) done ∷ removal)
unfolding run open_log step set Wal.delete commit compact reopen lookup insert remove put_fenced
    as_read
removal-CleanRun = ground arith

abbrev row : ℕ → ℕ → Versioned
row k epoch = record { key = k; value = 7 ∷ []; if_version = 0; version = 0; epoch = epoch }

set-run-fenced_example :
    (set
      (run (set (run (open_log sized []) []) (one_row 1 0 5) done).0 removal)
      (one_row 1 0 4)
      done).1
    ≢ none
unfolding run open_log set commit lookup insert put_fenced epoch_for as_read
set-run-fenced_example =
    set-run-fenced sized [] removal (one_row 1 0 5) (one_row 1 0 4) 1 (row 1 5) (row 1 4) done tt
      removal-CleanRun (one_row-Keyed 1 0 5) refl refl (omega arith) refl

-- The compaction that follows the write fails, after it has replaced the log.
set-refused_example :
    ((not_compacted ≡ not_compacted)
      × ((set (open_log sized []) (one_row 1 0 5) swapped).0.index
          ≡ (set (open_log sized []) (one_row 1 0 5) done).0.index)
      × ((set (open_log sized []) (one_row 1 0 5) done).1 ≡ none))
    ⊎ (((set (open_log sized []) (one_row 1 0 5) swapped).0.index ≡ (open_log sized []).index)
        × (((set (open_log sized []) (one_row 1 0 5) swapped).0.log ≡ (open_log sized []).log)
            ⊎ (not_compacted ≡ unknown)))
unfolding open_log set commit lookup insert put_fenced as_read
set-refused_example = set-refused (open_log sized []) (one_row 1 0 5) swapped not_compacted refl

-- A Set whose payload is longer than readFrame accepts succeeds, and its row is gone when the log is
-- next opened.
abbrev oversized : Entry → ℕ
oversized e = suc max_frame

oversized_replies : wal_replies (open_log oversized []) (sets (one_row 1 0 5) done ∷ []) ≡ none ∷ []
unfolding wal_replies open_log step set commit lookup insert put_fenced as_read
oversized_replies = refl

oversized_row :
    Wal.get (reopen (run (open_log oversized []) (sets (one_row 1 0 5) done ∷ []))) 1 ≡ none
unfolding run open_log step set commit lookup insert put_fenced reopen as_read Wal.get
oversized_row = refl

-- A frame that a failed write left incomplete hides every frame that is appended after it: the second
-- Set succeeds, and its row is gone when the log is next opened.
abbrev after_partial : List Op
after_partial = sets (one_row 1 0 5) partly ∷ sets (one_row 2 0 5) done ∷ []

after_partial_replies : wal_replies (open_log sized []) after_partial ≡ some unknown ∷ none ∷ []
unfolding wal_replies open_log step set commit lookup insert put_fenced as_read
after_partial_replies = refl

after_partial_row : Wal.get (reopen (run (open_log sized []) after_partial)) 2 ≡ none
unfolding run open_log step set commit lookup insert put_fenced reopen as_read Wal.get
after_partial_row = refl

-- The key of a tenant whose name holds a slash, and of one whose name holds what that is written as.
abbrev slash_key : Key
slash_key = record { tenant = 97 ∷ 47 ∷ 98 ∷ []; space = 99 ∷ []; parts = (37 ∷ 50 ∷ 70 ∷ []) ∷ [] }

slash_key-string :
    string slash_key ≡ 97 ∷ 37 ∷ 50 ∷ 70 ∷ 98 ∷ 47 ∷ 99 ∷ 47 ∷ 37 ∷ 50 ∷ 53 ∷ 50 ∷ 70 ∷ []
unfolding string
slash_key-string = refl

string-inj_example : slash_key ≡ slash_key
string-inj_example = string-inj slash_key slash_key refl

has_prefix_iff_example :
    (has_prefix slash_key (record slash_key { parts = [] }) ≡ true)
    ↔ ((rest : List (List ℕ)) × (slash_key ≡ record slash_key { parts = rest }))
has_prefix_iff_example = has_prefix_iff slash_key (record slash_key { parts = [] })
