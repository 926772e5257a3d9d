-- ===== src/Store/Wal/Durable.antt =====
-- pkg/store/wal/wal.go over any run: what the next process reads from the log.
use canal.Prelude.{
  ℕ, ◌≡◌, ◌≤◌, ◌∙◌, leb, true, arith, refl, sym, ap, subst, inl, inr, List, [], ◌∷◌, Bool-cases,
  Option-cases, All, All-append,
}
use canal.Store.{Batch, check}
use canal.Store.Wal.{
  Entry, Frame, whole, torn, Index, Wal, apply, empty_index, Append, done, unwritten, partly,
  unsynced, uncompacted, swapped, commit, applied, max_frame, as_read, all_read, set, delete,
  entry_of, unfenced, intact, open_log, reopen, replay_from, replay, compact,
}
use canal.Store.Wal.Maps.{Alike, Alike-refl, apply-Alike, apply-Tidy, empty_index-Tidy, Tidy}
use canal.Store.Wal.Rows.{Whole, replay_from-append}
use canal.Store.Wal.Compaction.{compact-Alike, compact-Whole}

pub data Op : Type 0 where
  sets : Batch → Append → Op
  deletes : List ℕ → Append → Op
  compacts : Op
  reopens : Op

unfoldable pub step : Wal → Op → Wal
step s (sets b how) = (set s b how).0
step s (deletes ks how) = (delete s ks how).0
step s compacts = compact s
step s reopens = reopen s

unfoldable pub run : Wal → List Op → Wal
run s [] = s
run s (o ∷ os) = run (step s o) os

-- A write that fails leaves nothing in the file.
abbrev pub Clean : Append → Type 0
Clean done = Unit
Clean unwritten = Unit
Clean partly = ⊥
Clean unsynced = ⊥
Clean uncompacted = Unit
Clean swapped = Unit

abbrev pub CleanOp : Op → Type 0
CleanOp (sets b how) = Clean how
CleanOp (deletes ks how) = Clean how
CleanOp compacts = Unit
CleanOp reopens = Unit

-- What is in a log of whole frames, and what the store holds.
pub record Logged (s : Wal) : Type 0 where
  pub tidy : Tidy s.index
  pub same : Alike (replay s.log) s.index
  pub whole_log : All Whole s.log

-- A frame that readFrame does not take for a torn one because of its length.
abbrev pub Small : (Entry → ℕ) → Frame → Type 0
Small size torn = Unit
Small size (whole e) = size e ≤ max_frame

abbrev pub Readable : Wal → Type 0
Readable s = All (Small s.size) s.log

pub record Sound (s : Wal) : Type 0 where
  pub logged : Logged s
  pub readable : Readable s

-- No failed append leaves bytes in the file, and after each call every payload in it is no longer than
-- readFrame accepts.
abbrev pub CleanRun : Wal → List Op → Type 0
CleanRun s [] = Unit
CleanRun s (o ∷ os) = CleanOp o × Readable (step s o) × CleanRun (step s o) os

applied-Logged : (s : Wal) (e : Entry) → Logged s → Logged (applied s e)
unfolding applied replay replay_from
applied-Logged s e h = record {
  tidy = apply-Tidy e s.index h.tidy;
  same =
      subst (λ i. Alike i (apply s.index e))
        (sym (replay_from-append empty_index s.log (whole e ∷ []) h.whole_log))
        (apply-Alike e (replay s.log) s.index h.same);
  whole_log = All-append Whole s.log (whole e ∷ []) h.whole_log (tt, tt);
}

compact-Logged : (s : Wal) → Logged s → Logged (compact s)
unfolding compact
compact-Logged s h = record {
  tidy = h.tidy;
  same = compact-Alike s h.tidy;
  whole_log = compact-Whole s;
}

commit-Logged :
    (s : Wal) (e : Entry) (how : Append) → Clean how → Logged s → Logged (commit s e how).0
unfolding commit
commit-Logged s e done c h = applied-Logged s e h
commit-Logged s e unwritten c h = record { tidy = h.tidy; same = h.same; whole_log = h.whole_log }
commit-Logged s e partly c h = absurd c
commit-Logged s e unsynced c h = absurd c
commit-Logged s e uncompacted c h = applied-Logged s e h
commit-Logged s e swapped c h = compact-Logged (applied s e) (applied-Logged s e h)

set-Logged : (s : Wal) (b : Batch) (how : Append) → Clean how → Logged s → Logged (set s b how).0
unfolding set
set-Logged s b how c h = elim (Bool-cases s.closed) [
  | inl y ↦ simp y h
  | inr z ↦ simp z (elim (Option-cases (check b s.index.held s.index.epochs)) [
    | inl e ↦ rw e (commit-Logged s (entry_of b s.index) how c h)
    | inr (r, e) ↦ rw e h
  ])
]

delete-Logged :
    (s : Wal) (ks : List ℕ) (how : Append) → Clean how → Logged s → Logged (delete s ks how).0
unfolding delete
delete-Logged s [] how c h = h
delete-Logged s (k ∷ ks) how c h = elim (Bool-cases s.closed) [
  | inl y ↦ simp y h
  | inr z ↦ simp z (commit-Logged s (record { writes = []; deletes = unfenced (k ∷ ks) }) how c h)
]

replay_from-Tidy : (i : Index) (fs : List Frame) → Tidy i → Tidy (replay_from i fs)
unfolding replay_from
replay_from-Tidy i [] h = h
replay_from-Tidy i (whole e ∷ fs) h = replay_from-Tidy (apply i e) fs (apply-Tidy e i h)
replay_from-Tidy i (torn ∷ fs) h = h

intact-Whole : (fs : List Frame) → All Whole fs → intact fs ≡ fs
unfolding intact
intact-Whole [] h = refl
intact-Whole (whole e ∷ fs) h = ap (λ k. whole e ∷ k) (intact-Whole fs h.1)
intact-Whole (torn ∷ fs) h = absurd h.0

all_read-Small : (size : Entry → ℕ) (fs : List Frame) → All (Small size) fs → all_read size fs ≡ fs
unfolding all_read as_read
all_read-Small size [] h = refl
all_read-Small size (torn ∷ fs) h = ap (λ k. torn ∷ k) (all_read-Small size fs h.1)
all_read-Small size (whole e ∷ fs) h =
    let fits : leb (size e) max_frame ≡ true = ground (arith, h.0) in
    rw fits (ap (λ k. whole e ∷ k) (all_read-Small size fs h.1))

reopen-Logged : (s : Wal) → Sound s → Logged (reopen s)
unfolding reopen open_log replay
reopen-Logged s h =
    let read = all_read-Small s.size s.log h.readable in
    let kept : intact (all_read s.size s.log) ≡ s.log =
      ap intact read ∙ intact-Whole s.log h.logged.whole_log in
    record {
      tidy = replay_from-Tidy empty_index (all_read s.size s.log) empty_index-Tidy;
      same =
          subst (λ fs. Alike (replay fs) (replay (all_read s.size s.log))) (sym kept)
            (subst (λ fs. Alike (replay s.log) (replay fs)) (sym read) (Alike-refl (replay s.log)));
      whole_log = subst (λ fs. All Whole fs) (sym kept) h.logged.whole_log;
    }

step-Logged : (s : Wal) (o : Op) → CleanOp o → Sound s → Logged (step s o)
unfolding step
step-Logged s (sets b how) c h = set-Logged s b how c h.logged
step-Logged s (deletes ks how) c h = delete-Logged s ks how c h.logged
step-Logged s compacts c h = compact-Logged s h.logged
step-Logged s reopens c h = reopen-Logged s h

pub step-Sound : (s : Wal) (o : Op) → CleanOp o → Readable (step s o) → Sound s → Sound (step s o)
step-Sound s o c r h = record { logged = step-Logged s o c h; readable = r }

pub run-Sound : (s : Wal) (os : List Op) → CleanRun s os → Sound s → Sound (run s os)
unfolding run
run-Sound s [] c h = h
run-Sound s (o ∷ os) c h = run-Sound (step s o) os c.2 (step-Sound s o c.0 c.1 h)

pub open_log-Sound : (size : Entry → ℕ) → Sound (open_log size [])
unfolding open_log all_read replay replay_from intact
open_log-Sound size = record {
  logged = record { tidy = empty_index-Tidy; same = Alike-refl empty_index; whole_log = tt };
  readable = tt;
}

pub reopen-Alike : (s : Wal) → Sound s → Alike (reopen s).index s.index
unfolding reopen open_log
reopen-Alike s h =
    subst (λ fs. Alike (replay fs) s.index) (sym (all_read-Small s.size s.log h.readable))
      h.logged.same

-- Whatever a store has done since its log was empty, Set, Delete, compaction and reopening,
-- compactions that fail behind a write included, as long as no failed append left bytes in the file
-- and after each call no payload in the file is longer than 64 MiB: a process that opens the log
-- reads the same rows, with the same versions, the same floor of every key, and the same keys of
-- deleted rows.
pub reopen-run-Alike :
    (size : Entry → ℕ) (os : List Op)
    → CleanRun (open_log size []) os
    → Alike (reopen (run (open_log size []) os)).index (run (open_log size []) os).index
reopen-run-Alike size os c =
    let s = open_log size [] in reopen-Alike (run s os) (run-Sound s os c (open_log-Sound size))
