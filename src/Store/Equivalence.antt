-- ===== src/Store/Equivalence.antt =====
-- Whole calls of the two state stores: the same calls are given the same answers.
use canal.Prelude.{
  ℕ, ◌≡◌, refl, sym, ◌∙◌, ap, subst, inl, inr, Option, List, [], ◌∷◌, arith, ◌==◌, Bool-cases, All,
}
use canal.Prelude.Assoc.{lookup, lookup-insert, Distinct-insert}
use canal.Store.{Versioned, Batch, Refusal, floor, put_fenced}
use canal.Store.Memory.{Memory, write_all, delete_all, new_memory}
use canal.Store.Memory as Memory
use canal.Store.Wal.{
  AppliedWrite, Entry, Frame, Index, Wal, stored, apply_write, apply_delete, apply_writes,
  apply_deletes, apply, seen_epoch, entry_writes, entry_deletes, entry_of, unfenced, done, commit,
  open_log, compact, reopen, replay, all_read, empty_index,
}
use canal.Store.Wal as Wal
use canal.Store.Wal.Durable.{
  Op, CleanRun, Readable, Sound, reopen-Alike, run, step-Sound, sets, deletes, compacts, reopens,
  step, open_log-Sound,
}
use canal.Store.Agreement.{Agree, strip}
use canal.Store.Calls.{
  Keyed, memory_step, memory_reply, wal_reply, Served, Mirrors, set-Agree, delete-all-Agree,
}

reopen-Agree : (m : Memory) (s : Wal) → Sound s → Agree m s.index → Agree m (reopen s).index
reopen-Agree m s h a =
    let r = reopen-Alike s h in
    record { held = λ k. r.held k ∙ a.held k; floors = λ k. r.floors k ∙ a.floors k }

-- One call: the states still mirror each other, and the answers are the same.
step-Mirrors :
    (m : Memory) (s : Wal) (o : Op)
    → Served o
    → Readable (step s o)
    → Mirrors m s
    → Mirrors (memory_step m o) (step s o) × (wal_reply s o ≡ memory_reply m o)
unfolding step
step-Mirrors m s (sets b how) h f r =
    let (a, e, c) = set-Agree m s b h.0 r.live r.agree in
    let sound =
      step-Sound s (sets b done) tt (subst (λ w. Readable (step s (sets b w))) h.1 f) r.sound in
    subst
      (λ w.
        Mirrors (memory_step m (sets b w)) (step s (sets b w))
        × (wal_reply s (sets b w) ≡ memory_reply m (sets b w)))
      (sym h.1) (record { sound = sound; live = c; agree = a }, e)
step-Mirrors m s (deletes ks how) h f r =
    let (a, e, c) = delete-all-Agree m s ks r.live r.agree in
    let sound =
      step-Sound s (deletes ks done) tt (subst (λ w. Readable (step s (deletes ks w))) h f)
        r.sound in
    subst
      (λ w.
        Mirrors (memory_step m (deletes ks w)) (step s (deletes ks w))
        × (wal_reply s (deletes ks w) ≡ memory_reply m (deletes ks w)))
      (sym h) (record { sound = sound; live = c; agree = a }, e)
step-Mirrors m s compacts h f r = (
  record {
    sound = step-Sound s compacts tt f r.sound;
    live = unfold compact in r.live;
    agree = unfold compact in r.agree;
  },
  refl,
)
step-Mirrors m s reopens h f r = (
  record {
    sound = step-Sound s reopens tt f r.sound;
    live = unfold reopen open_log in refl;
    agree = reopen-Agree m s r.sound r.agree;
  },
  refl,
)

unfoldable pub memory_run : Memory → List Op → Memory
memory_run m [] = m
memory_run m (o ∷ os) = memory_run (memory_step m o) os

unfoldable pub memory_replies : Memory → List Op → List (Option Refusal)
memory_replies m [] = []
memory_replies m (o ∷ os) = memory_reply m o ∷ memory_replies (memory_step m o) os

unfoldable pub wal_replies : Wal → List Op → List (Option Refusal)
wal_replies s [] = []
wal_replies s (o ∷ os) = wal_reply s o ∷ wal_replies (step s o) os

run-Mirrors :
    (m : Memory) (s : Wal) (os : List Op)
    → All Served os
    → CleanRun s os
    → Mirrors m s
    → Mirrors (memory_run m os) (run s os) × (wal_replies s os ≡ memory_replies m os)
unfolding run memory_run memory_replies wal_replies
run-Mirrors m s [] h c r = (r, refl)
run-Mirrors m s (o ∷ os) h c r =
    let (r', e) = step-Mirrors m s o h.0 c.1 r in
    let (r2, es) = run-Mirrors (memory_step m o) (step s o) os h.1 c.2 r' in (r2, cc (e, es))

new-Mirrors : (size : Entry → ℕ) → Mirrors new_memory (open_log size [])
unfolding new_memory open_log all_read replay floor lookup
new-Mirrors size = record {
  sound = open_log-Sound size;
  live = refl;
  agree = record { held = λ k. refl; floors = λ k. refl };
}

-- Two new stores, one in memory and one on a log, that are given the same calls of Set and Delete,
-- with batches built by Put, while the log's writes succeed, after each call no payload in the log
-- is longer than 64 MiB, and the log is compacted and reopened at any times: they give the same
-- answers, and then read the same key, value and version of every row.
pub wal_replies-memory_replies :
    (size : Entry → ℕ) (os : List Op)
    → All Served os
    → CleanRun (open_log size []) os
    → (wal_replies (open_log size []) os ≡ memory_replies new_memory os)
      × ((k : ℕ)
          → Wal.get (run (open_log size []) os) k ≡ strip (Memory.get (memory_run new_memory os) k))
unfolding Wal.get Memory.get
wal_replies-memory_replies size os h c =
    let (r, e) = run-Mirrors new_memory (open_log size []) os h c (new-Mirrors size) in
    (e, λ k. r.agree.held k)

-- PutFenced keeps a batch whose writes stand each once under the name of its own key.
pub put_fenced-Keyed :
    (b : Batch) (k : ℕ) (value : List ℕ) (if_version epoch : ℕ)
    → Keyed b
    → Keyed (put_fenced b k value if_version epoch)
unfolding put_fenced
put_fenced-Keyed b k value if_version epoch h =
    let v : Versioned = record {
      key = k;
      value = value;
      if_version = if_version;
      version = 0;
      epoch = epoch;
    } in
    record {
      once = Distinct-insert k v b.writes h.once;
      names = λ j u e. elim (Bool-cases (k == j)) [
        | inl y ↦
            let q : j ≡ k = ground arith in
            let same : v ≡ u = cc (rw (lookup-insert k j v b.writes, y) at e) in
            q ∙ ap (λ x. x.key) same
        | inr z ↦ h.names j u (rw (lookup-insert k j v b.writes, z) at e)
      ];
    }
