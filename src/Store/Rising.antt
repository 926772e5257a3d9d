-- ===== src/Store/Rising.antt =====
-- The floors of pkg/store/wal/wal.go only rise, whatever is called.
use canal.Prelude.{ℕ, ◌≤◌, inl, inr, List, [], ◌∷◌, arith, Bool-cases, Option-cases}
use canal.Store.{Deletion, Batch, floor, raise, check}
use canal.Store.Floors.{floor-raise}
use canal.Store.Wal.{
  AppliedWrite, Entry, Index, Wal, apply_write, apply_delete, apply_writes, apply_deletes, apply,
  entry_of, unfenced, Append, done, unwritten, partly, unsynced, uncompacted, swapped, commit,
  applied, set, delete, compact,
}
use canal.Store.Wal.Durable.{
  Op, sets, deletes, compacts, reopens, CleanRun, Sound, step, run, step-Sound, reopen-Alike,
}

raise-le : (k j e : ℕ) (m : List (ℕ × ℕ)) → floor j m ≤ floor j (raise k e m)
raise-le k j e m = ground (arith, floor-raise k j e m)

pub apply_writes-le :
    (ws : List AppliedWrite) (i : Index) (k : ℕ)
    → floor k i.epochs ≤ floor k (apply_writes i ws).epochs
unfolding apply_writes apply_write
apply_writes-le [] i k = omega arith
apply_writes-le (w ∷ ws) i k =
    omega (arith, raise-le w.key k w.epoch_seen i.epochs, apply_writes-le ws (apply_write i w) k)

pub apply_deletes-le :
    (ds : List Deletion) (i : Index) (k : ℕ)
    → floor k i.epochs ≤ floor k (apply_deletes i ds).epochs
unfolding apply_deletes apply_delete
apply_deletes-le [] i k = omega arith
apply_deletes-le (d ∷ ds) i k =
    omega (arith, raise-le d.key k d.epoch i.epochs, apply_deletes-le ds (apply_delete i d) k)

apply-le : (e : Entry) (i : Index) (k : ℕ) → floor k i.epochs ≤ floor k (apply i e).epochs
unfolding apply
apply-le e i k =
    omega
      (arith, apply_writes-le e.writes i k, apply_deletes-le e.deletes (apply_writes i e.writes) k)

commit-le :
    (s : Wal) (e : Entry) (how : Append) (k : ℕ)
    → floor k s.index.epochs ≤ floor k (commit s e how).0.index.epochs
unfolding commit applied compact
commit-le s e done k = apply-le e s.index k
commit-le s e unwritten k = omega arith
commit-le s e partly k = omega arith
commit-le s e unsynced k = omega arith
commit-le s e uncompacted k = apply-le e s.index k
commit-le s e swapped k = apply-le e s.index k

set-le :
    (s : Wal) (b : Batch) (how : Append) (k : ℕ)
    → floor k s.index.epochs ≤ floor k (set s b how).0.index.epochs
unfolding set
set-le s b how k = elim (Bool-cases s.closed) [
  | inl y ↦ simp y (omega arith)
  | inr z ↦ simp z (elim (Option-cases (check b s.index.held s.index.epochs)) [
    | inl e ↦ rw e (commit-le s (entry_of b s.index) how k)
    | inr (r, e) ↦ rw e (omega arith)
  ])
]

delete-le :
    (s : Wal) (ks : List ℕ) (how : Append) (k : ℕ)
    → floor k s.index.epochs ≤ floor k (delete s ks how).0.index.epochs
unfolding delete
delete-le s [] how k = omega arith
delete-le s (j ∷ ks) how k = elim (Bool-cases s.closed) [
  | inl y ↦ simp y (omega arith)
  | inr z ↦ simp z (commit-le s (record { writes = []; deletes = unfenced (j ∷ ks) }) how k)
]

step-le :
    (s : Wal) (o : Op) (k : ℕ) → Sound s → floor k s.index.epochs ≤ floor k (step s o).index.epochs
unfolding step
step-le s (sets b how) k h = set-le s b how k
step-le s (deletes ks how) k h = delete-le s ks how k
step-le s compacts k h = unfold compact in omega arith
step-le s reopens k h = omega (arith, (reopen-Alike s h).floors k)

pub run-le :
    (s : Wal) (os : List Op) (k : ℕ)
    → CleanRun s os
    → Sound s
    → floor k s.index.epochs ≤ floor k (run s os).index.epochs
unfolding run
run-le s [] k c h = omega arith
run-le s (o ∷ os) k c h =
    omega (arith, step-le s o k h, run-le (step s o) os k c.2 (step-Sound s o c.0 c.1 h))
