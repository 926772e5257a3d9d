-- ===== src/Store/Calls.antt =====
-- Set and Delete of the two state stores: one batch leaves them in agreement.
use canal.Prelude.{
  ℕ, ◌≡◌, refl, sym, ◌∙◌, ap, subst, inl, inr, false, Option, none, some, List, [], ◌∷◌, arith,
  ◌==◌, Bool-cases, Option-cases, add64,
}
use canal.Prelude.Assoc.{lookup, lookup-insert, lookup-remove, lookup-head, lookup-skip, Distinct}
use canal.Store.{Versioned, Deletion, Batch, Refusal, floor, version_of, epoch_for_delete, check}
use canal.Store.Floors.{floor-raise}
use canal.Store.Memory.{Memory, write_all, delete_all, new_memory}
use canal.Store.Memory as Memory
use canal.Store.Wal.{
  AppliedWrite, Entry, Frame, Index, Wal, stored, apply_write, apply_delete, apply_writes,
  apply_deletes, apply, seen_epoch, entry_writes, entry_deletes, entry_of, unfenced, done, applied,
  commit, open_log, compact, reopen, replay, empty_index,
}
use canal.Store.Wal as Wal
use canal.Store.Wal.Durable.{Op, Sound, sets, deletes, compacts, reopens}
use canal.Store.Agreement.{Agree, check-Agree, write-Agree, delete-Agree}

-- A batch that Put and PutFenced built: every write stands under the name of its own key.
pub record Keyed (b : Batch) : Type 0 where
  pub once : Distinct b.writes
  pub names : (k : ℕ) (v : Versioned) → lookup k b.writes ≡ some v → k ≡ v.key

-- The rows and floors under the names of `ws` are still those of `i0`.
record Untouched (ws : List (ℕ × Versioned)) (i0 i : Index) : Type 0 where
  pub row : (k : ℕ) (v : Versioned) → lookup k ws ≡ some v → lookup k i0.held ≡ lookup k i.held
  level : (k : ℕ) (v : Versioned) → lookup k ws ≡ some v → floor k i0.epochs ≡ floor k i.epochs

Untouched-rest :
    (name : ℕ) (v : Versioned) (ws : List (ℕ × Versioned)) (i0 i : Index) (w : AppliedWrite)
    → name ≡ w.key
    → lookup name ws ≡ none
    → Untouched ((name, v) ∷ ws) i0 i
    → Untouched ws i0 (apply_write i w)
unfolding apply_write
Untouched-rest name v ws i0 i w q d u =
    let other : (k : ℕ) (x : Versioned) → lookup k ws ≡ some x → (w.key == k) ≡ false = λ k x e.
      elim (Bool-cases (w.key == k)) [
        | inl y ↦
            let same : w.key ≡ k = ground arith in
            absurd (cc (subst (λ j. lookup j ws ≡ none) (q ∙ same) d, e))
        | inr z ↦ z
      ] in
    record {
      row = λ k x e.
          u.row k x (lookup-skip k name x v ws d e)
          ∙ sym (lookup-insert w.key k (stored w.key w.value w.version) i.held ∙ cc (other k x e));
      level = λ k x e.
          u.level k x (lookup-skip k name x v ws d e)
          ∙ sym (floor-raise w.key k w.epoch_seen i.epochs ∙ cc (other k x e));
    }

writes-Agree :
    (b : Batch) (ws : List (ℕ × Versioned)) (m : Memory) (i0 i : Index)
    → Distinct ws
    → ((k : ℕ) (v : Versioned) → lookup k ws ≡ some v → k ≡ v.key)
    → Untouched ws i0 i
    → Agree m i
    → Agree (write_all b m ws) (apply_writes i (entry_writes b i0 ws))
unfolding write_all apply_writes entry_writes
writes-Agree b [] m i0 i d q u a = a
writes-Agree b ((name, v) ∷ ws) m i0 i d q u a =
    let w : AppliedWrite = record {
      key = v.key;
      value = v.value;
      version = add64 (version_of name i0.held) 1;
      epoch_seen = seen_epoch b i0 name v;
    } in
    let here = lookup-head name v ws in
    writes-Agree b ws _ i0 (apply_write i w) d.1 (λ k x e. q k x (lookup-skip k name x v ws d.0 e))
      (Untouched-rest name v ws i0 i w (q name v here) d.0 u)
      (write-Agree m i i0 b name v (q name v here)
        (unfold version_of in
          ap (λ o. elim o [ none ↦ 0 | some x ↦ x.version ]) (u.row name v here))
        (u.level name v here) a)

deletes-Agree :
    (b : Batch) (ds : List Deletion) (m : Memory) (i : Index)
    → Agree m i
    → Agree (delete_all b m ds) (apply_deletes i (entry_deletes b ds))
unfolding delete_all apply_deletes entry_deletes
deletes-Agree b [] m i a = a
deletes-Agree b (d ∷ ds) m i a =
    deletes-Agree b ds _ _
      (delete-Agree m i (record { key = d.key; epoch = epoch_for_delete b d }) a)

unfenced-Agree :
    (ks : List ℕ) (m : Memory) (i : Index)
    → Agree m i
    → Agree (Memory.delete m ks) (apply_deletes i (unfenced ks))
unfolding Memory.delete apply_deletes apply_delete
unfenced-Agree [] m i a = a
unfenced-Agree (k ∷ ks) m i a = unfenced-Agree ks _ _ (record {
  held = λ j.
      rw (lookup-remove k j i.held, lookup-remove k j m.held, a.held j)
        (elim (Bool-cases (k == j)) [ inl t ↦ rw t refl | inr t ↦ rw t refl ]);
  floors = λ j. floor-raise k j 0 i.epochs ∙ ground (arith, a.floors j);
})

-- What the store in memory does at the same call; compaction and reopening are nothing to it.
abbrev pub memory_step : Memory → Op → Memory
memory_step m (sets b how) = (Memory.set m b).0
memory_step m (deletes ks how) = Memory.delete m ks
memory_step m compacts = m
memory_step m reopens = m

abbrev pub memory_reply : Memory → Op → Option Refusal
memory_reply m (sets b how) = (Memory.set m b).1
memory_reply m (deletes ks how) = none
memory_reply m compacts = none
memory_reply m reopens = none

abbrev pub wal_reply : Wal → Op → Option Refusal
wal_reply s (sets b how) = (Wal.set s b how).1
wal_reply s (deletes ks how) = (Wal.delete s ks how).1
wal_reply s compacts = none
wal_reply s reopens = none

-- A batch built by Put, and a machine whose writes go well.
abbrev pub Served : Op → Type 0
Served (sets b how) = Keyed b × (how ≡ done)
Served (deletes ks how) = how ≡ done
Served compacts = Unit
Served reopens = Unit

-- The store on a log is open, its log holds what it holds, and that is what the memory holds.
pub record Mirrors (m : Memory) (s : Wal) : Type 0 where
  pub sound : Sound s
  pub live : s.closed ≡ false
  pub agree : Agree m s.index

untouched : (ws : List (ℕ × Versioned)) (i : Index) → Untouched ws i i
untouched ws i = record { row = λ k v e. refl; level = λ k v e. refl }

pub set-Agree :
    (m : Memory) (s : Wal) (b : Batch)
    → Keyed b
    → s.closed ≡ false
    → Agree m s.index
    → Agree (Memory.set m b).0 (Wal.set s b done).0.index
      × ((Wal.set s b done).1 ≡ (Memory.set m b).1)
      × ((Wal.set s b done).0.closed ≡ false)
unfolding Memory.set Wal.set commit applied apply entry_of
set-Agree m s b q live a = simp live (elim (Option-cases (check b m.held m.epochs)) [
  | inl e ↦
      let e' : check b s.index.held s.index.epochs ≡ none = check-Agree m s.index b a ∙ e in
      rw (e', e, Memory.set)
        (
          deletes-Agree b b.deletes (write_all b m b.writes)
              (apply_writes s.index (entry_writes b s.index b.writes))
              (writes-Agree b b.writes m s.index s.index q.once q.names (untouched b.writes s.index)
                a),
          refl,
          live,
        )
  | inr (r, e) ↦
      let e' : check b s.index.held s.index.epochs ≡ some r = check-Agree m s.index b a ∙ e in
      rw (e', e, Memory.set) (a, refl, live)
])

pub delete-all-Agree :
    (m : Memory) (s : Wal) (ks : List ℕ)
    → s.closed ≡ false
    → Agree m s.index
    → Agree (Memory.delete m ks) (Wal.delete s ks done).0.index
      × ((Wal.delete s ks done).1 ≡ none)
      × ((Wal.delete s ks done).0.closed ≡ false)
unfolding Wal.delete Memory.delete commit applied apply apply_writes
delete-all-Agree m s [] live a = (a, refl, live)
delete-all-Agree m s (k ∷ ks) live a = simp live (unfenced-Agree (k ∷ ks) m s.index a, refl, refl)
