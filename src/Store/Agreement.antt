-- ===== src/Store/Agreement.antt =====
-- pkg/store/wal/wal.go and internal/example/memstore/store.go keep the one contract of a state store:
-- what the store on a log holds when the store in memory has served the same calls.
use canal.Prelude.{
  ℕ, ◌≡◌, refl, sym, ap, inl, inr, Option, none, some, List, [], ◌∷◌, arith, ◌==◌, Bool-cases,
  Option-cases, add64,
}
use canal.Prelude.Assoc.{lookup, insert, remove, lookup-insert, lookup-remove}
use canal.Store.{
  Versioned, Deletion, Batch, floor, raise, is_below, version_of, epoch_for, epoch_for_delete,
  check, check_write, check_writes, check_deletes,
}
use canal.Store.Floors.{floor-raise, is_below-floor}
use canal.Store.Memory.{Memory}
use canal.Store.Wal.{Index, stored, apply_write, apply_delete, seen_epoch}

-- What a row is for its readers: the log keeps neither the condition nor the epoch of the write.
abbrev pub strip : Option Versioned → Option Versioned
strip none = none
strip (some v) = some (stored v.key v.value v.version)

pub record Agree (m : Memory) (i : Index) : Type 0 where
  pub held : (k : ℕ) → lookup k i.held ≡ strip (lookup k m.held)
  pub floors : (k : ℕ) → floor k i.epochs ≡ floor k m.epochs

is_below-Agree :
    (m : Memory) (i : Index) (e k : ℕ) → Agree m i → is_below e k i.epochs ≡ is_below e k m.epochs
is_below-Agree m i e k a =
    rw (is_below-floor e k i.epochs, is_below-floor e k m.epochs, a.floors k) refl

check_write-Agree :
    (m : Memory) (i : Index) (b : Batch) (name : ℕ) (v : Versioned)
    → Agree m i
    → check_write b i.held i.epochs name v ≡ check_write b m.held m.epochs name v
unfolding check_write
check_write-Agree m i b name v a = elim (Option-cases (lookup name m.held)) [
  | inl e ↦ ground (arith, is_below-Agree m i (epoch_for b v) name a, a.held name, e)
  | inr (w, e) ↦ ground (arith, is_below-Agree m i (epoch_for b v) name a, a.held name, e)
]

check_writes-Agree :
    (m : Memory) (i : Index) (b : Batch) (ws : List (ℕ × Versioned))
    → Agree m i
    → check_writes b i.held i.epochs ws ≡ check_writes b m.held m.epochs ws
unfolding check_writes
check_writes-Agree m i b [] a = refl
check_writes-Agree m i b ((name, v) ∷ ws) a =
    rw (check_write-Agree m i b name v a, check_writes-Agree m i b ws a) refl

check_deletes-Agree :
    (m : Memory) (i : Index) (b : Batch) (ds : List Deletion)
    → Agree m i
    → check_deletes b i.epochs ds ≡ check_deletes b m.epochs ds
unfolding check_deletes
check_deletes-Agree m i b [] a = refl
check_deletes-Agree m i b (d ∷ ds) a =
    rw (is_below-Agree m i (epoch_for_delete b d) d.key a, check_deletes-Agree m i b ds a) refl

pub check-Agree :
    (m : Memory) (i : Index) (b : Batch)
    → Agree m i
    → check b i.held i.epochs ≡ check b m.held m.epochs
unfolding check
check-Agree m i b a =
    rw (check_writes-Agree m i b b.writes a, check_deletes-Agree m i b b.deletes a) refl

version_of-Agree :
    (m : Memory) (i : Index) (k : ℕ) → Agree m i → version_of k i.held ≡ version_of k m.held
unfolding version_of
version_of-Agree m i k a = elim (Option-cases (lookup k m.held)) [
  | inl e ↦ ground (arith, a.held k, e)
  | inr (w, e) ↦ ground (arith, a.held k, e)
]

-- One write, where the log's version and floor of the key are those of the index `i0` that the
-- entry was made from.
pub write-Agree :
    (m : Memory) (i i0 : Index) (b : Batch) (name : ℕ) (v : Versioned)
    → name ≡ v.key
    → version_of name i0.held ≡ version_of name i.held
    → floor name i0.epochs ≡ floor name i.epochs
    → Agree m i
    → Agree
        (record {
          held = insert name (record v { version = add64 (version_of name m.held) 1 }) m.held;
          epochs = raise name (epoch_for b v) m.epochs;
        })
        (apply_write i (record {
          key = v.key;
          value = v.value;
          version = add64 (version_of name i0.held) 1;
          epoch_seen = seen_epoch b i0 name v;
        }))
unfolding apply_write seen_epoch
write-Agree m i i0 b name v q n f a = record {
  held = λ k.
      rw
        (
          lookup-insert v.key k (stored v.key v.value (add64 (version_of name i0.held) 1)) i.held,
          lookup-insert name k (record v { version = add64 (version_of name m.held) 1 }) m.held,
          n,
          version_of-Agree m i name a,
          ap (λ j. j == k) (sym q),
        )
        (elim (Bool-cases (name == k)) [ inl t ↦ rw t refl | inr t ↦ rw t (a.held k) ]);
  floors = λ k.
      rw
        (
          floor-raise v.key k (seen_epoch b i0 name v) i.epochs,
          floor-raise name k (epoch_for b v) m.epochs,
          ap (λ j. j == k) (sym q),
        )
        (elim (Bool-cases (name == k)) [
          | inl t ↦
              let e : name ≡ k = ground arith in
              let same : floor name i.epochs ≡ floor k i.epochs = ap (λ j. floor j i.epochs) e in
              rw t (ground (arith, f, same, a.floors k))
          | inr t ↦ rw t (a.floors k)
        ]);
}

pub delete-Agree :
    (m : Memory) (i : Index) (d : Deletion)
    → Agree m i
    → Agree
        (record { held = remove d.key m.held; epochs = raise d.key d.epoch m.epochs })
        (apply_delete i d)
unfolding apply_delete
delete-Agree m i d a = record {
  held = λ k.
      rw (lookup-remove d.key k i.held, lookup-remove d.key k m.held, a.held k)
        (elim (Bool-cases (d.key == k)) [ inl t ↦ rw t refl | inr t ↦ rw t refl ]);
  floors = λ k.
      rw (floor-raise d.key k d.epoch i.epochs, floor-raise d.key k d.epoch m.epochs, a.floors k)
        refl;
}
