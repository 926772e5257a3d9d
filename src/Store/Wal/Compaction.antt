-- ===== src/Store/Wal/Compaction.antt =====
-- compactLocked of pkg/store/wal/wal.go: what a replay of the rewritten log rebuilds.
use canal.Prelude.{
  ℕ, ◌<◌, ◌≡◌, refl, sym, ◌∙◌, ap, subst, inl, inr, Bool, true, false, Option, none, some, List, [],
  ◌∷◌, arith, ltb, ◌==◌, if◌then◌else◌, Bool-cases, Option-cases, All, All-append,
}
use canal.Prelude.Assoc.{lookup, lookup-remove, Distinct, All-lookup}
use canal.Store.{Versioned, Deletion, floor, raise}
use canal.Store.Floors.{floor-raise}
use canal.Store.Wal.{
  Index, Wal, stored, apply_delete, apply_writes, apply_deletes, apply, empty_index, replay_from,
  replay, live_frames, floor_frames, compact,
}
use canal.Store.Wal.Maps.{Alike, Tidy, floor_key, lookup-if}
use canal.Store.Wal.Rows.{
  Whole, replay_from-append, live_frames-Whole, floor_frames-Whole, Loaded, live_frames-Loaded,
}

abbrev drop_row : Option ℕ → Option Versioned → Option Versioned
drop_row none before = before
drop_row (some key) before = none

abbrev lift_floor : Option ℕ → ℕ → ℕ → ℕ
lift_floor none f before = before
lift_floor (some key) f before = if ltb before f then f else before

abbrev keep_key : Option ℕ → ℕ → Option ℕ → Option ℕ
keep_key none k before = before
keep_key (some key) k before = some k

-- The same for the floor records, where `row` is the key's own.
record Floored (k : ℕ) (row : Option ℕ) (f : ℕ) (i r : Index) : Type 0 where
  held : lookup k r.held ≡ drop_row row (lookup k i.held)
  floors : floor k r.epochs ≡ lift_floor row f (floor k i.epochs)
  keys : lookup k r.floor_keys ≡ keep_key row k (lookup k i.floor_keys)

abbrev row_delete : ℕ → ℕ → Deletion
row_delete name f = record { key = name; epoch = f }

-- Each floor record is of a key under its own name, with a floor above 0.
abbrev Lifted : List (ℕ × ℕ) → List (ℕ × ℕ) → Type 0
Lifted ep = All (λ e. (e.1 ≡ e.0) × (0 < floor e.0 ep))

Floored-here :
    (name f : ℕ) (i r : Index)
    → 0 < f
    → Floored name none f (apply_delete i (row_delete name f)) r
    → Floored name (some name) f i r
unfolding apply_delete
Floored-here name f i r p h = record {
  held = h.held ∙ rw (lookup-remove name name i.held) (ground arith);
  floors = h.floors ∙ rw (floor-raise name name f i.epochs) (ground arith);
  keys =
      h.keys
      ∙ rw
          (
            lookup-if name name (ltb 0 (floor name (raise name f i.epochs))) i.floor_keys,
            floor-raise name name f i.epochs,
          )
          (ground arith);
}

keep_other :
    (a b : Bool) (k : ℕ) (o : Option ℕ)
    → b ≡ false
    → (if a then (if b then some k else o) else o) ≡ o
keep_other true b k o z = rw z refl
keep_other false b k o z = refl

Floored-there :
    (name k : ℕ) (row : Option ℕ) (f g : ℕ) (i r : Index)
    → (name == k) ≡ false
    → Floored k row f (apply_delete i (row_delete name g)) r
    → Floored k row f i r
unfolding apply_delete
Floored-there name k row f g i r z h = record {
  held = h.held ∙ ap (drop_row row) (lookup-remove name k i.held ∙ cc z);
  floors = h.floors ∙ ap (lift_floor row f) (floor-raise name k g i.epochs ∙ cc z);
  keys =
      h.keys
      ∙ ap (keep_key row k) (
          lookup-if name k (ltb 0 (floor name (raise name g i.epochs))) i.floor_keys
          ∙ keep_other _ (name == k) name (lookup k i.floor_keys) z);
}

apply-floor :
    (i : Index) (name key f : ℕ)
    → key ≡ name
    → apply i (record { writes = []; deletes = record { key = key; epoch = f } ∷ [] })
      ≡ apply_delete i (row_delete name f)
unfolding apply apply_writes apply_deletes
apply-floor i name key f q = ap (λ k. apply_delete i (row_delete k f)) q

floor-step :
    (ep : List (ℕ × ℕ)) (name key : ℕ) (m : List (ℕ × ℕ)) (i : Index) (k : ℕ)
    → Distinct ((name, key) ∷ m)
    → Lifted ep ((name, key) ∷ m)
    → let i' = apply_delete i (row_delete name (floor name ep)) in
      Floored k (lookup k m) (floor k ep) i' (replay_from i' (floor_frames ep m))
      → Floored k (lookup k ((name, key) ∷ m)) (floor k ep) i (replay_from i' (floor_frames ep m))
unfolding lookup
floor-step ep name key m i k d q h = elim (Bool-cases (name == k)) [
  | inl y ↦
      let e : name ≡ k = ground arith in
      let i' = apply_delete i (row_delete name (floor name ep)) in
      let r = replay_from i' (floor_frames ep m) in
      let h' : Floored name (lookup name m) (floor name ep) i' r =
        subst (λ j. Floored j (lookup j m) (floor j ep) i' r) (sym e) h in
      rw (y, q.0.0)
        (subst (λ j. Floored j (some name) (floor j ep) i r) e
          (Floored-here name (floor name ep) i r q.0.1 (rw d.0 at h')))
  | inr z ↦ rw z (Floored-there name k (lookup k m) (floor k ep) (floor name ep) i _ z h)
]

floor_frames-Floored :
    (ep : List (ℕ × ℕ)) (m : List (ℕ × ℕ)) (i : Index) (k : ℕ)
    → Distinct m
    → Lifted ep m
    → Floored k (lookup k m) (floor k ep) i (replay_from i (floor_frames ep m))
unfolding floor_frames replay_from lookup
floor_frames-Floored ep [] i k d q = record { held = refl; floors = refl; keys = refl }
floor_frames-Floored ep ((name, key) ∷ m) i k d q =
    subst
      (λ i'.
        Floored k (lookup k ((name, key) ∷ m)) (floor k ep) i (replay_from i' (floor_frames ep m)))
      (sym (apply-floor i name key (floor name ep) q.0.0))
      (floor-step ep name key m i k d q
        (floor_frames-Floored ep m (apply_delete i (row_delete name (floor name ep))) k d.1 q.1))

-- What the two halves of a compacted log rebuild, given how rows, floors and deleted keys are tied.
rebuilt :
    (k : ℕ) (s a r : Index)
    → lookup k s.floor_keys ≡ floor_key k (lookup k s.held) (floor k s.epochs)
    → Loaded k (lookup k s.held) (floor k s.epochs) empty_index a
    → Floored k (lookup k s.floor_keys) (floor k s.epochs) a r
    → (lookup k r.held ≡ lookup k s.held)
      × (floor k r.epochs ≡ floor k s.epochs)
      × (lookup k r.floor_keys ≡ lookup k s.floor_keys)
unfolding lookup floor
rebuilt k s a r t l f = elim (Option-cases (lookup k s.held)) [
  | inl e ↦ ground (arith, t, l.held, l.floors, l.keys, f.held, f.floors, f.keys)
  | inr (v, e) ↦ ground (arith, t, l.held, l.floors, l.keys, f.held, f.floors, f.keys)
]

floor_key-some :
    (k key f : ℕ) (row : Option Versioned) → floor_key k row f ≡ some key → (key ≡ k) × (0 < f)
floor_key-some k key f none h = ground arith
floor_key-some k key f (some v) h = absurd (cc h)

pub compact-Whole : (s : Wal) → All Whole (compact s).log
unfolding compact
compact-Whole s =
    All-append Whole (live_frames s.index.epochs s.index.held)
      (floor_frames s.index.epochs s.index.floor_keys)
      (live_frames-Whole s.index.epochs s.index.held)
      (floor_frames-Whole s.index.epochs s.index.floor_keys)

pub compact-Alike : (s : Wal) → Tidy s.index → Alike (replay (compact s).log) s.index
unfolding compact replay
compact-Alike s h =
    let i = s.index in
    let lives = live_frames i.epochs i.held in
    let a = replay_from empty_index lives in
    let r = replay_from a (floor_frames i.epochs i.floor_keys) in
    let all : (k : ℕ)
        → (lookup k r.held ≡ lookup k i.held)
          × (floor k r.epochs ≡ floor k i.epochs)
          × (lookup k r.floor_keys ≡ lookup k i.floor_keys) =
      λ k.
        rebuilt k i a r (h.tied k)
          (live_frames-Loaded i.epochs i.held empty_index k h.held_once
            (All-lookup (λ e. e.1 ≡ stored e.0 e.1.value e.1.version) i.held h.held_once h.named))
          (floor_frames-Floored i.epochs i.floor_keys a k h.keys_once (
            All-lookup (λ e. (e.1 ≡ e.0) × (0 < floor e.0 i.epochs)) i.floor_keys h.keys_once
              (λ j key e.
                floor_key-some j key (floor j i.epochs) (lookup j i.held) (sym (h.tied j) ∙ e)))) in
    subst (λ t. Alike t i)
      (sym (
        replay_from-append empty_index lives (floor_frames i.epochs i.floor_keys)
          (live_frames-Whole i.epochs i.held)))
      (record { held = λ k. (all k).0; floors = λ k. (all k).1; keys = λ k. (all k).2 })
