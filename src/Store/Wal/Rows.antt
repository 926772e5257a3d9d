-- ===== src/Store/Wal/Rows.antt =====
-- compactLocked of pkg/store/wal/wal.go: the frames of the rows, and what they load.
use canal.Prelude.{
  ℕ, ◌≡◌, refl, sym, ◌∙◌, ap, subst, inl, inr, false, Option, none, some, List, [], ◌∷◌, ◌++◌,
  arith, ltb, ◌==◌, if◌then◌else◌, Bool-cases, All,
}
use canal.Prelude.Assoc.{lookup, lookup-insert, lookup-remove, Distinct}
use canal.Store.{Versioned, floor}
use canal.Store.Floors.{floor-raise}
use canal.Store.Wal.{
  AppliedWrite, Frame, whole, torn, Index, stored, apply_write, apply_writes, apply_deletes, apply,
  replay_from, live_frames, floor_frames,
}

abbrev pub Whole : Frame → Type 0
Whole (whole e) = Unit
Whole torn = ⊥

pub replay_from-append :
    (s : Index) (fs gs : List Frame)
    → All Whole fs
    → replay_from s (fs ++ gs) ≡ replay_from (replay_from s fs) gs
unfolding replay_from
replay_from-append s [] gs h = refl
replay_from-append s (whole e ∷ fs) gs h = replay_from-append (apply s e) fs gs h.1
replay_from-append s (torn ∷ fs) gs h = absurd h.0

pub live_frames-Whole :
    (ep : List (ℕ × ℕ)) (m : List (ℕ × Versioned)) → All Whole (live_frames ep m)
unfolding live_frames
live_frames-Whole ep [] = tt
live_frames-Whole ep ((name, v) ∷ m) = (tt, live_frames-Whole ep m)

pub floor_frames-Whole : (ep m : List (ℕ × ℕ)) → All Whole (floor_frames ep m)
unfolding floor_frames
floor_frames-Whole ep [] = tt
floor_frames-Whole ep ((name, key) ∷ m) = (tt, floor_frames-Whole ep m)

abbrev pick_row : Option Versioned → Option Versioned → Option Versioned
pick_row none before = before
pick_row (some v) before = some v

abbrev pick_floor : Option Versioned → ℕ → ℕ → ℕ
pick_floor none f before = before
pick_floor (some v) f before = if ltb before f then f else before

abbrev pick_key : Option Versioned → Option ℕ → Option ℕ
pick_key none before = before
pick_key (some v) before = none

-- What key `k` reads in `r` once the rows of the log, of which `row` is its own and `f` its floor,
-- have been replayed from `i`.
pub record Loaded (k : ℕ) (row : Option Versioned) (f : ℕ) (i r : Index) : Type 0 where
  pub held : lookup k r.held ≡ pick_row row (lookup k i.held)
  pub floors : floor k r.epochs ≡ pick_floor row f (floor k i.epochs)
  pub keys : lookup k r.floor_keys ≡ pick_key row (lookup k i.floor_keys)

abbrev row_write : ℕ → Versioned → ℕ → AppliedWrite
row_write name v f = record { key = name; value = v.value; version = v.version; epoch_seen = f }

Loaded-here :
    (name : ℕ) (v : Versioned) (f : ℕ) (i r : Index)
    → v ≡ stored name v.value v.version
    → Loaded name none f (apply_write i (row_write name v f)) r
    → Loaded name (some v) f i r
unfolding apply_write
Loaded-here name v f i r q h = record {
  held =
      h.held
      ∙ (rw (lookup-insert name name (stored name v.value v.version) i.held) (ground (arith, q)));
  floors = h.floors ∙ (rw (floor-raise name name f i.epochs) (ground arith));
  keys = h.keys ∙ (rw (lookup-remove name name i.floor_keys) (ground arith));
}

Loaded-there :
    (name k : ℕ) (v : Versioned) (row : Option Versioned) (f g : ℕ) (i r : Index)
    → (name == k) ≡ false
    → Loaded k row f (apply_write i (row_write name v g)) r
    → Loaded k row f i r
unfolding apply_write
Loaded-there name k v row f g i r z h = record {
  held =
      h.held
      ∙ ap (pick_row row) (lookup-insert name k (stored name v.value v.version) i.held ∙ cc z);
  floors = h.floors ∙ ap (pick_floor row f) (floor-raise name k g i.epochs ∙ cc z);
  keys = h.keys ∙ ap (pick_key row) (lookup-remove name k i.floor_keys ∙ cc z);
}

abbrev Named : List (ℕ × Versioned) → Type 0
Named = All (λ e. e.1 ≡ stored e.0 e.1.value e.1.version)

apply-row :
    (i : Index) (name : ℕ) (v : Versioned) (f : ℕ)
    → v ≡ stored name v.value v.version
    → apply i (record {
      writes = record { key = v.key; value = v.value; version = v.version; epoch_seen = f } ∷ [];
      deletes = [];
    })
      ≡ apply_write i (row_write name v f)
unfolding apply apply_writes apply_deletes
apply-row i name v f q = ap (λ k. apply_write i (row_write k v f)) (ap (λ u. u.key) q)

live-step :
    (ep : List (ℕ × ℕ)) (name : ℕ) (v : Versioned) (m : List (ℕ × Versioned)) (i : Index) (k : ℕ)
    → Distinct ((name, v) ∷ m)
    → Named ((name, v) ∷ m)
    → let i' = apply_write i (row_write name v (floor name ep)) in
      Loaded k (lookup k m) (floor k ep) i' (replay_from i' (live_frames ep m))
      → Loaded k (lookup k ((name, v) ∷ m)) (floor k ep) i (replay_from i' (live_frames ep m))
unfolding lookup
live-step ep name v m i k d q h = elim (Bool-cases (name == k)) [
  | inl y ↦
      let e : name ≡ k = ground arith in
      let i' = apply_write i (row_write name v (floor name ep)) in
      let r = replay_from i' (live_frames ep m) in
      let h' : Loaded name (lookup name m) (floor name ep) i' r =
        subst (λ j. Loaded j (lookup j m) (floor j ep) i' r) (sym e) h in
      rw y (
        subst (λ j. Loaded j (some v) (floor j ep) i r) e
          (Loaded-here name v (floor name ep) i r q.0 (rw d.0 at h')))
  | inr z ↦ rw z (Loaded-there name k v (lookup k m) (floor k ep) (floor name ep) i _ z h)
]

pub live_frames-Loaded :
    (ep : List (ℕ × ℕ)) (m : List (ℕ × Versioned)) (i : Index) (k : ℕ)
    → Distinct m
    → Named m
    → Loaded k (lookup k m) (floor k ep) i (replay_from i (live_frames ep m))
unfolding live_frames replay_from lookup
live_frames-Loaded ep [] i k d q = record { held = refl; floors = refl; keys = refl }
live_frames-Loaded ep ((name, v) ∷ m) i k d q =
    subst
      (λ i'. Loaded k (lookup k ((name, v) ∷ m)) (floor k ep) i (replay_from i' (live_frames ep m)))
      (sym (apply-row i name v (floor name ep) q.0))
      (live-step ep name v m i k d q
        (live_frames-Loaded ep m (apply_write i (row_write name v (floor name ep))) k d.1 q.1))
