-- ===== src/Store/Wal/Maps.antt =====
-- The three maps of pkg/store/wal/wal.go: which indexes are alike, and how the keys of deleted rows
-- are tied to the rows and the floors.
use canal.Prelude.{
  ℕ, ◌≡◌, refl, sym, ◌∙◌, ap, subst, inl, inr, Bool, true, false, Option, none, some, List, [], ◌∷◌,
  arith, ltb, ◌==◌, if◌then◌else◌, Bool-cases,
}
use canal.Prelude.Assoc.{
  lookup, insert, lookup-insert, lookup-remove, Distinct, Distinct-insert, Distinct-remove,
}
use canal.Store.{Versioned, Deletion, floor, raise}
use canal.Store.Floors.{floor-raise}
use canal.Store.Wal.{
  AppliedWrite, Entry, Index, stored, apply_write, apply_delete, apply_writes, apply_deletes, apply,
  empty_index,
}

-- The same rows, floors and deleted keys, in whatever order.
pub record Alike (s t : Index) : Type 0 where
  pub held : (k : ℕ) → lookup k s.held ≡ lookup k t.held
  pub floors : (k : ℕ) → floor k s.epochs ≡ floor k t.epochs
  pub keys : (k : ℕ) → lookup k s.floor_keys ≡ lookup k t.floor_keys

pub Alike-refl : (s : Index) → Alike s s
Alike-refl s = record { held = λ k. refl; floors = λ k. refl; keys = λ k. refl }

pub Alike-trans : (s t u : Index) → Alike s t → Alike t u → Alike s u
Alike-trans s t u a b = record {
  held = λ k. a.held k ∙ b.held k;
  floors = λ k. a.floors k ∙ b.floors k;
  keys = λ k. a.keys k ∙ b.keys k;
}

apply_write-Alike :
    (s t : Index) (w : AppliedWrite) → Alike s t → Alike (apply_write s w) (apply_write t w)
unfolding apply_write
apply_write-Alike s t w a = record {
  held = λ k.
      rw
        (
          lookup-insert w.key k (stored w.key w.value w.version) s.held,
          lookup-insert w.key k (stored w.key w.value w.version) t.held,
          a.held k,
        )
        refl;
  floors = λ k.
      rw
        (
          floor-raise w.key k w.epoch_seen s.epochs,
          floor-raise w.key k w.epoch_seen t.epochs,
          a.floors k,
        )
        refl;
  keys = λ k.
      rw (lookup-remove w.key k s.floor_keys, lookup-remove w.key k t.floor_keys, a.keys k) refl;
}

pub lookup-if :
    (k j : ℕ) (b : Bool) (m : List (ℕ × ℕ))
    → lookup j (if b then insert k k m else m)
      ≡ (if b then (if k == j then some k else lookup j m) else lookup j m)
lookup-if k j true m = lookup-insert k j k m
lookup-if k j false m = refl

apply_delete-Alike :
    (s t : Index) (d : Deletion) → Alike s t → Alike (apply_delete s d) (apply_delete t d)
unfolding apply_delete
apply_delete-Alike s t d a = record {
  held = λ k. rw (lookup-remove d.key k s.held, lookup-remove d.key k t.held, a.held k) refl;
  floors = λ k.
      rw (floor-raise d.key k d.epoch s.epochs, floor-raise d.key k d.epoch t.epochs, a.floors k)
        refl;
  keys = λ k.
      rw
        (
          lookup-if d.key k (ltb 0 (floor d.key (raise d.key d.epoch s.epochs))) s.floor_keys,
          lookup-if d.key k (ltb 0 (floor d.key (raise d.key d.epoch t.epochs))) t.floor_keys,
          floor-raise d.key d.key d.epoch s.epochs,
          floor-raise d.key d.key d.epoch t.epochs,
          a.floors d.key,
          a.keys k,
        )
        refl;
}

apply_writes-Alike :
    (ws : List AppliedWrite) (s t : Index)
    → Alike s t
    → Alike (apply_writes s ws) (apply_writes t ws)
unfolding apply_writes
apply_writes-Alike [] s t a = a
apply_writes-Alike (w ∷ ws) s t a =
    apply_writes-Alike ws (apply_write s w) (apply_write t w) (apply_write-Alike s t w a)

apply_deletes-Alike :
    (ds : List Deletion) (s t : Index) → Alike s t → Alike (apply_deletes s ds) (apply_deletes t ds)
unfolding apply_deletes
apply_deletes-Alike [] s t a = a
apply_deletes-Alike (d ∷ ds) s t a =
    apply_deletes-Alike ds (apply_delete s d) (apply_delete t d) (apply_delete-Alike s t d a)

pub apply-Alike : (e : Entry) (s t : Index) → Alike s t → Alike (apply s e) (apply t e)
unfolding apply
apply-Alike e s t a =
    apply_deletes-Alike e.deletes (apply_writes s e.writes) (apply_writes t e.writes)
      (apply_writes-Alike e.writes s t a)

-- The key of a row that is gone is kept as long as its floor is above 0, and under its own name.
abbrev pub floor_key : ℕ → Option Versioned → ℕ → Option ℕ
floor_key k none f = if ltb 0 f then some k else none
floor_key k (some v) f = none

pub record Tidy (s : Index) : Type 0 where
  pub tied : (k : ℕ) → lookup k s.floor_keys ≡ floor_key k (lookup k s.held) (floor k s.epochs)
  pub named : (k : ℕ) (v : Versioned) → lookup k s.held ≡ some v → v ≡ stored k v.value v.version
  pub held_once : Distinct s.held
  pub keys_once : Distinct s.floor_keys

pub empty_index-Tidy : Tidy empty_index
unfolding lookup floor
empty_index-Tidy = record {
  tied = λ k. refl;
  named = λ k v e. absurd (cc e);
  held_once = tt;
  keys_once = tt;
}

apply_write-Tidy : (s : Index) (w : AppliedWrite) → Tidy s → Tidy (apply_write s w)
unfolding apply_write
apply_write-Tidy s w h = record {
  tied = λ k.
      rw
        (
          lookup-remove w.key k s.floor_keys,
          lookup-insert w.key k (stored w.key w.value w.version) s.held,
          floor-raise w.key k w.epoch_seen s.epochs,
        )
        (elim (Bool-cases (w.key == k)) [ inl y ↦ rw y refl | inr z ↦ rw z (h.tied k) ]);
  named = λ k v e. elim (Bool-cases (w.key == k)) [
    | inl y ↦
        let q : k ≡ w.key = ground arith in
        let same : stored w.key w.value w.version ≡ v =
          cc (rw (lookup-insert w.key k (stored w.key w.value w.version) s.held, y) at e) in
        subst (λ u. u ≡ stored k u.value u.version) same
          (ap (λ i. stored i w.value w.version) (sym q))
    | inr z ↦
        h.named k v (rw (lookup-insert w.key k (stored w.key w.value w.version) s.held, z) at e)
  ];
  held_once = Distinct-insert w.key (stored w.key w.value w.version) s.held h.held_once;
  keys_once = Distinct-remove w.key s.floor_keys h.keys_once;
}

Distinct-if :
    (k : ℕ) (b : Bool) (m : List (ℕ × ℕ)) → Distinct m → Distinct (if b then insert k k m else m)
Distinct-if k true m d = Distinct-insert k k m d
Distinct-if k false m d = d

apply_delete-Tidy : (s : Index) (d : Deletion) → Tidy s → Tidy (apply_delete s d)
unfolding apply_delete
apply_delete-Tidy s d h = record {
  tied = λ k.
      rw
        (
          lookup-if d.key k (ltb 0 (floor d.key (raise d.key d.epoch s.epochs))) s.floor_keys,
          lookup-remove d.key k s.held,
          floor-raise d.key d.key d.epoch s.epochs,
          floor-raise d.key k d.epoch s.epochs,
        )
        (elim (Bool-cases (d.key == k)) [
          | inl y ↦ let q : d.key ≡ k = ground arith in rw y (ground (arith, h.tied k, q))
          | inr z ↦ rw z (ground (arith, h.tied k))
        ]);
  named = λ k v e. elim (Bool-cases (d.key == k)) [
    | inl y ↦ absurd (cc (rw (lookup-remove d.key k s.held, y) at e))
    | inr z ↦ h.named k v (rw (lookup-remove d.key k s.held, z) at e)
  ];
  held_once = Distinct-remove d.key s.held h.held_once;
  keys_once = Distinct-if d.key _ s.floor_keys h.keys_once;
}

apply_writes-Tidy : (ws : List AppliedWrite) (s : Index) → Tidy s → Tidy (apply_writes s ws)
unfolding apply_writes
apply_writes-Tidy [] s h = h
apply_writes-Tidy (w ∷ ws) s h = apply_writes-Tidy ws (apply_write s w) (apply_write-Tidy s w h)

apply_deletes-Tidy : (ds : List Deletion) (s : Index) → Tidy s → Tidy (apply_deletes s ds)
unfolding apply_deletes
apply_deletes-Tidy [] s h = h
apply_deletes-Tidy (d ∷ ds) s h = apply_deletes-Tidy ds (apply_delete s d) (apply_delete-Tidy s d h)

pub apply-Tidy : (e : Entry) (s : Index) → Tidy s → Tidy (apply s e)
unfolding apply
apply-Tidy e s h =
    apply_deletes-Tidy e.deletes (apply_writes s e.writes) (apply_writes-Tidy e.writes s h)
