-- ===== src/Store/Fencing.antt =====
-- Set of pkg/store/wal/wal.go: a writer whose epoch has been passed stays shut out of a row, over
-- deletion, compaction and reopening.
use canal.Prelude.{
  ℕ, add64, ◌<◌, ◌≤◌, ◌≡◌, ◌≢◌, ◌⊎◌, refl, sym, ◌∙◌, ap, subst, inl, inr, true, Option, none, some,
  List, [], ◌∷◌, arith, ◌==◌, Bool-cases, Option-cases,
}
use canal.Prelude.Assoc.{lookup}
use canal.Store.{
  Versioned, Batch, Refusal, fenced, unknown, not_compacted, or_later, version_of, floor, is_below,
  epoch_for, check, check_write, check_writes,
}
use canal.Store.Floors.{floor-raise, is_below-floor}
use canal.Store.Wal.{
  AppliedWrite, Entry, Index, Wal, apply_write, apply_writes, apply, seen_epoch, entry_writes,
  entry_of, Append, done, unwritten, partly, unsynced, uncompacted, swapped, applied, compact,
  commit, set, open_log,
}
use canal.Store.Wal.Durable.{
  Op, sets, CleanRun, Sound, step, run, step-Sound, open_log-Sound, run-Sound,
}
use canal.Store.Calls.{Keyed}
use canal.Store.Rising.{apply_writes-le, apply_deletes-le, run-le}

apply_write-reaches :
    (i : Index) (w : AppliedWrite) (k : ℕ)
    → w.key ≡ k
    → w.epoch_seen ≤ floor k (apply_write i w).epochs
unfolding apply_write
apply_write-reaches i w k q = ground (arith, floor-raise w.key k w.epoch_seen i.epochs, q)

seen_epoch-le :
    (b : Batch) (i : Index) (name : ℕ) (v : Versioned) → epoch_for b v ≤ seen_epoch b i name v
unfolding seen_epoch
seen_epoch-le b i name v = ground arith

entry_writes-le :
    (b : Batch) (ws : List (ℕ × Versioned)) (i0 i : Index) (k : ℕ) (v : Versioned)
    → lookup k ws ≡ some v
    → k ≡ v.key
    → epoch_for b v ≤ floor k (apply_writes i (entry_writes b i0 ws)).epochs
unfolding entry_writes apply_writes lookup
entry_writes-le b [] i0 i k v e q = absurd (cc e)
entry_writes-le b ((name, u) ∷ ws) i0 i k v e q = elim (Bool-cases (name == k)) [
  | inl y ↦
      let same : u ≡ v = cc (rw y at e) in
      let w : AppliedWrite = record {
        key = u.key;
        value = u.value;
        version = add64 (version_of name i0.held) 1;
        epoch_seen = seen_epoch b i0 name u;
      } in
      omega (
        arith,
        ap (λ x. epoch_for b x) same,
        seen_epoch-le b i0 name u,
        apply_write-reaches i w k (ap (λ x. x.key) same ∙ sym q),
        apply_writes-le (entry_writes b i0 ws) (apply_write i w) k,
      )
  | inr z ↦ entry_writes-le b ws i0 _ k v (rw z at e) q
]

or_later-none : (a b : Option Refusal) → or_later a b ≡ none → (a ≡ none) × (b ≡ none)
or_later-none none b h = (refl, h)
or_later-none (some r) b h = absurd (cc h)

check_write-below :
    (b : Batch) (held : List (ℕ × Versioned)) (epochs : List (ℕ × ℕ)) (name : ℕ) (v : Versioned)
    → epoch_for b v < floor name epochs
    → check_write b held epochs name v ≡ some fenced
unfolding check_write
check_write-below b held epochs name v l =
    let t : is_below (epoch_for b v) name epochs ≡ true =
      is_below-floor (epoch_for b v) name epochs ∙ ground arith in
    rw (t, check_write) refl

check_writes-below :
    (b : Batch) (held : List (ℕ × Versioned)) (epochs : List (ℕ × ℕ)) (ws : List (ℕ × Versioned))
    (k : ℕ) (v : Versioned)
    → lookup k ws ≡ some v
    → epoch_for b v < floor k epochs
    → check_writes b held epochs ws ≢ none
unfolding check_writes lookup
check_writes-below b held epochs [] k v e l = absurd (cc e)
check_writes-below b held epochs ((name, u) ∷ ws) k v e l = elim (Bool-cases (name == k)) [
  | inl y ↦
      let same : u ≡ v = cc (rw y at e) in
      let q : name ≡ k = ground arith in
      let stops : check_write b held epochs name u ≡ some fenced =
        check_write-below b held epochs name u (
          subst (λ x. epoch_for b x < floor name epochs) (sym same)
            (subst (λ j. epoch_for b v < floor j epochs) (sym q) l)) in
      λ h.
        let n = (or_later-none (check_write b held epochs name u) _ h).0 in absurd (cc (stops, n))
  | inr z ↦ λ h.
      check_writes-below b held epochs ws k v (rw z at e) l
        (or_later-none (check_write b held epochs name u) _ h).1
]

commit-accepted :
    (s : Wal) (e : Entry) (how : Append)
    → (commit s e how).1 ≡ none
    → (commit s e how).0.index ≡ apply s.index e
unfolding commit applied
commit-accepted s e done h = refl
commit-accepted s e unwritten h = absurd (cc h)
commit-accepted s e partly h = absurd (cc h)
commit-accepted s e unsynced h = absurd (cc h)
commit-accepted s e uncompacted h = absurd (cc h)
commit-accepted s e swapped h = absurd (cc h)

set-accepted :
    (s : Wal) (b : Batch) (how : Append)
    → (set s b how).1 ≡ none
    → (check b s.index.held s.index.epochs ≡ none)
      × ((set s b how).0.index ≡ apply s.index (entry_of b s.index))
unfolding set
set-accepted s b how = elim (Bool-cases s.closed) [
  | inl y ↦ simp y (λ h. absurd (cc h))
  | inr z ↦ simp z (elim (Option-cases (check b s.index.held s.index.epochs)) [
    | inl e ↦ rw e (λ h. (refl, commit-accepted s (entry_of b s.index) how h))
    | inr (r, e) ↦ rw e (λ h. absurd (cc h))
  ])
]

set-reaches :
    (s : Wal) (b : Batch) (how : Append) (k : ℕ) (v : Versioned)
    → Keyed b
    → lookup k b.writes ≡ some v
    → (set s b how).1 ≡ none
    → epoch_for b v ≤ floor k (set s b how).0.index.epochs
set-reaches s b how k v q e h =
    subst (λ i. epoch_for b v ≤ floor k i.epochs) (sym (set-accepted s b how h).1)
      (unfold apply entry_of in
        omega (
          arith,
          entry_writes-le b b.writes s.index s.index k v e (q.names k v e),
          apply_deletes-le (entry_of b s.index).deletes
              (apply_writes s.index (entry_writes b s.index b.writes)) k,
        ))

-- Once a Set that wrote a row under some epoch has succeeded, in a store with any clean history,
-- and whatever clean calls follow, deletion of the row, compaction and reopening included, no Set
-- that writes this row under a smaller epoch succeeds. A call is clean if its append, where it
-- fails, leaves no bytes in the file, and if after it no payload in the file is longer than 64 MiB.
pub set-run-fenced :
    (size : Entry → ℕ) (before after : List Op) (b stale : Batch) (k : ℕ) (v w : Versioned)
    (how : Append)
    → CleanRun (open_log size []) before
    → CleanRun (run (open_log size []) before) (sets b done ∷ after)
    → Keyed b
    → lookup k b.writes ≡ some v
    → lookup k stale.writes ≡ some w
    → epoch_for stale w < epoch_for b v
    → (set (run (open_log size []) before) b done).1 ≡ none
    → (set (run (set (run (open_log size []) before) b done).0 after) stale how).1 ≢ none
set-run-fenced size before after b stale k v w how c d q e f l h =
    let s = run (open_log size []) before in
    let sound = run-Sound (open_log size []) before c (open_log-Sound size) in
    let t = (set s b done).0 in
    let sound' : Sound t = unfold step in step-Sound s (sets b done) tt d.1 sound in
    let later : CleanRun t after = unfold step in d.2 in
    let u = run t after in
    let below : epoch_for stale w < floor k u.index.epochs =
      omega (arith, set-reaches s b done k v q e h, run-le t after k later sound') in
    λ r.
      check_writes-below stale u.index.held u.index.epochs stale.writes k w f below
        (unfold check in (or_later-none _ _ (set-accepted u stale how r).0).0)

commit-refused :
    (s : Wal) (e : Entry) (how : Append) (r : Refusal)
    → (commit s e how).1 ≡ some r
    → ((r ≡ not_compacted)
        × ((commit s e how).0.index ≡ (commit s e done).0.index)
        × ((commit s e done).1 ≡ none))
      ⊎ (((commit s e how).0.index ≡ s.index) × (r ≡ unknown))
unfolding commit compact
commit-refused s e done r h = absurd (cc h)
commit-refused s e unwritten r h = inr (refl, cc h)
commit-refused s e partly r h = inr (refl, cc h)
commit-refused s e unsynced r h = inr (refl, cc h)
commit-refused s e uncompacted r h = inl (cc h, refl, refl)
commit-refused s e swapped r h = inl (cc h, refl, refl)

-- A Set that returns an error either returns that of the compaction behind its write, and has then
-- changed the rows and floors as the same Set without this failure, which succeeds; or it changes
-- no row and no floor, and leaves the file as it was unless the error is that of its append.
pub set-refused :
    (s : Wal) (b : Batch) (how : Append) (r : Refusal)
    → (set s b how).1 ≡ some r
    → ((r ≡ not_compacted)
        × ((set s b how).0.index ≡ (set s b done).0.index)
        × ((set s b done).1 ≡ none))
      ⊎ (((set s b how).0.index ≡ s.index) × (((set s b how).0.log ≡ s.log) ⊎ (r ≡ unknown)))
unfolding set
set-refused s b how r = elim (Bool-cases s.closed) [
  | inl y ↦ simp y (λ h. inr (refl, inl refl))
  | inr z ↦ simp z (elim (Option-cases (check b s.index.held s.index.epochs)) [
    | inl e ↦ rw e (λ h. elim (commit-refused s (entry_of b s.index) how r h) [
      | inl (q, i, n) ↦ inl (q, i, n)
      | inr (i, q) ↦ inr (i, inr q)
    ])
    | inr (q, e) ↦ rw e (λ h. inr (refl, inl refl))
  ])
]
