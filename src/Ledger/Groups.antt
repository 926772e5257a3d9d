-- ===== src/Ledger/Groups.antt =====
-- The groups of internal/ledger/ledger.go that are open on a lane, counted as Stats counts them, and
-- the lane's own count of them.
use canal.Prelude.{
  ℕ, ◌+◌, ◌≡◌, refl, sym, ap, subst, ◌∙◌, inl, inr, Option, none, some, List, [], ◌∷◌, arith, ◌==◌,
  if◌then◌else◌, Bool-cases,
}
use canal.Prelude.Assoc.{lookup, insert, remove, lookup-insert, remove-absent, Distinct}
use canal.Ledger.{Group, LaneState}
use canal.Ledger.Settlement.{emit_lane, emit_lanes}
use canal.Ledger.Commit.{
  open_groups, flush_lane, flush_lanes, retire_lanes, is_retirable, close_trackers,
}

pub open_groups-insert_new :
    (j gid : ℕ) (g : Group) (gs : List (ℕ × Group))
    → lookup gid gs ≡ none
    → open_groups j (insert gid g gs)
      ≡ (if g.lane == j then open_groups j gs + 1 else open_groups j gs)
unfolding open_groups insert lookup
open_groups-insert_new j gid g [] e = refl
open_groups-insert_new j gid g ((i, h) ∷ gs) e = elim (Bool-cases (i == gid)) [
  | inl y ↦ absurd (cc (rw y at e))
  | inr z ↦ rw z (ground (arith, open_groups-insert_new j gid g gs (rw z at e)))
]

pub open_groups-insert_same :
    (j gid : ℕ) (g h : Group) (gs : List (ℕ × Group))
    → lookup gid gs ≡ some g
    → h.lane ≡ g.lane
    → open_groups j (insert gid h gs) ≡ open_groups j gs
unfolding open_groups insert lookup
open_groups-insert_same j gid g h [] e q = absurd (cc e)
open_groups-insert_same j gid g h ((i, k) ∷ gs) e q = elim (Bool-cases (i == gid)) [
  | inl y ↦
      let same : k ≡ g = cc (rw y at e) in
      let lane : h.lane ≡ k.lane = q ∙ ap (λ x. x.lane) (sym same) in rw (y, lane) refl
  | inr z ↦ rw z (ground (arith, open_groups-insert_same j gid g h gs (rw z at e) q))
]

pub open_groups-remove :
    (j gid : ℕ) (g : Group) (gs : List (ℕ × Group))
    → Distinct gs
    → lookup gid gs ≡ some g
    → open_groups j gs
      ≡ (if g.lane == j then open_groups j (remove gid gs) + 1 else open_groups j (remove gid gs))
unfolding open_groups remove lookup
open_groups-remove j gid g [] d e = absurd (cc e)
open_groups-remove j gid g ((i, k) ∷ gs) d e = elim (Bool-cases (i == gid)) [
  | inl y ↦
      let same : k ≡ g = cc (rw y at e) in
      let q : i ≡ gid = ground arith in
      let gone : remove gid gs ≡ gs =
        remove-absent gid gs (subst (λ x. lookup x gs ≡ none) q d.0) in
      rw (y, gone, ap (λ x. x.lane) same) refl
  | inr z ↦ rw z (ground (arith, open_groups-remove j gid g gs d.1 (rw z at e)))
]

abbrev pub pending_of : Option LaneState → ℕ
pending_of none = 0
pending_of (some st) = st.pending

-- The count of every lane is that of its open groups; a lane that is not registered has none.
pub record Counted (lanes : List (ℕ × LaneState)) (groups : List (ℕ × Group)) : Type 0 where
  pub count : (j : ℕ) → pending_of (lookup j lanes) ≡ open_groups j groups
  pub once : Distinct groups

pub Counted-set :
    (lanes : List (ℕ × LaneState)) (groups : List (ℕ × Group)) (id : ℕ) (st : LaneState)
    → st.pending ≡ pending_of (lookup id lanes)
    → Counted lanes groups
    → Counted (insert id st lanes) groups
Counted-set lanes groups id st p h = record {
  count = λ j. rw (lookup-insert id j st lanes) (elim (Bool-cases (id == j)) [
    | inl y ↦
        let e : id ≡ j = ground arith in
        rw y (p ∙ ap (λ k. pending_of (lookup k lanes)) e ∙ h.count j)
    | inr z ↦ rw z (h.count j)
  ]);
  once = h.once;
}

pub Counted-lanes :
    (lanes lanes' : List (ℕ × LaneState)) (groups : List (ℕ × Group))
    → ((j : ℕ) → pending_of (lookup j lanes') ≡ pending_of (lookup j lanes))
    → Counted lanes groups
    → Counted lanes' groups
Counted-lanes lanes lanes' groups f h = record { count = λ j. f j ∙ h.count j; once = h.once }

emit_lane-pending : (id : ℕ) (st : LaneState) → (emit_lane id st).0.pending ≡ st.pending
unfolding emit_lane
emit_lane-pending id st = ground arith

flush_lane-pending : (st : LaneState) → (flush_lane st).0.pending ≡ st.pending
unfolding flush_lane
flush_lane-pending st = ground arith

pub emit_lanes-pending :
    (j : ℕ) (lanes : List (ℕ × LaneState))
    → pending_of (lookup j (emit_lanes lanes).0) ≡ pending_of (lookup j lanes)
unfolding emit_lanes lookup
emit_lanes-pending j [] = refl
emit_lanes-pending j ((id, st) ∷ lanes) = elim (Bool-cases (id == j)) [
  | inl y ↦ rw y (emit_lane-pending id st)
  | inr z ↦ rw z (emit_lanes-pending j lanes)
]

pub flush_lanes-pending :
    (j : ℕ) (lanes : List (ℕ × LaneState))
    → pending_of (lookup j (flush_lanes lanes).0) ≡ pending_of (lookup j lanes)
unfolding flush_lanes lookup
flush_lanes-pending j [] = refl
flush_lanes-pending j ((id, st) ∷ lanes) = elim (Bool-cases (id == j)) [
  | inl y ↦ rw y (flush_lane-pending st)
  | inr z ↦ rw z (flush_lanes-pending j lanes)
]

pub retire_lanes-pending :
    (j : ℕ) (lanes : List (ℕ × LaneState))
    → pending_of (lookup j (retire_lanes lanes).0) ≡ pending_of (lookup j lanes)
unfolding retire_lanes lookup
retire_lanes-pending j [] = refl
retire_lanes-pending j ((id, st) ∷ lanes) = elim (Bool-cases (is_retirable st)) [
  | inl r ↦ rw r (ground (arith, retire_lanes-pending j lanes))
  | inr r ↦ rw r (ground (arith, retire_lanes-pending j lanes))
]

pub close_trackers-pending :
    (j : ℕ) (lanes : List (ℕ × LaneState))
    → pending_of (lookup j (close_trackers lanes)) ≡ pending_of (lookup j lanes)
unfolding lookup
close_trackers-pending j [] = refl
close_trackers-pending j ((id, st) ∷ lanes) = ground (arith, close_trackers-pending j lanes)
