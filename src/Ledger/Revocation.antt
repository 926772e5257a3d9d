-- ===== src/Ledger/Revocation.antt =====
-- Revoke of internal/ledger/ledger.go: what a lane that was revoked is still told, and may still do.
use canal.Prelude.{
  ℕ, ◌≡◌, ◌≢◌, refl, sym, subst, ap, inl, inr, Bool, true, false, Option, none, some, List, [], ◌∷◌,
  arith, All, Bool-cases, Option-cases, ◌==◌,
}
use canal.Prelude.Assoc.{lookup, lookup-insert, Distinct, Distinct-insert}
use canal.Ledger.{Position, Batch, LaneState, Ack, Ledger, fenced}
use canal.Ledger.Registration.{is_fenced}
use canal.Ledger.Admission.{admit_begin, refused}
use canal.Ledger.Commit.{flush_lane, flush_lanes, flushable, revoke, revoke_lane, fence_mark}
use canal.Ledger.Acks.{AckInvariant, At, acks_of}
use canal.Ledger.Trace.{Op, holds_at, run, new_ledger}
use canal.Ledger.Admits.{HoldsIn, InScope}
use canal.Ledger.Keeps.{run-HoldsIn}
use canal.Ledger.Delivery.{silent_invariant, any_run-HoldsIn}

-- Lane `x` is fenced, and has been sent `told` and no more.
unfoldable fence_invariant : ℕ → List Ack → AckInvariant
fence_invariant x told = record {
  at = λ id closed acks st. id ≡ x → (acks ≡ told) × (fenced st ≡ true);
  absent = λ id. id ≢ x;
  allows = λ id e. id ≢ x;
  fresh = λ id closed ord budget w out. (λ e. absurd (out e));
  quiet = λ id closed acks st st' q h. (λ e. ((h e).0, q.fence (h e).1));
  epoch = λ id closed acks st e ok h. (λ q. absurd (ok q));
  emit = λ id acks st st' a m h. (λ e. absurd (cc (m.open_lane, (h e).1)));
  drop = λ id acks st st' a m h. (λ e. absurd (cc (m.open_lane, (h e).1)));
  shut = λ id acks st h. h;
}

revoke_lane-fenced : (st : LaneState) → fenced (revoke_lane st) ≡ true
unfolding revoke_lane fence_mark fenced
revoke_lane-fenced st = ground arith

flush_lane-fenced : (st : LaneState) → fenced st ≡ true → (flush_lane st).1 ≡ none
unfolding flush_lane
flush_lane-fenced st f = elim (Option-cases st.pending_flush) [
  | inl e ↦ rw (e, flush_lane) refl
  | inr (p, e) ↦ rw (e, flush_lane, f) refl
]

lookup-no_entry :
    (x id : ℕ) (r : Option Position) (out : List (ℕ × Position))
    → r ≡ none
    → lookup x out ≡ none
    → lookup x (elim r [ none ↦ out | some p ↦ (id, p) ∷ out ]) ≡ none
lookup-no_entry x id none out n h = h
lookup-no_entry x id (some p) out n h = absurd (cc n)

lookup-entry :
    (x id : ℕ) (r : Option Position) (out : List (ℕ × Position))
    → (id == x) ≡ false
    → lookup x out ≡ none
    → lookup x (elim r [ none ↦ out | some p ↦ (id, p) ∷ out ]) ≡ none
unfolding lookup
lookup-entry x id none out n h = h
lookup-entry x id (some p) out n h = rw n h

lookup-flush_lanes-none :
    (x : ℕ) (m : List (ℕ × LaneState)) → lookup x m ≡ none → lookup x (flush_lanes m).1 ≡ none
unfolding flush_lanes lookup
lookup-flush_lanes-none x [] h = refl
lookup-flush_lanes-none x ((id, st) ∷ m) h = elim (Bool-cases (id == x)) [
  | inl y ↦ absurd (cc (rw y at h))
  | inr n ↦
      lookup-entry x id (flush_lane st).1 (flush_lanes m).1 n
        (lookup-flush_lanes-none x m (rw n at h))
]

lookup-flush_lanes :
    (x : ℕ) (m : List (ℕ × LaneState)) (st : LaneState)
    → Distinct m
    → lookup x m ≡ some st
    → fenced st ≡ true
    → lookup x (flush_lanes m).1 ≡ none
unfolding flush_lanes lookup
lookup-flush_lanes x [] st d e f = absurd (cc e)
lookup-flush_lanes x ((id, st') ∷ m) st d e f = elim (Bool-cases (id == x)) [
  | inl y ↦
      let same : st' ≡ st = cc (rw y at e) in
      let q : id ≡ x = ground arith in
      lookup-no_entry x id (flush_lane st').1 (flush_lanes m).1
        (flush_lane-fenced st' (subst (λ s. fenced s ≡ true) (sym same) f))
        (lookup-flush_lanes-none x m (subst (λ k. lookup k m ≡ none) q d.0))
  | inr n ↦
      lookup-entry x id (flush_lane st').1 (flush_lanes m).1 n
        (lookup-flush_lanes x m st d.1 (rw n at e) f)
]

-- What a revoked lane is told, and may still do.
pub record Silent (x : ℕ) (l : Ledger) (told : List Ack) : Type 0 where
  pub hears : acks_of x l.acks ≡ told
  pub refuses : (b : Batch) (now : ℕ) → b.lane ≡ x → admit_begin l b now ≡ refused is_fenced
  pub flushes : lookup x (flushable l).1 ≡ none

At-revoked :
    (x j : ℕ) (closed : Bool) (acks : List Ack) (o : Option LaneState)
    → j ≢ x
    → At silent_invariant j closed (acks_of j acks) o
    → At (fence_invariant x (acks_of x acks)) j closed (acks_of j acks) o
unfolding fence_invariant
At-revoked x j closed acks none n h = (n, h.1)
At-revoked x j closed acks (some st) n h = λ e. absurd (n e)

revoke-HoldsIn :
    (x : ℕ) (l : Ledger) (st : LaneState)
    → lookup x l.lanes ≡ some st
    → HoldsIn silent_invariant l
    → HoldsIn (fence_invariant x (acks_of x l.acks)) (revoke l x).0
unfolding revoke fence_invariant
revoke-HoldsIn x l st e h =
    rw (e, revoke)
      (record {
        lane = λ j. rw (lookup-insert x j (revoke_lane st) l.lanes) (elim (Bool-cases (x == j)) [
          | inl y ↦ rw y (λ q. (ap (λ k. acks_of k l.acks) q, revoke_lane-fenced st))
          | inr z ↦
              rw z (At-revoked x j l.closed l.acks (lookup j l.lanes) (ground arith) (h.lane j))
        ]);
        keys = Distinct-insert x (revoke_lane st) l.lanes h.keys;
      })

admit_begin-fenced :
    (l : Ledger) (b : Batch) (now : ℕ) (st : LaneState)
    → lookup b.lane l.lanes ≡ some st
    → fenced st ≡ true
    → admit_begin l b now ≡ refused is_fenced
unfolding admit_begin
admit_begin-fenced l b now st e f = rw (e, admit_begin, f) refl

-- No lane of an invariant of this kind is forgotten.
lane_of :
    (x : ℕ) (told : List Ack) (l : Ledger)
    → HoldsIn (fence_invariant x told) l
    → (st : LaneState) × (lookup x l.lanes ≡ some st)
      × (acks_of x l.acks ≡ told)
      × (fenced st ≡ true)
unfolding fence_invariant
lane_of x told l h = elim (Option-cases (lookup x l.lanes)) [
  | inl e ↦ absurd ((rw e at (h.lane x)).0 refl)
  | inr (st, e) ↦
      let w : (acks_of x l.acks ≡ told) × (fenced st ≡ true) = (rw e at (h.lane x)) refl in
      (st, e, w.0, w.1)
]

fence-Silent :
    (x : ℕ) (told : List Ack) (l : Ledger) → HoldsIn (fence_invariant x told) l → Silent x l told
unfolding flushable
fence-Silent x told l h =
    let (st, e, same, f) = lane_of x told l h in
    record {
      hears = same;
      refuses = λ b now q.
          admit_begin-fenced l b now st (subst (λ k. lookup k l.lanes ≡ some st) (sym q) e) f;
      flushes = lookup-flush_lanes x l.lanes st h.keys e f;
    }

abbrev pub NotSetEpoch : ℕ → Op → Type 0
NotSetEpoch x (holds_at id e) = id ≢ x
NotSetEpoch x _ = Unit

one_scope :
    (x : ℕ) (told : List Ack) (o : Op) → NotSetEpoch x o → InScope (fence_invariant x told) o
unfolding fence_invariant
one_scope x told (holds_at id e) h = h
one_scope x told _ h = tt

scope :
    (x : ℕ) (told : List Ack) (os : List Op)
    → All (NotSetEpoch x) os
    → All (InScope (fence_invariant x told)) os
scope x told [] h = tt
scope x told (o ∷ os) h = (one_scope x told o h.0, scope x told os h.1)

-- After Revoke of a registered lane in any reachable ledger, and any later calls none of which is a
-- SetEpoch of that lane, no further acknowledgement has been built for the lane, every admission to
-- it is refused as fenced, and Flushable returns no position for it.
pub revoke-Silent :
    (budget : ℕ) (before after : List Op) (x : ℕ) (st : LaneState)
    → lookup x (run (new_ledger budget) before).lanes ≡ some st
    → All (NotSetEpoch x) after
    → Silent x
        (run (revoke (run (new_ledger budget) before) x).0 after)
        (acks_of x (run (new_ledger budget) before).acks)
revoke-Silent budget before after x st e k =
    let l = run (new_ledger budget) before in
    let told = acks_of x l.acks in
    let h : HoldsIn silent_invariant l =
      any_run-HoldsIn silent_invariant (unfold silent_invariant in (λ j e. tt))
        (unfold silent_invariant in (λ j. tt)) budget before in
    fence-Silent x told (run (revoke l x).0 after) (
      run-HoldsIn (fence_invariant x told) (revoke l x).0 after (scope x told after k)
        (revoke-HoldsIn x l st e h))
