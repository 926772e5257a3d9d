-- ===== src/Ledger/Flush.antt =====
-- Flushable of internal/ledger/ledger.go: which positions are handed out to be made durable.
use canal.Prelude.{
  ℕ, ◌≡◌, refl, subst, inl, inr, true, false, Option, none, some, List, [], ◌∷◌, arith, All,
  All-weaken, Bool-cases, Option-cases,
}
use canal.Prelude.Assoc.{lookup, lookup-head, lookup-skip, Distinct}
use canal.Ledger.{Position, LaneState, Ledger, fenced}
use canal.Ledger.Commit.{is_behind, flush_lane, flush_lanes, flushable}
use canal.Ledger.Acks.{AckInvariant, SafeOption}
use canal.Ledger.Trace.{Op, run, new_ledger}
use canal.Ledger.Admits.{HoldsIn}
use canal.Ledger.Delivery.{any_run-HoldsIn}

unfoldable flush_invariant : AckInvariant
flush_invariant = record {
  at = λ id closed acks st. SafeOption st.pending_flush;
  absent = λ id. Unit;
  allows = λ id e. Unit;
  fresh = λ id closed ord budget w out. tt;
  quiet = λ id closed acks st st' q h. q.flush h;
  epoch = λ id closed acks st e ok h. h;
  emit = λ id acks st st' a m h. m.flush h;
  drop = λ id acks st st' a m h. m.flush h;
  shut = λ id acks st h. h;
}

-- Why `p` may be handed out for lane `id`.
pub record MayFlush (lanes : List (ℕ × LaneState)) (id : ℕ) (p : Position) : Type 0 where
  pub st : LaneState
  pub registered : lookup id lanes ≡ some st
  pub live : fenced st ≡ false
  pub ahead : is_behind p st.committed ≡ false
  pub safe : p.safe ≡ true

abbrev pub AllMayFlush : List (ℕ × LaneState) → List (ℕ × Position) → Type 0
AllMayFlush lanes = All (λ e. MayFlush lanes e.0 e.1)

flush_lane-MayFlush :
    (id : ℕ) (st : LaneState) (m : List (ℕ × LaneState)) (p : Position)
    → SafeOption st.pending_flush
    → (flush_lane st).1 ≡ some p
    → MayFlush ((id, st) ∷ m) id p
unfolding flush_lane
flush_lane-MayFlush id st m p s e = elim (Option-cases st.pending_flush) [
  | inl n ↦ absurd (cc (rw (n, flush_lane) at e))
  | inr (q, n) ↦ elim (Bool-cases (fenced st)) [
    | inl f ↦ absurd (cc (rw (n, flush_lane, f) at e))
    | inr f ↦ elim (Bool-cases (is_behind q st.committed)) [
      | inl b ↦ absurd (cc (rw (n, flush_lane, f, b) at e))
      | inr b ↦
          let same : q ≡ p = cc (rw (n, flush_lane, f, b) at e) in
          record {
            st = st;
            registered = lookup-head id st m;
            live = f;
            ahead = subst (λ r. is_behind r st.committed ≡ false) same b;
            safe = subst (λ r. r.safe ≡ true) same (subst SafeOption n s);
          }
    ]
  ]
]

MayFlush-tail :
    (id j : ℕ) (st : LaneState) (m : List (ℕ × LaneState)) (p : Position)
    → lookup j m ≡ none
    → MayFlush m id p
    → MayFlush ((j, st) ∷ m) id p
MayFlush-tail id j st m p out h = record {
  st = h.st;
  registered = lookup-skip id j h.st st m out h.registered;
  live = h.live;
  ahead = h.ahead;
  safe = h.safe;
}

-- The positions that a sweep of the lanes returns, seen by their first lane.
flush-entry :
    (lanes : List (ℕ × LaneState)) (id : ℕ) (r : Option Position) (out : List (ℕ × Position))
    → ((p : Position) → r ≡ some p → MayFlush lanes id p)
    → AllMayFlush lanes out
    → AllMayFlush lanes (elim r [ none ↦ out | some p ↦ (id, p) ∷ out ])
flush-entry lanes id none out f h = h
flush-entry lanes id (some p) out f h = (f p refl, h)

flush_lanes-AllMayFlush :
    (m : List (ℕ × LaneState))
    → Distinct m
    → All (λ e. SafeOption e.1.pending_flush) m
    → AllMayFlush m (flush_lanes m).1
unfolding flush_lanes
flush_lanes-AllMayFlush [] d s = tt
flush_lanes-AllMayFlush ((id, st) ∷ m) d s =
    flush-entry ((id, st) ∷ m) id (flush_lane st).1 (flush_lanes m).1
      (λ p e. flush_lane-MayFlush id st m p s.0 e)
      (All-weaken (λ e. MayFlush m e.0 e.1) (λ e. MayFlush ((id, st) ∷ m) e.0 e.1)
        (λ e h. MayFlush-tail e.0 id st m e.1 d.0 h) (flush_lanes m).1
        (flush_lanes-AllMayFlush m d.1 s.1))

At-Safe :
    (lanes : List (ℕ × LaneState))
    → Distinct lanes
    → ((id : ℕ) (st : LaneState) → lookup id lanes ≡ some st → SafeOption st.pending_flush)
    → All (λ e. SafeOption e.1.pending_flush) lanes
At-Safe [] d h = tt
At-Safe ((id, st) ∷ m) d h =
    (h id st (lookup-head id st m), At-Safe m d.1 (λ j s e. h j s (lookup-skip j id s st m d.0 e)))

-- In every reachable ledger, each position that Flushable returns is marked safe, belongs to a
-- registered lane that is not fenced, and is neither equal to nor before the lane's committed
-- position, in the order of positions or by sequence number.
pub flushable-AllMayFlush :
    (budget : ℕ) (os : List Op)
    → let l = run (new_ledger budget) os in AllMayFlush l.lanes (flushable l).1
unfolding flushable
flushable-AllMayFlush budget os =
    let l = run (new_ledger budget) os in
    let h : HoldsIn flush_invariant l =
      any_run-HoldsIn flush_invariant (unfold flush_invariant in (λ j e. tt))
        (unfold flush_invariant in (λ j. tt)) budget os in
    flush_lanes-AllMayFlush l.lanes h.keys
      (At-Safe l.lanes h.keys (λ id st e. unfold flush_invariant in (rw e at (h.lane id))))

flush_lane-twice : (st : LaneState) → (flush_lane (flush_lane st).0).1 ≡ none
unfolding flush_lane
flush_lane-twice st = ground arith

flush-nothing :
    (id : ℕ) (r : Option Position) (out : List (ℕ × Position))
    → r ≡ none
    → out ≡ []
    → elim r [ none ↦ out | some p ↦ (id, p) ∷ out ] ≡ []
flush-nothing id none out n h = h
flush-nothing id (some p) out n h = absurd (cc n)

flush_lanes-twice : (m : List (ℕ × LaneState)) → (flush_lanes (flush_lanes m).0).1 ≡ []
unfolding flush_lanes
flush_lanes-twice [] = refl
flush_lanes-twice ((id, st) ∷ m) =
    flush-nothing id (flush_lane (flush_lane st).0).1 (flush_lanes (flush_lanes m).0).1
      (flush_lane-twice st) (flush_lanes-twice m)

-- A second Flushable with no call between returns nothing: each position is handed out once.
flushable-twice : (l : Ledger) → (flushable (flushable l).0).1 ≡ []
unfolding flushable
flushable-twice l = flush_lanes-twice l.lanes
