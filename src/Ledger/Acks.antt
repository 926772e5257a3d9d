-- ===== src/Ledger/Acks.antt =====
-- Invariants of one lane and of the acknowledgements sent for it: an interface of the laws that such
-- an invariant must satisfy, and the theorem that it then holds after any run of a ledger.
use mathlib.Core.List.{append-nil}
use canal.Prelude.{
  ℕ, ◌≡◌, ◌≢◌, ◌≤◌, refl, subst, inl, inr, Bool, true, false, Option, none, some, List, [], ◌∷◌,
  ◌++◌, arith, ◌==◌, if◌then◌else◌, add64, Bool-cases,
}
use canal.Prelude.Assoc.{lookup, insert, lookup-insert, Distinct, Distinct-insert}
use canal.Ledger.{Position, Ordering, WhenFull, LaneState, Ack, fenced}
use canal.Ledger.Registration.{new_lane}
use canal.Ledger.Settlement.{sent}

abbrev pub acks_of : ℕ → List Ack → List Ack
acks_of id [] = []
acks_of id (a ∷ later) = let r = acks_of id later in if a.lane == id then a ∷ r else r

-- The position that waits to be flushed, if any, is a safe one.
abbrev pub SafeOption : Option Position → Type 0
SafeOption none = Unit
SafeOption (some p) = p.safe ≡ true

-- A change of a lane that sends nothing: no acknowledgement counter moves, and no fence is lifted.
pub record Quiet (st st' : LaneState) : Type 0 where
  pub finish_acked : st'.finish_acked ≡ st.finish_acked
  pub records_committed : st'.records_committed ≡ st.records_committed
  pub fence : fenced st ≡ true → fenced st' ≡ true
  pub flush : SafeOption st.pending_flush → SafeOption st'.pending_flush
  pub mark : st.fenced_through ≤ st'.fenced_through

-- A change of a lane that sends one acknowledgement.
pub record Emits (id : ℕ) (st st' : LaneState) (a : Ack) : Type 0 where
  pub lane : a.lane ≡ id
  pub before : st.finish_acked ≡ false
  pub after : st'.finish_acked ≡ a.lane_finished
  pub open_lane : fenced st ≡ false
  pub epoch : a.epoch ≡ st.epoch
  pub fence : st'.fenced_through ≡ st.fenced_through
  pub flush : SafeOption st.pending_flush → SafeOption st'.pending_flush
  pub held : st'.epoch ≡ st.epoch
  pub records : st'.records_committed ≡ add64 st.records_committed a.records

-- `at id closed acks st`: what holds of lane `id` in state `st` after the acknowledgements `acks`.
pub record AckInvariant : Type 1 where
  pub at : ℕ → Bool → List Ack → LaneState → Type 0
  pub absent : ℕ → Type 0
  pub allows : ℕ → ℕ → Type 0
  pub fresh :
      (id : ℕ) (closed : Bool) (ord : Ordering) (budget : ℕ) (w : WhenFull)
      → absent id
      → at id closed [] (new_lane ord budget w)
  pub quiet :
      (id : ℕ) (closed : Bool) (acks : List Ack) (st st' : LaneState)
      → Quiet st st'
      → at id closed acks st
      → at id closed acks st'
  pub epoch :
      (id : ℕ) (closed : Bool) (acks : List Ack) (st : LaneState) (e : ℕ)
      → allows id e
      → at id closed acks st
      → at id closed acks (record st { epoch = e })
  pub emit :
      (id : ℕ) (acks : List Ack) (st st' : LaneState) (a : Ack)
      → Emits id st st' a
      → at id false acks st
      → at id false (acks ++ a ∷ []) st'
  pub drop :
      (id : ℕ) (acks : List Ack) (st st' : LaneState) (a : Ack)
      → Emits id st st' a
      → at id true acks st
      → at id true acks st'
  pub shut : (id : ℕ) (acks : List Ack) (st : LaneState) → at id false acks st → at id true acks st

pub acks_of-append :
    (id : ℕ) (xs ys : List Ack) → acks_of id (xs ++ ys) ≡ acks_of id xs ++ acks_of id ys
acks_of-append id [] ys = refl
acks_of-append id (a ∷ xs) ys = ground (arith, acks_of-append id xs ys)

acks_of-single : (id : ℕ) (a : Ack) → a.lane ≡ id → acks_of id (a ∷ []) ≡ a ∷ []
acks_of-single id a e = ground arith

acks_of-other :
    (closed : Bool) (acks : List Ack) (id : ℕ) (a : Ack)
    → a.lane ≡ id
    → (j : ℕ) → id ≢ j
    → acks_of j (sent closed acks (a ∷ [])) ≡ acks_of j acks
acks_of-other true acks id a e j n = refl
acks_of-other false acks id a e j n =
    rw (acks_of-append j acks (a ∷ [])) (ground (arith, append-nil (acks_of j acks)))

module _ (i : AckInvariant) where
  abbrev pub At : ℕ → Bool → List Ack → Option LaneState → Type 0
  At id closed acks none = i.absent id × (acks ≡ [])
  At id closed acks (some st) = i.at id closed acks st

  pub record Holds (closed : Bool) (acks : List Ack) (lanes : List (ℕ × LaneState)) : Type 0 where
    pub lane : (id : ℕ) → At id closed (acks_of id acks) (lookup id lanes)
    pub keys : Distinct lanes

  Holds-insert :
      (closed : Bool) (acks acks' : List Ack) (lanes : List (ℕ × LaneState)) (id : ℕ)
      (st : LaneState)
      → ((j : ℕ) → id ≢ j → acks_of j acks' ≡ acks_of j acks)
      → i.at id closed (acks_of id acks') st
      → Holds closed acks lanes
      → Holds closed acks' (insert id st lanes)
  Holds-insert closed acks acks' lanes id st same new h = record {
    lane = λ j. rw (lookup-insert id j st lanes) (elim (Bool-cases (id == j)) [
      | inl y ↦
          let e : id ≡ j = ground arith in
          rw y (subst (λ k. i.at k closed (acks_of k acks') st) e new)
      | inr z ↦ rw (z, same j (ground arith)) (h.lane j)
    ]);
    keys = Distinct-insert id st lanes h.keys;
  }

  pub Holds-Quiet :
      (closed : Bool) (acks : List Ack) (lanes : List (ℕ × LaneState)) (id : ℕ) (st st' : LaneState)
      → lookup id lanes ≡ some st
      → Quiet st st'
      → Holds closed acks lanes
      → Holds closed acks (insert id st' lanes)
  Holds-Quiet closed acks lanes id st st' e q h =
      Holds-insert closed acks acks lanes id st' (λ j n. refl)
        (i.quiet id closed (acks_of id acks) st st' q (rw e at (h.lane id))) h

  pub Holds-epoch :
      (closed : Bool) (acks : List Ack) (lanes : List (ℕ × LaneState)) (id : ℕ) (st : LaneState)
      (e : ℕ)
      → lookup id lanes ≡ some st
      → i.allows id e
      → Holds closed acks lanes
      → Holds closed acks (insert id (record st { epoch = e }) lanes)
  Holds-epoch closed acks lanes id st e q ok h =
      Holds-insert closed acks acks lanes id (record st { epoch = e }) (λ j n. refl)
        (i.epoch id closed (acks_of id acks) st e ok (rw q at (h.lane id))) h

  pub Holds-fresh :
      (closed : Bool) (acks : List Ack) (lanes : List (ℕ × LaneState)) (id : ℕ) (ord : Ordering)
      (budget : ℕ) (w : WhenFull)
      → lookup id lanes ≡ none
      → Holds closed acks lanes
      → Holds closed acks (insert id (new_lane ord budget w) lanes)
  Holds-fresh closed acks lanes id ord budget w e h =
      let (out, none_sent) : At id closed (acks_of id acks) none = rw e at (h.lane id) in
      Holds-insert closed acks acks lanes id (new_lane ord budget w) (λ j n. refl)
        (rw none_sent (i.fresh id closed ord budget w out)) h

  at-emit :
      (closed : Bool) (acks : List Ack) (id : ℕ) (st st' : LaneState) (a : Ack)
      → Emits id st st' a
      → i.at id closed (acks_of id acks) st
      → i.at id closed (acks_of id (sent closed acks (a ∷ []))) st'
  at-emit true acks id st st' a m h = i.drop id (acks_of id acks) st st' a m h
  at-emit false acks id st st' a m h =
      rw (acks_of-append id acks (a ∷ []), acks_of-single id a m.lane)
        (i.emit id (acks_of id acks) st st' a m h)

  pub Holds-emit :
      (closed : Bool) (acks : List Ack) (lanes : List (ℕ × LaneState)) (id : ℕ) (st st' : LaneState)
      (a : Ack)
      → lookup id lanes ≡ some st
      → Emits id st st' a
      → Holds closed acks lanes
      → Holds closed (sent closed acks (a ∷ [])) (insert id st' lanes)
  Holds-emit closed acks lanes id st st' a e m h =
      Holds-insert closed acks _ lanes id st' (acks_of-other closed acks id a m.lane)
        (at-emit closed acks id st st' a m (rw e at (h.lane id))) h
