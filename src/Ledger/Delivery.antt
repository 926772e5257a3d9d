-- ===== src/Ledger/Delivery.antt =====
-- What a source is told by the acknowledgements of internal/ledger/ledger.go over any run: the final
-- one comes last, and their counts add up.
use canal.Prelude.{
  ℕ, ◌≡◌, refl, sym, ◌∙◌, inl, inr, Bool, true, false, ◌||◌, Option, none, some, List, [], ◌∷◌,
  ◌++◌, arith, add64, All, Bool-cases,
}
use canal.Prelude.Assoc.{lookup}
use canal.Ledger.{LaneState, Ack}
use canal.Ledger.Acks.{AckInvariant, At, acks_of}
use canal.Ledger.Trace.{Op, holds_at, run, new_ledger}
use canal.Ledger.Admits.{HoldsIn, InScope}
use canal.Ledger.Keeps.{run-HoldsIn, new_ledger-HoldsIn}

-- No acknowledgement follows one that says the lane is finished.
abbrev pub FinalOnce : List Ack → Type 0
FinalOnce [] = Unit
FinalOnce (a ∷ rest) = (a.lane_finished ≡ true → rest ≡ []) × FinalOnce rest

abbrev has_finished : List Ack → Bool
has_finished [] = false
has_finished (a ∷ rest) = a.lane_finished || has_finished rest

FinalOnce-append :
    (acks : List Ack) (a : Ack)
    → has_finished acks ≡ false
    → FinalOnce acks
    → FinalOnce (acks ++ a ∷ []) × (has_finished (acks ++ a ∷ []) ≡ a.lane_finished)
FinalOnce-append [] a h f = ground arith
FinalOnce-append (b ∷ acks) a h f =
    let (rest, done) = FinalOnce-append acks a (ground arith) f.1 in ((λ e. cc, rest), ground arith)

unfinished :
    (acks : List Ack) (b : Bool)
    → b ≡ false
    → (has_finished acks ≡ true → b ≡ true)
    → has_finished acks ≡ false
unfinished acks b z h = elim (Bool-cases (has_finished acks)) [
  | inl y ↦ absurd (cc (h y))
  | inr n ↦ n
]

pub total_records : List Ack → ℕ
total_records [] = 0
total_records (a ∷ rest) = add64 a.records (total_records rest)

total_records-append :
    (acks : List Ack) (a : Ack) (n : ℕ)
    → n ≡ total_records acks
    → add64 n a.records ≡ total_records (acks ++ a ∷ [])
unfolding total_records
total_records-append [] a n h = omega arith
total_records-append (b ∷ acks) a n h =
    omega (arith, total_records-append acks a (total_records acks) refl)

unfoldable final_invariant : AckInvariant
final_invariant = record {
  at = λ id closed acks st. FinalOnce acks × (has_finished acks ≡ true → st.finish_acked ≡ true);
  absent = λ id. Unit;
  allows = λ id e. Unit;
  fresh = λ id closed ord budget w out. (tt, λ e. cc);
  quiet = λ id closed acks st st' q h. (h.0, λ e. q.finish_acked ∙ h.1 e);
  epoch = λ id closed acks st e ok h. h;
  emit = λ id acks st st' a m h.
      let f = FinalOnce-append acks a (unfinished acks st.finish_acked m.before h.1) h.0 in
      (f.0, λ e. m.after ∙ (sym f.1 ∙ e));
  drop = λ id acks st st' a m h.
      let z = unfinished acks st.finish_acked m.before h.1 in (h.0, λ e. cc);
  shut = λ id acks st h. h;
}

unfoldable count_invariant : AckInvariant
count_invariant = record {
  at = λ id closed acks st. closed ≡ false → st.records_committed ≡ total_records acks;
  absent = λ id. Unit;
  allows = λ id e. Unit;
  fresh = λ id closed ord budget w out. (λ e. unfold total_records in refl);
  quiet = λ id closed acks st st' q h. (λ e. q.records_committed ∙ h e);
  epoch = λ id closed acks st e ok h. h;
  emit = λ id acks st st' a m h.
      (λ e. m.records ∙ total_records-append acks a st.records_committed (h e));
  drop = λ id acks st st' a m h. (λ e. cc);
  shut = λ id acks st h. (λ e. cc);
}

-- Says nothing of the lanes: what is left is that an unregistered lane was sent nothing.
unfoldable pub silent_invariant : AckInvariant
silent_invariant = record {
  at = λ id closed acks st. Unit;
  absent = λ id. Unit;
  allows = λ id e. Unit;
  fresh = λ id closed ord budget w out. tt;
  quiet = λ id closed acks st st' q h. tt;
  epoch = λ id closed acks st e ok h. tt;
  emit = λ id acks st st' a m h. tt;
  drop = λ id acks st st' a m h. tt;
  shut = λ id acks st h. tt;
}

op-InScope : (i : AckInvariant) → ((id e : ℕ) → i.allows id e) → (o : Op) → InScope i o
op-InScope i ok (holds_at id e) = ok id e
op-InScope i ok _ = tt

pub any-InScope :
    (i : AckInvariant) → ((id e : ℕ) → i.allows id e) → (os : List Op) → All (InScope i) os
any-InScope i ok [] = tt
any-InScope i ok (o ∷ os) = (op-InScope i ok o, any-InScope i ok os)

pub any_run-HoldsIn :
    (i : AckInvariant)
    → ((id e : ℕ) → i.allows id e)
    → ((id : ℕ) → i.absent id)
    → (budget : ℕ) (os : List Op) → HoldsIn i (run (new_ledger budget) os)
any_run-HoldsIn i ok out budget os =
    run-HoldsIn i (new_ledger budget) os (any-InScope i ok os) (new_ledger-HoldsIn i budget out)

At-FinalOnce :
    (id : ℕ) (closed : Bool) (acks : List Ack) (o : Option LaneState)
    → At final_invariant id closed acks o
    → FinalOnce acks
unfolding final_invariant
At-FinalOnce id closed acks none h = rw h.1 tt
At-FinalOnce id closed acks (some st) h = h.0

-- Over any run of a new ledger, by any calls in any order, no acknowledgement of a lane is built
-- after the one that says the lane is finished.
pub acks_of-run-FinalOnce :
    (budget : ℕ) (os : List Op) (id : ℕ) → FinalOnce (acks_of id (run (new_ledger budget) os).acks)
acks_of-run-FinalOnce budget os id =
    let l = run (new_ledger budget) os in
    At-FinalOnce id l.closed (acks_of id l.acks) (lookup id l.lanes) (
      (any_run-HoldsIn final_invariant (unfold final_invariant in (λ j e. tt))
          (unfold final_invariant in (λ j. tt)) budget os).lane
        id)

-- Over any run of a new ledger that has not closed it, the number of committed records that a
-- registered lane reports is the sum, modulo 2^64, of the record counts of the acknowledgements
-- built for it.
pub records_committed-acks_of :
    (budget : ℕ) (os : List Op) (id : ℕ) (st : LaneState)
    → (run (new_ledger budget) os).closed ≡ false
    → lookup id (run (new_ledger budget) os).lanes ≡ some st
    → st.records_committed ≡ total_records (acks_of id (run (new_ledger budget) os).acks)
records_committed-acks_of budget os id st live e =
    let h =
      (any_run-HoldsIn count_invariant (unfold count_invariant in (λ j e. tt))
          (unfold count_invariant in (λ j. tt)) budget os).lane
        id in
    unfold count_invariant in (rw e at h) live
