-- ===== src/Ledger/Reclaim.antt =====
-- Revoke and SetEpoch of internal/ledger/ledger.go together: what a lane is told after it was revoked
-- and perhaps claimed again.
use mathlib.Core.List.{append-nil, append_assoc}
use canal.Prelude.{
  ℕ, ◌<◌, ◌≤◌, ◌≡◌, ◌≢◌, refl, sym, ap, ◌∙◌, inl, inr, Bool, Option, none, some, List, [], ◌∷◌,
  ◌++◌, arith, All, All-append, All-weaken, Bool-cases, Option-cases, ◌==◌,
}
use canal.Prelude.Assoc.{lookup, lookup-insert, Distinct-insert}
use canal.Ledger.{LaneState, Ack, Ledger, fenced}
use canal.Ledger.Commit.{revoke, revoke_lane, fence_mark}
use canal.Ledger.Acks.{AckInvariant, At, Emits, acks_of}
use canal.Ledger.Trace.{Op, run, new_ledger}
use canal.Ledger.Admits.{HoldsIn}
use canal.Ledger.Keeps.{run-HoldsIn}
use canal.Ledger.Delivery.{silent_invariant, any_run-HoldsIn, any-InScope}

-- The acknowledgements are `told`, then only such as were stamped with an epoch above `w`.
pub record OnlyNewer (told : List Ack) (w : ℕ) (acks : List Ack) : Type 0 where
  pub later : List Ack
  pub splits : acks ≡ told ++ later
  pub newer : All (λ a. w < a.epoch) later

OnlyNewer-append :
    (told : List Ack) (w : ℕ) (acks : List Ack) (a : Ack)
    → w < a.epoch
    → OnlyNewer told w acks
    → OnlyNewer told w (acks ++ a ∷ [])
OnlyNewer-append told w acks a n o = record {
  later = o.later ++ a ∷ [];
  splits = ap (λ k. k ++ a ∷ []) o.splits ∙ append_assoc told o.later (a ∷ []);
  newer = All-append (λ a. w < a.epoch) o.later (a ∷ []) o.newer (n, tt);
}

Emits-newer :
    (id w : ℕ) (st st' : LaneState) (a : Ack)
    → Emits id st st' a
    → 0 < w
    → w ≤ st.fenced_through
    → (w < a.epoch) × (w ≤ st'.fenced_through)
unfolding fenced
Emits-newer id w st st' a m p q = ground (arith, m.open_lane, m.epoch, m.fence)

-- The watermark of lane `x` is at least `w`, and since then it was sent only what is newer.
unfoldable newer_invariant : ℕ → ℕ → List Ack → AckInvariant
newer_invariant x w told = record {
  at = λ id closed acks st. id ≡ x → (0 < w) × (w ≤ st.fenced_through) × OnlyNewer told w acks;
  absent = λ id. id ≢ x;
  allows = λ id e. Unit;
  fresh = λ id closed ord budget v out. (λ e. absurd (out e));
  quiet = λ id closed acks st st' q h. (λ e. ((h e).0, omega (arith, (h e).1, q.mark), (h e).2));
  epoch = λ id closed acks st e ok h. h;
  emit = λ id acks st st' a m h. (λ e.
      let (p, q, o) = h e in
      let (n, k) = Emits-newer id w st st' a m p q in (p, k, OnlyNewer-append told w acks a n o));
  drop = λ id acks st st' a m h.
      (λ e. let (p, q, o) = h e in (p, (Emits-newer id w st st' a m p q).1, o));
  shut = λ id acks st h. h;
}

At-newer :
    (x w j : ℕ) (closed : Bool) (acks : List Ack) (o : Option LaneState)
    → j ≢ x
    → At silent_invariant j closed (acks_of j acks) o
    → At (newer_invariant x w (acks_of x acks)) j closed (acks_of j acks) o
unfolding newer_invariant
At-newer x w j closed acks none n h = (n, h.1)
At-newer x w j closed acks (some st) n h = λ e. absurd (n e)

fence_mark-le : (st : LaneState) → (0 < fence_mark st) × (st.epoch ≤ fence_mark st)
unfolding fence_mark
fence_mark-le st = ground arith

revoke-HoldsIn :
    (x : ℕ) (l : Ledger) (st : LaneState)
    → lookup x l.lanes ≡ some st
    → HoldsIn silent_invariant l
    → HoldsIn (newer_invariant x (fence_mark st) (acks_of x l.acks)) (revoke l x).0
unfolding revoke newer_invariant
revoke-HoldsIn x l st e h =
    rw (e, revoke)
      (record {
        lane = λ j. rw (lookup-insert x j (revoke_lane st) l.lanes) (elim (Bool-cases (x == j)) [
          | inl y ↦ rw y (λ q. (
            (fence_mark-le st).0,
            omega arith,
            record {
              later = [];
              splits = ap (λ k. acks_of k l.acks) q ∙ sym (append-nil (acks_of x l.acks));
              newer = tt;
            },
          ))
          | inr z ↦ rw z (
              At-newer x (fence_mark st) j l.closed l.acks (lookup j l.lanes) (ground arith)
                (h.lane j))
        ]);
        keys = Distinct-insert x (revoke_lane st) l.lanes h.keys;
      })

newer-of :
    (x w e : ℕ) (told : List Ack) (l : Ledger)
    → e ≤ w
    → HoldsIn (newer_invariant x w told) l
    → OnlyNewer told e (acks_of x l.acks)
unfolding newer_invariant
newer-of x w e told l k h = elim (Option-cases (lookup x l.lanes)) [
  | inl q ↦ absurd ((rw q at (h.lane x)).0 refl)
  | inr (st, q) ↦
      let o : (0 < w) × (w ≤ st.fenced_through) × OnlyNewer told w (acks_of x l.acks) =
        (rw q at (h.lane x)) refl in
      record {
        later = o.2.later;
        splits = o.2.splits;
        newer =
            All-weaken (λ a. w < a.epoch) (λ a. e < a.epoch) (λ a n. omega arith) o.2.later
              o.2.newer;
      }
]

-- After Revoke of a registered lane in any reachable ledger, whatever is called later, SetEpoch
-- included, the acknowledgements of the lane are those built before and then only such as carry an
-- epoch above the one at which it was revoked.
pub revoke-OnlyNewer :
    (budget : ℕ) (before after : List Op) (x : ℕ) (st : LaneState)
    → lookup x (run (new_ledger budget) before).lanes ≡ some st
    → OnlyNewer
        (acks_of x (run (new_ledger budget) before).acks)
        st.epoch
        (acks_of x (run (revoke (run (new_ledger budget) before) x).0 after).acks)
revoke-OnlyNewer budget before after x st e =
    let l = run (new_ledger budget) before in
    let told = acks_of x l.acks in
    let h : HoldsIn silent_invariant l =
      any_run-HoldsIn silent_invariant (unfold silent_invariant in (λ j e. tt))
        (unfold silent_invariant in (λ j. tt)) budget before in
    newer-of x (fence_mark st) st.epoch told (run (revoke l x).0 after) (fence_mark-le st).1 (
      run-HoldsIn (newer_invariant x (fence_mark st) told) (revoke l x).0 after
        (any-InScope (newer_invariant x (fence_mark st) told)
          (unfold newer_invariant in (λ j e. tt)) after)
        (revoke-HoldsIn x l st e h))
