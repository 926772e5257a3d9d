-- ===== src/Tracker/Accounts.antt =====
-- The counters of internal/ledger/tracker.go against its list: what they add up to under the
-- wrap-around of uint64, and the in-flight bound.
use canal.Prelude.{
  ℕ, ◌<◌, ◌≡◌, refl, inl, inr, Bool, true, false, none, some, List, [], ◌∷◌, All, arith, length,
  Bool-cases, Option-cases,
}
use canal.Tracker.{
  Node, Tracker, Ticket, fresh_node, try_track, marker, is_marker, coalesce, enter_resolved,
  track_resolved, discharge_list, discharge_node, find_node, discharge_live, discharge, release,
  abandon, close, new_tracker,
}
use canal.Tracker.Cases.{try_track_cases}
use canal.Tracker.Spec.{Op, try_tracks, tracks_resolved, releases, abandons, closes, step, run}
use canal.Tracker.Counters.{
  int_limit, total, TailFree, Accounts, advance-Accounts, append-bounded, append-weightless,
  append-Accounts, coalesce-total, discharge_list-total, bounded-of-same,
}

module _ {ℓ} {P : Type ℓ} where
  relist-Accounts :
      (t : Tracker P) (l : List (Node P))
      → Accounts t
      → length l ≡ length t.list
      → total l ≡ total t.list
      → (TailFree t.list → TailFree l)
      → Accounts (record t { list = l })
  relist-Accounts t l v a b c = record {
    counted = omega (arith, v.counted);
    weighed = omega (arith, v.weighed);
    conserved = v.conserved;
    bounded = bounded-of-same t.list l t.budget v.bounded b c;
    small = v.small;
  }

  coalesce-TailFree :
      (ns l : List (Node P)) (p : P) (now : ℕ)
      → coalesce ns p now ≡ some l
      → TailFree ns
      → TailFree l
  unfolding coalesce is_marker
  coalesce-TailFree [] l p now h f = cc
  coalesce-TailFree (n ∷ []) l p now h f = ground arith
  coalesce-TailFree (n ∷ m ∷ ns) l p now h f = elim (Option-cases (coalesce (m ∷ ns) p now)) [
    | inl z ↦ absurd (ground arith)
    | inr (l', q) ↦ ground (arith, coalesce-total (m ∷ ns) l' p now q)
  ]

  discharge_list-TailFree :
      (id : ℕ) (b : Bool) (k : ℕ) (ns : List (Node P))
      → TailFree ns
      → TailFree (discharge_list id b k ns)
  unfolding discharge_list discharge_node
  discharge_list-TailFree id b k [] f = tt
  discharge_list-TailFree id b k (n ∷ ns) f = ground (arith, discharge_list-total id b k ns)

  enter_resolved-Accounts :
      (t : Tracker P) (p : P) (now : ℕ) → Accounts t → Accounts (enter_resolved t p now)
  unfolding enter_resolved
  enter_resolved-Accounts t p now v = elim (Option-cases (coalesce t.list p now)) [
    | inl z ↦
        rw (z, enter_resolved)
          (append-Accounts t (marker t.next_id p now) v
            (append-weightless t (marker t.next_id p now) v (unfold marker in refl)))
    | inr (l, q) ↦
        rw (q, enter_resolved)
          (relist-Accounts t l v (coalesce-total t.list l p now q).0
            (coalesce-total t.list l p now q).1 (coalesce-TailFree t.list l p now q))
  ]

  track_resolved-Accounts :
      (t : Tracker P) (p : P) (now : ℕ) → Accounts t → Accounts (track_resolved t p now).0
  unfolding track_resolved
  track_resolved-Accounts t p now v = elim (Bool-cases t.closed) [
    | inl y ↦ simp y v
    | inr z ↦ simp z (advance-Accounts _ (enter_resolved-Accounts t p now v))
  ]

  discharge_live-Accounts :
      (t : Tracker P) (id : ℕ) (b : Bool) (k : ℕ) (m : Node P)
      → Accounts t
      → Accounts (discharge_live t id b k m).0
  unfolding discharge_live
  discharge_live-Accounts t id b k m v =
      let s = discharge_list-total id b k t.list in
      let w =
        relist-Accounts t (discharge_list id b k t.list) v s.0 s.1
          (discharge_list-TailFree id b k t.list) in
      ground (arith, w, advance-Accounts (record t { list = discharge_list id b k t.list }) w)

  discharge-Accounts :
      (t : Tracker P) (k : Ticket) (n : ℕ) (b : Bool) → Accounts t → Accounts (discharge t k n b).0
  unfolding discharge
  discharge-Accounts t none n b v = v
  discharge-Accounts t (some id) n b v = elim (Option-cases (find_node id t.list)) [
    | inl absent ↦ rw (absent, discharge) v
    | inr (m, f) ↦ rw (f, discharge) (discharge_live-Accounts t id b n m v)
  ]

  try_track-Accounts :
      (t : Tracker P) (p : P) (weight refs now : ℕ)
      → weight < int_limit
      → Accounts t
      → Accounts (try_track t p weight refs now).0
  try_track-Accounts t p weight refs now w v = elim (try_track_cases t p weight refs now) [
    | inl e ↦ rw e v
    | inr (z, room, e) ↦ rw e (
        append-Accounts t (fresh_node t p weight refs now) v (
          append-bounded t (fresh_node t p weight refs now) v (unfold fresh_node in ground arith)
            (unfold fresh_node in room)))
  ]

  abbrev pub InRange : Op P → Type 0
  InRange (try_tracks p weight refs now) = weight < int_limit
  InRange _ = Unit

  pub step-Accounts : (t : Tracker P) (o : Op P) → InRange o → Accounts t → Accounts (step t o)
  unfolding step release abandon close
  step-Accounts t (try_tracks p weight refs now) r v = try_track-Accounts t p weight refs now r v
  step-Accounts t (tracks_resolved p now) r v = track_resolved-Accounts t p now v
  step-Accounts t (releases k n) r v = discharge-Accounts t k n false v
  step-Accounts t (abandons k) r v = discharge-Accounts t k 0 true v
  step-Accounts t closes r v = ground arith

  run-Accounts :
      (t : Tracker P) (os : List (Op P)) → All InRange os → Accounts t → Accounts (run t os)
  unfolding run
  run-Accounts t [] r v = v
  run-Accounts t (o ∷ os) r v = run-Accounts (step t o) os r.1 (step-Accounts t o r.0 v)

  new_tracker-Accounts : (budget : ℕ) → budget < int_limit → Accounts (new_tracker {P = P} budget)
  unfolding new_tracker
  new_tracker-Accounts budget s = ground arith

  -- After any calls whose weights and whose budget fit an int, the node and weight counters of a
  -- tracker are those of its list, the weight in flight is within the budget unless only the head
  -- weighs anything, and what was admitted is what was settled, abandoned or is pending, in 64-bit
  -- arithmetic.
  pub run-new_tracker-Accounts :
      (budget : ℕ) (os : List (Op P))
      → budget < int_limit
      → All InRange os
      → Accounts (run (new_tracker budget) os)
  run-new_tracker-Accounts budget os s r =
      run-Accounts (new_tracker budget) os r (new_tracker-Accounts budget s)
