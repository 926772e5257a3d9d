-- ===== src/Tracker/Wakeups.antt =====
-- Who wakes a blocked Track of internal/ledger/tracker.go, and what it then does.
use canal.Prelude.{
  ℕ, ◌≤◌, ◌<◌, ◌≡◌, refl, ◌⊎◌, inl, inr, Bool, true, false, not, ◌&&◌, Option, none, some, List, [],
  ◌∷◌, arith, Bool-cases,
}
use canal.Tracker.{
  Node, Tracker, Ticket, append_locked, retire, walk, publish, advance_locked, has_room,
  at_least_one, fresh_node, try_track, marker, enter_resolved, track_resolved, discharge_list,
  discharge_live, discharge, release, abandon, close, Wakeup, woken, cancelled, entered, track,
}
use canal.Tracker.Cases.{try_track_cases}
use canal.Tracker.Spec.{Op, try_tracks, tracks_resolved, releases, abandons, closes, step}
use canal.Tracker.Counters.{Accounts, total-lt, int_limit}
use canal.Tracker.Accounts.{InRange, step-Accounts}

module _ {ℓ} {P : Type ℓ} where
  walk-some :
      (t : Tracker P) (ns : List (Node P)) (p : P) → (q : P) × ((walk t ns (some p)).1 ≡ some q)
  unfolding walk
  walk-some t [] p = (p, refl)
  walk-some t (n ∷ ns) p = elim (Bool-cases n.resolved) [
    | inl y ↦ rw y (walk-some (retire t n ns) ns n.payload)
    | inr z ↦ rw z (p, refl)
  ]

  walk-wakes : (t : Tracker P) (ns : List (Node P)) (a : Option P) → (walk t ns a).0.wakes ≡ t.wakes
  unfolding walk retire
  walk-wakes t [] a = refl
  walk-wakes t (n ∷ ns) a = ground (arith, walk-wakes (retire t n ns) ns (some n.payload))

  advance_cases :
      (t : Tracker P) → (advance_locked t ≡ (t, none)) ⊎ (t.wakes < (advance_locked t).0.wakes)
  unfolding advance_locked walk publish
  advance_cases t = go t.list
    where
      go :
          (ns : List (Node P))
          → (publish (walk t ns none) ≡ (t, none)) ⊎ (t.wakes < (publish (walk t ns none)).0.wakes)
      go [] = inl refl
      go (n ∷ ns) = elim (Bool-cases n.resolved) [
        | inl y ↦
            let (q, e) = walk-some (retire t n ns) ns n.payload in
            inr (rw y (ground (arith, walk-wakes (retire t n ns) ns (some n.payload))))
        | inr z ↦ inl (rw z refl)
      ]

  -- Track with this weight would block.
  unfoldable pub would_wait : Tracker P → ℕ → Bool
  unfolding has_room
  would_wait t weight = not t.closed && not (has_room t (at_least_one weight))

  -- What leaves a blocked Track blocked.
  record Stays (t u : Tracker P) : Type 0 where
    closed : u.closed ≡ t.closed
    budget : u.budget ≡ t.budget
    pending : t.pending ≤ u.pending
    nodes : t.nodes ≤ u.nodes

  Stays-refl : (t : Tracker P) → Stays t t
  Stays-refl t = ground arith

  Stays-would_wait :
      (t u : Tracker P) (weight : ℕ)
      → Stays t u
      → Accounts t
      → Accounts u
      → weight < int_limit
      → would_wait t weight ≡ true
      → would_wait u weight ≡ true
  unfolding would_wait has_room
  Stays-would_wait t u weight s v w l h = ground (arith, total-lt t v, total-lt u w)

  advance-wakes :
      (t u : Tracker P)
      → Stays t u
      → u.wakes ≡ t.wakes
      → (t.wakes < (advance_locked u).0.wakes) ⊎ Stays t (advance_locked u).0
  advance-wakes t u s e = elim (advance_cases u) [
    | inl h ↦ inr (rw h s)
    | inr h ↦ inl (omega arith)
  ]

  track_resolved-wakes :
      (t : Tracker P) (p : P) (now : ℕ)
      → Accounts t
      → (t.wakes < (track_resolved t p now).0.wakes) ⊎ Stays t (track_resolved t p now).0
  unfolding track_resolved
  track_resolved-wakes t p now v = elim (Bool-cases t.closed) [
    | inl y ↦ inr (simp y (Stays-refl t))
    | inr z ↦ simp z (
        advance-wakes t (enter_resolved t p now)
          (unfold enter_resolved append_locked marker in ground (arith, total-lt t v))
          (unfold enter_resolved append_locked in ground arith))
  ]

  discharge-wakes :
      (t : Tracker P) (k : Ticket) (n : ℕ) (b : Bool)
      → (t.wakes < (discharge t k n b).0.wakes) ⊎ Stays t (discharge t k n b).0
  unfolding discharge discharge_live
  discharge-wakes t none n b = inr (Stays-refl t)
  discharge-wakes t (some id) n b =
      let u : Tracker P = record t { list = discharge_list id b n t.list } in
      ground (arith, Stays-refl t, advance-wakes t u (ground arith) refl)

  try_track-wakes :
      (t : Tracker P) (p : P) (weight refs now : ℕ)
      → Accounts t
      → weight < int_limit
      → Stays t (try_track t p weight refs now).0
  unfolding append_locked fresh_node
  try_track-wakes t p weight refs now v l = elim (try_track_cases t p weight refs now) [
    | inl e ↦ rw e (Stays-refl t)
    | inr (z, room, e) ↦ rw e (ground (arith, total-lt t v))
  ]

  step-wakes :
      (t : Tracker P) (o : Op P)
      → InRange o
      → Accounts t
      → (t.wakes < (step t o).wakes) ⊎ Stays t (step t o)
  unfolding step release abandon close
  step-wakes t (try_tracks p weight refs now) r v = inr (try_track-wakes t p weight refs now v r)
  step-wakes t (tracks_resolved p now) r v = track_resolved-wakes t p now v
  step-wakes t (releases k n) r v = discharge-wakes t k n false
  step-wakes t (abandons k) r v = discharge-wakes t k 0 true
  step-wakes t closes r v = ground (arith, Stays-refl t)

  -- No wake is lost: a call on a tracker with true counters, with weights that fit an int, after
  -- which a blocked Track could go on, because there is room or the tracker is closed, has closed
  -- the wake channel that Track waits on.
  pub wakes-step :
      (t : Tracker P) (o : Op P) (weight : ℕ)
      → Accounts t
      → InRange o
      → weight < int_limit
      → would_wait t weight ≡ true
      → would_wait (step t o) weight ≡ false
      → t.wakes < (step t o).wakes
  wakes-step t o weight v r l h g = elim (step-wakes t o r v) [
    | inl w ↦ w
    | inr s ↦ absurd (cc (Stays-would_wait t (step t o) weight s v (step-Accounts t o r v) l h))
  ]

  -- The trackers that Track meets: at its call, and after each wake.
  abbrev pub Met : Tracker P → List (Wakeup P) → Tracker P → Type ℓ
  Met t [] u = t ≡ u
  Met t (cancelled ∷ later) u = t ≡ u
  Met t (woken t' ∷ later) u = (t ≡ u) ⊎ Met t' later u

  -- A Track that returns a ticket has done, at one of the trackers it met, exactly what TryTrack
  -- does there.
  track-try_track :
      (evs : List (Wakeup P)) (t u : Tracker P) (p : P) (weight refs now : ℕ) (k : Ticket)
      → track t evs p weight refs now ≡ entered u k
      → (m : Tracker P) × Met t evs m × (try_track m p weight refs now ≡ (u, some k))
  unfolding track try_track
  track-try_track [] t u p weight refs now k h = (t, refl, ground arith)
  track-try_track (cancelled ∷ later) t u p weight refs now k h = (t, refl, ground arith)
  track-try_track (woken t' ∷ later) t u p weight refs now k h = elim (Bool-cases t.closed) [
    | inl y ↦ absurd (ground arith)
    | inr z ↦ elim (Bool-cases (has_room t (at_least_one weight))) [
      | inl room ↦ (t, inl refl, ground arith)
      | inr full ↦
          let (m, q, e) = track-try_track later t' u p weight refs now k (ground arith) in
          (m, inr q, e)
    ]
  ]
