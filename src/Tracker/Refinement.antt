-- ===== src/Tracker/Refinement.antt =====
-- The tracker of internal/ledger/tracker.go refines its admission log.
use mathlib.Core.List.{append_assoc}
use canal.Prelude.{
  ℕ, ◌≡◌, refl, sym, ◌∙◌, inl, inr, true, false, none, some, List, [], ◌∷◌, ◌++◌, arith, Bool-cases,
  Option-cases,
}
use canal.Tracker.{
  Node, Tracker, append_locked, at_least_one, fresh_node, try_track, marker, coalesce,
  enter_resolved, track_resolved, release, abandon, close, new_tracker, resolved,
}
use canal.Tracker.Cases.{try_track_cases}
use canal.Tracker.Spec.{
  Entry, Op, try_tracks, tracks_resolved, releases, abandons, closes, frontier, log_track,
  log_resolved, step, log_step, run, log_run,
}
use canal.Tracker.Relation.{Same, Rel, nil, HeadOpen, Rel-append, Rel-coalesce}
use canal.Tracker.Discharge.{Sim, Sim-frontier, advance-Sim, discharge-Sim}

module _ {ℓ} {P : Type ℓ} where
  HeadOpen-append :
      (ns : List (Node P)) (n : Node P) → n.resolved ≡ false → HeadOpen ns → HeadOpen (ns ++ n ∷ [])
  HeadOpen-append [] n z h = z
  HeadOpen-append (m ∷ ns) n z h = h

  Sim-enter :
      (t : Tracker P) (log : List (Entry P)) (n : Node P) (e : Entry P)
      → n.resolved ≡ false
      → Same n e
      → Sim t log
      → Sim (append_locked t n) (log ++ e ∷ [])
  unfolding append_locked
  Sim-enter t log n e z s v = record {
    pre = v.pre;
    rest = v.rest ++ e ∷ [];
    split = rw v.split (append_assoc v.pre v.rest (e ∷ []));
    done = v.done;
    same = v.same;
    rel = Rel-append v.rel s;
    head = HeadOpen-append t.list n z v.head;
  }

  try_track-Sim :
      (t : Tracker P) (log : List (Entry P)) (p : P) (weight refs now : ℕ)
      → Sim t log
      → Sim
          (try_track t p weight refs now).0
          (log_track (try_track t p weight refs now).1 p refs log)
  unfolding fresh_node log_track
  try_track-Sim t log p weight refs now v = elim (try_track_cases t p weight refs now) [
    | inl e ↦ rw e v
    | inr (z, room, e) ↦ rw e (
        Sim-enter t log (fresh_node t p weight refs now)
          (record { ticket = some t.next_id; payload = p; left = at_least_one refs }) refl
          (record { payload = refl; refs = refl; state = ground arith; ticket = inl refl }) v)
  ]

  marker-Same :
      (id : ℕ) (p : P) (now : ℕ)
      → Same (marker id p now) (record { ticket = none; payload = p; left = 0 })
  unfolding marker
  marker-Same id p now = record {
    payload = refl;
    refs = refl;
    state = refl;
    ticket = inr (refl, refl);
  }

  enter_resolved-Rel :
      (t : Tracker P) (es : List (Entry P)) (p : P) (now : ℕ)
      → Rel t.list es
      → Rel
          (enter_resolved t p now).list
          (es ++ record { ticket = none; payload = p; left = 0 } ∷ [])
  unfolding enter_resolved
  enter_resolved-Rel t es p now r = elim (Option-cases (coalesce t.list p now)) [
    | inl z ↦ rw (z, enter_resolved) (Rel-append r (marker-Same t.next_id p now))
    | inr (l, q) ↦ rw (q, enter_resolved) (Rel-coalesce l p now r q)
  ]

  enter_resolved-frontier :
      (t : Tracker P) (p : P) (now : ℕ) → (enter_resolved t p now).frontier ≡ t.frontier
  unfolding enter_resolved
  enter_resolved-frontier t p now = ground arith

  track_resolved-Sim :
      (t : Tracker P) (log : List (Entry P)) (p : P) (now : ℕ)
      → Sim t log
      → Sim (track_resolved t p now).0 (log_resolved t.closed p log)
  unfolding track_resolved log_resolved
  track_resolved-Sim t log p now v = elim (Bool-cases t.closed) [
    | inl y ↦ simp y v
    | inr z ↦ simp z (
        rw (v.split, append_assoc v.pre v.rest)
          (advance-Sim (enter_resolved t p now) v.pre _ v.done
            (v.same ∙ sym (enter_resolved-frontier t p now))
            (enter_resolved-Rel t v.rest p now v.rel)))
  ]

  close-Sim : (t : Tracker P) (log : List (Entry P)) → Sim t log → Sim (close t) log
  unfolding close
  close-Sim t log v = elim (Bool-cases t.closed) [
    | inl y ↦ simp y v
    | inr z ↦ simp z (record {
      pre = v.pre;
      rest = v.rest;
      split = v.split;
      done = v.done;
      same = v.same;
      rel = v.rel;
      head = v.head;
    })
  ]

  pub step-Sim :
      (t : Tracker P) (log : List (Entry P)) (o : Op P)
      → Sim t log
      → Sim (step t o) (log_step t o log)
  unfolding step log_step release abandon
  step-Sim t log (try_tracks p weight refs now) v = try_track-Sim t log p weight refs now v
  step-Sim t log (tracks_resolved p now) v = track_resolved-Sim t log p now v
  step-Sim t log (releases k n) v = discharge-Sim t log k n false v
  step-Sim t log (abandons k) v = discharge-Sim t log k 0 true v
  step-Sim t log closes v = close-Sim t log v

  pub run-Sim :
      (t : Tracker P) (log : List (Entry P)) (os : List (Op P))
      → Sim t log
      → Sim (run t os) (log_run t os log)
  unfolding run log_run
  run-Sim t log [] v = v
  run-Sim t log (o ∷ os) v = run-Sim (step t o) (log_step t o log) os (step-Sim t log o v)

  pub new_tracker-Sim : (budget : ℕ) → Sim (new_tracker {P = P} budget) []
  unfolding new_tracker frontier
  new_tracker-Sim budget = record {
    pre = [];
    rest = [];
    split = refl;
    done = tt;
    same = refl;
    rel = nil;
    head = tt;
  }

  -- After any calls that a tracker has served since it was made, in any order, Resolved reports the
  -- payload of the last admission in the longest prefix of the caller's admission log whose
  -- references have all been discharged, and nothing if that prefix is empty. The log holds every
  -- admission, also those that TrackResolved merged into one node.
  pub frontier-run :
      (budget : ℕ) (os : List (Op P))
      → resolved (run (new_tracker budget) os) ≡ frontier none (log_run (new_tracker budget) os [])
  unfolding resolved
  frontier-run budget os =
      Sim-frontier (run-Sim (new_tracker budget) [] os (new_tracker-Sim budget))
