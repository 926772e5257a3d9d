-- ===== src/Tracker/Tests.antt =====
-- Runs of the tracker on small inputs.
use canal.Prelude.{ℕ, ◌<◌, ◌≡◌, refl, none, some, List, [], ◌∷◌, arith, All}
use canal.Tracker.{Tracker, new_tracker, try_track, release, resolved, track_resolved}
use canal.Tracker.Spec.{Op, try_tracks, tracks_resolved, releases, step, run, log_run, frontier}
use canal.Tracker.Refinement.{frontier-run}
use canal.Tracker.Counters.{Accounts}
use canal.Tracker.Accounts.{InRange, run-new_tracker-Accounts}
use canal.Tracker.Wakeups.{wakes-step, would_wait}

-- Two references on the first position; the second and third owe nothing and share a node; the fourth
-- is still in flight at the end.
abbrev visit : List (Op ℕ)
visit =
    try_tracks 10 3 2 0
    ∷ tracks_resolved 11 1
    ∷ tracks_resolved 12 2
    ∷ try_tracks 13 1 1 3
    ∷ releases (some 0) 1
    ∷ releases (some 0) 1
    ∷ []

visit_frontier : resolved (run (new_tracker 4) visit) ≡ some 12
unfolding run resolved step release try_track track_resolved new_tracker
visit_frontier = refl

frontier-run_example :
    resolved (run (new_tracker 4) visit) ≡ frontier none (log_run (new_tracker 4) visit [])
frontier-run_example = frontier-run 4 visit

visit-InRange : All InRange visit
visit-InRange = ground arith

run-new_tracker-Accounts_example : Accounts (run (new_tracker 4) visit)
run-new_tracker-Accounts_example = run-new_tracker-Accounts 4 visit (omega arith) visit-InRange

-- A full tracker: the budget is 3, and all of it is taken.
abbrev fill : List (Op ℕ)
fill = try_tracks 10 3 1 0 ∷ []

abbrev full : Tracker ℕ
full = run (new_tracker 3) fill

fill-InRange : All InRange fill
fill-InRange = ground arith

wakes-step_example : full.wakes < (step full (releases (some 0) 1)).wakes
unfolding run step new_tracker release try_track would_wait
wakes-step_example =
    wakes-step full (releases (some 0) 1) 1
      (run-new_tracker-Accounts 3 fill (omega arith) fill-InRange) tt (omega arith) refl refl
