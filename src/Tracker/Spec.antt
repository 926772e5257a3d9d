-- ===== src/Tracker/Spec.antt =====
-- What the prefix resolver of internal/ledger/tracker.go promises: a log of every admission, never
-- shortened and never merged, and the last payload of its longest fully discharged prefix.
use canal.Prelude.{
  ℕ, Bool, true, false, Option, none, some, List, [], ◌∷◌, ◌++◌, ◌==◌, if◌then◌else◌,
}
use canal.Tracker.{
  Tracker, Ticket, at_least_one, refs_left, try_track, track_resolved, release, abandon, close,
}

-- `left` counts the references still owed. A position that owes none has no ticket.
pub record Entry {ℓ} (P : Type ℓ) : Type ℓ where
  pub ticket : Ticket
  pub payload : P
  pub left : ℕ

abbrev pub holds : Ticket → ℕ → Bool
holds none id = false
holds (some k) id = k == id

pub data Op {ℓ} (P : Type ℓ) : Type ℓ where
  try_tracks : P → ℕ → ℕ → ℕ → Op P
  tracks_resolved : P → ℕ → Op P
  releases : Ticket → ℕ → Op P
  abandons : Ticket → Op P
  closes : Op P

module _ {ℓ} {P : Type ℓ} where
  unfoldable pub frontier : Option P → List (Entry P) → Option P
  frontier last [] = last
  frontier last (e ∷ es) = if e.left == 0 then frontier (some e.payload) es else last

  unfoldable pub discharge_log : ℕ → Bool → ℕ → List (Entry P) → List (Entry P)
  unfolding refs_left
  discharge_log id abandon n [] = []
  discharge_log id abandon n (e ∷ es) =
      (if holds e.ticket id then record e { left = refs_left abandon n e.left } else e)
      ∷ discharge_log id abandon n es

  unfoldable pub settle : Ticket → Bool → ℕ → List (Entry P) → List (Entry P)
  settle none abandon n log = log
  settle (some id) abandon n log = discharge_log id abandon n log

  -- A tracked admission is logged when the caller is given a ticket for it.
  unfoldable pub log_track : Option Ticket → P → ℕ → List (Entry P) → List (Entry P)
  log_track none payload refs log = log
  log_track (some k) payload refs log =
      log ++ record { ticket = k; payload = payload; left = at_least_one refs } ∷ []

  unfoldable pub log_resolved : Bool → P → List (Entry P) → List (Entry P)
  log_resolved closed payload log =
      if closed then log else log ++ record { ticket = none; payload = payload; left = 0 } ∷ []

  unfoldable pub step : Tracker P → Op P → Tracker P
  step t (try_tracks payload weight refs now) = (try_track t payload weight refs now).0
  step t (tracks_resolved payload now) = (track_resolved t payload now).0
  step t (releases k n) = (release t k n).0
  step t (abandons k) = (abandon t k).0
  step t closes = close t

  -- The caller's own log of the same call.
  unfoldable pub log_step : Tracker P → Op P → List (Entry P) → List (Entry P)
  unfolding log_track log_resolved settle
  log_step t (try_tracks payload weight refs now) log =
      log_track (try_track t payload weight refs now).1 payload refs log
  log_step t (tracks_resolved payload now) log = log_resolved t.closed payload log
  log_step t (releases k n) log = settle k false n log
  log_step t (abandons k) log = settle k true 0 log
  log_step t closes log = log

  unfoldable pub run : Tracker P → List (Op P) → Tracker P
  run t [] = t
  run t (o ∷ os) = run (step t o) os

  unfoldable pub log_run : Tracker P → List (Op P) → List (Entry P) → List (Entry P)
  log_run t [] log = log
  log_run t (o ∷ os) log = log_run (step t o) os (log_step t o log)
