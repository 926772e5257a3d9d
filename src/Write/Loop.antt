-- ===== src/Write/Loop.antt =====
-- writeSet of internal/engine/write.go: the retry loop over one set of records.
use canal.Prelude.{ℕ, Bool, true, false, Option, none, some, List, [], ◌∷◌, ◌++◌, if◌then◌else◌}
use canal.Prelude.Assoc.{lookup, insert}
use canal.Fault.{Error}
use canal.Fault.Policy.{Float64, RetryPolicy}
use canal.Retry.{
  Attempt, Routing, disp_retry, disp_dead_letter, disp_drop, disp_stop, disp_stall, route,
}
use canal.Write.{Tally, Sink, Written, Round, write_once, dead_letter, is_nil}

abbrev pub abandon : ℕ → Tally → Tally
abandon r t = record t { abandoned = t.abandoned ++ r ∷ [] }

-- The state of the loop over the failed records: the attempts, the records to present again.
pub record Sorting : Type 0 where
  pub attempts : List (ℕ × Attempt)
  pub again : List ℕ
  pub tally : Tally

abbrev pub attempt_of : ℕ → ℕ → List (ℕ × Attempt) → Attempt
attempt_of now r attempts = elim (lookup r attempts) [
  | none ↦ record { count = 0; started = some now }
  | some a ↦ a
]

abbrev pub start_sorting : List (ℕ × Attempt) → Tally → Sorting
start_sorting attempts t = record { attempts = attempts; again = []; tally = t }

-- How writeSet returns: nil, an error, or not yet.
pub data Ending : Type 0 where
  finished stopped waiting : Ending

module _ (fl : Float64) (draw : ℕ → ℕ) (p : RetryPolicy fl) (sk : Sink) where
  -- What the switch of writeSet does with one routing; none where the pipeline stops.
  unfoldable pub dispose : Round → ℕ → Option Routing → Sorting → Option Sorting
  dispose round r none s = none
  dispose round r (some way) s = elim way.disp [
    | disp_retry ↦ some (record s { again = s.again ++ r ∷ [] })
    | disp_dead_letter ↦
        if dead_letter round.letterboxes r
        then some (record s { tally = abandon r s.tally })
        else none
    | disp_drop ↦ some (record s { tally = abandon r s.tally })
    | disp_stop ↦ none
    | disp_stall ↦ none
  ]

  unfoldable pub sort_one : Round → ℕ → Error → Sorting → Option Sorting
  sort_one round r e s =
      let routed = route fl draw e sk.idempotent p (attempt_of round.now r s.attempts) round.now in
      dispose round r (routed.1) (record s { attempts = insert r (routed.0) s.attempts })

  -- The tally is that of the last record that was sorted, also where the pipeline stops.
  unfoldable pub sort_failed : Round → List (ℕ × Error) → List ℕ → Sorting → Sorting × Bool
  sort_failed round failed [] s = (s, true)
  sort_failed round failed (r ∷ rs) s = elim (lookup r failed) [
    | none ↦ sort_failed round failed rs s
    | some e ↦ elim (sort_one round r e s) [
      | none ↦ (s, false)
      | some s' ↦ sort_failed round failed rs s'
    ]
  ]

  -- The rest of a pass, where `again` is the passes that follow it.
  unfoldable pub after_sorting :
      (List (ℕ × Attempt) → List ℕ → Tally → Tally × Ending)
      → Round
      → Sorting × Bool
      → Tally × Ending
  after_sorting again round (s, false) = (s.tally, stopped)
  after_sorting again round (s, true) =
      if is_nil s.again
      then (s.tally, finished)
      else if round.cancelled
      then (s.tally, stopped)
      else again s.attempts s.again s.tally

  unfoldable pub after_writing :
      (List (ℕ × Attempt) → List ℕ → Tally → Tally × Ending)
      → Round
      → List (ℕ × Attempt)
      → List ℕ
      → Written
      → Tally × Ending
  after_writing again round attempts rs (t, none) = (t, stopped)
  after_writing again round attempts rs (t, some failed) =
      after_sorting again round (sort_failed round failed rs (start_sorting attempts t))

  -- A call with no pass left to run is still waiting.
  unfoldable pub write_set : List Round → List (ℕ × Attempt) → List ℕ → Tally → Tally × Ending
  write_set [] attempts [] t = (t, finished)
  write_set [] attempts (r ∷ rs) t = (t, waiting)
  write_set (round ∷ rounds) attempts [] t = (t, finished)
  write_set (round ∷ rounds) attempts (r ∷ rs) t =
      after_writing (write_set rounds) round attempts (r ∷ rs) (write_once sk round (r ∷ rs) t)
