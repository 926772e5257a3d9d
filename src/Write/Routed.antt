-- ===== src/Write/Routed.antt =====
-- The loop of writeSet over the failed records, internal/engine/write.go: each is presented again or
-- abandoned.
use canal.Prelude.{
  ℕ, ◌+◌, ◌≤◌, ◌≡◌, refl, sym, Bool, true, false, Option, none, some, List, [], ◌∷◌, ◌==◌, subst,
  if◌then◌else◌, inl, inr, Bool-cases, Option-cases, arith,
}
use canal.Prelude.Assoc.{lookup, insert}
use canal.Fault.{Error}
use canal.Fault.Policy.{Float64, RetryPolicy}
use canal.Retry.{Routing, disp_retry, disp_dead_letter, disp_drop, disp_stop, disp_stall, route}
use canal.Write.Loop.{abandon, Sorting, attempt_of, dispose, sort_one, sort_failed}
use canal.Write.{dead_letter, Tally, Sink, Round}
use canal.Write.Requests.{count, present, tallied, count-append}

-- How often a record is disposed of or to be presented again.
abbrev pub placed : ℕ → Sorting → ℕ
placed k s = tallied k s.tally + count k s.again

abbrev Moved : ℕ → ℕ → ℕ → Option Sorting → Type 0
Moved k low n none = Unit
Moved k low n (some s) = (low ≤ tallied k s.tally) × (placed k s ≡ n)

-- What the loop leaves: every failed record is placed, or the pipeline stops before some are.
abbrev pub Placed : ℕ → ℕ → ℕ → Sorting × Bool → Type 0
Placed k low n (s, true) = (low ≤ tallied k s.tally) × (placed k s ≡ n)
Placed k low n (s, false) = (low ≤ tallied k s.tally) × (placed k s ≤ n)

-- How often a record that failed is in the rest of the set.
abbrev to_sort : ℕ → List (ℕ × Error) → List ℕ → ℕ
to_sort k failed rs = if present k failed == 0 then 0 else count k rs

to_sort-fine :
    (k r : ℕ) (failed : List (ℕ × Error)) (rs : List ℕ)
    → lookup r failed ≡ none
    → to_sort k failed (r ∷ rs) ≡ to_sort k failed rs
to_sort-fine k r failed rs h = elim (Bool-cases (r == k)) [
  | inl y ↦ let e : r ≡ k = ground arith in rw (subst (λ key. lookup key failed ≡ none) e h) refl
  | inr z ↦ rw z (ground arith)
]

to_sort-failed :
    (k r : ℕ) (e : Error) (failed : List (ℕ × Error)) (rs : List ℕ)
    → lookup r failed ≡ some e
    → to_sort k failed (r ∷ rs) ≡ (if r == k then 1 else 0) + to_sort k failed rs
to_sort-failed k r e failed rs h = elim (Bool-cases (r == k)) [
  | inl y ↦
      let same : r ≡ k = ground arith in rw (subst (λ key. lookup key failed ≡ some e) same h) refl
  | inr z ↦ rw z (ground arith)
]

abandon-tallied :
    (k r : ℕ) (t : Tally) → tallied k (abandon r t) ≡ tallied k t + (if r == k then 1 else 0)
abandon-tallied k r t = omega (arith, count-append k t.abandoned (r ∷ []))

module _ (fl : Float64) (draw : ℕ → ℕ) (p : RetryPolicy fl) (sk : Sink) where
  dispose-Moved :
      (k : ℕ) (round : Round) (r : ℕ) (way : Option Routing) (s : Sorting)
      → Moved k
          (tallied k s.tally)
          (placed k s + (if r == k then 1 else 0))
          (dispose fl draw p sk round r way s)
  unfolding dispose
  dispose-Moved k round r none s = tt
  dispose-Moved k round r (some way) s =
      elim way.disp
        as (λ d.
          Moved k (tallied k s.tally) (placed k s + (if r == k then 1 else 0))
            (dispose fl draw p sk round r (some (record way { disp = d })) s)) [
              | disp_retry ↦ (omega arith, omega (arith, count-append k s.again (r ∷ [])))
              | disp_dead_letter ↦ elim (Bool-cases (dead_letter round.letterboxes r)) [
                | inl y ↦ rw y (
                  omega (arith, abandon-tallied k r s.tally),
                  omega (arith, abandon-tallied k r s.tally),
                )
                | inr z ↦ rw z tt
              ]
              | disp_drop ↦ (
                omega (arith, abandon-tallied k r s.tally),
                omega (arith, abandon-tallied k r s.tally),
              )
              | disp_stop ↦ tt
              | disp_stall ↦ tt
            ]

  sort_one-Moved :
      (k : ℕ) (round : Round) (r : ℕ) (e : Error) (s : Sorting)
      → Moved k
          (tallied k s.tally)
          (placed k s + (if r == k then 1 else 0))
          (sort_one fl draw p sk round r e s)
  unfolding sort_one
  sort_one-Moved k round r e s =
      let routed = route fl draw e sk.idempotent p (attempt_of round.now r s.attempts) round.now in
      dispose-Moved k round r (routed.1) (record s { attempts = insert r (routed.0) s.attempts })

  module _ (round : Round) (failed : List (ℕ × Error)) (r : ℕ) (rs : List ℕ) (s : Sorting) where
    pub sort_failed-fine :
        lookup r failed ≡ none
        → sort_failed fl draw p sk round failed (r ∷ rs) s
          ≡ sort_failed fl draw p sk round failed rs s
    unfolding sort_failed
    sort_failed-fine h = rw (h, sort_failed) refl

    pub sort_failed-stops :
        (e : Error)
        → lookup r failed ≡ some e
        → sort_one fl draw p sk round r e s ≡ none
        → sort_failed fl draw p sk round failed (r ∷ rs) s ≡ (s, false)
    unfolding sort_failed
    sort_failed-stops e h stops = rw (h, stops, sort_failed) refl

    pub sort_failed-moves :
        (e : Error) (s' : Sorting)
        → lookup r failed ≡ some e
        → sort_one fl draw p sk round r e s ≡ some s'
        → sort_failed fl draw p sk round failed (r ∷ rs) s
          ≡ sort_failed fl draw p sk round failed rs s'
    unfolding sort_failed
    sort_failed-moves e s' h moves = rw (h, moves, sort_failed) refl

  pub sort_failed-Placed :
      (k low n : ℕ) (round : Round) (failed : List (ℕ × Error)) (rs : List ℕ) (s : Sorting)
      → low ≤ tallied k s.tally
      → placed k s + to_sort k failed rs ≡ n
      → Placed k low n (sort_failed fl draw p sk round failed rs s)
  unfolding sort_failed
  sort_failed-Placed k low n round failed [] s b h = (b, ground arith)
  sort_failed-Placed k low n round failed (r ∷ rs) s b h = elim (Option-cases (lookup r failed)) [
    | inl out ↦
        subst (λ w. Placed k low n w) (sym (sort_failed-fine round failed r rs s out))
          (sort_failed-Placed k low n round failed rs s b
            (omega (arith, to_sort-fine k r failed rs out)))
    | inr (e, found) ↦ elim (Option-cases (sort_one fl draw p sk round r e s)) [
      | inl stops ↦
          subst (λ w. Placed k low n w) (sym (sort_failed-stops round failed r rs s e found stops))
            (b, ground arith)
      | inr (s', moves) ↦
          let m =
            subst (λ o. Moved k (tallied k s.tally) (placed k s + (if r == k then 1 else 0)) o)
              moves (sort_one-Moved k round r e s) in
          subst (λ w. Placed k low n w)
            (sym (sort_failed-moves round failed r rs s e s' found moves))
            (sort_failed-Placed k low n round failed rs s' (omega (arith, m.0))
              (omega (arith, m.1, to_sort-failed k r e failed rs found)))
    ]
  ]
