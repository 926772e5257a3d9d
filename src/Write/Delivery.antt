-- ===== src/Write/Delivery.antt =====
-- writeSet of internal/engine/write.go as a whole: what has become of each record of the set when it
-- returns.
use canal.Prelude.{
  ℕ, ◌+◌, ◌≤◌, ◌≡◌, ap, Bool, true, false, none, some, List, [], ◌∷◌, subst, inl, inr, Bool-cases,
  arith,
}
use canal.Fault.Policy.{Float64, RetryPolicy}
use canal.Retry.{Attempt}
use canal.Write.Loop.{
  Sorting, sort_failed, start_sorting, after_sorting, after_writing, Ending, finished, write_set,
}
use canal.Write.{Tally, Sink, Round, Written, write_once}
use canal.Write.Requests.{count, tallied, List-cases}
use canal.Write.Conservation.{Accounted, write_once-Accounted}
use canal.Write.Routed.{Placed, sort_failed-Placed}

-- A record that had been disposed of `low` times is so at most `n` times, and `n` times where writeSet
-- returns nil.
abbrev pub Closed : ℕ → ℕ → ℕ → Tally × Ending → Type 0
Closed k low n (t, finished) = (low ≤ tallied k t) × (tallied k t ≡ n)
Closed k low n (t, e) = (low ≤ tallied k t) × (tallied k t ≤ n)

module _ (fl : Float64) (draw : ℕ → ℕ) (p : RetryPolicy fl) (sk : Sink) (k low n : ℕ) where
  module _ (again : List (ℕ × Attempt) → List ℕ → Tally → Tally × Ending)
      (again-Closed : (attempts : List (ℕ × Attempt)) (rs : List ℕ) (t : Tally)
        → count k rs ≤ 1
        → low ≤ tallied k t
        → tallied k t + count k rs ≡ n
        → Closed k low n (again attempts rs t))
      (round : Round) (small : n ≤ low + 1) where
    after_sorting-Closed :
        (w : Sorting × Bool)
        → Placed k low n w
        → Closed k low n (after_sorting fl draw p sk again round w)
    unfolding after_sorting
    after_sorting-Closed (s, false) h = (h.0, omega (arith, h.1))
    after_sorting-Closed (s, true) h = elim (List-cases s.again) [
      | inl nothing ↦ rw nothing (h.0, omega (arith, h.1, ap (count k) nothing))
      | inr (r, rs, more) ↦ rw more (elim (Bool-cases round.cancelled) [
        | inl y ↦ rw y (h.0, omega (arith, h.1))
        | inr z ↦ rw z (
            again-Closed s.attempts (r ∷ rs) s.tally
              (omega (arith, h.1, h.0, small, ap (count k) more)) h.0
              (omega (arith, h.1, ap (count k) more)))
      ])
    ]

    after_writing-Closed :
        (attempts : List (ℕ × Attempt)) (rs : List ℕ) (base : ℕ) (w : Written)
        → count k rs ≤ 1
        → low ≤ base
        → base + count k rs ≡ n
        → Accounted k base n w
        → Closed k low n (after_writing fl draw p sk again round attempts rs w)
    unfolding after_writing
    after_writing-Closed attempts rs base (t, none) one b e h = (omega (arith, h.0), h.1)
    after_writing-Closed attempts rs base (t, some failed) one b e h =
        after_sorting-Closed (sort_failed fl draw p sk round failed rs (start_sorting attempts t)) (
          sort_failed-Placed fl draw p sk k low n round failed rs (start_sorting attempts t)
            (omega (arith, h.0)) (ground (arith, h.0, h.1)))

  pub write_set-Closed :
      (rounds : List Round) (attempts : List (ℕ × Attempt)) (rs : List ℕ) (t : Tally)
      → n ≤ low + 1
      → count k rs ≤ 1
      → low ≤ tallied k t
      → tallied k t + count k rs ≡ n
      → Closed k low n (write_set fl draw p sk rounds attempts rs t)
  unfolding write_set
  write_set-Closed [] attempts [] t small one b e = (b, omega arith)
  write_set-Closed [] attempts (r ∷ rs) t small one b e = (b, omega arith)
  write_set-Closed (round ∷ rounds) attempts [] t small one b e = (b, omega arith)
  write_set-Closed (round ∷ rounds) attempts (r ∷ rs) t small one b e =
      after_writing-Closed (write_set fl draw p sk rounds)
        (λ attempts' rs' t'. write_set-Closed rounds attempts' rs' t' small) round small attempts
        (r ∷ rs) (tallied k t) (write_once sk round (r ∷ rs) t) one b e
        (subst (λ m. Accounted k (tallied k t) m (write_once sk round (r ∷ rs) t)) e
          (write_once-Accounted k sk round (r ∷ rs) t one))
