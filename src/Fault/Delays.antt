-- ===== src/Fault/Delays.antt =====
-- The delay that RetryPolicy.Next answers with.
use canal.Prelude.{
  ℕ, ◌+◌, ◌-◌, ◌^◌, ◌≤◌, ◌<◌, ◌≡◌, subst, Bool, true, false, some, ◌&&◌, ◌||◌, ltb, leb, ◌==◌, inl,
  inr, Bool-cases, arith,
}
use canal.Fault.Policy.{
  Float64, Backoff, RetryPolicy, growth, ceiling, raised, capped, exponential, next,
}

module _ (fl : Float64) where
  open fl use {
    of_int, le, times, pow, to_int, of_int_exact, of_int_le, one_pos, to_int_le, to_int_pos,
    le_trans, pow_ge_one, times_ge_one, times_zero,
  }

  one-le-growth : (b : Backoff fl) → le (of_int 1) (growth fl b) ≡ true
  unfolding growth
  one-le-growth b = elim (Bool-cases (le (of_int 1) b.multiplier)) [
    | inl y ↦ rw y y
    | inr z ↦ rw z (of_int_le 1 1 (omega arith))
  ]

  one-le-ceiling : (b : Backoff fl) → 1 ≤ ceiling fl b
  unfolding ceiling
  one-le-ceiling b = ground arith

  raised-ge-one :
      (b : Backoff fl) (n c : ℕ)
      → le (raised fl b n) (of_int c) ≡ true
      → le (raised fl b n) (of_int 0) ≡ false
      → le (of_int 1) (raised fl b n) ≡ true
  unfolding raised
  raised-ge-one b n c below pos =
      let big = pow_ge_one (growth fl b) (n - 1) (one-le-growth b) in
      elim (Bool-cases (b.initial == 0)) [
        | inl y ↦
            let zero_initial : b.initial ≡ 0 = ground arith in
            let zero_raised = times_zero (pow (growth fl b) (n - 1)) (of_int c) big (
              subst (λ (k : ℕ). le (times (of_int k) (pow (growth fl b) (n - 1))) (of_int c) ≡ true)
                zero_initial below) in
            absurd (
              cc (
                zero_raised,
                subst
                    (λ (k : ℕ).
                      le (times (of_int k) (pow (growth fl b) (n - 1))) (of_int 0) ≡ false)
                    zero_initial pos,
              ))
        | inr z ↦ times_ge_one (of_int b.initial) _ (of_int_le 1 b.initial (ground arith)) big
      ]

  capped_range :
      (x : fl.F) (c : ℕ)
      → 1 ≤ c
      → c ≤ 2 ^ 53
      → (le x (of_int c) ≡ true → le x (of_int 0) ≡ false → le (of_int 1) x ≡ true)
      → le (capped fl x c) (of_int 0) ≡ false
      → (0 < to_int (capped fl x c)) × (to_int (capped fl x c) ≤ c)
  unfolding capped
  capped_range x c some_c small ge pos = elim (Bool-cases (le x (of_int c))) [
    | inl y ↦ rw y (to_int_pos x c small (ge y (rw y at pos)) y, to_int_le x c small y)
    | inr z ↦ rw (z, of_int_exact c small) (some_c, ground arith)
  ]

  exponential_range :
      (b : Backoff fl) (n : ℕ)
      → ceiling fl b ≤ 2 ^ 53
      → le (exponential fl b n) (of_int 0) ≡ false
      → (0 < to_int (exponential fl b n)) × (to_int (exponential fl b n) ≤ ceiling fl b)
  unfolding exponential
  exponential_range b n small pos =
      capped_range (raised fl b n) (ceiling fl b) (one-le-ceiling b) small
        (raised-ge-one b n (ceiling fl b)) pos

  -- What the answer of Next promises.
  abbrev pub Answers : (RetryPolicy fl) → ℕ → ℕ × Bool → Type 0
  Answers p n (delay, more) =
      (delay ≤ ceiling fl p.backoff) × (more ≡ (leb 1 n && ltb n p.max_attempts))

  module _ (draw : ℕ → ℕ) (draw_lt : (n : ℕ) → 0 < n → draw n < n) where
    -- Next does not panic, whatever the policy and the attempt, if the policy's ceiling is at most 2^53
    -- nanoseconds; the delay is at most that ceiling, and another attempt is permitted exactly if
    -- fewer than max_attempts have failed, and one has.
    pub next-Answers :
        (p : RetryPolicy fl) (n : ℕ)
        → ceiling fl p.backoff ≤ 2 ^ 53
        → (answer : ℕ × Bool) × (next fl draw p n ≡ some answer) × Answers p n answer
    unfolding next
    next-Answers p n small = elim (Bool-cases (ltb n 1 || leb p.max_attempts n)) [
      | inl out ↦ ((0, false), rw out, (ground arith, ground arith))
      | inr in_range ↦ elim (Bool-cases (le (exponential fl p.backoff n) (of_int 0))) [
        | inl none_left ↦ ((0, true), rw (in_range, none_left), (ground arith, ground arith))
        | inr pos ↦
            let range = exponential_range p.backoff n small pos in
            let drawn = draw_lt (to_int (exponential fl p.backoff n)) range.0 in
            (
              (draw (to_int (exponential fl p.backoff n)) + 1, true),
              rw (in_range, pos) (ground arith),
              (omega arith, ground arith),
            )
      ]
    ]
