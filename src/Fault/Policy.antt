-- ===== src/Fault/Policy.antt =====
-- pkg/fault/retry.go: the retry policy, its validation, and the delay before the next attempt. A
-- duration is a number of nanoseconds; the code treats a negative one, and a negative count, as 0.
-- Floating point and the random draw are parameters.
use canal.Prelude.{
  ℕ, ◌+◌, ◌-◌, ◌^◌, ◌≤◌, ◌<◌, ◌≡◌, Bool, true, false, not, Option, none, some, ◌&&◌, ◌||◌, ltb, leb,
  ◌==◌, if◌then◌else◌,
}

pub data Terminal : Type 0 where
  invalid dead_letter drop stop : Terminal

pub data Indeterminacy : Type 0 where
  stall retry dead_letter_it : Indeterminacy

abbrev pub is_invalid : Terminal → Bool
is_invalid invalid = true
is_invalid t = false

-- What the policy needs of float64. The laws are those of IEEE 754: whole numbers of nanoseconds
-- below 2^53 are exact, a comparison with NaN is false, and a conversion to int64 rounds towards 0.
pub record Float64 : Type 1 where
  pub F : Type 0
  pub of_int : ℕ → F
  pub le : F → F → Bool
  pub times : F → F → F
  pub pow : F → ℕ → F
  pub to_int : F → ℕ
  pub of_int_exact : (n : ℕ) → n ≤ 2 ^ 53 → to_int (of_int n) ≡ n
  pub of_int_le : (m n : ℕ) → m ≤ n → le (of_int m) (of_int n) ≡ true
  pub one_pos : (x : F) → le (of_int 1) x ≡ true → le x (of_int 0) ≡ false
  pub to_int_le : (x : F) (n : ℕ) → n ≤ 2 ^ 53 → le x (of_int n) ≡ true → to_int x ≤ n
  pub to_int_pos :
      (x : F) (n : ℕ) → n ≤ 2 ^ 53 → le (of_int 1) x ≡ true → le x (of_int n) ≡ true → 0 < to_int x
  pub le_trans : (x y z : F) → le x y ≡ true → le y z ≡ true → le x z ≡ true
  pub pow_ge_one : (x : F) (k : ℕ) → le (of_int 1) x ≡ true → le (of_int 1) (pow x k) ≡ true
  pub times_ge_one :
      (x y : F) → le (of_int 1) x ≡ true → le (of_int 1) y ≡ true → le (of_int 1) (times x y) ≡ true
  pub times_zero :
      (y z : F)
      → le (of_int 1) y ≡ true
      → le (times (of_int 0) y) z ≡ true
      → le (times (of_int 0) y) (of_int 0) ≡ true

abbrev pub unbounded_ceiling : ℕ
unbounded_ceiling = 3600000000000

module _ (fl : Float64) where
  open fl use {F, of_int, le, times, pow, to_int}

  pub record Backoff : Type 0 where
    pub initial : ℕ
    pub max : ℕ
    pub max_elapsed : ℕ
    pub multiplier : F

  pub record RetryPolicy : Type 0 where
    pub max_attempts : ℕ
    pub backoff : Backoff
    pub at_end : Terminal
    pub on_indeterminate : Indeterminacy

  -- Validate, where it finds nothing to report.
  unfoldable pub validate : RetryPolicy → Bool
  validate p =
      leb 1 p.max_attempts
      && not (is_invalid p.at_end)
      && (not (ltb 1 p.max_attempts)
          || (ltb 0 p.backoff.initial
              && leb p.backoff.initial p.backoff.max
              && le (of_int 1) p.backoff.multiplier))

  unfoldable pub growth : Backoff → F
  growth b = if le (of_int 1) b.multiplier then b.multiplier else of_int 1

  unfoldable pub ceiling : Backoff → ℕ
  ceiling b = if b.max == 0 then unbounded_ceiling else b.max

  unfoldable pub raised : Backoff → ℕ → F
  unfolding growth
  raised b n = times (of_int b.initial) (pow (growth b) (n - 1))

  -- NaN, too, becomes the ceiling.
  unfoldable pub capped : F → ℕ → F
  capped x c = if le x (of_int c) then x else of_int c

  unfoldable pub exponential : Backoff → ℕ → F
  unfolding raised ceiling capped
  exponential b n = capped (raised b n) (ceiling b)

  -- What Next returns, or none where it panics: `draw` is rand.Int64N, which panics at 0.
  unfoldable pub next : (ℕ → ℕ) → RetryPolicy → ℕ → Option (ℕ × Bool)
  unfolding exponential
  next draw p n =
      if ltb n 1 || leb p.max_attempts n
      then some (0, false)
      else if le (exponential p.backoff n) (of_int 0)
      then some (0, true)
      else if to_int (exponential p.backoff n) == 0
      then none
      else some (draw (to_int (exponential p.backoff n)) + 1, true)

  abbrev pub default_backoff : Backoff
  default_backoff = record {
    initial = 100000000;
    max = 5000000000;
    max_elapsed = 0;
    multiplier = of_int 2;
  }

  abbrev pub default_retry : RetryPolicy
  default_retry = record {
    max_attempts = 4;
    backoff = default_backoff;
    at_end = stop;
    on_indeterminate = stall;
  }
