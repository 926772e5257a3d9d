-- ===== src/Fault/Whole.antt =====
-- Whole numbers in the place of the floating point numbers of pkg/fault.
use native.Mathlib.Nat.{pow-suc, pow-zero}
use canal.Prelude.{ℕ, zero, suc, ◌*◌, ◌^◌, ◌≤◌, ◌<◌, ◌≡◌, refl, true, false, leb, leb→le, arith}
use canal.Fault.Policy.{Float64}

pub leb-true : (m n : ℕ) → m ≤ n → leb m n ≡ true
leb-true m n h = ground arith

pub leb-pos : (x : ℕ) → leb 1 x ≡ true → leb x 0 ≡ false
leb-pos x h = ground arith

pub leb_trans : (x y z : ℕ) → leb x y ≡ true → leb y z ≡ true → leb x z ≡ true
leb_trans x y z h k = ground arith

pub times-pos : (x y : ℕ) → leb 1 x ≡ true → leb 1 y ≡ true → leb 1 (x * y) ≡ true
times-pos x y h k = leb-true 1 (x * y) (le_times x y (leb→le 1 x h) (leb→le 1 y k))
  where
    le_times : (a b : ℕ) → 1 ≤ a → 1 ≤ b → 1 ≤ a * b
    le_times a b p q = grind arith

pub times-zero : (y z : ℕ) → leb (0 * y) z ≡ true → leb (0 * y) 0 ≡ true
times-zero y z h = leb-true (0 * y) 0 (omega arith)

pub pow-pos : (x k : ℕ) → leb 1 x ≡ true → leb 1 (x ^ k) ≡ true
pow-pos x zero h = leb-true 1 (x ^ 0) (omega (arith, pow-zero x))
pow-pos x (suc k) h = rw (pow-suc x k) (times-pos (x ^ k) x (pow-pos x k h) h)

abbrev pub whole : Float64
whole = record {
  F = ℕ;
  of_int = λ n. n;
  le = leb;
  times = λ x y. x * y;
  pow = λ x k. x ^ k;
  to_int = λ n. n;
  of_int_exact = λ n h. refl;
  of_int_le = λ m n h. leb-true m n h;
  one_pos = leb-pos;
  to_int_le = λ x n h k. leb→le x n k;
  to_int_pos = λ x n h k l. leb→le 1 x k;
  le_trans = leb_trans;
  pow_ge_one = pow-pos;
  times_ge_one = times-pos;
  times_zero = λ y z h k. times-zero y z k;
}

-- Always the least delay.
abbrev pub least : ℕ → ℕ
least n = 0

pub least-lt : (n : ℕ) → 0 < n → least n < n
least-lt n h = h
