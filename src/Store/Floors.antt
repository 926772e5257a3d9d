-- ===== src/Store/Floors.antt =====
-- The epochs of a state store by key: what raise does to every floor.
use canal.Prelude.{
  ℕ, ◌≡◌, refl, ap, inl, inr, List, arith, ltb, ◌==◌, if◌then◌else◌, Bool-cases, Option-cases,
}
use canal.Prelude.Assoc.{lookup, insert, lookup-insert}
use canal.Store.{or_zero, floor, raise, is_below}

floor-insert :
    (k j e : ℕ) (m : List (ℕ × ℕ)) → floor j (insert k e m) ≡ (if k == j then e else floor j m)
unfolding floor
floor-insert k j e m = elim (Bool-cases (k == j)) [
  | inl y ↦ rw y (ap or_zero (rw y at (lookup-insert k j e m)))
  | inr z ↦ rw z (ap or_zero (rw z at (lookup-insert k j e m)))
]

pub floor-raise :
    (k j e : ℕ) (m : List (ℕ × ℕ))
    → floor j (raise k e m)
      ≡ (if k == j then (if ltb (floor j m) e then e else floor j m) else floor j m)
unfolding raise
floor-raise k j e m = elim (Bool-cases (k == j)) [
  | inl y ↦ let q : k ≡ j = ground arith in rw y (ground (arith, floor-insert k j e m, q))
  | inr z ↦ rw z (ground (arith, floor-insert k j e m))
]

-- A test against the floor of a missing key is the test against 0.
pub is_below-floor : (e k : ℕ) (m : List (ℕ × ℕ)) → is_below e k m ≡ ltb e (floor k m)
unfolding is_below floor
is_below-floor e k m = elim (Option-cases (lookup k m)) [
  | inl n ↦ rw (n, is_below, floor) (ground arith)
  | inr (v, n) ↦ rw (n, is_below, floor) refl
]
