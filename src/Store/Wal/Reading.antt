-- ===== src/Store/Wal/Reading.antt =====
-- The cursor of pkg/store/wal/format.go: what one read gives back, and how reads follow each other.
use mathlib.Core.List.{append_assoc}
use native.Mathlib.Nat.{pow-suc}
use canal.Prelude.{
  ℕ, zero, suc, ◌+◌, ◌*◌, ◌/◌, ◌%◌, ◌^◌, ◌≤◌, ◌<◌, ◌≡◌, refl, ap, ◌∙◌, Bool, true, false, Option,
  none, some, List, [], ◌∷◌, ◌++◌, ltb, inl, inr, Bool-cases, length, length-append, All, arith,
}
use canal.Store.Wal.Format.{
  uvarint, append_uvarint, append_bytes, append_all, Read, ◌>>=◌, ◌>>◌, pure, get_uvarint,
  read_uvarint, split_at, read_bytes, repeat, fits, check_that,
}

-- The bytes are read as the value, whatever stands behind them.
abbrev pub Reads : {A : Type 0} → Read A → A → List ℕ → Type 0
Reads r a bs = (rest : List ℕ) → r (bs ++ rest) ≡ some (a, rest)

uvarint-Reads : (left v : ℕ) → v < 2 * 128 ^ left → Reads (get_uvarint left) v (uvarint left v)
unfolding get_uvarint uvarint
uvarint-Reads zero v h rest = ground arith
uvarint-Reads (suc left) v h rest = elim (Bool-cases (ltb v 128)) [
  | inl y ↦ rw (y, y) refl
  | inr z ↦
      let top : ltb (v % 128 + 128) 128 ≡ false = ground arith in
      let most : v / 128 < 2 * 128 ^ left = omega (arith, pow-suc 128 left) in
      rw (z, top, uvarint-Reads left (v / 128) most rest)
        (ap (λ (n : ℕ). some (n, rest)) (omega arith))
]

module _ {A B : Type 0} where
  pub >>=-Reads :
      (r : Read A) (f : A → Read B) (a : A) (b : B) (bs cs : List ℕ)
      → Reads r a bs
      → Reads (f a) b cs
      → Reads (r >>= f) b (bs ++ cs)
  >>=-Reads r f a b bs cs h k rest =
      ap (r >>= f) (append_assoc bs cs rest)
      ∙ ap (λ (o : Option (A × List ℕ)). elim o [ none ↦ none | some (c, left) ↦ f c left ])
          (h (cs ++ rest))
      ∙ k rest

pub split_at-Reads : (v : List ℕ) → Reads (split_at (length v)) v v
unfolding split_at
split_at-Reads [] rest = refl
split_at-Reads (b ∷ v) rest = rw (split_at-Reads v rest) refl

pub read_uvarint-Reads : (v : ℕ) → v < 2 ^ 64 → Reads read_uvarint v (append_uvarint v)
unfolding read_uvarint append_uvarint
read_uvarint-Reads v h = uvarint-Reads 9 v (omega arith)

pub read_bytes-Reads : (v : List ℕ) → length v < 2 ^ 64 → Reads read_bytes v (append_bytes v)
unfolding read_bytes append_bytes
read_bytes-Reads v h =
    >>=-Reads read_uvarint split_at (length v) v (append_uvarint (length v)) v
      (read_uvarint-Reads (length v) h) (split_at-Reads v)

module _ {A B : Type 0} where
  -- A value that is given without a read.
  pub pure-Reads :
      (f : A → B) (r : Read A) (a : A) (bs : List ℕ)
      → Reads r a bs
      → Reads (r >>= λ x. pure (f x)) (f a) bs
  pure-Reads f r a bs h rest =
      ap (λ (o : Option (A × List ℕ)). elim o [ none ↦ none | some (c, left) ↦ some (f c, left) ])
        (h rest)

module _ {B : Type 0} where
  after-guard :
      (g : Read (Unit {0})) (s : Read B) (b : B) (bs rest : List ℕ)
      → g (bs ++ rest) ≡ some (tt, bs ++ rest)
      → Reads s b bs
      → (g >> s) (bs ++ rest) ≡ some (b, rest)
  after-guard g s b bs rest h k =
      ap (λ (o : Option (Unit {0} × List ℕ)). elim o [ none ↦ none | some (c, left) ↦ s left ]) h
      ∙ k rest

  pub fits-Reads :
      (n : ℕ) (s : Read B) (b : B) (bs : List ℕ)
      → n ≤ length bs
      → Reads s b bs
      → Reads (fits n >> s) b bs
  unfolding fits
  fits-Reads n s b bs h k rest =
      let room : ltb (length (bs ++ rest)) n ≡ false = ground (arith, length-append bs rest) in
      after-guard (fits n) s b bs rest (rw room refl) k

  pub check_that-Reads :
      (ok : Bool) (s : Read B) (b : B) (bs : List ℕ)
      → ok ≡ true
      → Reads s b bs
      → Reads (check_that ok >> s) b bs
  unfolding check_that
  check_that-Reads ok s b bs h k rest = after-guard (check_that ok) s b bs rest (rw h refl) k

module _ {A : Type 0} (f : A → List ℕ) (r : Read A) where
  pub repeat-Reads :
      (items : List A)
      → All (λ a. Reads r a (f a)) items
      → Reads (repeat (length items) r) items (append_all f items)
  unfolding repeat append_all
  repeat-Reads [] h rest = refl
  repeat-Reads (a ∷ items) h rest =
      >>=-Reads r _ a (a ∷ items) (f a) (append_all f items) h.0
        (pure-Reads (λ more. a ∷ more) (repeat (length items) r) items (append_all f items)
          (repeat-Reads items h.1))
        rest

pub append_all-length :
    {A : Type 0} (f : A → List ℕ) (items : List A)
    → ((a : A) → 1 ≤ length (f a))
    → length items ≤ length (append_all f items)
unfolding append_all
append_all-length f [] h = omega arith
append_all-length f (a ∷ items) h =
    omega (arith, length-append (f a) (append_all f items), h a, append_all-length f items h)

uvarint-length : (left v : ℕ) → 1 ≤ length (uvarint left v)
unfolding uvarint
uvarint-length zero v = omega arith
uvarint-length (suc left) v = ground arith

pub append_bytes-length : (v : List ℕ) → 1 ≤ length (append_bytes v)
unfolding append_bytes append_uvarint
append_bytes-length v =
    omega (arith, length-append (uvarint 9 (length v)) v, uvarint-length 9 (length v))
