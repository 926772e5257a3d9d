-- ===== src/Prelude/Assoc.antt =====
-- Go maps as association lists over numeric keys, with the laws that the components use.
use Prim.Native.Nat.{ℕ}
use mathlib.Core.Path.{◌≡◌, refl, ap, subst}
use mathlib.Core.Logic.{inl, inr}
use mathlib.Core.Option.{Option, none, some}
use mathlib.Core.List.{List, [], ◌∷◌}
use native.Mathlib.Omega.{arith}
use canal.Prelude.Lists.{All}
use canal.Prelude.Tests.{◌==◌, if◌then◌else◌, Bool-cases}

module _ {ℓ} {V : Type ℓ} where
  unfoldable pub lookup : ℕ → List (ℕ × V) → Option V
  lookup k [] = none
  lookup k ((key, v) ∷ rest) = if key == k then some v else lookup k rest

  -- m[k] = v
  unfoldable pub insert : ℕ → V → List (ℕ × V) → List (ℕ × V)
  insert k v [] = (k, v) ∷ []
  insert k v ((key, old) ∷ rest) = if key == k then (k, v) ∷ rest else (key, old) ∷ insert k v rest

  -- delete(m, k)
  unfoldable pub remove : ℕ → List (ℕ × V) → List (ℕ × V)
  remove k [] = []
  remove k ((key, old) ∷ rest) = if key == k then remove k rest else (key, old) ∷ remove k rest

  pub lookup-insert :
      (k key : ℕ) (v : V) (rest : List (ℕ × V))
      → lookup key (insert k v rest) ≡ (if k == key then some v else lookup key rest)
  unfolding lookup insert
  lookup-insert k key v [] = refl
  lookup-insert k key v ((other, old) ∷ rest) = ground (arith, lookup-insert k key v rest)

  pub lookup-remove :
      (k key : ℕ) (rest : List (ℕ × V))
      → lookup key (remove k rest) ≡ (if k == key then none else lookup key rest)
  unfolding lookup remove
  lookup-remove k key [] = ground arith
  lookup-remove k key ((other, old) ∷ rest) = ground (arith, lookup-remove k key rest)

  pub lookup-head : (k : ℕ) (v : V) (rest : List (ℕ × V)) → lookup k ((k, v) ∷ rest) ≡ some v
  unfolding lookup
  lookup-head k v rest = ground arith

  pub lookup-skip :
      (k key : ℕ) (v old : V) (rest : List (ℕ × V))
      → lookup key rest ≡ none
      → lookup k rest ≡ some v
      → lookup k ((key, old) ∷ rest) ≡ some v
  unfolding lookup
  lookup-skip k key v old rest out h = elim (Bool-cases (key == k)) [
    | inl y ↦
        let e : key ≡ k = ground arith in
        absurd (cc (subst (λ other. lookup other rest ≡ none) e out, h))
    | inr z ↦ rw z h
  ]

  -- No key twice.
  abbrev pub Distinct : List (ℕ × V) → Type ℓ
  Distinct [] = Unit
  Distinct ((k, v) ∷ rest) = (lookup k rest ≡ none) × Distinct rest

  pub Distinct-insert :
      (k : ℕ) (v : V) (rest : List (ℕ × V)) → Distinct rest → Distinct (insert k v rest)
  unfolding insert lookup
  Distinct-insert k v [] d = (refl, tt)
  Distinct-insert k v ((key, old) ∷ rest) d =
      ground (arith, lookup-insert k key v rest, Distinct-insert k v rest d.1)

  pub Distinct-remove : (k : ℕ) (rest : List (ℕ × V)) → Distinct rest → Distinct (remove k rest)
  unfolding remove
  Distinct-remove k [] d = tt
  Distinct-remove k ((key, old) ∷ rest) d =
      ground (arith, lookup-remove k key rest, Distinct-remove k rest d.1)

module _ {ℓ κ} {V : Type ℓ} where
  pub All-lookup :
      (P : ℕ × V → Type κ) (rest : List (ℕ × V))
      → Distinct rest
      → ((k : ℕ) (v : V) → lookup k rest ≡ some v → P (k, v))
      → All P rest
  All-lookup P [] d h = tt
  All-lookup P ((k, v) ∷ rest) d h = (
    h k v (lookup-head k v rest),
    All-lookup P rest d.1 (λ j u e. h j u (lookup-skip j k u v rest d.0 e)),
  )

module _ {ℓ} {V : Type ℓ} where
  pub remove-absent : (k : ℕ) (rest : List (ℕ × V)) → lookup k rest ≡ none → remove k rest ≡ rest
  unfolding lookup remove
  remove-absent k [] h = refl
  remove-absent k ((key, v) ∷ rest) h = elim (Bool-cases (key == k)) [
    | inl y ↦ absurd (cc (rw y at h))
    | inr z ↦ rw z (ap (λ m. (key, v) ∷ m) (remove-absent k rest (rw z at h)))
  ]
