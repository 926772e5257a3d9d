-- ===== src/Write/Requests.antt =====
-- The requests of one round of internal/engine/write.go: each record of them is settled, held or failed,
-- once.
use canal.Prelude.{
  ℕ, ◌+◌, ◌≤◌, ◌≡◌, refl, Option, none, some, List, [], ◌∷◌, ◌++◌, ◌==◌, ◌||◌, ◌⊎◌, subst,
  if◌then◌else◌, inl, inr, Bool-cases, Option-cases, arith,
}
use canal.Prelude.Assoc.{lookup, insert, lookup-insert}
use canal.Fault.{Error}
use canal.Write.{
  defers_durability, WriteResult, Reply, refused, answered, Tally, Sink, fail_all, landed,
  fail_named, settle_or_hold,
}

abbrev pub count : ℕ → List ℕ → ℕ
count k [] = 0
count k (r ∷ rs) = (if r == k then 1 else 0) + count k rs

abbrev pub count_all : ℕ → List (List ℕ) → ℕ
count_all k [] = 0
count_all k (rq ∷ rqs) = count k rq + count_all k rqs

abbrev pub is_some {ℓ} : {A : Type ℓ} → Option A → ℕ
is_some none = 0
is_some (some a) = 1

-- 1 if the record is among the failed ones.
abbrev pub present : ℕ → List (ℕ × Error) → ℕ
present k failed = is_some (lookup k failed)

-- How often a record has been settled or is held.
abbrev pub tallied : ℕ → Tally → ℕ
tallied k t = count k t.settled + count k t.held + count k t.abandoned

pub count-append : (k : ℕ) (l r : List ℕ) → count k (l ++ r) ≡ count k l + count k r
count-append k [] r = omega arith
count-append k (a ∷ l) r = omega (arith, count-append k l r)

present-insert :
    (k r : ℕ) (e : Error) (failed : List (ℕ × Error))
    → present k (insert r e failed) ≡ (if r == k then 1 else present k failed)
present-insert k r e failed = ground (arith, lookup-insert r k e failed)

pub present-fail_all :
    (k : ℕ) (e : Error) (rs : List ℕ) (failed : List (ℕ × Error))
    → present k (fail_all e rs failed) ≡ (if count k rs == 0 then present k failed else 1)
unfolding fail_all
present-fail_all k e [] failed = refl
present-fail_all k e (r ∷ rs) failed =
    ground (arith, present-fail_all k e rs (insert r e failed), present-insert k r e failed)

pub present-fail_named :
    (k : ℕ) (named : List (ℕ × Error)) (rs : List ℕ) (failed : List (ℕ × Error))
    → present k (fail_named named rs failed)
      ≡ (if count k rs == 0 || present k named == 0 then present k failed else 1)
unfolding fail_named
present-fail_named k named [] failed = refl
present-fail_named k named (r ∷ rs) failed = elim (Bool-cases (r == k)) [
  | inl y ↦
      let e : r ≡ k = ground arith in
      elim (Option-cases (lookup r named)) [
        | inl n ↦ ground (
          arith,
          present-fail_named k named rs failed,
          subst (λ key. lookup key named ≡ none) e n,
        )
        | inr (err, n) ↦ ground (
          arith,
          present-fail_named k named rs (insert r err failed),
          present-insert k r err failed,
          subst (λ key. lookup key named ≡ some err) e n,
        )
      ]
  | inr z ↦ elim (Option-cases (lookup r named)) [
    | inl n ↦ ground (arith, present-fail_named k named rs failed, n)
    | inr (err, n) ↦ ground (
      arith,
      present-fail_named k named rs (insert r err failed),
      present-insert k r err failed,
      n,
    )
  ]
]

pub count-landed :
    (k : ℕ) (named : List (ℕ × Error)) (rs : List ℕ)
    → count k (landed named rs) ≡ (if present k named == 0 then count k rs else 0)
unfolding landed
count-landed k named [] = ground arith
count-landed k named (r ∷ rs) = elim (Bool-cases (r == k)) [
  | inl y ↦
      let e : r ≡ k = ground arith in
      elim (Option-cases (lookup r named)) [
        | inl n ↦
            ground (arith, count-landed k named rs, subst (λ key. lookup key named ≡ none) e n)
        | inr (err, n) ↦
            ground (arith, count-landed k named rs, subst (λ key. lookup key named ≡ some err) e n)
      ]
  | inr z ↦ elim (Option-cases (lookup r named)) [
    | inl n ↦ ground (arith, count-landed k named rs)
    | inr (err, n) ↦ ground (arith, count-landed k named rs)
  ]
]

pub settle_or_hold-tallied :
    (k : ℕ) (sk : Sink) (rs : List ℕ) (t : Tally)
    → tallied k (settle_or_hold sk rs t) ≡ tallied k t + count k rs
unfolding settle_or_hold
settle_or_hold-tallied k sk rs t = elim (Bool-cases (defers_durability sk)) [
  | inl y ↦ rw y (omega (arith, count-append k t.held rs))
  | inr z ↦ rw z (omega (arith, count-append k t.settled rs))
]

-- A record of an answered request: it is in the landed ones or becomes one of the failed.
pub answered-once :
    (k : ℕ) (sk : Sink) (named : List (ℕ × Error)) (rq : List ℕ) (failed : List (ℕ × Error))
    (t : Tally)
    → present k failed + count k rq ≤ 1
    → tallied k (settle_or_hold sk (landed named rq) t) + present k (fail_named named rq failed)
      ≡ tallied k t + (present k failed + count k rq)
answered-once k sk named rq failed t h =
    rw
      (
        settle_or_hold-tallied k sk (landed named rq) t,
        count-landed k named rq,
        present-fail_named k named rq failed,
      )
      (ground arith)

pub refused-once :
    (k : ℕ) (e : Error) (rq : List ℕ) (failed : List (ℕ × Error))
    → present k failed + count k rq ≤ 1
    → present k (fail_all e rq failed) ≡ present k failed + count k rq
refused-once k e rq failed h = rw (present-fail_all k e rq failed) (ground arith)

pub Reply-cases :
    (r : Reply) → ((e : Error) × (r ≡ refused e)) ⊎ ((res : WriteResult) × (r ≡ answered res))
Reply-cases (refused e) = inl (e, refl)
Reply-cases (answered res) = inr (res, refl)

pub List-cases : (l : List ℕ) → (l ≡ []) ⊎ ((r : ℕ) × (rs : List ℕ) × (l ≡ r ∷ rs))
List-cases [] = inl refl
List-cases (r ∷ rs) = inr (r, rs, refl)
