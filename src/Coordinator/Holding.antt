-- ===== src/Coordinator/Holding.antt =====
-- The leases of internal/example/memstore/coordinator.go: a lease that is held stays so while other
-- workers call.
use canal.Prelude.{
  ℕ, ◌+◌, ◌<◌, ◌≡◌, ◌≢◌, ◌⊎◌, refl, sym, ap, subst, ◌∙◌, inl, inr, true, false, ◌||◌, none, some,
  List, [], ◌∷◌, arith, ltb, add64, ◌==◌, Bool-cases, Option-cases, All,
}
use canal.Prelude.Assoc.{lookup, insert, lookup-insert}
use canal.Coordinator.{
  Row, Lease, Coordinator, default_reassignment_delay, holder, grant, is_taken, is_current, claim,
  renew, release, Call, claims, renews, releases, step, run,
}

-- Row `a` is held by worker `w` at epoch `e` until the time `x`.
pub record Held (c : Coordinator) (a w e x : ℕ) : Type 0 where
  pub row : Row
  pub found : lookup a c.rows ≡ some row
  pub worker : row.worker ≡ w
  pub epoch : row.epoch ≡ e
  pub expires : row.expires ≡ x
  pub named : w ≢ 0

-- A call that is not the holder's own: a claim of the row by another worker, before the delay after
-- the lease is over, or a renewal or release of another lease. Calls on other rows are free.
abbrev pub Rival : ℕ → ℕ → ℕ → ℕ → Call → Type 0
Rival a w e x (claims b v ttl now) = b ≡ a → (v ≢ w) × (now < x + default_reassignment_delay)
Rival a w e x (renews l now) = l.assignment ≡ a → (l.worker ≢ w) ⊎ (l.epoch ≢ e)
Rival a w e x (releases l) = l.assignment ≡ a → (l.worker ≢ w) ⊎ (l.epoch ≢ e)

Held-other :
    (c : Coordinator) (a w e x b : ℕ) (r : Row) (n : ℕ)
    → (b == a) ≡ false
    → Held c a w e x
    → Held (record { rows = insert b r c.rows; epoch = n }) a w e x
Held-other c a w e x b r n z h = record {
  row = h.row;
  found = lookup-insert b a r c.rows ∙ rw z h.found;
  worker = h.worker;
  epoch = h.epoch;
  expires = h.expires;
  named = h.named;
}

taken :
    (r : Row) (w v x now : ℕ)
    → r.worker ≡ w
    → r.expires ≡ x
    → w ≢ 0
    → v ≢ w
    → now < x + default_reassignment_delay
    → is_taken r v now ≡ true
unfolding holder
taken r w v x now p q n d l = ground arith

pub claim-taken :
    (c : Coordinator) (a w e x v ttl now : ℕ)
    → Held c a w e x
    → v ≢ w
    → now < x + default_reassignment_delay
    → claim c a v ttl now ≡ (c, none)
unfolding claim
claim-taken c a w e x v ttl now h d l = elim (Bool-cases (v == 0)) [
  | inl y ↦ rw (y, claim) refl
  | inr z ↦ elim (Bool-cases (h.row.gated || h.row.finished)) [
    | inl g ↦ rw (z, h.found, claim, g) refl
    | inr g ↦ rw (z, h.found, claim, g, taken h.row w v x now h.worker h.expires h.named d l) refl
  ]
]

stale :
    (r : Row) (l : Lease) (w e : ℕ)
    → r.worker ≡ w
    → r.epoch ≡ e
    → (l.worker ≢ w) ⊎ (l.epoch ≢ e)
    → is_current r l ≡ false
stale r l w e p q (inl d) = ground arith
stale r l w e p q (inr d) = ground arith

claim-Held :
    (c : Coordinator) (a w e x b v ttl now : ℕ)
    → Rival a w e x (claims b v ttl now)
    → Held c a w e x
    → Held (claim c b v ttl now).0 a w e x
unfolding claim
claim-Held c a w e x b v ttl now k h = elim (Bool-cases (b == a)) [
  | inl y ↦
      let q : b ≡ a = ground arith in
      subst (λ i. Held (claim c i v ttl now).0 a w e x) (sym q)
        (rw (claim-taken c a w e x v ttl now h (k q).0 (k q).1) h)
  | inr other ↦ elim (Bool-cases (v == 0)) [
    | inl y ↦ rw (y, claim) h
    | inr z ↦ elim (Option-cases (lookup b c.rows)) [
      | inl f ↦ rw (z, f, claim) h
      | inr (r, f) ↦ elim (Bool-cases (r.gated || r.finished)) [
        | inl g ↦ rw (z, f, claim, g) h
        | inr g ↦ elim (Bool-cases (is_taken r v now)) [
          | inl t ↦ rw (z, f, claim, g, t) h
          | inr t ↦
              rw (z, f, claim, g, t)
                (unfold grant in Held-other c a w e x b _ (add64 c.epoch 1) other h)
        ]
      ]
    ]
  ]
]

renew-Held :
    (c : Coordinator) (a w e x : ℕ) (l : Lease) (now : ℕ)
    → Rival a w e x (renews l now)
    → Held c a w e x
    → Held (renew c l now).0 a w e x
unfolding renew
renew-Held c a w e x l now k h = elim (Bool-cases (l.assignment == a)) [
  | inl y ↦
      let q : l.assignment ≡ a = ground arith in
      let f : lookup l.assignment c.rows ≡ some h.row = ap (λ i. lookup i c.rows) q ∙ h.found in
      rw (f, renew, stale h.row l w e h.worker h.epoch (k q)) h
  | inr other ↦ elim (Option-cases (lookup l.assignment c.rows)) [
    | inl f ↦ rw (f, renew) h
    | inr (r, f) ↦ elim (Bool-cases (is_current r l)) [
      | inr t ↦ rw (f, renew, t) h
      | inl t ↦ elim (Bool-cases (ltb now r.expires)) [
        | inr late ↦ rw (f, renew, t, late) h
        | inl live ↦ rw (f, renew, t, live) (Held-other c a w e x l.assignment _ c.epoch other h)
      ]
    ]
  ]
]

release-Held :
    (c : Coordinator) (a w e x : ℕ) (l : Lease)
    → Rival a w e x (releases l)
    → Held c a w e x
    → Held (release c l).0 a w e x
unfolding release
release-Held c a w e x l k h = elim (Bool-cases (l.assignment == a)) [
  | inl y ↦
      let q : l.assignment ≡ a = ground arith in
      let f : lookup l.assignment c.rows ≡ some h.row = ap (λ i. lookup i c.rows) q ∙ h.found in
      rw (f, release, stale h.row l w e h.worker h.epoch (k q)) h
  | inr other ↦ elim (Option-cases (lookup l.assignment c.rows)) [
    | inl f ↦ rw (f, release) h
    | inr (r, f) ↦ elim (Bool-cases (is_current r l)) [
      | inr t ↦ rw (f, release, t) h
      | inl t ↦ rw (f, release, t) (Held-other c a w e x l.assignment _ c.epoch other h)
    ]
  ]
]

pub run-Held :
    (c : Coordinator) (a w e x : ℕ) (os : List Call)
    → All (Rival a w e x) os
    → Held c a w e x
    → Held (run c os) a w e x
unfolding run step
run-Held c a w e x [] k h = h
run-Held c a w e x (claims b v ttl now ∷ os) k h =
    run-Held (claim c b v ttl now).0 a w e x os k.1 (claim-Held c a w e x b v ttl now k.0 h)
run-Held c a w e x (renews l now ∷ os) k h =
    run-Held (renew c l now).0 a w e x os k.1 (renew-Held c a w e x l now k.0 h)
run-Held c a w e x (releases l ∷ os) k h =
    run-Held (release c l).0 a w e x os k.1 (release-Held c a w e x l k.0 h)
