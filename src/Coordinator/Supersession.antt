-- ===== src/Coordinator/Supersession.antt =====
-- Renew and Release of internal/example/memstore/coordinator.go: a lease that was superseded by a
-- later claim does not come back.
use canal.Prelude.{
  ℕ, ◌+◌, ◌<◌, ◌≤◌, ◌≡◌, ◌≢◌, refl, sym, ap, subst, inl, inr, false, ◌||◌, none, some, List, [],
  ◌∷◌, arith, ltb, ◌==◌, add64, word64, Bool-cases, Option-cases, length,
}
use canal.Prelude.Assoc.{lookup, insert, lookup-insert}
use canal.Coordinator.{
  Row, Lease, Coordinator, lease_of, grant, is_taken, is_current, claim, renew, release, Call,
  claims, renews, releases, step, run,
}
use canal.Coordinator.Holding.{Held}
use canal.Coordinator.Exclusion.{claim-Granted}

-- The epoch of the lease was given out, and its row is not held at that epoch.
record Stale (c : Coordinator) (l : Lease) : Type 0 where
  given : l.epoch ≤ c.epoch
  named : 0 < l.epoch
  gone : (r : Row) → lookup l.assignment c.rows ≡ some r → r.epoch ≢ l.epoch

Stale-set :
    (c : Coordinator) (l : Lease) (b : ℕ) (r : Row) (n : ℕ)
    → (b ≡ l.assignment → r.epoch ≢ l.epoch)
    → l.epoch ≤ n
    → Stale c l
    → Stale (record { rows = insert b r c.rows; epoch = n }) l
Stale-set c l b r n k g h = record {
  given = g;
  named = h.named;
  gone = λ q e. elim (Bool-cases (b == l.assignment)) [
    | inl y ↦
        let same : r ≡ q = cc (rw (lookup-insert b l.assignment r c.rows, y) at e) in
        subst (λ x. x.epoch ≢ l.epoch) same (k (ground arith))
    | inr z ↦ h.gone q (rw (lookup-insert b l.assignment r c.rows, z) at e)
  ];
}

grant-Stale :
    (c : Coordinator) (l : Lease) (b : ℕ) (r : Row) (v ttl now : ℕ)
    → c.epoch + 1 < word64
    → Stale c l
    → Stale (grant c b r v ttl now).0 l × ((grant c b r v ttl now).0.epoch ≤ c.epoch + 1)
unfolding grant
grant-Stale c l b r v ttl now s h = (
  Stale-set c l b _ (add64 c.epoch 1) (λ q e. omega (arith, e, h.given, s))
      (omega (arith, h.given, s)) h,
  omega arith,
)

claim-Stale :
    (c : Coordinator) (l : Lease) (b v ttl now : ℕ)
    → c.epoch + 1 < word64
    → Stale c l
    → Stale (claim c b v ttl now).0 l × ((claim c b v ttl now).0.epoch ≤ c.epoch + 1)
unfolding claim
claim-Stale c l b v ttl now s h = elim (Bool-cases (v == 0)) [
  | inl y ↦ rw (y, claim) (h, omega arith)
  | inr z ↦ elim (Option-cases (lookup b c.rows)) [
    | inl f ↦ rw (z, f, claim) (h, omega arith)
    | inr (r, f) ↦ elim (Bool-cases (r.gated || r.finished)) [
      | inl g ↦ rw (z, f, claim, g) (h, omega arith)
      | inr g ↦ elim (Bool-cases (is_taken r v now)) [
        | inl t ↦ rw (z, f, claim, g, t) (h, omega arith)
        | inr t ↦ rw (z, f, claim, g, t) (grant-Stale c l b r v _ now s h)
      ]
    ]
  ]
]

renew-Stale :
    (c : Coordinator) (l k : Lease) (now : ℕ)
    → Stale c l
    → Stale (renew c k now).0 l × ((renew c k now).0.epoch ≤ c.epoch + 1)
unfolding renew
renew-Stale c l k now h = elim (Option-cases (lookup k.assignment c.rows)) [
  | inl f ↦ rw (f, renew) (h, omega arith)
  | inr (r, f) ↦ elim (Bool-cases (is_current r k)) [
    | inr t ↦ rw (f, renew, t) (h, omega arith)
    | inl t ↦ elim (Bool-cases (ltb now r.expires)) [
      | inr late ↦ rw (f, renew, t, late) (h, omega arith)
      | inl live ↦
          rw (f, renew, t, live)
            (
              Stale-set c l k.assignment _ c.epoch
                  (λ q. h.gone r (subst (λ i. lookup i c.rows ≡ some r) q f)) h.given h,
              omega arith,
            )
    ]
  ]
]

release-Stale :
    (c : Coordinator) (l k : Lease)
    → Stale c l
    → Stale (release c k).0 l × ((release c k).0.epoch ≤ c.epoch + 1)
unfolding release
release-Stale c l k h = elim (Option-cases (lookup k.assignment c.rows)) [
  | inl f ↦ rw (f, release) (h, omega arith)
  | inr (r, f) ↦ elim (Bool-cases (is_current r k)) [
    | inr t ↦ rw (f, release, t) (h, omega arith)
    | inl t ↦
        rw (f, release, t)
          (
            Stale-set c l k.assignment _ c.epoch (λ q e. omega (arith, e, h.named)) h.given h,
            omega arith,
          )
  ]
]

step-Stale :
    (c : Coordinator) (l : Lease) (o : Call)
    → c.epoch + 1 < word64
    → Stale c l
    → Stale (step c o) l × ((step c o).epoch ≤ c.epoch + 1)
unfolding step
step-Stale c l (claims b v ttl now) s h = claim-Stale c l b v ttl now s h
step-Stale c l (renews k now) s h = renew-Stale c l k now h
step-Stale c l (releases k) s h = release-Stale c l k h

run-Stale :
    (c : Coordinator) (l : Lease) (os : List Call)
    → c.epoch + length os < word64
    → Stale c l
    → Stale (run c os) l
unfolding run
run-Stale c l [] s h = h
run-Stale c l (o ∷ os) s h =
    let (h', e) = step-Stale c l o (omega arith) h in run-Stale (step c o) l os (omega arith) h'

renew-refused : (c : Coordinator) (l : Lease) (t : ℕ) → Stale c l → renew c l t ≡ (c, none)
unfolding renew
renew-refused c l t h = elim (Option-cases (lookup l.assignment c.rows)) [
  | inl f ↦ rw (f, renew) refl
  | inr (r, f) ↦
      let d = h.gone r f in
      let z : is_current r l ≡ false = ground (arith, d) in rw (f, renew, z) refl
]

release-refused : (c : Coordinator) (l : Lease) → Stale c l → (release c l).0 ≡ c
unfolding release
release-refused c l h = elim (Option-cases (lookup l.assignment c.rows)) [
  | inl f ↦ rw (f, release) refl
  | inr (r, f) ↦
      let d = h.gone r f in
      let z : is_current r l ≡ false = ground (arith, d) in rw (f, release, z) refl
]

grant-epoch :
    (c : Coordinator) (a : ℕ) (r : Row) (w ttl now : ℕ) (l : Lease)
    → (grant c a r w ttl now).1 ≡ some l
    → ((grant c a r w ttl now).0.epoch ≡ add64 c.epoch 1) × (l.epoch ≡ add64 c.epoch 1)
unfolding grant lease_of
grant-epoch c a r w ttl now l h =
    let r' : Row = record r {
      worker = w;
      epoch = add64 c.epoch 1;
      expires = now + ttl;
      ttl = ttl;
    } in
    let same : lease_of a r' ≡ l = cc h in (refl, sym (ap (λ x. x.epoch) same))

-- The epoch of a lease that is granted is the next one.
claim-epoch :
    (c : Coordinator) (a w ttl now : ℕ) (l : Lease)
    → (claim c a w ttl now).1 ≡ some l
    → ((claim c a w ttl now).0.epoch ≡ add64 c.epoch 1) × (l.epoch ≡ add64 c.epoch 1)
unfolding claim
claim-epoch c a w ttl now l = elim (Bool-cases (w == 0)) [
  | inl y ↦ rw (y, claim) (λ h. absurd (cc h))
  | inr z ↦ elim (Option-cases (lookup a c.rows)) [
    | inl f ↦ rw (z, f, claim) (λ h. absurd (cc h))
    | inr (r, f) ↦ elim (Bool-cases (r.gated || r.finished)) [
      | inl g ↦ rw (z, f, claim, g) (λ h. absurd (cc h))
      | inr g ↦ elim (Bool-cases (is_taken r w now)) [
        | inl t ↦ rw (z, f, claim, g, t) (λ h. absurd (cc h))
        | inr t ↦ rw (z, f, claim, g, t) (grant-epoch c a r w _ now l)
      ]
    ]
  ]
]

-- Once a claim of the row was granted to whatever worker, a lease of the row with an earlier epoch
-- is refused by Renew for good and its Release changes nothing, whatever is called in between, as
-- long as the epochs given out stay below 2^64.
pub superseded-refused :
    (c : Coordinator) (l next : Lease) (w ttl now : ℕ) (os : List Call) (t : ℕ)
    → 0 < l.epoch
    → l.epoch ≤ c.epoch
    → c.epoch + 1 + length os < word64
    → (claim c l.assignment w ttl now).1 ≡ some next
    → let c' = run (claim c l.assignment w ttl now).0 os in
      (renew c' l t ≡ (c', none)) × ((release c' l).0 ≡ c')
superseded-refused c l next w ttl now os t p q s g =
    let c1 = (claim c l.assignment w ttl now).0 in
    let (e1, e2) = claim-epoch c l.assignment w ttl now next g in
    let held : Held c1 l.assignment w next.epoch next.expires =
      (claim-Granted c l.assignment w ttl now next g).0 in
    let h : Stale c1 l = record {
      given = omega (arith, e1, q, s);
      named = p;
      gone = λ r f.
          let same : held.row ≡ r = cc (held.found, f) in
          λ e. omega (arith, e, ap (λ x. x.epoch) same, held.epoch, e2, q, s);
    } in
    let h' = run-Stale c1 l os (omega (arith, e1, s)) h in
    (renew-refused (run c1 os) l t h', release-refused (run c1 os) l h')
