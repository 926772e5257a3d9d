-- ===== src/Coordinator/Exclusion.antt =====
-- Claim of internal/example/memstore/coordinator.go: a granted lease keeps the other workers out.
use canal.Prelude.{
  ℕ, ◌+◌, ◌<◌, ◌≡◌, ◌≢◌, refl, ap, subst, ◌∙◌, inl, inr, true, ◌||◌, none, some, List, arith, ltb,
  add64, ◌==◌, Bool-cases, Option-cases, All,
}
use canal.Prelude.Assoc.{lookup, lookup-insert}
use canal.Coordinator.{
  Row, Lease, Coordinator, default_reassignment_delay, lease_of, grant, is_taken, is_current, claim,
  renew, Call, run,
}
use canal.Coordinator.Holding.{Held, Rival, claim-taken, run-Held}

-- What a claim that is granted leaves behind, and the lease that it returns.
abbrev pub Granted : Coordinator → ℕ → ℕ → Lease → Type 0
Granted c a w l = Held c a w l.epoch l.expires × (l.assignment ≡ a) × (l.worker ≡ w)

grant-Granted :
    (c : Coordinator) (a : ℕ) (r : Row) (w ttl now : ℕ) (l : Lease)
    → w ≢ 0
    → (grant c a r w ttl now).1 ≡ some l
    → Granted (grant c a r w ttl now).0 a w l
unfolding grant lease_of
grant-Granted c a r w ttl now l n h =
    let r' : Row = record r {
      worker = w;
      epoch = add64 c.epoch 1;
      expires = now + ttl;
      ttl = ttl;
    } in
    let same : lease_of a r' ≡ l = cc h in
    subst (Granted (grant c a r w ttl now).0 a w) same (
      record {
        row = r';
        found = lookup-insert a a r' c.rows ∙ ground arith;
        worker = refl;
        epoch = refl;
        expires = refl;
        named = n;
      },
      refl,
      refl,
    )

pub claim-Granted :
    (c : Coordinator) (a w ttl now : ℕ) (l : Lease)
    → (claim c a w ttl now).1 ≡ some l
    → Granted (claim c a w ttl now).0 a w l
unfolding claim
claim-Granted c a w ttl now l = elim (Bool-cases (w == 0)) [
  | inl y ↦ rw (y, claim) (λ h. absurd (cc h))
  | inr z ↦ elim (Option-cases (lookup a c.rows)) [
    | inl f ↦ rw (z, f, claim) (λ h. absurd (cc h))
    | inr (r, f) ↦ elim (Bool-cases (r.gated || r.finished)) [
      | inl g ↦ rw (z, f, claim, g) (λ h. absurd (cc h))
      | inr g ↦ elim (Bool-cases (is_taken r w now)) [
        | inl t ↦ rw (z, f, claim, g, t) (λ h. absurd (cc h))
        | inr t ↦ rw (z, f, claim, g, t) (grant-Granted c a r w _ now l (ground arith))
      ]
    ]
  ]
]

renew-live :
    (c : Coordinator) (a w e x : ℕ) (l : Lease) (t : ℕ)
    → l.assignment ≡ a
    → l.worker ≡ w
    → l.epoch ≡ e
    → t < x
    → Held c a w e x
    → (renew c l t).1 ≢ none
unfolding renew
renew-live c a w e x l t qa qw qe b h =
    let f : lookup l.assignment c.rows ≡ some h.row = ap (λ i. lookup i c.rows) qa ∙ h.found in
    let y : is_current h.row l ≡ true = ground (arith, h.worker, h.epoch, qw, qe) in
    let z : ltb t h.row.expires ≡ true = ground (arith, h.expires, b) in
    rw (f, renew, y, z) (λ k. absurd (cc k))

-- After a claim was granted, whatever other workers do with the row before the reassignment delay
-- after the lease is over, and whatever is done with other rows: a claim of the row by another
-- worker in that time is refused and changes nothing, and the holder can renew the lease as long as
-- it has not expired.
pub granted-exclusive :
    (c : Coordinator) (a w ttl now : ℕ) (l : Lease) (os : List Call) (v ttl' t : ℕ)
    → (claim c a w ttl now).1 ≡ some l
    → All (Rival a w l.epoch l.expires) os
    → v ≢ w
    → t < l.expires + default_reassignment_delay
    → let c' = run (claim c a w ttl now).0 os in
      (claim c' a v ttl' t ≡ (c', none)) × (t < l.expires → (renew c' l t).1 ≢ none)
granted-exclusive c a w ttl now l os v ttl' t g k d b =
    let c' = run (claim c a w ttl now).0 os in
    let granted = claim-Granted c a w ttl now l g in
    let h : Held c' a w l.epoch l.expires =
      run-Held (claim c a w ttl now).0 a w l.epoch l.expires os k granted.0 in
    (
      claim-taken c' a w l.epoch l.expires v ttl' t h d b,
      λ b'. renew-live c' a w l.epoch l.expires l t granted.1 granted.2 refl b' h,
    )
