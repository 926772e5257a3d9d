-- ===== src/Ledger/Sweep.antt =====
-- A pass over all lanes of internal/ledger/ledger.go, as Flushable, Retirable, Close and emitDiscrete
-- make it: each lane changes quietly or sends one acknowledgement.
use mathlib.Core.List.{append-nil}
use canal.Prelude.{
  ℕ, ◌≡◌, refl, subst, ◌⊎◌, inl, inr, Bool, true, false, none, some, List, [], ◌∷◌, ◌++◌, arith,
  ◌==◌, Bool-cases, Option-cases,
}
use canal.Prelude.Assoc.{lookup, insert, Distinct}
use canal.Ledger.{LaneState, Ack}
use canal.Ledger.Acks.{
  AckInvariant, Quiet, Emits, Holds, Holds-Quiet, Holds-emit, acks_of, acks_of-append,
}
use canal.Ledger.Settlement.{sent}

pub data Sweep : List (ℕ × LaneState) → List (ℕ × LaneState) → List Ack → Type 0 where
  nil : Sweep [] [] []
  calm :
      {st st' : LaneState} {r r' : List (ℕ × LaneState)} {out : List Ack} (id : ℕ)
      → Quiet st st'
      → Sweep r r' out
      → Sweep ((id, st) ∷ r) ((id, st') ∷ r') out
  sends :
      {st st' : LaneState} {r r' : List (ℕ × LaneState)} {out : List Ack} (id : ℕ) (a : Ack)
      → Emits id st st' a
      → Sweep r r' out
      → Sweep ((id, st) ∷ r) ((id, st') ∷ r') (a ∷ out)

-- What a pass does to one lane.
abbrev pub Change : ℕ → LaneState → LaneState → List Ack → Type 0
Change id st st' out =
    ((out ≡ []) × Quiet st st') ⊎ ((a : Ack) × (out ≡ a ∷ []) × Emits id st st' a)

pub Sweep-cons :
    {st st' : LaneState} {r r' : List (ℕ × LaneState)} {out : List Ack} (id : ℕ) (o : List Ack)
    → Change id st st' o
    → Sweep r r' out
    → Sweep ((id, st) ∷ r) ((id, st') ∷ r') (o ++ out)
Sweep-cons id o (inl (e, q)) w = rw e (calm id q w)
Sweep-cons id o (inr (a, e, m)) w = rw e (sends id a m w)

Sweep-absent :
    {r r' : List (ℕ × LaneState)} {out : List Ack} (id : ℕ)
    → Sweep r r' out
    → lookup id r ≡ none
    → (lookup id r' ≡ none) × (acks_of id out ≡ [])
unfolding lookup
Sweep-absent id nil h = (refl, refl)
Sweep-absent id (calm j q s) h = ground (arith, Sweep-absent id s)
Sweep-absent id (sends j a m s) h = ground (arith, Sweep-absent id s, m.lane)

Sweep-keys :
    {r r' : List (ℕ × LaneState)} {out : List Ack} → Sweep r r' out → Distinct r → Distinct r'
Sweep-keys nil d = tt
Sweep-keys (calm j q s) d = ((Sweep-absent j s d.0).0, Sweep-keys s d.1)
Sweep-keys (sends j a m s) d = ((Sweep-absent j s d.0).0, Sweep-keys s d.1)

Sweep-found :
    {r r' : List (ℕ × LaneState)} {out : List Ack} (id : ℕ) (st : LaneState)
    → Sweep r r' out
    → Distinct r
    → lookup id r ≡ some st
    → (st' : LaneState) × (lookup id r' ≡ some st') × Change id st st' (acks_of id out)
unfolding lookup
Sweep-found id st nil d h = cc
Sweep-found id st (calm {st = s} {st' = s'} {out = out} j q w) d h = elim (Bool-cases (j == id)) [
  | inl y ↦
      let e : j ≡ id = ground arith in
      let f : s ≡ st = ground arith in
      (
        s',
        ground arith,
        inl (
          subst (λ k. acks_of k out ≡ []) e (Sweep-absent j w d.0).1,
          subst (λ k. Quiet k s') f q,
        ),
      )
  | inr z ↦ rw z (Sweep-found id st w d.1 (ground arith))
]
Sweep-found id st (sends {st = s} {st' = s'} {out = out} j a m w) d h =
    elim (Bool-cases (j == id)) [
      | inl y ↦
          let e : j ≡ id = ground arith in
          let f : s ≡ st = ground arith in
          let z : acks_of id out ≡ [] =
            subst (λ k. acks_of k out ≡ []) e (Sweep-absent j w d.0).1 in
          (
            s',
            ground arith,
            inr (
              a,
              ground (arith, m.lane),
              subst (λ k. Emits k st s' a) e (subst (λ k. Emits j k s' a) f m),
            ),
          )
      | inr z ↦ rw (z, m.lane, z) (Sweep-found id st w d.1 (ground arith))
    ]

pub sent-nil : (closed : Bool) (acks : List Ack) → sent closed acks [] ≡ acks
sent-nil true acks = refl
sent-nil false acks = append-nil acks

module _ (i : AckInvariant) where
  at-Change :
      (closed : Bool) (id : ℕ) (acks out : List Ack) (st st' : LaneState)
      → Change id st st' (acks_of id out)
      → i.at id closed (acks_of id acks) st
      → i.at id closed (acks_of id (sent closed acks out)) st'
  at-Change true id acks out st st' (inl (e, q)) h = i.quiet id true (acks_of id acks) st st' q h
  at-Change false id acks out st st' (inl (e, q)) h =
      rw (acks_of-append id acks out, e, append-nil (acks_of id acks))
        (i.quiet id false (acks_of id acks) st st' q h)
  at-Change true id acks out st st' (inr (a, e, m)) h = i.drop id (acks_of id acks) st st' a m h
  at-Change false id acks out st st' (inr (a, e, m)) h =
      rw (acks_of-append id acks out, e) (i.emit id (acks_of id acks) st st' a m h)

  at-absent :
      (closed : Bool) (id : ℕ) (acks out : List Ack)
      → acks_of id out ≡ []
      → i.absent id × (acks_of id acks ≡ [])
      → i.absent id × (acks_of id (sent closed acks out) ≡ [])
  at-absent true id acks out e h = h
  at-absent false id acks out e h = (h.0, rw (acks_of-append id acks out, e, h.1))

  pub Holds-Change :
      (closed : Bool) (acks out : List Ack) (lanes : List (ℕ × LaneState)) (id : ℕ)
      (st st' : LaneState)
      → lookup id lanes ≡ some st
      → Change id st st' out
      → Holds i closed acks lanes
      → Holds i closed (sent closed acks out) (insert id st' lanes)
  Holds-Change closed acks out lanes id st st' e (inl (z, q)) h =
      rw (z, sent-nil closed acks) (Holds-Quiet i closed acks lanes id st st' e q h)
  Holds-Change closed acks out lanes id st st' e (inr (a, z, m)) h =
      rw z (Holds-emit i closed acks lanes id st st' a e m h)

  pub Holds-Sweep :
      (closed : Bool) (acks out : List Ack) (lanes lanes' : List (ℕ × LaneState))
      → Sweep lanes lanes' out
      → Holds i closed acks lanes
      → Holds i closed (sent closed acks out) lanes'
  Holds-Sweep closed acks out lanes lanes' w h = record {
    lane = λ id. elim (Option-cases (lookup id lanes)) [
      | inl e ↦
          rw (Sweep-absent id w e).0
            (at-absent closed id acks out (Sweep-absent id w e).1 (rw e at (h.lane id)))
      | inr (st, e) ↦
          let (st', e', c) = Sweep-found id st w h.keys e in
          rw e' (at-Change closed id acks out st st' c (rw e at (h.lane id)))
    ];
    keys = Sweep-keys w h.keys;
  }
