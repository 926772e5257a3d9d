-- ===== src/Tracker/Relation.antt =====
-- How the node list of internal/ledger/tracker.go stands for the rest of the admission log: node by
-- entry, where a merged run of positions is one node.
use canal.Prelude.{
  ℕ, ◌≡◌, refl, ◌⊎◌, inl, inr, Bool, true, false, none, some, List, [], ◌∷◌, ◌++◌, arith, ◌==◌, ◌∙◌,
  if◌then◌else◌, Bool-cases, Option-cases,
}
use canal.Tracker.{Node, refs_left, is_marker, coalesce, discharge_node, discharge_list}
use canal.Tracker.Spec.{Entry, holds, discharge_log}

pub record Same {ℓ} {P : Type ℓ} (n : Node P) (e : Entry P) : Type ℓ where
  pub payload : n.payload ≡ e.payload
  pub refs : n.refs ≡ e.left
  pub state : n.resolved ≡ (n.refs == 0)
  pub ticket : (e.ticket ≡ some n.id) ⊎ ((e.ticket ≡ none) × (e.left ≡ 0))

pub data Rel {ℓ} {P : Type ℓ} : List (Node P) → List (Entry P) → Type ℓ where
  nil : Rel [] []
  keep :
      {n : Node P} {e : Entry P} {ns : List (Node P)} {es : List (Entry P)}
      → Same n e
      → Rel ns es
      → Rel (n ∷ ns) (e ∷ es)
  merge :
      {n : Node P} {e : Entry P} {ns : List (Node P)} {es : List (Entry P)}
      → e.left ≡ 0
      → n.resolved ≡ true
      → Rel (n ∷ ns) es
      → Rel (n ∷ ns) (e ∷ es)

abbrev pub HeadOpen {ℓ} : {P : Type ℓ} → List (Node P) → Type 0
HeadOpen [] = Unit
HeadOpen (n ∷ ns) = n.resolved ≡ false

pub refs_left-zero : (b : Bool) (n : ℕ) → refs_left b n 0 ≡ 0
unfolding refs_left
refs_left-zero b n = ground arith

module _ {ℓ} {P : Type ℓ} where
  pub Rel-append :
      {ns : List (Node P)} {es : List (Entry P)} {n : Node P} {e : Entry P}
      → Rel ns es
      → Same n e
      → Rel (ns ++ n ∷ []) (es ++ e ∷ [])
  Rel-append nil s = keep s nil
  Rel-append (keep t r) s = keep t (Rel-append r s)
  Rel-append (merge z v r) s = merge z v (Rel-append r s)

  -- A node list whose head is `n` up to the payload.
  abbrev pub HeadLike : Node P → List (Node P) → Type ℓ
  HeadLike n l = (m : Node P) × (rest : List (Node P)) × (l ≡ m ∷ rest) × (m.resolved ≡ n.resolved)

  pub coalesce-HeadLike :
      (n : Node P) (ns l : List (Node P)) (p : P) (now : ℕ)
      → coalesce (n ∷ ns) p now ≡ some l
      → HeadLike n l
  unfolding coalesce
  coalesce-HeadLike n [] l p now h = elim (Bool-cases (is_marker n)) [
    | inl y ↦ (record n { payload = p; at = now }, [], ground arith, refl)
    | inr z ↦ absurd (ground arith)
  ]
  coalesce-HeadLike n (m ∷ ns) l p now h = elim (Option-cases (coalesce (m ∷ ns) p now)) [
    | inl z ↦ absurd (ground arith)
    | inr (l', e) ↦ (n, l', ground arith, refl)
  ]

  pub Rel-coalesce :
      {ns : List (Node P)} {es : List (Entry P)} (l : List (Node P)) (p : P) (now : ℕ)
      → Rel ns es
      → coalesce ns p now ≡ some l
      → Rel l (es ++ record { ticket = none; payload = p; left = 0 } ∷ [])
  unfolding coalesce is_marker
  Rel-coalesce l p now nil h = cc
  Rel-coalesce l p now (keep {n} {e} {ns = []} s nil) h = elim (Bool-cases (is_marker n)) [
    | inl y ↦
        let q : l ≡ record n { payload = p; at = now } ∷ [] = ground arith in
        rw q (
          merge (ground arith) (ground arith) (
            keep
              (record {
                payload = refl;
                refs = ground arith;
                state = ground arith;
                ticket = inr (refl, refl);
              })
              nil))
    | inr z ↦ absurd (ground arith)
  ]
  Rel-coalesce l p now (keep {n} {e} {ns = m ∷ ns} s r) h =
      elim (Option-cases (coalesce (m ∷ ns) p now)) [
        | inl z ↦ absurd (ground arith)
        | inr (l', q) ↦
            let q' : l ≡ n ∷ l' = ground arith in rw q' (keep s (Rel-coalesce l' p now r q))
      ]
  Rel-coalesce l p now (merge {n} {ns = ns} z v r) h =
      let (m, rest, q, same) = coalesce-HeadLike n ns l p now h in
      rw q (merge z (same ∙ v) (rw q at (Rel-coalesce l p now r h)))

  discharge-Same :
      (id : ℕ) (b : Bool) (k : ℕ) (n : Node P) (e : Entry P)
      → Same n e
      → Same
          (if n.id == id then discharge_node b k n else n)
          (if holds e.ticket id then record e { left = refs_left b k e.left } else e)
  unfolding discharge_node refs_left
  discharge-Same id b k n e s = ground arith

  discharge-resolved :
      (id : ℕ) (b : Bool) (k : ℕ) (n : Node P)
      → n.resolved ≡ true
      → (if n.id == id then discharge_node b k n else n).resolved ≡ true
  unfolding discharge_node
  discharge-resolved id b k n h = ground arith

  discharge-left :
      (id : ℕ) (b : Bool) (k : ℕ) (e : Entry P)
      → e.left ≡ 0
      → (if holds e.ticket id then record e { left = refs_left b k e.left } else e).left ≡ 0
  unfolding refs_left
  discharge-left id b k e h = ground arith

  pub Rel-discharge :
      {ns : List (Node P)} {es : List (Entry P)} (id : ℕ) (b : Bool) (k : ℕ)
      → Rel ns es
      → Rel (discharge_list id b k ns) (discharge_log id b k es)
  unfolding discharge_list discharge_log
  Rel-discharge id b k nil = nil
  Rel-discharge id b k (keep {n} {e} s r) =
      keep (discharge-Same id b k n e s) (Rel-discharge id b k r)
  Rel-discharge id b k (merge {n} {e} z v r) =
      merge (discharge-left id b k e z) (discharge-resolved id b k n v) (Rel-discharge id b k r)
