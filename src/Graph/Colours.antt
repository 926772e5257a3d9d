-- ===== src/Graph/Colours.antt =====
-- The colours of the search in internal/engine/graph.go: what a visit may change, and how many nodes are
-- left to visit.
use canal.Prelude.{
  ℕ, ◌+◌, ◌≡◌, ◌≤◌, ◌<◌, refl, sym, ◌∙◌, subst, true, false, List, [], ◌∷◌, ◌==◌, ◌⊎◌, inl, inr,
  if◌then◌else◌, Bool-cases, arith,
}
use canal.Prelude.Assoc.{insert, lookup-insert}
use canal.Graph.{is_in, Colour, white, grey, black, Colours, colour_of}

pub Colour-cases : (c : Colour) → (c ≡ white) ⊎ (c ≡ grey) ⊎ (c ≡ black)
Colour-cases white = inl refl
Colour-cases grey = inr (inl refl)
Colour-cases black = inr (inr refl)

pub colour_of-insert :
    (k id : ℕ) (v : Colour) (colours : Colours)
    → colour_of k (insert id v colours) ≡ (if id == k then v else colour_of k colours)
unfolding colour_of
colour_of-insert k id v colours = elim (Bool-cases (id == k)) [
  | inl y ↦ rw (colour_of, lookup-insert id k v colours, y) refl
  | inr z ↦ rw (colour_of, lookup-insert id k v colours, z) refl
]

pub colour_of-inserted :
    (id : ℕ) (v : Colour) (colours : Colours) → colour_of id (insert id v colours) ≡ v
colour_of-inserted id v colours = rw (colour_of-insert id id v colours) (ground arith)

-- A visit that succeeds only turns white nodes black.
abbrev pub Kept : Colours → Colours → Type 0
Kept before after =
    (k : ℕ)
    → (colour_of k after ≡ colour_of k before)
      ⊎ ((colour_of k before ≡ white) × (colour_of k after ≡ black))

pub Kept-trans : (a b c : Colours) → Kept a b → Kept b c → Kept a c
Kept-trans a b c p q k = elim (q k) [
  | inl same ↦ elim (p k) [ inl same' ↦ inl (same ∙ same') | inr (w, blk) ↦ inr (w, same ∙ blk) ]
  | inr (w, blk) ↦ elim (p k) [
    | inl same ↦ inr (sym same ∙ w, blk)
    | inr (w', blk') ↦ absurd (cc (w, blk'))
  ]
]

pub Kept-black : (a b : Colours) (k : ℕ) → Kept a b → colour_of k a ≡ black → colour_of k b ≡ black
Kept-black a b k kept h = elim (kept k) [ inl same ↦ same ∙ h | inr (w, blk) ↦ blk ]

pub Kept-grey : (a b : Colours) (k : ℕ) → Kept a b → colour_of k b ≡ grey → colour_of k a ≡ grey
Kept-grey a b k kept h = elim (kept k) [
  | inl same ↦ sym same ∙ h
  | inr (w, blk) ↦ absurd (cc (blk, h))
]

abbrev pub is_white : Colour → ℕ
is_white white = 1
is_white grey = 0
is_white black = 0

abbrev pub whites : List ℕ → Colours → ℕ
whites [] colours = 0
whites (k ∷ ks) colours = is_white (colour_of k colours) + whites ks colours

is_white-Kept :
    (a b : Colours) (k : ℕ) → Kept a b → is_white (colour_of k b) ≤ is_white (colour_of k a)
is_white-Kept a b k kept = elim (kept k) [
  | inl same ↦ rw same (omega arith)
  | inr (w, blk) ↦ rw (w, blk) (omega arith)
]

pub whites-Kept : (ks : List ℕ) (a b : Colours) → Kept a b → whites ks b ≤ whites ks a
whites-Kept [] a b kept = omega arith
whites-Kept (k ∷ ks) a b kept = omega (arith, whites-Kept ks a b kept, is_white-Kept a b k kept)

whites-insert :
    (ks : List ℕ) (id : ℕ) (colours : Colours)
    → whites ks (insert id grey colours) ≤ whites ks colours
whites-insert [] id colours = omega arith
whites-insert (k ∷ ks) id colours = elim (Bool-cases (id == k)) [
  | inl y ↦ rw (colour_of-insert k id grey colours, y) (omega (arith, whites-insert ks id colours))
  | inr z ↦ rw (colour_of-insert k id grey colours, z) (omega (arith, whites-insert ks id colours))
]

pub whites-visit :
    (ks : List ℕ) (id : ℕ) (colours : Colours)
    → is_in id ks ≡ true
    → colour_of id colours ≡ white
    → whites ks (insert id grey colours) < whites ks colours
whites-visit [] id colours h w = absurd (cc h)
whites-visit (k ∷ ks) id colours h w = elim (Bool-cases (k == id)) [
  | inl y ↦
      let same : id ≡ k = ground arith in
      rw
        (
          subst (λ x. colour_of x colours ≡ white) same w,
          subst (λ x. colour_of x (insert id grey colours) ≡ grey) same
              (colour_of-inserted id grey colours),
        )
        (omega (arith, whites-insert ks id colours))
  | inr z ↦
      let other : (id == k) ≡ false = ground arith in
      rw (colour_of-insert k id grey colours, other)
        (omega (arith, whites-visit ks id colours (rw z at h) w))
]
