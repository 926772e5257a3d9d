-- ===== src/Graph/Search.antt =====
-- visit in checkAcyclic of internal/engine/graph.go: it ends, and finds a cycle or colours the node black.
use canal.Prelude.{
  ℕ, zero, suc, ◌≡◌, ◌<◌, refl, sym, ◌∙◌, subst, true, false, none, some, List, [], ◌∷◌, ◌==◌, inl,
  inr, Bool-cases, arith,
}
use canal.Prelude.Assoc.{insert}
use canal.Negotiate.{Node}
use canal.Graph.{
  is_in, white, grey, black, Colours, colour_of, inputs_of, Visit, followed, blackened, visit_each,
  visit,
}
use canal.Graph.Colours.{
  Colour-cases, colour_of-insert, colour_of-inserted, Kept, Kept-trans, Kept-black, Kept-grey,
  whites, whites-Kept, whites-visit,
}
use canal.Graph.Cycles.{
  Settled, Greys, Visited, AllVisited, route_end, Settled-insert-grey, Settled-insert-black,
}

module _ (graph : List Node) (all : List ℕ)
    (whole : (a b : ℕ) → is_in b (inputs_of a graph) ≡ true → is_in b all ≡ true) where
  -- What a visit may be called with.
  abbrev pub Callable : ℕ → ℕ → Colours → Type 0
  Callable fuel id colours =
      (is_in id all ≡ true)
      × (whites all colours < fuel)
      × Settled graph colours
      × Greys graph colours id

  Callable-Kept :
      (fuel id : ℕ) (a b : Colours)
      → Kept a b
      → Settled graph b
      → Callable fuel id a
      → Callable fuel id b
  Callable-Kept fuel id a b kept settled h = (
    h.0,
    omega (arith, whites-Kept all a b kept, h.1),
    settled,
    λ k g. h.3 k (Kept-grey a b k kept g),
  )

  -- The rest of the inputs, after one of them was visited.
  AllVisited-cons :
      (up : ℕ) (ups : List ℕ) (a b : Colours) (w : Visit)
      → Kept a b
      → colour_of up b ≡ black
      → AllVisited graph ups b w
      → AllVisited graph (up ∷ ups) a w
  AllVisited-cons up ups a b none kept blk h = h
  AllVisited-cons up ups a b (some (false, c)) kept blk h = h
  AllVisited-cons up ups a b (some (true, c)) kept blk h = (
    h.0,
    Kept-trans a b c kept h.1,
    λ u m. elim (Bool-cases (up == u)) [
      | inl y ↦
          let same : up ≡ u = ground arith in
          subst (λ x. colour_of x c ≡ black) same (Kept-black b c up h.1 blk)
      | inr z ↦ h.2 u (rw z at m)
    ],
  )

  module _ (fuel : ℕ) (each : ℕ → Colours → Visit)
      (each-Visited : (id : ℕ) (colours : Colours)
        → Callable fuel id colours
        → Visited graph id colours (each id colours)) where
    followed-AllVisited :
        (up : ℕ) (ups : List ℕ) (colours : Colours) (v : Visit)
        → Visited graph up colours v
        → ((after : Colours)
            → Settled graph after
            → Kept colours after
            → AllVisited graph ups after (visit_each each ups after))
        → AllVisited graph (up ∷ ups) colours (followed (visit_each each ups) v)
    followed-AllVisited up ups colours none v rest = v
    followed-AllVisited up ups colours (some (false, c)) v rest = v
    followed-AllVisited up ups colours (some (true, c)) v rest =
        AllVisited-cons up ups colours c (visit_each each ups c) v.1 v.2 (rest c v.0 v.1)

    visit_each-AllVisited :
        (ups : List ℕ) (colours : Colours)
        → ((u : ℕ) → is_in u ups ≡ true → Callable fuel u colours)
        → Settled graph colours
        → AllVisited graph ups colours (visit_each each ups colours)
    unfolding visit_each
    visit_each-AllVisited [] colours h settled = (settled, (λ k. inl refl), λ u m. absurd (cc m))
    visit_each-AllVisited (up ∷ ups) colours h settled =
        followed-AllVisited up ups colours (each up colours)
          (each-Visited up colours (h up (ground arith)))
          (λ after settled' kept.
            visit_each-AllVisited ups after
              (λ u m. Callable-Kept fuel u colours after kept settled' (h u (ground (arith, m))))
              settled')

  -- The node itself, after its inputs.
  blackened-Visited :
      (id : ℕ) (colours : Colours) (v : Visit)
      → colour_of id colours ≡ white
      → AllVisited graph (inputs_of id graph) (insert id grey colours) v
      → Visited graph id colours (blackened id v)
  blackened-Visited id colours none w h = h
  blackened-Visited id colours (some (false, c)) w h = h
  blackened-Visited id colours (some (true, c)) w h =
      (Settled-insert-black graph c id still h.2 h.0, kept, colour_of-inserted id black c)
    where
      still : colour_of id c ≡ grey
      still = elim (h.1 id) [
        | inl same ↦ same ∙ colour_of-inserted id grey colours
        | inr (white', x) ↦ absurd (cc (white', colour_of-inserted id grey colours))
      ]

      kept : Kept colours (insert id black c)
      kept k = elim (Bool-cases (id == k)) [
        | inl y ↦
            let same : id ≡ k = ground arith in
            inr (
              subst (λ x. colour_of x colours ≡ white) same w,
              rw (colour_of-insert k id black c, y) refl,
            )
        | inr z ↦
            rw (colour_of-insert k id black c, z)
              (let before : colour_of k (insert id grey colours) ≡ colour_of k colours =
                  rw (colour_of-insert k id grey colours, z) refl in
                elim (h.1 k) [
                  | inl same ↦ inl (same ∙ before)
                  | inr (white', x) ↦ inr (sym before ∙ white', x)
                ])
      ]

  -- A visit of an input of a node that was white.
  Callable-input :
      (fuel id u : ℕ) (colours : Colours)
      → Callable (suc fuel) id colours
      → colour_of id colours ≡ white
      → is_in u (inputs_of id graph) ≡ true
      → Callable fuel u (insert id grey colours)
  Callable-input fuel id u colours h w m = (
    whole id u m,
    omega (arith, h.1, whites-visit all id colours h.0 w),
    Settled-insert-grey graph colours id w h.2,
    λ k g. elim (Bool-cases (id == k)) [
      | inl y ↦
          let same : id ≡ k = ground arith in
          ([], subst (λ x. is_in u (inputs_of x graph) ≡ true) same m)
      | inr z ↦
          let (via, route) = h.3 k (rw (colour_of-insert k id grey colours, z) at g) in
          route_end graph k id u via route m
    ],
  )

  pub visit-Visited :
      (fuel id : ℕ) (colours : Colours)
      → Callable fuel id colours
      → Visited graph id colours (visit fuel graph id colours)
  unfolding visit
  visit-Visited zero id colours h = absurd (omega (arith, h.1))
  visit-Visited (suc fuel) id colours h = elim (Colour-cases (colour_of id colours)) [
    | inl w ↦
        let after = visit_each (visit fuel graph) (inputs_of id graph) (insert id grey colours) in
        rw (w, visit)
          (blackened-Visited id colours after w (
            visit_each-AllVisited fuel (visit fuel graph) (visit-Visited fuel) (inputs_of id graph)
              (insert id grey colours) (λ u m. Callable-input fuel id u colours h w m)
              (Settled-insert-grey graph colours id w h.2)))
    | inr (inl g) ↦ rw (g, visit) (id, h.3 id g)
    | inr (inr b) ↦ rw (b, visit) (h.2, (λ k. inl refl), b)
  ]
