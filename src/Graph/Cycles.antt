-- ===== src/Graph/Cycles.antt =====
-- Cycles of a graph of nodes, internal/engine/graph.go, and what each visit of the search establishes.
use canal.Prelude.{
  ℕ, ◌≡◌, refl, subst, true, false, none, some, List, [], ◌∷◌, ◌==◌, inl, inr, Bool-cases, arith,
}
use canal.Prelude.Assoc.{insert}
use canal.Negotiate.{Node}
use canal.Graph.{is_in, white, grey, black, Colours, colour_of, inputs_of, Visit}
use canal.Graph.Colours.{colour_of-insert, Kept}

module _ (graph : List Node) where
  -- From a node upstream along the inputs, through the nodes of the list, to another.
  abbrev pub IsRoute : ℕ → List ℕ → ℕ → Type 0
  IsRoute a [] c = is_in c (inputs_of a graph) ≡ true
  IsRoute a (b ∷ bs) c = (is_in b (inputs_of a graph) ≡ true) × IsRoute b bs c

  abbrev pub Upstream : ℕ → ℕ → Type 0
  Upstream a c = (via : List ℕ) × IsRoute a via c

  abbrev pub Cyclic : Type 0
  Cyclic = (a : ℕ) × Upstream a a

  abbrev pub Closed : Colours → ℕ → Type 0
  Closed colours a = (b : ℕ) → is_in b (inputs_of a graph) ≡ true → colour_of b colours ≡ black

  -- The inputs of a black node are black, and it is on no cycle.
  abbrev pub Settled : Colours → Type 0
  Settled colours = (a : ℕ) → colour_of a colours ≡ black → Closed colours a × (Upstream a a → ⊥)

  -- A grey node is one that the visit of the node came from.
  abbrev pub Greys : Colours → ℕ → Type 0
  Greys colours id = (k : ℕ) → colour_of k colours ≡ grey → Upstream k id

  abbrev pub Visited : ℕ → Colours → Visit → Type 0
  Visited id colours none = ⊥
  Visited id colours (some (false, after)) = Cyclic
  Visited id colours (some (true, after)) =
      Settled after × Kept colours after × (colour_of id after ≡ black)

  abbrev pub AllVisited : List ℕ → Colours → Visit → Type 0
  AllVisited ups colours none = ⊥
  AllVisited ups colours (some (false, after)) = Cyclic
  AllVisited ups colours (some (true, after)) =
      Settled after
      × Kept colours after
      × ((u : ℕ) → is_in u ups ≡ true → colour_of u after ≡ black)

  pub route_end :
      (a b c : ℕ) (via : List ℕ)
      → IsRoute a via b
      → is_in c (inputs_of b graph) ≡ true
      → Upstream a c
  route_end a b c [] h last = (b ∷ [], (h, last))
  route_end a b c (x ∷ xs) h last =
      let (via, rest) = route_end x b c xs h.1 last in (x ∷ via, (h.0, rest))

  -- What is upstream of a black node is black.
  pub upstream_black :
      (colours : Colours) (a c : ℕ) (via : List ℕ)
      → Settled colours
      → colour_of a colours ≡ black
      → IsRoute a via c
      → colour_of c colours ≡ black
  upstream_black colours a c [] settled blk h = (settled a blk).0 c h
  upstream_black colours a c (b ∷ bs) settled blk h =
      upstream_black colours b c bs settled ((settled a blk).0 b h.0) h.1

  pub Settled-insert-grey :
      (colours : Colours) (id : ℕ)
      → colour_of id colours ≡ white
      → Settled colours
      → Settled (insert id grey colours)
  Settled-insert-grey colours id w settled a blk = elim (Bool-cases (id == a)) [
    | inl y ↦ absurd (cc (rw (colour_of-insert a id grey colours, y) at blk))
    | inr z ↦
        let old = settled a (rw (colour_of-insert a id grey colours, z) at blk) in
        (
          λ b h. elim (Bool-cases (id == b)) [
            | inl y ↦
                let same : id ≡ b = ground arith in
                absurd (cc (old.0 b h, subst (λ x. colour_of x colours ≡ white) same w))
            | inr z' ↦ rw (colour_of-insert b id grey colours, z') (old.0 b h)
          ],
          old.1,
        )
  ]

  pub black_after :
      (colours : Colours) (id b : ℕ)
      → colour_of b colours ≡ black
      → colour_of b (insert id black colours) ≡ black
  black_after colours id b h = elim (Bool-cases (id == b)) [
    | inl y ↦ rw (colour_of-insert b id black colours, y) refl
    | inr z ↦ rw (colour_of-insert b id black colours, z) h
  ]

  -- A grey node whose inputs are black is on no cycle.
  pub Settled-insert-black :
      (colours : Colours) (id : ℕ)
      → colour_of id colours ≡ grey
      → Closed colours id
      → Settled colours
      → Settled (insert id black colours)
  Settled-insert-black colours id g closed settled a blk = elim (Bool-cases (id == a)) [
    | inl y ↦
        let same : id ≡ a = ground arith in
        subst (λ x. Closed (insert id black colours) x × (Upstream x x → ⊥)) same
          ((λ b h. black_after colours id b (closed b h)), alone)
    | inr z ↦
        let old = settled a (rw (colour_of-insert a id black colours, z) at blk) in
        ((λ b h. black_after colours id b (old.0 b h)), old.1)
  ]
    where
      alone : Upstream id id → ⊥
      alone ([], h) = absurd (cc (closed id h, g))
      alone (b ∷ bs, h) = absurd (cc (upstream_black colours b id bs settled (closed b h.0) h.1, g))
