-- ===== src/Graph/Acyclicity.antt =====
-- checkAcyclic of internal/engine/graph.go: it ends, and reports a cycle exactly if there is one.
use canal.Prelude.{
  ℕ, suc, ◌≡◌, ◌≤◌, refl, subst, true, false, none, some, List, [], ◌∷◌, ◌++◌, ◌==◌, ◌||◌, ◌⊎◌, inl,
  inr, length, Bool-cases, arith,
}
use canal.Prelude.Assoc.{lookup}
use canal.Negotiate.{Node}
use canal.Graph.{
  is_in, ids, Colour, white, grey, black, Colours, colour_of, origins, inputs_of, Visit, visit,
  names, Verdict, reported, check_each, check_acyclic,
}
use canal.Graph.Colours.{Kept, Kept-trans, Kept-black, Kept-grey, is_white, whites}
use canal.Graph.Cycles.{Cyclic, Settled, Visited}
use canal.Graph.Search.{visit-Visited}

pub is_in-append : (k : ℕ) (xs ys : List ℕ) → is_in k (xs ++ ys) ≡ is_in k xs || is_in k ys
is_in-append k [] ys = refl
is_in-append k (x ∷ xs) ys = ground (arith, is_in-append k xs ys)

pub inputs_of-names :
    (a b : ℕ) (ns : List Node) → is_in b (inputs_of a ns) ≡ true → is_in b (names ns) ≡ true
unfolding inputs_of
inputs_of-names a b [] h = h
inputs_of-names a b (n ∷ ns) h = ground (
  arith,
  is_in-append b (origins n.inputs) (names ns),
  is_in-append b (origins n.inputs) (inputs_of a ns),
  inputs_of-names a b ns,
)

inputs_of-ids :
    (a b : ℕ) (ns : List Node) → is_in b (inputs_of a ns) ≡ true → is_in a (ids ns) ≡ true
unfolding inputs_of
inputs_of-ids a b [] h = absurd (cc h)
inputs_of-ids a b (n ∷ ns) h = elim (Bool-cases (n.id == a)) [
  | inl y ↦ rw y refl
  | inr z ↦ rw z (inputs_of-ids a b ns (rw z at h))
]

pub ids-names : (a : ℕ) (ns : List Node) → is_in a (ids ns) ≡ true → is_in a (names ns) ≡ true
ids-names a [] h = h
ids-names a (n ∷ ns) h =
    ground (arith, is_in-append a (origins n.inputs) (names ns), ids-names a ns)

whites-length : (ks : List ℕ) (colours : Colours) → whites ks colours ≤ length ks
whites-length [] colours = omega arith
whites-length (k ∷ ks) colours =
    omega (arith, whites-length ks colours, at_most (colour_of k colours))
  where
    at_most : (c : Colour) → is_white c ≤ 1
    at_most white = omega arith
    at_most grey = omega arith
    at_most black = omega arith

module _ (graph : List Node) where
  abbrev Decided : List Node → Colours → Verdict → Type 0
  Decided ns colours none = ⊥
  Decided ns colours (some none) =
      (after : Colours) × Settled graph after
      × Kept colours after
      × ((a : ℕ) → is_in a (ids ns) ≡ true → colour_of a after ≡ black)
  Decided ns colours (some (some id)) = Cyclic graph

  -- The rest of the nodes, after one of them was visited.
  Decided-cons :
      (n : Node) (ns : List Node) (a b : Colours) (v : Verdict)
      → Kept a b
      → colour_of n.id b ≡ black
      → Decided ns b v
      → Decided (n ∷ ns) a v
  Decided-cons n ns a b none kept blk d = d
  Decided-cons n ns a b (some (some id)) kept blk d = d
  Decided-cons n ns a b (some none) kept blk (c, settled, kept', done) = (
    c,
    settled,
    Kept-trans a b c kept kept',
    λ k m. elim (Bool-cases (n.id == k)) [
      | inl y ↦
          let same : n.id ≡ k = ground arith in
          subst (λ x. colour_of x c ≡ black) same (Kept-black b c n.id kept' blk)
      | inr z ↦ done k (rw z at m)
    ],
  )

  reported-Decided :
      (n : Node) (ns : List Node) (colours : Colours) (rest : Colours → Verdict) (v : Visit)
      → Visited graph n.id colours v
      → ((after : Colours)
          → Settled graph after
          → Kept colours after
          → Decided ns after (rest after))
      → Decided (n ∷ ns) colours (reported n.id rest v)
  reported-Decided n ns colours rest none v h = absurd v
  reported-Decided n ns colours rest (some (false, c)) v h = v
  reported-Decided n ns colours rest (some (true, c)) v h =
      Decided-cons n ns colours c (rest c) v.1 v.2 (h c v.0 v.1)

  check_each-Decided :
      (ns : List Node) (colours : Colours)
      → Settled graph colours
      → ((k : ℕ) → colour_of k colours ≡ grey → ⊥)
      → ((a : ℕ) → is_in a (ids ns) ≡ true → is_in a (ids graph) ≡ true)
      → Decided ns colours (check_each (suc (length (names graph))) graph ns colours)
  unfolding check_each
  check_each-Decided [] colours settled calm part =
      (colours, settled, (λ k. inl refl), λ a m. absurd (cc m))
  check_each-Decided (n ∷ ns) colours settled calm part =
      let fuel = suc (length (names graph)) in
      reported-Decided n ns colours (check_each fuel graph ns) (visit fuel graph n.id colours)
        (visit-Visited graph (names graph) (λ a b. inputs_of-names a b graph) fuel n.id colours
          (
            ids-names n.id graph (part n.id (ground arith)),
            omega (arith, whites-length (names graph) colours),
            settled,
            λ k g. absurd (calm k g),
          ))
        (λ after settled' kept.
          check_each-Decided ns after settled' (λ k g. calm k (Kept-grey colours after k kept g))
            (λ a m. part a (ground (arith, m))))

  Decided-cases :
      (v : Verdict)
      → Decided graph [] v
      → ((v ≡ some none) × (Cyclic graph → ⊥)) ⊎ ((id : ℕ) × (v ≡ some (some id)) × Cyclic graph)
  Decided-cases none d = absurd d
  Decided-cases (some (some id)) d = inr (id, refl, d)
  Decided-cases (some none) (c, settled, kept, done) = inl (refl, alone)
    where
      alone : Cyclic graph → ⊥
      alone (a, ([], route)) = (settled a (done a (inputs_of-ids a a graph route))).1 ([], route)
      alone (a, (b ∷ bs, route)) =
          (settled a (done a (inputs_of-ids a b graph route.0))).1 (b ∷ bs, route)

  -- checkAcyclic ends on every graph, and reports a node exactly if some node is, along one edge or
  -- more, upstream of itself. Edges from names that are no node, repeated ids and self-loops are
  -- included.
  pub check_acyclic-Cyclic :
      ((check_acyclic graph ≡ some none) × (Cyclic graph → ⊥))
      ⊎ ((id : ℕ) × (check_acyclic graph ≡ some (some id)) × Cyclic graph)
  unfolding check_acyclic colour_of lookup
  check_acyclic-Cyclic =
      Decided-cases (check_acyclic graph)
        (check_each-Decided graph [] (λ a h. absurd (cc h)) (λ k h. cc h) (λ a m. m))
