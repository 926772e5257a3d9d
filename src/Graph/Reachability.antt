-- ===== src/Graph/Reachability.antt =====
-- checkReachable of internal/engine/graph.go: it reports exactly the nodes that no terminal depends on.
use canal.Prelude.{
  ℕ, suc, ◌≡◌, ◌≤◌, refl, sym, subst, true, false, none, some, List, [], ◌∷◌, ◌==◌, inl, inr, ◌⊎◌,
  ◌&&◌, not, length, Bool-cases, ◌↔◌, arith,
}
use canal.Negotiate.{Node}
use canal.Graph.{
  is_in, ids, inputs_of, names, Marks, walk_each, walk, unmarked, terminals, terminals_from,
  all_origins, check_reachable,
}
use canal.Graph.Cycles.{IsRoute}
use canal.Graph.Acyclicity.{inputs_of-names, ids-names}
use canal.Graph.Walks.{left, Inside, From, AllWalked, walk_each-AllWalked, walk-AllWalked}

left-length : (ks marks : List ℕ) → left ks marks ≤ length ks
left-length [] marks = omega arith
left-length (k ∷ ks) marks = ground (arith, left-length ks marks)

terminals_from-ids :
    (has : List ℕ) (k : ℕ) (ns : List Node)
    → is_in k (terminals_from has ns) ≡ true
    → is_in k (ids ns) ≡ true
unfolding terminals_from
terminals_from-ids has k [] h = h
terminals_from-ids has k (n ∷ ns) h = ground (arith, terminals_from-ids has k ns)

unmarked_iff :
    (k : ℕ) (marks : List ℕ) (ns : List Node)
    → is_in k (unmarked ns marks) ≡ (is_in k (ids ns) && not (is_in k marks))
unmarked_iff k marks [] = refl
unmarked_iff k marks (n ∷ ns) = elim (Bool-cases (n.id == k)) [
  | inl y ↦
      let same : n.id ≡ k = ground arith in
      elim (Bool-cases (is_in k marks)) [
        | inl m ↦
            rw (subst (λ x. is_in x marks ≡ true) (sym same) m)
              (ground (arith, unmarked_iff k marks ns, m))
        | inr m ↦
            rw (subst (λ x. is_in x marks ≡ false) (sym same) m)
              (ground (arith, unmarked_iff k marks ns, m))
      ]
  | inr z ↦ elim (Bool-cases (is_in n.id marks)) [
    | inl m ↦ rw m (ground (arith, unmarked_iff k marks ns))
    | inr m ↦ rw m (ground (arith, unmarked_iff k marks ns))
  ]
]

-- Below a marked node all is marked, if that holds of each of its inputs.
upstream_marked :
    (graph : List Node) (marks : List ℕ) (a c : ℕ) (via : List ℕ)
    → ((x : ℕ) → is_in x marks ≡ true → Inside graph marks x)
    → is_in a marks ≡ true
    → IsRoute graph a via c
    → is_in c marks ≡ true
upstream_marked graph marks a c [] inside m h = inside a m c h
upstream_marked graph marks a c (b ∷ bs) inside m h =
    upstream_marked graph marks b c bs inside (inside a m b h.0) h.1

module _ (graph : List Node) where
  -- A terminal is the node, or depends on it.
  abbrev pub Depended : ℕ → Type 0
  Depended a = (t : ℕ) × (is_in t (terminals graph) ≡ true) × From graph t a

  pub terminals-ids : (u : ℕ) → is_in u (terminals graph) ≡ true → is_in u (ids graph) ≡ true
  unfolding terminals
  terminals-ids u h = terminals_from-ids (all_origins graph) u graph h

  terminals-names : (u : ℕ) → is_in u (terminals graph) ≡ true → is_in u (names graph) ≡ true
  unfolding terminals
  terminals-names u h = ids-names u graph (terminals_from-ids (all_origins graph) u graph h)

  walked :
      AllWalked graph
        (terminals graph)
        []
        (walk_each (walk (suc (length (names graph))) graph) (terminals graph) [])
  walked =
      let whole : (a b : ℕ) → is_in b (inputs_of a graph) ≡ true → is_in b (names graph) ≡ true =
        λ a b h. inputs_of-names a b graph h in
      walk_each-AllWalked graph (names graph) whole (suc (length (names graph)))
        (walk (suc (length (names graph))) graph)
        (λ id marks. walk-AllWalked graph (names graph) whole (suc (length (names graph))) id marks)
        (terminals graph) [] terminals-names (omega (arith, left-length (names graph) []))

  -- What it means for a node to be among those that are reported; a node is reported or depended on.
  abbrev pub Reported : List ℕ → ℕ → Type 0
  Reported us a =
      ((is_in a us ≡ true) ↔ ((is_in a (ids graph) ≡ true) × (Depended a → ⊥)))
      × (is_in a (ids graph) ≡ true → (is_in a us ≡ true) ⊎ Depended a)

  abbrev Reports : Marks → Type 0
  Reports none = ⊥
  Reports (some us) = (a : ℕ) → Reported us a

  -- The marks of the walks from every terminal.
  marks-Depended :
      (marks : List ℕ)
      → AllWalked graph (terminals graph) [] (some marks)
      → (a : ℕ) → (is_in a marks ≡ true) ↔ Depended a
  marks-Depended marks (grows, marked, new) a = (
    (λ m. elim (new a m) [ inl old ↦ absurd (cc old) | inr (inside, from) ↦ from ]),
    λ (t, at, from). elim from [
      | inl same ↦ subst (λ x. is_in x marks ≡ true) (sym same) (marked t at)
      | inr (via, route) ↦ upstream_marked graph marks t a via inside (marked t at) route
    ],
  )
    where
      inside : (x : ℕ) → is_in x marks ≡ true → Inside graph marks x
      inside x m = elim (new x m) [ inl old ↦ absurd (cc old) | inr (closed, from) ↦ closed ]

  reported_from :
      (v : Marks)
      → AllWalked graph (terminals graph) [] v
      → Reports (elim v [ none ↦ none | some marks ↦ some (unmarked graph marks) ])
  reported_from none h = h
  reported_from (some marks) h = λ a.
      let both = marks-Depended marks h a in
      (
        (
          (λ m. (
            ground (arith, unmarked_iff a marks graph, m),
            λ d. absurd (ground (arith, unmarked_iff a marks graph, m, both.1 d)),
          )),
          λ (known, free). elim (Bool-cases (is_in a marks)) [
            | inl y ↦ absurd (free (both.0 y))
            | inr z ↦ ground (arith, unmarked_iff a marks graph)
          ],
        ),
        λ known. elim (Bool-cases (is_in a marks)) [
          | inl y ↦ inr (both.0 y)
          | inr z ↦ inl (ground (arith, unmarked_iff a marks graph))
        ],
      )

  Reports-cases :
      (v : Marks) → Reports v → (us : List ℕ) × (v ≡ some us) × ((a : ℕ) → Reported us a)
  Reports-cases none h = absurd h
  Reports-cases (some us) h = (us, refl, h)

  -- checkReachable ends on every graph, and the nodes that it reports are exactly the nodes of the
  -- graph that are neither a terminal nor upstream of one; every other node of the graph is such a
  -- one.
  pub check_reachable-Depended :
      (us : List ℕ) × (check_reachable graph ≡ some us) × ((a : ℕ) → Reported us a)
  unfolding check_reachable
  check_reachable-Depended = Reports-cases (check_reachable graph) (
      reported_from (walk_each (walk (suc (length (names graph))) graph) (terminals graph) [])
        walked)
