-- ===== src/Graph/Walks.antt =====
-- walk in checkReachable of internal/engine/graph.go: it ends, and marks what is upstream of a node.
use canal.Prelude.{
  ℕ, zero, suc, ◌+◌, ◌≡◌, ◌≤◌, ◌<◌, sym, subst, true, false, none, some, List, [], ◌∷◌, ◌==◌, ◌⊎◌,
  inl, inr, if◌then◌else◌, Bool-cases, arith,
}
use canal.Negotiate.{Node}
use canal.Graph.{is_in, inputs_of, Marks, and_then, walk_each, walk}
use canal.Graph.Cycles.{Upstream}

-- How many names are not marked.
abbrev pub left : List ℕ → List ℕ → ℕ
left [] marks = 0
left (k ∷ ks) marks = (if is_in k marks then 0 else 1) + left ks marks

-- What is marked stays so.
abbrev pub Grows : List ℕ → List ℕ → Type 0
Grows before after = (k : ℕ) → is_in k before ≡ true → is_in k after ≡ true

left-Grows : (ks a b : List ℕ) → Grows a b → left ks b ≤ left ks a
left-Grows [] a b h = omega arith
left-Grows (k ∷ ks) a b h = elim (Bool-cases (is_in k a)) [
  | inl y ↦ rw (y, h k y) (omega (arith, left-Grows ks a b h))
  | inr z ↦ rw z (ground (arith, left-Grows ks a b h))
]

left-mark : (ks : List ℕ) (id : ℕ) (marks : List ℕ) → left ks (id ∷ marks) ≤ left ks marks
left-mark [] id marks = omega arith
left-mark (k ∷ ks) id marks = ground (arith, left-mark ks id marks)

left-walk :
    (ks : List ℕ) (id : ℕ) (marks : List ℕ)
    → is_in id ks ≡ true
    → is_in id marks ≡ false
    → left ks (id ∷ marks) < left ks marks
left-walk [] id marks h out = absurd (cc h)
left-walk (k ∷ ks) id marks h out = elim (Bool-cases (k == id)) [
  | inl y ↦
      let same : id ≡ k = ground arith in
      let out' = subst (λ x. is_in x marks ≡ false) same out in
      rw (out') (ground (arith, left-mark ks id marks, same))
  | inr z ↦ ground (arith, left-walk ks id marks (rw z at h) out)
]

is_in-single : (u id : ℕ) → is_in u (id ∷ []) ≡ true → id ≡ u
is_in-single u id h = ground arith

module _ (graph : List Node) where
  abbrev pub Inside : List ℕ → ℕ → Type 0
  Inside marks a = (b : ℕ) → is_in b (inputs_of a graph) ≡ true → is_in b marks ≡ true

  abbrev pub From : ℕ → ℕ → Type 0
  From u a = (a ≡ u) ⊎ Upstream graph u a

  -- Every node that is new has its inputs marked, and comes from one of the nodes.
  abbrev pub AllWalked : List ℕ → List ℕ → Marks → Type 0
  AllWalked ups marks none = ⊥
  AllWalked ups marks (some after) =
      Grows marks after
      × ((u : ℕ) → is_in u ups ≡ true → is_in u after ≡ true)
      × ((a : ℕ)
          → is_in a after ≡ true
          → (is_in a marks ≡ true) ⊎ (Inside after a × ((u : ℕ) × (is_in u ups ≡ true) × From u a)))

  module _ (all : List ℕ)
      (whole : (a b : ℕ) → is_in b (inputs_of a graph) ≡ true → is_in b all ≡ true) where
    AllWalked-cons :
        (up : ℕ) (ups a b : List ℕ) (v : Marks)
        → AllWalked (up ∷ []) a (some b)
        → AllWalked ups b v
        → AllWalked (up ∷ ups) a v
    AllWalked-cons up ups a b none h k = k
    AllWalked-cons up ups a b (some c) (grows, marked, new) (grows', marked', new') = (
      (λ k m. grows' k (grows k m)),
      (λ u m. elim (Bool-cases (up == u)) [
        | inl y ↦ grows' u (marked u (ground (arith, y)))
        | inr z ↦ marked' u (rw z at m)
      ]),
      λ x m. elim (new' x m) [
        | inl old ↦ elim (new x old) [
          | inl older ↦ inl older
          | inr (inside, (u, at, from)) ↦
              inr ((λ y h. grows' y (inside y h)), (u, ground (arith, at), from))
        ]
        | inr (inside, (u, at, from)) ↦ inr (inside, (u, ground (arith, at), from))
      ],
    )

    AllWalked-nil : (marks : List ℕ) → AllWalked [] marks (some marks)
    AllWalked-nil marks = ((λ k m. m), (λ u m. absurd (cc m)), λ a m. inl m)

    module _ (fuel : ℕ) (each : ℕ → List ℕ → Marks)
        (each-AllWalked : (id : ℕ) (marks : List ℕ)
          → is_in id all ≡ true
          → left all marks < fuel
          → AllWalked (id ∷ []) marks (each id marks)) where
      and_then-AllWalked :
          (up : ℕ) (ups marks : List ℕ) (v : Marks)
          → AllWalked (up ∷ []) marks v
          → ((after : List ℕ) → Grows marks after → AllWalked ups after (walk_each each ups after))
          → AllWalked (up ∷ ups) marks (and_then (walk_each each ups) v)
      and_then-AllWalked up ups marks none h rest = h
      and_then-AllWalked up ups marks (some c) h rest =
          AllWalked-cons up ups marks c (walk_each each ups c) h (rest c h.0)

      pub walk_each-AllWalked :
          (ups marks : List ℕ)
          → ((u : ℕ) → is_in u ups ≡ true → is_in u all ≡ true)
          → left all marks < fuel
          → AllWalked ups marks (walk_each each ups marks)
      unfolding walk_each
      walk_each-AllWalked [] marks part enough = AllWalked-nil marks
      walk_each-AllWalked (up ∷ ups) marks part enough =
          and_then-AllWalked up ups marks (each up marks)
            (each-AllWalked up marks (part up (ground arith)) enough)
            (λ after grows.
              walk_each-AllWalked ups after (λ u m. part u (ground (arith, m)))
                (omega (arith, left-Grows all marks after grows)))

    -- A node that was not marked, from its inputs.
    AllWalked-node :
        (id : ℕ) (marks : List ℕ) (v : Marks)
        → AllWalked (inputs_of id graph) (id ∷ marks) v
        → AllWalked (id ∷ []) marks v
    AllWalked-node id marks none h = h
    AllWalked-node id marks (some after) (grows, marked, new) = (
      (λ k m. grows k (ground (arith, m))),
      (λ u m. grows u (ground (arith, m))),
      λ a m. elim (new a m) [
        | inl old ↦ elim (Bool-cases (id == a)) [
          | inl y ↦
              let same : id ≡ a = ground arith in
              inr (
                (λ b h. marked b (subst (λ x. is_in b (inputs_of x graph) ≡ true) (sym same) h)),
                (id, ground arith, inl (sym same)),
              )
          | inr z ↦ inl (rw z at old)
        ]
        | inr (inside, (u, at, from)) ↦ inr (inside, (id, ground arith, below u at from))
      ],
    )
      where
        below : {a : ℕ} (u : ℕ) → is_in u (inputs_of id graph) ≡ true → From u a → From id a
        below u at (inl same) =
            inr ([], subst (λ x. is_in x (inputs_of id graph) ≡ true) (sym same) at)
        below u at (inr (via, route)) = inr (u ∷ via, (at, route))

    pub walk-AllWalked :
        (fuel id : ℕ) (marks : List ℕ)
        → is_in id all ≡ true
        → left all marks < fuel
        → AllWalked (id ∷ []) marks (walk fuel graph id marks)
    unfolding walk
    walk-AllWalked zero id marks h enough = absurd (omega (arith, enough))
    walk-AllWalked (suc fuel) id marks h enough = elim (Bool-cases (is_in id marks)) [
      | inl y ↦
          rw (y, walk)
            (
              (λ k m. m),
              (λ u m. subst (λ x. is_in x marks ≡ true) (is_in-single u id m) y),
              λ a m. inl m,
            )
      | inr z ↦
          rw (z, walk)
            (AllWalked-node id marks (walk_each (walk fuel graph) (inputs_of id graph) (id ∷ marks))
              (walk_each-AllWalked fuel (walk fuel graph) (walk-AllWalked fuel) (inputs_of id graph)
                (id ∷ marks) (λ u m. whole id u m)
                (omega (arith, left-walk all id marks h z, enough))))
    ]
