-- ===== src/Tracker/Counters.antt =====
-- The counters of internal/ledger/tracker.go: what appending, retiring and merging does to them.
use canal.Prelude.{
  ℕ, ◌+◌, ◌^◌, ◌≤◌, ◌<◌, ◌≡◌, refl, sym, subst, ◌⊎◌, inl, inr, Bool, true, Option, none, some, List,
  [], ◌∷◌, ◌++◌, arith, ◌==◌, length, length-append, add64, Bool-cases, Option-cases,
}
use canal.Tracker.{
  Node, Tracker, append_locked, retire, walk, publish, advance_locked, has_room, is_marker,
  coalesce, discharge_list, discharge_node,
}

-- A record count and a budget come from Go's int.
abbrev pub int_limit : ℕ
int_limit = 2 ^ 63

module _ {ℓ} {P : Type ℓ} where
  abbrev pub total : List (Node P) → ℕ
  total [] = 0
  total (n ∷ ns) = n.weight + total ns

  -- Only the head weighs anything.
  abbrev pub TailFree : List (Node P) → Type 0
  TailFree [] = Unit
  TailFree (n ∷ ns) = (total ns ≡ 0) × (n.weight < int_limit)

  pub record Accounts (t : Tracker P) : Type ℓ where
    pub counted : t.nodes ≡ length t.list
    pub weighed : t.pending ≡ total t.list
    pub conserved : add64 (add64 t.settled t.abandoned) t.pending ≡ t.admitted
    pub bounded : (total t.list ≤ t.budget) ⊎ TailFree t.list
    pub small : t.budget < int_limit

  total-append : (ns : List (Node P)) (n : Node P) → total (ns ++ n ∷ []) ≡ total ns + n.weight
  total-append [] n = omega arith
  total-append (m ∷ ns) n = omega (arith, total-append ns n)

  TailFree-total : (ns : List (Node P)) → TailFree ns → total ns < int_limit
  TailFree-total [] h = omega arith
  TailFree-total (n ∷ ns) h = omega arith

  within-lt :
      (l : List (Node P)) (budget : ℕ)
      → (total l ≤ budget) ⊎ TailFree l
      → budget < int_limit
      → total l < int_limit
  within-lt l budget (inl b) s = omega arith
  within-lt l budget (inr h) s = TailFree-total l h

  pub total-lt : (t : Tracker P) → Accounts t → total t.list < int_limit
  total-lt t v = within-lt t.list t.budget v.bounded v.small

  empty_of_length : (ns : List (Node P)) → length ns ≡ 0 → ns ≡ []
  empty_of_length [] h = refl
  empty_of_length (n ∷ ns) h = absurd (omega arith)

  pub retire-Accounts :
      (t : Tracker P) (n : Node P) (ns : List (Node P))
      → t.list ≡ n ∷ ns
      → Accounts t
      → Accounts (retire t n ns)
  unfolding retire
  retire-Accounts t n ns e v = ground arith

  walk-Accounts :
      (t : Tracker P) (ns : List (Node P)) (last : Option P)
      → t.list ≡ ns
      → Accounts t
      → Accounts (walk t ns last).0
  unfolding walk
  walk-Accounts t [] last e v = v
  walk-Accounts t (n ∷ ns) last e v = elim (Bool-cases n.resolved) [
    | inl y ↦ rw y (
        walk-Accounts (retire t n ns) ns (some n.payload) (unfold retire in refl)
          (retire-Accounts t n ns e v))
    | inr z ↦ rw z v
  ]

  publish-Accounts : (r : Tracker P × Option P) → Accounts r.0 → Accounts (publish r).0
  unfolding publish
  publish-Accounts (t, none) v = v
  publish-Accounts (t, some p) v = ground arith

  pub advance-Accounts : (t : Tracker P) → Accounts t → Accounts (advance_locked t).0
  unfolding advance_locked
  advance-Accounts t v = publish-Accounts (walk t t.list none) (walk-Accounts t t.list none refl v)

  -- A node that has room leaves the bound: the sum fits, or the list was empty.
  pub append-bounded :
      (t : Tracker P) (n : Node P)
      → Accounts t
      → n.weight < int_limit
      → has_room t n.weight ≡ true
      → (total (t.list ++ n ∷ []) ≤ t.budget) ⊎ TailFree (t.list ++ n ∷ [])
  unfolding has_room
  append-bounded t n v w room = elim (Bool-cases (t.nodes == 0)) [
    | inl y ↦
        let e : t.list ≡ [] = empty_of_length t.list (ground (arith, v.counted)) in
        inr (subst (λ l. TailFree (l ++ n ∷ [])) (sym e) (refl, w))
    | inr z ↦ inl (ground (arith, total-append t.list n, total-lt t v, v.weighed))
  ]

  TailFree-append :
      (ns : List (Node P)) (n : Node P) → n.weight ≡ 0 → TailFree ns → TailFree (ns ++ n ∷ [])
  TailFree-append [] n z h = omega arith
  TailFree-append (m ∷ ns) n z h = omega (arith, total-append ns n)

  pub append-weightless :
      (t : Tracker P) (n : Node P)
      → Accounts t
      → n.weight ≡ 0
      → (total (t.list ++ n ∷ []) ≤ t.budget) ⊎ TailFree (t.list ++ n ∷ [])
  append-weightless t n v z = elim v.bounded [
    | inl b ↦ inl (omega (arith, total-append t.list n))
    | inr h ↦ inr (TailFree-append t.list n z h)
  ]

  pub append-Accounts :
      (t : Tracker P) (n : Node P)
      → Accounts t
      → (total (t.list ++ n ∷ []) ≤ t.budget) ⊎ TailFree (t.list ++ n ∷ [])
      → Accounts (append_locked t n)
  unfolding append_locked
  append-Accounts t n v b = record {
    counted = omega (arith, v.counted, length-append t.list (n ∷ []));
    weighed =
        omega (
          arith,
          v.weighed,
          total-append t.list n,
          within-lt (t.list ++ n ∷ []) t.budget b v.small,
        );
    conserved = omega (arith, v.conserved);
    bounded = b;
    small = v.small;
  }

  pub coalesce-total :
      (ns l : List (Node P)) (p : P) (now : ℕ)
      → coalesce ns p now ≡ some l
      → (length l ≡ length ns) × (total l ≡ total ns)
  unfolding coalesce is_marker
  coalesce-total [] l p now h = cc
  coalesce-total (n ∷ []) l p now h = ground arith
  coalesce-total (n ∷ m ∷ ns) l p now h = elim (Option-cases (coalesce (m ∷ ns) p now)) [
    | inl z ↦ absurd (ground arith)
    | inr (l', q) ↦ ground (arith, coalesce-total (m ∷ ns) l' p now q)
  ]

  pub discharge_list-total :
      (id : ℕ) (b : Bool) (k : ℕ) (ns : List (Node P))
      → (length (discharge_list id b k ns) ≡ length ns)
        × (total (discharge_list id b k ns) ≡ total ns)
  unfolding discharge_list discharge_node
  discharge_list-total id b k [] = (refl, refl)
  discharge_list-total id b k (n ∷ ns) = ground (arith, discharge_list-total id b k ns)

  -- The bound looks at the weights alone.
  pub bounded-of-same :
      (xs ys : List (Node P)) (budget : ℕ)
      → (total xs ≤ budget) ⊎ TailFree xs
      → total ys ≡ total xs
      → (TailFree xs → TailFree ys)
      → (total ys ≤ budget) ⊎ TailFree ys
  bounded-of-same xs ys budget (inl b) e h = inl (omega arith)
  bounded-of-same xs ys budget (inr f) e h = inr (h f)
