-- ===== src/Tracker/Walk.antt =====
-- advanceLocked of internal/ledger/tracker.go: what its loop does to the list and to the log.
use canal.Prelude.{
  ◌≡◌, refl, sym, ap, subst, ◌∙◌, inl, inr, true, Option, none, some, List, [], ◌∷◌, ◌++◌, All,
  arith, ◌==◌, Bool-cases,
}
use canal.Tracker.{Node, Tracker, retire, walk, publish}
use canal.Tracker.Spec.{Entry, frontier}
use canal.Tracker.Relation.{Rel, nil, keep, merge, HeadOpen}

abbrev pub IsDone {ℓ} : {P : Type ℓ} → Entry P → Type 0
IsDone e = e.left ≡ 0

module _ {ℓ} {P : Type ℓ} where
  pub frontier-append :
      (last : Option P) (pre es : List (Entry P))
      → All IsDone pre
      → frontier last (pre ++ es) ≡ frontier (frontier last pre) es
  unfolding frontier
  frontier-append last [] es d = refl
  frontier-append last (e ∷ pre) es d = ground (arith, frontier-append (some e.payload) pre es d.1)

  frontier-pass :
      (last : Option P) (e : Entry P) (es : List (Entry P))
      → e.left ≡ 0
      → frontier last (e ∷ es) ≡ frontier (some e.payload) es
  unfolding frontier
  frontier-pass last e es z = ground arith

  pub frontier-open :
      {ns : List (Node P)} {es : List (Entry P)} (last : Option P)
      → Rel ns es
      → HeadOpen ns
      → frontier last es ≡ last
  unfolding frontier
  frontier-open last nil h = refl
  frontier-open last (keep s r) h = ground arith
  frontier-open last (merge z v r) h = cc

  frontier-some : (p : P) (pre : List (Entry P)) → (q : P) × (frontier (some p) pre ≡ some q)
  unfolding frontier
  frontier-some p [] = (p, refl)
  frontier-some p (e ∷ pre) = elim (Bool-cases (e.left == 0)) [
    | inl y ↦ rw y (frontier-some e.payload pre)
    | inr z ↦ (p, rw z)
  ]

  publish-frontier :
      (t : Tracker P) (pre : List (Entry P))
      → All IsDone pre
      → (publish (t, frontier none pre)).0.frontier ≡ frontier t.frontier pre
  unfolding frontier publish
  publish-frontier t [] d = refl
  publish-frontier t (e ∷ pre) d = let (q, h) = frontier-some e.payload pre in ground arith

  pub publish-walked :
      (f : Option P) (r : Tracker P × Option P) (passed : List (Entry P))
      → All IsDone passed
      → r.0.frontier ≡ f
      → r.1 ≡ frontier none passed
      → (publish r).0.frontier ≡ frontier f passed
  publish-walked f (t, o) passed d h e = rw (e, ← h) (publish-frontier t passed d)

  pub publish-list : (t : Tracker P) (r : Option P) → (publish (t, r)).0.list ≡ t.list
  unfolding publish
  publish-list t none = refl
  publish-list t (some p) = refl

  walk-resolved :
      (t : Tracker P) (n : Node P) (ns : List (Node P)) (a b : Option P)
      → n.resolved ≡ true
      → walk t (n ∷ ns) a ≡ walk t (n ∷ ns) b
  unfolding walk
  walk-resolved t n ns a b h = ground arith

  pub walk-frontier :
      (t : Tracker P) (ns : List (Node P)) (a : Option P) → (walk t ns a).0.frontier ≡ t.frontier
  unfolding walk
  walk-frontier t [] a = refl
  walk-frontier t (n ∷ ns) a = ground (arith, walk-frontier (retire t n ns) ns (some n.payload))

  pub record Walked (es : List (Entry P)) (last : Option P) (r : Tracker P × Option P)
      : Type ℓ where
    pub passed : List (Entry P)
    pub rest : List (Entry P)
    pub split : es ≡ passed ++ rest
    pub done : All IsDone passed
    pub result : r.1 ≡ frontier last passed
    pub rel : Rel r.0.list rest
    pub head : HeadOpen r.0.list

  pub walk-Walked :
      {ns : List (Node P)} {es : List (Entry P)} (t : Tracker P) (last : Option P)
      → t.list ≡ ns
      → Rel ns es
      → Walked es last (walk t ns last)
  unfolding walk frontier
  walk-Walked t last h nil = record {
    passed = [];
    rest = [];
    split = refl;
    done = tt;
    result = refl;
    rel = rw h nil;
    head = rw h tt;
  }
  walk-Walked t last h (keep {n} {e} {ns = ns} {es = es} s r) = elim (Bool-cases n.resolved) [
    | inl y ↦
        let w = walk-Walked (retire t n ns) (some n.payload) (unfold retire in refl) r in
        rw y (record {
          passed = e ∷ w.passed;
          rest = w.rest;
          split = ap (◌∷◌ e) w.split;
          done = (ground arith, w.done);
          result =
              w.result
              ∙ ap (λ p. frontier (some p) w.passed) s.payload
              ∙ sym (frontier-pass last e w.passed (ground arith));
          rel = w.rel;
          head = w.head;
        })
    | inr z ↦ rw z (record {
      passed = [];
      rest = e ∷ es;
      split = refl;
      done = tt;
      result = refl;
      rel = rw h (keep s r);
      head = rw h z;
    })
  ]
  walk-Walked t last h (merge {n} {e} {ns = ns} {es = es} z v r) =
      let w = walk-Walked t (some e.payload) h r in
      subst (Walked (e ∷ es) last) (walk-resolved t n ns (some e.payload) last v) (record {
        passed = e ∷ w.passed;
        rest = w.rest;
        split = ap (◌∷◌ e) w.split;
        done = (z, w.done);
        result = w.result ∙ sym (frontier-pass last e w.passed z);
        rel = w.rel;
        head = w.head;
      })
