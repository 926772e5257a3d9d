-- ===== src/Tracker/Discharge.antt =====
-- Release and Abandon of internal/ledger/tracker.go against the log of admissions.
use mathlib.Core.List.{append_assoc}
use canal.Prelude.{
  ℕ, ◌<◌, ◌≡◌, refl, sym, ap, ◌∙◌, inl, inr, Bool, none, some, List, [], ◌∷◌, ◌++◌, All, All-append,
  arith, ltb, Bool-cases, Option-cases,
}
use canal.Tracker.{
  Node, Tracker, Ticket, walk, publish, advance_locked, refs_left, discharge_list, discharge_node,
  find_node, discharge_live, discharge,
}
use canal.Tracker.Spec.{Entry, frontier, discharge_log, settle}
use canal.Tracker.Relation.{Rel, HeadOpen, refs_left-zero, Rel-discharge}
use canal.Tracker.Walk.{
  IsDone, frontier-append, frontier-open, publish-walked, publish-list, walk-frontier, walk-Walked,
}

module _ {ℓ} {P : Type ℓ} where
  -- The tracker stands for the log: `pre` is what the prefix has passed, `rest` what is listed.
  pub record Sim (t : Tracker P) (log : List (Entry P)) : Type ℓ where
    pub pre : List (Entry P)
    pub rest : List (Entry P)
    pub split : log ≡ pre ++ rest
    pub done : All IsDone pre
    pub same : frontier none pre ≡ t.frontier
    pub rel : Rel t.list rest
    pub head : HeadOpen t.list

  pub Sim-frontier :
      {t : Tracker P} {log : List (Entry P)} → Sim t log → t.frontier ≡ frontier none log
  Sim-frontier {t} v =
      rw
        (
          v.split,
          frontier-append none v.pre v.rest v.done,
          frontier-open (frontier none v.pre) v.rel v.head,
        )
        (sym v.same)

  pub advance-Sim :
      (t : Tracker P) (pre rest : List (Entry P))
      → All IsDone pre
      → frontier none pre ≡ t.frontier
      → Rel t.list rest
      → Sim (advance_locked t).0 (pre ++ rest)
  unfolding advance_locked
  advance-Sim t pre rest d f r =
      let w = walk-Walked t none refl r in
      let e : (publish (walk t t.list none)).0.list ≡ (walk t t.list none).0.list =
        publish-list _ _ in
      record {
        pre = pre ++ w.passed;
        rest = w.rest;
        split = rw w.split (sym (append_assoc pre w.passed w.rest));
        done = All-append IsDone pre w.passed d w.done;
        same =
            frontier-append none pre w.passed d
            ∙ ap (λ l. frontier l w.passed) f
            ∙ sym (
                publish-walked t.frontier (walk t t.list none) w.passed w.done
                  (walk-frontier t t.list none) w.result);
        rel = rw e w.rel;
        head = rw e w.head;
      }

  discharge_log-done :
      (id : ℕ) (b : Bool) (k : ℕ) (pre : List (Entry P))
      → All IsDone pre
      → discharge_log id b k pre ≡ pre
  unfolding discharge_log
  discharge_log-done id b k [] d = refl
  discharge_log-done id b k (e ∷ pre) d =
      ground (arith, refs_left-zero b k, discharge_log-done id b k pre d.1)

  discharge_log-append :
      (id : ℕ) (b : Bool) (k : ℕ) (pre es : List (Entry P))
      → discharge_log id b k (pre ++ es) ≡ discharge_log id b k pre ++ discharge_log id b k es
  unfolding discharge_log
  discharge_log-append id b k [] es = refl
  discharge_log-append id b k (e ∷ pre) es = rw (discharge_log-append id b k pre es)

  discharge_list-absent :
      (id : ℕ) (b : Bool) (k : ℕ) (ns : List (Node P))
      → find_node id ns ≡ none
      → discharge_list id b k ns ≡ ns
  unfolding find_node discharge_list
  discharge_list-absent id b k [] h = refl
  discharge_list-absent id b k (n ∷ ns) h = ground (arith, discharge_list-absent id b k ns)

  -- The first node of that ticket keeps references: then the head is as open as before.
  discharge_list-HeadOpen :
      (id : ℕ) (b : Bool) (k : ℕ) (ns : List (Node P)) (m : Node P)
      → find_node id ns ≡ some m
      → 0 < refs_left b k m.refs
      → HeadOpen ns
      → HeadOpen (discharge_list id b k ns)
  unfolding find_node discharge_list discharge_node
  discharge_list-HeadOpen id b k [] m f l h = tt
  discharge_list-HeadOpen id b k (n ∷ ns) m f l h = ground arith

  Sim-split :
      (t : Tracker P) (log : List (Entry P)) (id : ℕ) (b : Bool) (k : ℕ) (v : Sim t log)
      → discharge_log id b k log ≡ v.pre ++ discharge_log id b k v.rest
  Sim-split t log id b k v = rw v.split (
      discharge_log-append id b k v.pre v.rest
      ∙ ap (λ l. l ++ discharge_log id b k v.rest) (discharge_log-done id b k v.pre v.done))

  discharge_live-Sim :
      (t : Tracker P) (log : List (Entry P)) (id : ℕ) (b : Bool) (k : ℕ) (m : Node P)
      → find_node id t.list ≡ some m
      → Sim t log
      → Sim (discharge_live t id b k m).0 (discharge_log id b k log)
  unfolding discharge_live
  discharge_live-Sim t log id b k m f v = elim (Bool-cases (ltb 0 (refs_left b k m.refs))) [
    | inl more ↦ rw more (record {
      pre = v.pre;
      rest = discharge_log id b k v.rest;
      split = Sim-split t log id b k v;
      done = v.done;
      same = v.same;
      rel = Rel-discharge id b k v.rel;
      head = discharge_list-HeadOpen id b k t.list m f (ground arith) v.head;
    })
    | inr last ↦
        rw (last, Sim-split t log id b k v)
          (advance-Sim _ v.pre (discharge_log id b k v.rest) v.done v.same
            (Rel-discharge id b k v.rel))
  ]

  pub discharge-Sim :
      (t : Tracker P) (log : List (Entry P)) (k : Ticket) (n : ℕ) (b : Bool)
      → Sim t log
      → Sim (discharge t k n b).0 (settle k b n log)
  unfolding discharge settle
  discharge-Sim t log none n b v = v
  discharge-Sim t log (some id) n b v = elim (Option-cases (find_node id t.list)) [
    | inl absent ↦
        rw (absent, discharge)
          (record {
            pre = v.pre;
            rest = discharge_log id b n v.rest;
            split = Sim-split t log id b n v;
            done = v.done;
            same = v.same;
            rel = rw (discharge_list-absent id b n t.list absent) at (Rel-discharge id b n v.rel);
            head = v.head;
          })
    | inr (m, f) ↦ rw (f, discharge) (discharge_live-Sim t log id b n m f v)
  ]
