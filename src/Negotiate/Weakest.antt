-- ===== src/Negotiate/Weakest.antt =====
-- The tier of a pipeline, as a summary of the tiers of its branches.
use canal.Prelude.{
  ℕ, ◌≤◌, ◌<◌, ◌≡◌, ◌≢◌, refl, sym, ap, subst, ◌∙◌, true, Bool-cases, false, none, List, [], ◌∷◌,
  ◌++◌, ◌⊎◌, inl, inr, All, arith,
}
use canal.Negotiate.{
  at_most_once, exactly_once, StoreCaps, Spec, Resolved, Diagnostic, SinkCaps, ResolvedSink,
  max_guarantee,
}
use canal.Negotiate.Tiers.{EachHonest, negotiate-EachHonest}
use canal.Negotiate.Contracts.{
  NodeContract, contracts, Summary, summarise_one, summarise_from, initial_guarantee, summarise,
}
use canal.Negotiate.Outcome.{negotiate}
use canal.Negotiate.Folding.{
  SomeAt, Bounds, AllLossy, from-Bounds, from-reached, from-append, at_branch, one-at_branch,
  from-stronger, from-above,
}

-- At most the tier of every branch that bears progress, and that of one of them; exactly_once where
-- every branch is best-effort, and at_most_once where there is no branch.
pub record IsWeakest (ns : List NodeContract) (g : ℕ) : Type 0 where
  pub below : Bounds g ns
  pub reached :
      SomeAt g ns
      ⊎ ((ns ≢ []) × AllLossy ns × (g ≡ exactly_once))
      ⊎ ((ns ≡ []) × (g ≡ at_most_once))

-- The highest tier is a lower bound only if it is reached, or no branch bears progress.
top_reached :
    (g : ℕ) (ns : List NodeContract)
    → All (λ n. n.guarantee ≤ g) ns
    → Bounds g ns
    → SomeAt g ns ⊎ AllLossy ns
top_reached g [] most below = inr tt
top_reached g (n ∷ ns) most below = elim (top_reached g ns most.1 below.1) [
  | inl later ↦ inl (inr later)
  | inr lossy ↦ elim (Bool-cases n.best_effort) [
    | inl y ↦ inr (y, lossy)
    | inr z ↦ elim below.0 [
      | inl y ↦ absurd (cc (y, z))
      | inr le ↦ inl (inl (z, omega (arith, most.0)))
    ]
  ]
]

summarise-IsWeakest :
    (ns : List NodeContract)
    → All (λ n. n.guarantee ≤ exactly_once) ns
    → IsWeakest ns (summarise ns).guarantee
unfolding summarise summarise_from
summarise-IsWeakest [] most = record { below = tt; reached = inr (inr (refl, refl)) }
summarise-IsWeakest (n ∷ ns) most =
    let start : Summary = record { guarantee = exactly_once; edge = none; ack = none } in
    let below = from-Bounds (n ∷ ns) start in
    record {
      below = below;
      reached = elim (from-reached (n ∷ ns) start) [
        | inr reached ↦ inl reached
        | inl same ↦
            elim (top_reached exactly_once (n ∷ ns) most
              (subst (λ g. Bounds g (n ∷ ns)) same below)) [
                | inl top ↦ inl (subst (λ g. SomeAt g (n ∷ ns)) (sym same) top)
                | inr lossy ↦ inr (inl ((λ h. absurd (cc h)), lossy, same))
              ]
      ];
    }

max_guarantee-le : (c : SinkCaps) → max_guarantee c ≤ exactly_once
unfolding max_guarantee
max_guarantee-le c = ground arith

EachHonest-le :
    (s : Spec) (sc : StoreCaps) (res : Resolved) (sinks : List (ℕ × ResolvedSink))
    (ns : List NodeContract)
    → EachHonest s sc res sinks ns
    → All (λ n. n.guarantee ≤ exactly_once) ns
EachHonest-le s sc res [] [] h = tt
EachHonest-le s sc res [] (n ∷ ns) h = absurd h
EachHonest-le s sc res (sink ∷ sinks) [] h = absurd h
EachHonest-le s sc res (sink ∷ sinks) (n ∷ ns) h =
    (omega (arith, h.0.sink, max_guarantee-le sink.1.caps), EachHonest-le s sc res sinks ns h.1)

-- The tier that negotiate discloses for a pipeline is at most that of every branch that bears
-- progress and is the tier of one of them; where there are branches and all are best-effort it is
-- exactly_once, and where there is none at_most_once.
pub negotiate-IsWeakest :
    (s : Spec) (res : Resolved) (sc : StoreCaps) (d : List Diagnostic)
    → IsWeakest ((negotiate s res sc d).0.nodes) (negotiate s res sc d).0.summary.guarantee
unfolding negotiate
negotiate-IsWeakest s res sc d =
    let ns = contracts s sc res res.sinks in
    summarise-IsWeakest ns (EachHonest-le s sc res res.sinks ns (negotiate-EachHonest s res sc d))

initial_guarantee-append :
    (ns : List NodeContract) (n : NodeContract) (ms : List NodeContract)
    → initial_guarantee (ns ++ n ∷ ms) ≡ exactly_once
initial_guarantee-append [] n ms = refl
initial_guarantee-append (m ∷ ns) n ms = refl

-- A branch that bears progress, is at most exactly_once, is no stronger than any that bears
-- progress before it in the order of the loop, and weaker than any after it, gives the whole
-- summary: the pipeline's tier, durability edge and acknowledgement point are those of this last of
-- the weakest branches.
pub summarise-edge_last :
    (ns : List NodeContract) (n : NodeContract) (ms : List NodeContract)
    → n.best_effort ≡ false
    → n.guarantee ≤ exactly_once
    → Bounds n.guarantee ns
    → All (λ m. (m.best_effort ≡ true) ⊎ (n.guarantee < m.guarantee)) ms
    → summarise (ns ++ n ∷ ms) ≡ at_branch n
unfolding summarise summarise_from
summarise-edge_last ns n ms bears tier before after =
    let start : Summary = record { guarantee = exactly_once; edge = none; ack = none } in
    let here : summarise_one (summarise_from start ns) n ≡ at_branch n =
      one-at_branch (summarise_from start ns) n bears
        (from-above n.guarantee ns start before tier) in
    let fold : summarise_from start (ns ++ n ∷ ms) ≡ at_branch n =
      from-append ns (n ∷ ms) start
      ∙ ap (λ out. summarise_from out ms) here
      ∙ from-stronger n ms after in
    rw (initial_guarantee-append ns n ms, fold) refl
