-- ===== src/Write/Failures.antt =====
-- writeOnce of internal/engine/write.go: where an error in the map of failed records comes from.
use canal.Prelude.{
  ℕ, ◌≤◌, ◌≡◌, sym, subst, ap, ◌∙◌, none, some, List, [], ◌∷◌, ◌==◌, ◌&&◌, ◌⊎◌, inl, inr,
  Bool-cases, Option-cases, length, arith,
}
use canal.Prelude.Assoc.{lookup, insert, lookup-insert}
use canal.Fault.{Error}
use canal.Write.{
  WriteResult, reconcile, Reply, refused, answered, Tally, Sink, build_requests, fail_all, name_all,
  landed, fail_named, settle_or_hold, is_nil, write_requests, Round, write_once,
}
use canal.Write.Requests.{count, Reply-cases}
use canal.Write.Conservation.{
  write_requests-refused, write_requests-answered, write_requests-broken,
}

-- The sink refuses a request that carries the record with this error, or names the record with it.
abbrev Refused : ℕ → Error → (List ℕ → Reply) → Type 0
Refused k e reply =
    (rq : List ℕ) × (1 ≤ count k rq)
    × ((reply rq ≡ refused e)
        ⊎ ((res : WriteResult) × (reply rq ≡ answered res)
            × (lookup k (name_all res.failed []) ≡ some e)))

-- In this round the record cannot be encoded, or the sink does not take it.
abbrev pub Failed : ℕ → Error → Round → Type 0
Failed k e round = (round.encoding ≡ some e) ⊎ Refused k e round.reply

lookup-fail_all :
    (k : ℕ) (err e : Error) (rs : List ℕ) (failed : List (ℕ × Error))
    → lookup k (fail_all err rs failed) ≡ some e
    → (lookup k failed ≡ some e) ⊎ ((1 ≤ count k rs) × (err ≡ e))
unfolding fail_all
lookup-fail_all k err e [] failed h = inl h
lookup-fail_all k err e (r ∷ rs) failed h =
    elim (lookup-fail_all k err e rs (insert r err failed) h) [
      | inr (n, same) ↦ inr (ground arith, same)
      | inl before ↦ elim (Bool-cases (r == k)) [
        | inl y ↦
            let here : some err ≡ some e = rw (lookup-insert r k err failed, y) at before in
            inr (ground arith, cc here)
        | inr z ↦ inl (rw (lookup-insert r k err failed, z) at before)
      ]
    ]

lookup-fail_named :
    (k : ℕ) (e : Error) (named : List (ℕ × Error)) (rs : List ℕ) (failed : List (ℕ × Error))
    → lookup k (fail_named named rs failed) ≡ some e
    → (lookup k failed ≡ some e) ⊎ ((1 ≤ count k rs) × (lookup k named ≡ some e))
unfolding fail_named
lookup-fail_named k e named [] failed h = inl h
lookup-fail_named k e named (r ∷ rs) failed h = elim (lookup-fail_named k e named rs _ h) [
  | inr (n, same) ↦ inr (ground arith, same)
  | inl before ↦ elim (Option-cases (lookup r named)) [
    | inl out ↦ inl (rw out at before)
    | inr (err, found) ↦ elim (Bool-cases (r == k)) [
      | inl y ↦
          let q : r ≡ k = ground arith in
          let here : some err ≡ some e =
            rw (lookup-insert r k err failed, y) at (rw found at before) in
          inr (ground arith, subst (λ j. lookup j named ≡ some err) q found ∙ here)
      | inr z ↦ inl (rw (lookup-insert r k err failed, z) at (rw found at before))
    ]
  ]
]

module _ (k : ℕ) (e : Error) (sk : Sink) where
  write_requests-Refused :
      (reply : List ℕ → Reply) (rqs : List (List ℕ)) (failed : List (ℕ × Error)) (t : Tally)
      (after : List (ℕ × Error))
      → (write_requests sk reply rqs failed t).1 ≡ some after
      → lookup k after ≡ some e
      → (lookup k failed ≡ some e) ⊎ Refused k e reply
  unfolding write_requests
  write_requests-Refused reply [] failed t after w h =
      let same : failed ≡ after = cc w in inl (ap (λ m. lookup k m) same ∙ h)
  write_requests-Refused reply (rq ∷ rqs) failed t after w h = elim (Reply-cases (reply rq)) [
    | inl (err, r) ↦
        let step = write_requests-refused sk reply rq rqs failed t err r in
        elim (write_requests-Refused reply rqs (fail_all err rq failed) t after
          (ap (λ x. x.1) (sym step) ∙ w) h) [
            | inr later ↦ inr later
            | inl before ↦ elim (lookup-fail_all k err e rq failed before) [
              | inl old ↦ inl old
              | inr (n, same) ↦ inr (rq, n, inl (r ∙ ap refused same))
            ]
          ]
    | inr (res, r) ↦ elim (Bool-cases (reconcile res (length rq) && is_nil res.deferred)) [
      | inl y ↦
          let named = name_all res.failed [] in
          let step = write_requests-answered sk reply rq rqs failed t res r y in
          elim (write_requests-Refused reply rqs (fail_named named rq failed)
            (settle_or_hold sk (landed named rq) t) after (ap (λ x. x.1) (sym step) ∙ w) h) [
              | inr later ↦ inr later
              | inl before ↦ elim (lookup-fail_named k e named rq failed before) [
                | inl old ↦ inl old
                | inr (n, found) ↦ inr (rq, n, inr (res, r, found))
              ]
            ]
      | inr z ↦
          let step = write_requests-broken sk reply rq rqs failed t res r z in
          let gone : none ≡ some after = ap (λ x. x.1) (sym step) ∙ w in absurd (cc gone)
    ]
  ]

  pub write_once-Failed :
      (round : Round) (rs : List ℕ) (t : Tally) (after : List (ℕ × Error))
      → (write_once sk round rs t).1 ≡ some after
      → lookup k after ≡ some e
      → Failed k e round
  unfolding write_once lookup
  write_once-Failed round rs t after w h = elim (Option-cases round.encoding) [
    | inl n ↦
        elim (write_requests-Refused round.reply (build_requests sk rs) [] t after (rw n at w) h) [
          | inl old ↦ absurd (cc old)
          | inr later ↦ inr later
        ]
    | inr (err, n) ↦
        let same : some (fail_all err rs []) ≡ some after = rw n at w in
        let m : fail_all err rs [] ≡ after = cc same in
        elim (lookup-fail_all k err e rs [] (ap (λ x. lookup k x) m ∙ h)) [
          | inl old ↦ absurd (cc old)
          | inr (c, is_it) ↦ inl (n ∙ ap some is_it)
        ]
  ]
