-- ===== src/Write/Evidence.antt =====
-- writeOnce and writeSet of internal/engine/write.go: what a record that is disposed of rests on.
use canal.Prelude.{
  ℕ, ◌+◌, ◌≤◌, ◌≡◌, refl, sym, ◌∙◌, true, false, Option, none, some, List, [], ◌∷◌, ◌==◌, ◌&&◌, ◌⊎◌,
  subst, inl, inr, Bool-cases, Option-cases, length, arith,
}
use canal.Prelude.Assoc.{lookup, insert}
use canal.Fault.{Error}
use canal.Fault.Policy.{Float64, RetryPolicy}
use canal.Retry.{
  Attempt, Routing, disp_retry, disp_dead_letter, disp_drop, disp_stop, disp_stall, route,
}
use canal.Write.Loop.{abandon, Sorting, attempt_of, dispose, sort_one, sort_failed}
use canal.Write.{
  defers_durability, dead_letter, WriteResult, reconcile, answered, Tally, Sink, build_requests,
  fail_all, name_all, landed, fail_named, settle_or_hold, is_nil, write_requests, Round, write_once,
}
use canal.Write.Requests.{count, count-append, count-landed, Reply-cases}
use canal.Write.Conservation.{
  write_requests-refused, write_requests-answered, write_requests-broken,
}
use canal.Write.Routed.{sort_failed-fine, sort_failed-stops, sort_failed-moves}
use canal.Write.Drops.{drops, is_drop, drops-route}
use canal.Write.Letters.{both, Lettered, dead_letter-Lettered}

-- In this round the sink accounts for a request that carries the record, and does not name it as failed.
abbrev pub Took : ℕ → Round → Type 0
Took k round =
    (rq : List ℕ) × (res : WriteResult) × (round.reply rq ≡ answered res)
    × (reconcile res (length rq) ≡ true)
    × (lookup k (name_all res.failed []) ≡ none)
    × (1 ≤ count k rq)

abbrev pub SomeRound : (Round → Type 0) → List Round → Type 0
SomeRound P [] = ⊥
SomeRound P (round ∷ rounds) = P round ⊎ SomeRound P rounds

abbrev pub delivered : ℕ → Tally → ℕ
delivered k t = count k t.settled + count k t.held

taken :
    (k : ℕ) (round : Round) (rq : List ℕ) (res : WriteResult)
    → round.reply rq ≡ answered res
    → reconcile res (length rq) && is_nil res.deferred ≡ true
    → 1 ≤ count k (landed (name_all res.failed []) rq)
    → Took k round
taken k round rq res r sound h = elim (Option-cases (lookup k (name_all res.failed []))) [
  | inl n ↦
      let all : count k (landed (name_all res.failed []) rq) ≡ count k rq =
        count-landed k (name_all res.failed []) rq ∙ rw n refl in
      (
        rq,
        res,
        r,
        both (reconcile res (length rq)) (is_nil res.deferred) sound,
        n,
        omega (arith, all),
      )
  | inr (e, n) ↦
      let none' : count k (landed (name_all res.failed []) rq) ≡ 0 =
        count-landed k (name_all res.failed []) rq ∙ rw n refl in
      absurd (omega (arith, none'))
]

module _ (k given lost : ℕ) (E D : Type 0) where
  -- The record has been delivered `given` times and abandoned `lost` times, but where there is evidence.
  abbrev pub Based : Tally → Type 0
  Based t = ((delivered k t ≡ given) ⊎ E) × ((count k t.abandoned ≡ lost) ⊎ D)

  settle_or_hold-Based :
      (sk : Sink) (rs : List ℕ) (t : Tally)
      → (1 ≤ count k rs → E)
      → Based t
      → Based (settle_or_hold sk rs t)
  unfolding settle_or_hold
  settle_or_hold-Based sk rs t took (inr e, lost') = elim (Bool-cases (defers_durability sk)) [
    | inl y ↦ rw y (inr e, lost')
    | inr z ↦ rw z (inr e, lost')
  ]
  settle_or_hold-Based sk rs t took (inl same, lost') = elim (Bool-cases (count k rs == 0)) [
    | inl y ↦ elim (Bool-cases (defers_durability sk)) [
      | inl y' ↦ rw y' (inl (ground (arith, count-append k t.held rs)), lost')
      | inr z ↦ rw z (inl (ground (arith, count-append k t.settled rs)), lost')
    ]
    | inr z ↦ elim (Bool-cases (defers_durability sk)) [
      | inl y ↦ rw y (inr (took (ground arith)), lost')
      | inr z' ↦ rw z' (inr (took (ground arith)), lost')
    ]
  ]

  write_requests-Based :
      (sk : Sink) (round : Round) (rqs : List (List ℕ)) (failed : List (ℕ × Error)) (t : Tally)
      → (Took k round → E)
      → Based t
      → Based ((write_requests sk round.reply rqs failed t).0)
  unfolding write_requests
  write_requests-Based sk round [] failed t took b = b
  write_requests-Based sk round (rq ∷ rqs) failed t took b = elim (Reply-cases (round.reply rq)) [
    | inl (e, r) ↦
        subst (λ w. Based w.0) (sym (write_requests-refused sk round.reply rq rqs failed t e r))
          (write_requests-Based sk round rqs (fail_all e rq failed) t took b)
    | inr (res, r) ↦ elim (Bool-cases (reconcile res (length rq) && is_nil res.deferred)) [
      | inl y ↦
          let named = name_all res.failed [] in
          subst (λ w. Based w.0)
            (sym (write_requests-answered sk round.reply rq rqs failed t res r y))
            (write_requests-Based sk round rqs (fail_named named rq failed)
              (settle_or_hold sk (landed named rq) t) took
              (settle_or_hold-Based sk (landed named rq) t
                (λ some'. took (taken k round rq res r y some')) b))
      | inr z ↦
          subst (λ w. Based w.0)
            (sym (write_requests-broken sk round.reply rq rqs failed t res r z)) b
    ]
  ]

  pub write_once-Based :
      (sk : Sink) (round : Round) (rs : List ℕ) (t : Tally)
      → (Took k round → E)
      → Based t
      → Based ((write_once sk round rs t).0)
  unfolding write_once
  write_once-Based sk round rs t took b = elim (Option-cases round.encoding) [
    | inl n ↦ rw n (write_requests-Based sk round (build_requests sk rs) [] t took b)
    | inr (e, n) ↦ rw n b
  ]

  abandon-Based : (r : ℕ) (t : Tally) → (r ≡ k → D) → Based t → Based (abandon r t)
  abandon-Based r t gone (given', inr d) = (given', inr d)
  abandon-Based r t gone (given', inl same) = elim (Bool-cases (r == k)) [
    | inl y ↦ (given', inr (gone (ground arith)))
    | inr z ↦ (given', inl (ground (arith, count-append k t.abandoned (r ∷ []))))
  ]

  abbrev Rested : Option Sorting → Type 0
  Rested none = Unit
  Rested (some s) = Based s.tally

  module _ (fl : Float64) (draw : ℕ → ℕ) (p : RetryPolicy fl) (sk : Sink)
      (kept : is_drop p.at_end ≡ false) where
    dispose-Rested :
        (round : Round) (r : ℕ) (way : Option Routing) (s : Sorting)
        → ((w : Routing) → way ≡ some w → w.disp ≡ disp_dead_letter → r ≡ k → Lettered k round → D)
        → drops way ≡ false
        → Based s.tally
        → Rested (dispose fl draw p sk round r way s)
    unfolding dispose
    dispose-Rested round r none s gone safe b = tt
    dispose-Rested round r (some way) s gone safe b =
        elim way.disp
            as (λ d.
              drops (some (record way { disp = d })) ≡ false
              → (d ≡ disp_dead_letter → r ≡ k → Lettered k round → D)
              → Rested (dispose fl draw p sk round r (some (record way { disp = d })) s)) [
                | disp_retry ↦ λ ok found. b
                | disp_dead_letter ↦ λ ok found.
                    elim (Bool-cases (dead_letter round.letterboxes r)) [
                      | inl y ↦ rw y (
                          abandon-Based r s.tally
                            (λ same. found refl same (
                              dead_letter-Lettered k round
                                (subst (λ key. dead_letter round.letterboxes key ≡ true) same y)))
                            b)
                      | inr z ↦ rw z tt
                    ]
                | disp_drop ↦ λ ok found. absurd (cc ok)
                | disp_stop ↦ λ ok found. tt
                | disp_stall ↦ λ ok found. tt
              ]
          safe (λ q. gone way refl q)

    sort_one-Rested :
        (round : Round) (r : ℕ) (e : Error) (s : Sorting)
        → ((a : Attempt) (w : Routing)
            → (route fl draw e sk.idempotent p a round.now).1 ≡ some w
            → w.disp ≡ disp_dead_letter
            → r ≡ k
            → Lettered k round
            → D)
        → Based s.tally
        → Rested (sort_one fl draw p sk round r e s)
    unfolding sort_one
    sort_one-Rested round r e s gone b =
        let a = attempt_of round.now r s.attempts in
        let routed = route fl draw e sk.idempotent p a round.now in
        dispose-Rested round r (routed.1) (record s { attempts = insert r (routed.0) s.attempts })
          (gone a) (drops-route fl p kept draw e sk.idempotent a round.now) b

    pub sort_failed-Based :
        (round : Round) (failed : List (ℕ × Error)) (rs : List ℕ) (s : Sorting)
        → ((e : Error) (a : Attempt) (w : Routing)
            → lookup k failed ≡ some e
            → (route fl draw e sk.idempotent p a round.now).1 ≡ some w
            → w.disp ≡ disp_dead_letter
            → Lettered k round
            → D)
        → Based s.tally
        → Based ((sort_failed fl draw p sk round failed rs s).0.tally)
    unfolding sort_failed
    sort_failed-Based round failed [] s gone b = b
    sort_failed-Based round failed (r ∷ rs) s gone b = elim (Option-cases (lookup r failed)) [
      | inl out ↦
          subst (λ w. Based w.0.tally) (sym (sort_failed-fine fl draw p sk round failed r rs s out))
            (sort_failed-Based round failed rs s gone b)
      | inr (e, found) ↦ elim (Option-cases (sort_one fl draw p sk round r e s)) [
        | inl stops ↦
            subst (λ w. Based w.0.tally)
              (sym (sort_failed-stops fl draw p sk round failed r rs s e found stops)) b
        | inr (s', moves) ↦
            subst (λ w. Based w.0.tally)
              (sym (sort_failed-moves fl draw p sk round failed r rs s e s' found moves))
              (sort_failed-Based round failed rs s' gone (
                subst (λ o. Rested o) moves
                  (sort_one-Rested round r e s
                    (λ a w way d same.
                      gone e a w (subst (λ j. lookup j failed ≡ some e) same found) way d)
                    b)))
      ]
    ]
