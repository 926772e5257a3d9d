-- ===== src/Write/Conservation.antt =====
-- writeOnce and writeSet of internal/engine/write.go: what becomes of one record of a set.
use canal.Prelude.{
  ℕ, ◌+◌, ◌≤◌, ◌≡◌, refl, sym, true, false, none, some, List, [], ◌∷◌, ◌&&◌, subst, inl, inr,
  Bool-cases, Option-cases, length, arith,
}
use canal.Prelude.Assoc.{lookup}
use canal.Fault.{Error}
use canal.Write.{
  WriteResult, reconcile, Reply, refused, answered, Tally, Sink, each_alone, build_requests,
  fail_all, name_all, landed, fail_named, settle_or_hold, is_nil, Written, write_requests, Round,
  write_once,
}
use canal.Write.Requests.{
  count, count_all, present, tallied, settle_or_hold-tallied, present-fail_all, Reply-cases,
  answered-once, refused-once,
}

-- A record that had been disposed of `base` times and may be `n` times: it is disposed of or failed, or the
-- engine stops and leaves it.
abbrev pub Accounted : ℕ → ℕ → ℕ → Written → Type 0
Accounted k base n (t, some failed) = (base ≤ tallied k t) × (tallied k t + present k failed ≡ n)
Accounted k base n (t, none) = (base ≤ tallied k t) × (tallied k t ≤ n)

module _ (sk : Sink) (reply : List ℕ → Reply) (rq : List ℕ) (rqs : List (List ℕ))
    (failed : List (ℕ × Error)) (t : Tally) where
  pub write_requests-refused :
      (e : Error)
      → reply rq ≡ refused e
      → write_requests sk reply (rq ∷ rqs) failed t
        ≡ write_requests sk reply rqs (fail_all e rq failed) t
  unfolding write_requests
  write_requests-refused e h = rw (h, write_requests) refl

  pub write_requests-broken :
      (res : WriteResult)
      → reply rq ≡ answered res
      → reconcile res (length rq) && is_nil res.deferred ≡ false
      → write_requests sk reply (rq ∷ rqs) failed t ≡ (t, none)
  unfolding write_requests
  write_requests-broken res h broken = rw (h, broken, write_requests) refl

  pub write_requests-answered :
      (res : WriteResult)
      → reply rq ≡ answered res
      → reconcile res (length rq) && is_nil res.deferred ≡ true
      → write_requests sk reply (rq ∷ rqs) failed t
        ≡ write_requests sk reply rqs
            (fail_named (name_all res.failed []) rq failed)
            (settle_or_hold sk (landed (name_all res.failed []) rq) t)
  unfolding write_requests
  write_requests-answered res h sound = rw (h, sound, write_requests) refl

write_requests-Accounted :
    (k base n : ℕ) (sk : Sink) (reply : List ℕ → Reply) (rqs : List (List ℕ))
    (failed : List (ℕ × Error)) (t : Tally)
    → present k failed + count_all k rqs ≤ 1
    → base ≤ tallied k t
    → tallied k t + (present k failed + count_all k rqs) ≡ n
    → Accounted k base n (write_requests sk reply rqs failed t)
unfolding write_requests
write_requests-Accounted k base n sk reply [] failed t h b e = (b, omega arith)
write_requests-Accounted k base n sk reply (rq ∷ rqs) failed t h b e =
    elim (Reply-cases (reply rq)) [
      | inl (err, r) ↦
          let once = refused-once k err rq failed (omega arith) in
          subst (λ w. Accounted k base n w)
            (sym (write_requests-refused sk reply rq rqs failed t err r))
            (write_requests-Accounted k base n sk reply rqs (fail_all err rq failed) t
              (omega (arith, once)) b (omega (arith, once)))
      | inr (res, r) ↦ elim (Bool-cases (reconcile res (length rq) && is_nil res.deferred)) [
        | inl y ↦
            let named = name_all res.failed [] in
            let once = answered-once k sk named rq failed t (omega arith) in
            let grows = settle_or_hold-tallied k sk (landed named rq) t in
            subst (λ w. Accounted k base n w)
              (sym (write_requests-answered sk reply rq rqs failed t res r y))
              (write_requests-Accounted k base n sk reply rqs (fail_named named rq failed)
                (settle_or_hold sk (landed named rq) t) (omega (arith, once, grows))
                (omega (arith, grows)) (omega (arith, once)))
        | inr z ↦
            subst (λ w. Accounted k base n w)
              (sym (write_requests-broken sk reply rq rqs failed t res r z)) (b, omega arith)
      ]
    ]

count-each_alone : (k : ℕ) (rs : List ℕ) → count_all k (each_alone rs) ≡ count k rs
unfolding each_alone
count-each_alone k [] = refl
count-each_alone k (r ∷ rs) = omega (arith, count-each_alone k rs)

count-build_requests :
    (k : ℕ) (sk : Sink) (rs : List ℕ) → count_all k (build_requests sk rs) ≡ count k rs
unfolding build_requests
count-build_requests k sk rs = elim (Bool-cases sk.batches) [
  | inl y ↦ rw y (omega arith)
  | inr z ↦ rw z (count-each_alone k rs)
]

pub write_once-Accounted :
    (k : ℕ) (sk : Sink) (round : Round) (rs : List ℕ) (t : Tally)
    → count k rs ≤ 1
    → Accounted k (tallied k t) (tallied k t + count k rs) (write_once sk round rs t)
unfolding write_once lookup
write_once-Accounted k sk round rs t h = elim (Option-cases round.encoding) [
  | inl n ↦
      let same = count-build_requests k sk rs in
      rw n (
        write_requests-Accounted k (tallied k t) (tallied k t + count k rs) sk round.reply
          (build_requests sk rs) [] t (omega (arith, same)) (omega arith) (omega (arith, same)))
  | inr (e, n) ↦ rw n (omega arith, rw (present-fail_all k e rs []) (ground arith))
]
