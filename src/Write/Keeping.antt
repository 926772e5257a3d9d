-- ===== src/Write/Keeping.antt =====
-- Flushes of internal/engine/durability.go: where the records go that a sink has accepted.
use canal.Prelude.{
  ℕ, ◌+◌, ◌≡◌, refl, sym, ◌∙◌, Bool, true, false, not, Option, none, some, List, [], ◌∷◌, ◌++◌,
  ◌==◌, ◌&&◌, ◌||◌, ◌⊎◌, subst, if◌then◌else◌, inl, inr, Bool-cases, arith,
}
use canal.Write.{WriteResult, answered, Tally, Sink, commits_durability, defers_durability, is_nil}
use canal.Write.Requests.{count, tallied, count-append, Reply-cases}
use canal.Write.Flush.{
  FlushReason, Flight, due, hold, take, return_unflushed, not_durable, part, flush_one,
  is_checkpoint, signal_flush, flush_sink, flush_if_due,
}

-- The flush makes the record durable.
abbrev pub Secured : ℕ → Flight → Type 0
Secured k flight = (res : WriteResult) × (flight.reply ≡ answered res) × (not_durable res k ≡ false)

-- None is abandoned, and what is settled was made durable.
abbrev pub Kept : ℕ → Flight → Tally → Tally → Type 0
Kept k flight t t' =
    (t'.abandoned ≡ t.abandoned) × ((count k t'.settled ≡ count k t.settled) ⊎ Secured k flight)

-- A call, if it is made, also loses and doubles no record.
abbrev pub KeptIf : ℕ → Flight → Tally → Option (Tally × Bool) → Type 0
KeptIf k flight t none = Unit
KeptIf k flight t (some (t', ok)) =
    (tallied k t' ≡ tallied k t + count k flight.arrived) × Kept k flight t t'

count-part :
    (k : ℕ) (test : ℕ → Bool) (rs : List ℕ)
    → (count k ((part test rs).0) ≡ (if test k then count k rs else 0))
      × (count k ((part test rs).1) ≡ (if test k then 0 else count k rs))
unfolding part
count-part k test [] = (ground arith, ground arith)
count-part k test (r ∷ rs) =
    let (a, b) = count-part k test rs in
    elim (Bool-cases (r == k)) [
      | inl y ↦
          let same : r ≡ k = ground arith in
          elim (Bool-cases (test k)) [
            | inl y' ↦
                rw (subst (λ key. test key ≡ true) (sym same) y')
                  (ground (arith, a, b), ground (arith, a, b))
            | inr z ↦
                rw (subst (λ key. test key ≡ false) (sym same) z)
                  (ground (arith, a, b), ground (arith, a, b))
          ]
      | inr z ↦ elim (Bool-cases (test r)) [
        | inl y ↦ rw y (ground (arith, a, b), ground (arith, a, b))
        | inr z' ↦ rw z' (ground (arith, a, b), ground (arith, a, b))
      ]
    ]

module _ (k : ℕ) (flight : Flight) where
  flush_one-tallied :
      (taken : List ℕ) (t : Tally)
      → tallied k ((flush_one flight taken t).0)
        ≡ tallied k t + count k taken + count k flight.arrived
  unfolding flush_one hold return_unflushed
  flush_one-tallied taken t = elim (Reply-cases flight.reply) [
    | inl (e, r) ↦
        rw
          (r, count-append k taken (t.held ++ flight.arrived), count-append k t.held flight.arrived)
          (omega arith)
    | inr (res, r) ↦
        let test = not_durable res in
        rw
          (
            r,
            count-append k t.settled ((part test taken).1),
            count-append k ((part test taken).0) (t.held ++ flight.arrived),
            count-append k t.held flight.arrived,
            (count-part k test taken).0,
            (count-part k test taken).1,
          )
          (ground arith)
  ]

  flush_one-Kept : (taken : List ℕ) (t : Tally) → Kept k flight t ((flush_one flight taken t).0)
  unfolding flush_one hold return_unflushed
  flush_one-Kept taken t = elim (Reply-cases flight.reply) [
    | inl (e, r) ↦ rw r (refl, inl refl)
    | inr (res, r) ↦
        let test = not_durable res in
        rw r (
          refl,
          elim (Bool-cases (test k)) [
            | inl y ↦
                let kept : count k ((part test taken).1) ≡ 0 =
                  (count-part k test taken).1 ∙ rw y refl in
                inl (omega (arith, count-append k t.settled ((part test taken).1), kept))
            | inr z ↦ inr (res, refl, z)
          ],
        )
  ]

  taken-KeptIf :
      (t : Tally) → KeptIf k flight t (some (flush_one flight t.held (record t { held = [] })))
  taken-KeptIf t =
      let rest : Tally = record t { held = [] } in
      (omega (arith, flush_one-tallied t.held rest), flush_one-Kept t.held rest)

  signal_flush-KeptIf : (t : Tally) → KeptIf k flight t (some (signal_flush flight t))
  unfolding signal_flush hold
  signal_flush-KeptIf t = (omega (arith, count-append k t.held flight.arrived), (refl, inl refl))

  flush_sink-KeptIf :
      (sk : Sink) (reason : FlushReason) (t : Tally)
      → KeptIf k flight t (flush_sink sk reason flight t)
  unfolding flush_sink take
  flush_sink-KeptIf sk reason t = elim (Bool-cases (not sk.flusher)) [
    | inl y ↦ rw y tt
    | inr z ↦ rw z (elim (Bool-cases (commits_durability sk)) [
      | inl y ↦ rw y (signal_flush-KeptIf t)
      | inr z' ↦ rw z' (elim (Bool-cases (is_nil t.held && is_checkpoint reason)) [
        | inl y ↦ rw y tt
        | inr z'' ↦ rw z'' (taken-KeptIf t)
      ])
    ])
  ]

  flush_if_due-KeptIf :
      (trigger : ℕ) (sk : Sink) (t : Tally) → KeptIf k flight t (flush_if_due trigger sk flight t)
  unfolding flush_if_due take
  flush_if_due-KeptIf trigger sk t =
      elim (Bool-cases
        (not (defers_durability sk) || commits_durability sk || not (due trigger t))) [
          | inl y ↦ rw y tt
          | inr z ↦ rw z (elim (Bool-cases (is_nil t.held)) [
            | inl y ↦ rw y tt
            | inr z' ↦ rw z' (taken-KeptIf t)
          ])
        ]

  -- A flush of a sink, at a tick, at the end, or because enough is held, loses and doubles no
  -- record, those that are held meanwhile included, and abandons none; and a record is settled only
  -- if Flush answered and named it neither as failed nor as deferred.
  pub flush-KeptIf :
      (trigger : ℕ) (sk : Sink) (reason : FlushReason) (t : Tally)
      → KeptIf k flight t (flush_sink sk reason flight t)
        × KeptIf k flight t (flush_if_due trigger sk flight t)
  flush-KeptIf trigger sk reason t =
      (flush_sink-KeptIf sk reason t, flush_if_due-KeptIf trigger sk t)
