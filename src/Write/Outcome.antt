-- ===== src/Write/Outcome.antt =====
-- writeSet of internal/engine/write.go as a whole: each record is disposed of once, and on evidence.
use canal.Prelude.{
  ℕ, ◌+◌, ◌≤◌, ◌≡◌, refl, Bool, true, false, none, some, List, [], ◌∷◌, ◌⊎◌, subst, inl, inr,
  Bool-cases, arith,
}
use canal.Fault.Policy.{Float64, RetryPolicy}
use canal.Fault.{Error}
use canal.Prelude.Assoc.{lookup}
use canal.Retry.{Attempt, Routing, disp_dead_letter, route}
use canal.Write.Loop.{
  Sorting, sort_failed, start_sorting, Ending, finished, after_sorting, after_writing, write_set,
}
use canal.Write.{Tally, Sink, Round, Written, write_once, is_nil}
use canal.Write.Requests.{count, tallied}
use canal.Write.Drops.{is_drop}
use canal.Write.Delivery.{Closed, write_set-Closed}
use canal.Write.Failures.{write_once-Failed}
use canal.Write.Letters.{Lettered, DeadLettered}
use canal.Write.Evidence.{Took, SomeRound, delivered, Based, write_once-Based, sort_failed-Based}

module _ (fl : Float64) (draw : ℕ → ℕ) (p : RetryPolicy fl) (sk : Sink)
    (kept : is_drop p.at_end ≡ false) (k given lost : ℕ) (E D : Type 0) where
  module _ (again : List (ℕ × Attempt) → List ℕ → Tally → Tally × Ending)
      (again-Based : (attempts : List (ℕ × Attempt)) (rs : List ℕ) (t : Tally)
        → Based k given lost E D t
        → Based k given lost E D ((again attempts rs t).0))
      (round : Round) where
    after_sorting-Based :
        (w : Sorting × Bool)
        → Based k given lost E D w.0.tally
        → Based k given lost E D ((after_sorting fl draw p sk again round w).0)
    unfolding after_sorting
    after_sorting-Based (s, false) b = b
    after_sorting-Based (s, true) b = elim (Bool-cases (is_nil s.again)) [
      | inl y ↦ rw y b
      | inr z ↦ rw z (elim (Bool-cases round.cancelled) [
        | inl y ↦ rw y b
        | inr z' ↦ rw z' (again-Based s.attempts s.again s.tally b)
      ])
    ]

    after_writing-Based :
        (attempts : List (ℕ × Attempt)) (rs : List ℕ) (w : Written)
        → ((failed : List (ℕ × Error)) (e : Error) (a : Attempt) (way : Routing)
            → w.1 ≡ some failed
            → lookup k failed ≡ some e
            → (route fl draw e sk.idempotent p a round.now).1 ≡ some way
            → way.disp ≡ disp_dead_letter
            → Lettered k round
            → D)
        → Based k given lost E D w.0
        → Based k given lost E D ((after_writing fl draw p sk again round attempts rs w).0)
    unfolding after_writing
    after_writing-Based attempts rs (t, none) gone b = b
    after_writing-Based attempts rs (t, some failed) gone b =
        after_sorting-Based (sort_failed fl draw p sk round failed rs (start_sorting attempts t)) (
          sort_failed-Based k given lost E D fl draw p sk kept round failed rs
            (start_sorting attempts t) (λ e a way. gone failed e a way refl) b)

  write_set-Based :
      (rounds : List Round) (attempts : List (ℕ × Attempt)) (rs : List ℕ) (t : Tally)
      → (SomeRound (Took k) rounds → E)
      → (SomeRound (DeadLettered fl draw p sk k) rounds → D)
      → Based k given lost E D t
      → Based k given lost E D ((write_set fl draw p sk rounds attempts rs t).0)
  unfolding write_set
  write_set-Based [] attempts [] t took gone b = b
  write_set-Based [] attempts (r ∷ rs) t took gone b = b
  write_set-Based (round ∷ rounds) attempts [] t took gone b = b
  write_set-Based (round ∷ rounds) attempts (r ∷ rs) t took gone b =
      after_writing-Based (write_set fl draw p sk rounds)
        (λ attempts' rs' t' b'.
          write_set-Based rounds attempts' rs' t' (λ e. took (inr e)) (λ d. gone (inr d)) b')
        round attempts (r ∷ rs) (write_once sk round (r ∷ rs) t)
        (λ failed e a way w found routed d boxes. gone (
          inl (
            e,
            a,
            way,
            write_once-Failed k e sk round (r ∷ rs) t failed w found,
            routed,
            d,
            boxes,
          )))
        (write_once-Based k given lost E D sk round (r ∷ rs) t (λ e. took (inl e)) b)

module _ (fl : Float64) (draw : ℕ → ℕ) (p : RetryPolicy fl) (sk : Sink) where
  -- Whatever the sink answers in each round: a record that is in the set at most once is, over the
  -- whole retry loop, settled, held or abandoned at most once, and exactly once if writeSet returns
  -- nil.
  pub write_set-Closed_once :
      (k : ℕ) (rounds : List Round) (rs : List ℕ) (t : Tally)
      → count k rs ≤ 1
      → Closed k (tallied k t) (tallied k t + count k rs) (write_set fl draw p sk rounds [] rs t)
  write_set-Closed_once k rounds rs t one =
      write_set-Closed fl draw p sk k (tallied k t) (tallied k t + count k rs) rounds [] rs t
        (omega arith) one (omega arith) refl

  -- Whether writeSet returns, stops or goes on, and if the policy's terminal is not drop: a record
  -- is settled or held only if some round has a request with it for which the sink accounted and
  -- did not name it, and abandoned only if, in some round, it fails with an error that route sends
  -- to a dead letter, can be encoded for every sink for failed records, of which there is one at
  -- least, and the Write of each returns without an error, whatever its result says of the record.
  pub write_set-SomeRound :
      (k : ℕ) (rounds : List Round) (rs : List ℕ) (t : Tally)
      → is_drop p.at_end ≡ false
      → let (t', ending) = write_set fl draw p sk rounds [] rs t in
        ((delivered k t' ≡ delivered k t) ⊎ SomeRound (Took k) rounds)
        × ((count k t'.abandoned ≡ count k t.abandoned)
            ⊎ SomeRound (DeadLettered fl draw p sk k) rounds)
  write_set-SomeRound k rounds rs t kept =
      write_set-Based fl draw p sk kept k (delivered k t) (count k t.abandoned)
        (SomeRound (Took k) rounds) (SomeRound (DeadLettered fl draw p sk k) rounds) rounds [] rs t
        (λ e. e) (λ d. d) (inl refl, inl refl)

  finished-tallied :
      (k low n : ℕ) (w : Tally × Ending) → w.1 ≡ finished → Closed k low n w → tallied k w.0 ≡ n
  finished-tallied k low n (t, e) h c = (subst (λ x. Closed k low n (t, x)) h c).1

  -- If writeSet returns nil, and the policy's terminal is not drop, then each record that is in the
  -- set once was in some round in a request for which the sink accounted and did not name the
  -- record as failed, or in some round fails with an error that route sends to a dead letter, can
  -- be encoded for every sink for failed records, of which there is one at least, and the Write of
  -- each returns without an error. What the result of such a Write says is not read, so it may
  -- still name the record as failed.
  pub write_set-finished :
      (k : ℕ) (rounds : List Round) (rs : List ℕ) (t : Tally)
      → is_drop p.at_end ≡ false
      → count k rs ≡ 1
      → (write_set fl draw p sk rounds [] rs t).1 ≡ finished
      → SomeRound (Took k) rounds ⊎ SomeRound (DeadLettered fl draw p sk k) rounds
  write_set-finished k rounds rs t kept one done =
      let w = write_set fl draw p sk rounds [] rs t in
      let full =
        finished-tallied k (tallied k t) (tallied k t + count k rs) w done
          (write_set-Closed_once k rounds rs t (omega arith)) in
      let (given, lost) = write_set-SomeRound k rounds rs t kept in
      elim given [
        | inr took ↦ inl took
        | inl same ↦ elim lost [ inr gone ↦ inr gone | inl same' ↦ absurd (omega (arith, full)) ]
      ]
