-- ===== src/Retry/Budget.antt =====
-- How long the retry loop of internal/engine/write.go keeps one record.
use canal.Prelude.{
  ℕ, ◌+◌, ◌-◌, ◌^◌, ◌≤◌, ◌<◌, ◌≡◌, refl, ap, sym, ◌∙◌, Bool, true, false, some, List, [], ◌∷◌, ltb,
  ltb→lt, ◌⊎◌, inl, inr, Bool-cases, All, arith,
}
use canal.Fault.{Class, terminal}
use canal.Fault.Policy.{Float64, RetryPolicy, ceiling}
use canal.Retry.{Attempt, routed_class, unresolved, spend, is_over, route}
use canal.Retry.Endings.{
  Failure, is_retry, rounds, spent, is_still_tried, is_none, permits, route-retry, route-spend,
}

abbrev pub fresh : ℕ → Attempt
fresh now = record { count = 0; started = some now }

spend-count :
    (f : Failure) (fs : List Failure) (a : Attempt)
    → (spend (routed_class f.error) a).count + spent fs ≡ a.count + spent (f ∷ fs)
unfolding spend
spend-count f fs a = ground arith

module _ (fl : Float64) (draw : ℕ → ℕ) (draw_lt : (n : ℕ) → 0 < n → draw n < n) (p : RetryPolicy fl)
    (small : ceiling fl p.backoff ≤ 2 ^ 53) (idempotent : Bool) where
  -- A failure that the policy may retry at all.
  abbrev pub Retryable : Failure → Type 0
  Retryable f =
      (terminal (routed_class f.error) ≡ false)
      × (is_none (unresolved (routed_class f.error) idempotent p.on_indeterminate) ≡ true)

  permits-ltb :
      (c : Class) (a : Attempt)
      → a.count < p.max_attempts
      → permits fl draw draw_lt p small c (spend c a).count ≡ ltb (spend c a).count p.max_attempts
  unfolding spend
  permits-ltb c a within = ground arith

  rounds_nil : (a : Attempt) → is_still_tried (rounds fl draw idempotent p a []) ≡ true
  unfolding rounds
  rounds_nil a = refl

  rounds-step :
      (a : Attempt) (f : Failure) (fs : List Failure)
      → is_retry (route fl draw f.error idempotent p a f.at).1 ≡ true
      → is_still_tried (rounds fl draw idempotent p a (f ∷ fs))
        ≡ is_still_tried (rounds fl draw idempotent p (spend (routed_class f.error) a) fs)
  unfolding rounds
  rounds-step a f fs h =
      rw (h, route-spend fl draw draw_lt p small f.error idempotent a f.at h) refl

  rounds-stop :
      (a : Attempt) (f : Failure) (fs : List Failure)
      → is_retry (route fl draw f.error idempotent p a f.at).1 ≡ false
      → is_still_tried (rounds fl draw idempotent p a (f ∷ fs)) ≡ false
  unfolding rounds
  rounds-stop a f fs h = rw h refl

  over_never : (a : Attempt) (now : ℕ) → p.backoff.max_elapsed ≡ 0 → is_over fl p a now ≡ false
  unfolding is_over
  over_never a now never = rw never refl

  Retryable-retry :
      (a : Attempt) (f : Failure)
      → p.backoff.max_elapsed ≡ 0
      → Retryable f
      → a.count < p.max_attempts
      → is_retry (route fl draw f.error idempotent p a f.at).1
        ≡ ltb (spend (routed_class f.error) a).count p.max_attempts
  Retryable-retry a f never (lasting, resolved) within =
      route-retry fl draw draw_lt p small f.error idempotent a f.at
      ∙ rw (lasting, resolved, over_never (spend (routed_class f.error) a) f.at never)
          (permits-ltb (routed_class f.error) a within)

  budget_from :
      (fs : List Failure) (a : Attempt)
      → p.backoff.max_elapsed ≡ 0
      → All Retryable fs
      → a.count < p.max_attempts
      → is_still_tried (rounds fl draw idempotent p a fs) ≡ ltb (a.count + spent fs) p.max_attempts
  budget_from [] a never ok within = rounds_nil a ∙ ground arith
  budget_from (f ∷ fs) a never ok within =
      elim (Bool-cases (ltb (spend (routed_class f.error) a).count p.max_attempts)) [
        | inl y ↦
            rounds-step a f fs (Retryable-retry a f never ok.0 within ∙ y)
            ∙ budget_from fs (spend (routed_class f.error) a) never ok.1 (ltb→lt _ _ y)
            ∙ ap (λ (n : ℕ). ltb n p.max_attempts) (spend-count f fs a)
        | inr z ↦
            rounds-stop a f fs (Retryable-retry a f never ok.0 within ∙ z)
            ∙ ground (arith, z, spend-count f fs a)
      ]

  -- With no limit on the time, and after failures none of which is terminal or must not be retried:
  -- a record is still being tried exactly as long as fewer of its failures than max_attempts were
  -- of a class that spends an attempt, however many were not. The policy's ceiling is at most 2^53
  -- nanoseconds.
  pub rounds-budget :
      (since : ℕ) (fs : List Failure)
      → p.backoff.max_elapsed ≡ 0
      → 0 < p.max_attempts
      → All Retryable fs
      → is_still_tried (rounds fl draw idempotent p (fresh since) fs)
        ≡ ltb (spent fs) p.max_attempts
  rounds-budget since fs never some_attempt ok =
      budget_from fs (fresh since) never ok some_attempt
      ∙ ap (λ (n : ℕ). ltb n p.max_attempts) (omega arith)

  -- A retry of a fault that spends an attempt leaves the count below the limit.
  spend-within :
      (a : Attempt) (f : Failure)
      → is_retry (route fl draw f.error idempotent p a f.at).1 ≡ true
      → a.count < p.max_attempts
      → (spend (routed_class f.error) a).count < p.max_attempts
  unfolding spend
  spend-within a f h within =
      let kept = sym (route-retry fl draw draw_lt p small f.error idempotent a f.at) ∙ h in
      ground arith

  spent_from :
      (fs : List Failure) (a : Attempt)
      → a.count < p.max_attempts
      → is_still_tried (rounds fl draw idempotent p a fs) ≡ true
      → a.count + spent fs < p.max_attempts
  spent_from [] a within h = omega arith
  spent_from (f ∷ fs) a within h =
      elim (Bool-cases (is_retry (route fl draw f.error idempotent p a f.at).1)) [
        | inl y ↦ omega (
          arith,
          spend-count f fs a,
          spent_from fs (spend (routed_class f.error) a) (spend-within a f y within)
              (sym (rounds-step a f fs y) ∙ h),
        )
        | inr z ↦ absurd (cc (rounds-stop a f fs z, h))
      ]

  -- A record is no longer tried once max_attempts of its failures were of a class that spends an
  -- attempt, whatever the failures were and whenever they came. max_attempts is positive and the
  -- policy's ceiling is at most 2^53 nanoseconds.
  pub rounds-exhausted :
      (since : ℕ) (fs : List Failure)
      → 0 < p.max_attempts
      → p.max_attempts ≤ spent fs
      → is_still_tried (rounds fl draw idempotent p (fresh since) fs) ≡ false
  rounds-exhausted since fs some_attempt many =
      elim (Bool-cases (is_still_tried (rounds fl draw idempotent p (fresh since) fs))) [
        | inl y ↦ absurd (omega (arith, spent_from fs (fresh since) some_attempt y))
        | inr z ↦ z
      ]

  -- What settles a record, or stops the pipeline, whatever the budget: a class that trying again
  -- cannot help, a write that may have landed and must not be repeated, the end of the time.
  abbrev pub IsDecisive : ℕ → Failure → Type 0
  IsDecisive since f =
      (terminal (routed_class f.error) ≡ true)
      ⊎ (is_none (unresolved (routed_class f.error) idempotent p.on_indeterminate) ≡ false)
      ⊎ ((0 < p.backoff.max_elapsed) × (p.backoff.max_elapsed ≤ f.at - since))
