-- ===== src/Retry/Endings.antt =====
-- One record in the retry loop of internal/engine/write.go: it is presented again as long as route says
-- so, and every further failure is routed with the same attempt state.
use canal.Prelude.{
  ℕ, ◌+◌, ◌≤◌, ◌<◌, ◌≡◌, refl, ap, ◌∙◌, ◌^◌, Bool, true, false, not, Option, none, some, List, [],
  ◌∷◌, ltb, ◌&&◌, inl, inr, Bool-cases, if◌then◌else◌, arith,
}
use canal.Fault.{Class, terminal, counted, Error}
use canal.Fault.Policy.{Float64, RetryPolicy, invalid, dead_letter, drop, stop, ceiling}
use canal.Fault.Delays.{next-Answers}
use canal.Retry.{
  Attempt, Routing, disp_retry, terminal_fault, retries_exhausted, at_once, terminal_disp,
  routed_class, unresolved, spend, first_attempt, terminal_routing, rescheduled, is_over, budgeted,
  route,
}
use canal.Retry.Waits.{unresolved_cases}

-- A failure of the record: its error, and when it is routed.
pub record Failure : Type 0 where
  pub error : Error
  pub at : ℕ

abbrev pub is_retry : Option Routing → Bool
is_retry none = false
is_retry (some r) = elim r.disp [ disp_retry ↦ true | _ ↦ false ]

-- The number of failures that spend an attempt.
abbrev pub spent : List Failure → ℕ
spent [] = 0
spent (f ∷ fs) = (if counted (routed_class f.error) then 1 else 0) + spent fs

abbrev pub is_still_tried : List (Option Routing) → Bool
is_still_tried [] = true
is_still_tried (r ∷ rs) = is_retry r && is_still_tried rs

module _ (fl : Float64) (draw : ℕ → ℕ) (idempotent : Bool) (p : RetryPolicy fl) where
  -- The routings of one record after the failures of the list: none that a routing other than a retry
  -- precedes, since the record is settled by then, or the pipeline stopped.
  unfoldable pub rounds : Attempt → List Failure → List (Option Routing)
  rounds a [] = []
  rounds a (f ∷ fs) =
      let routed = route fl draw f.error idempotent p a f.at in
      let later = rounds routed.0 fs in routed.1 ∷ (if is_retry routed.1 then later else [])

abbrev pub is_none : Option Routing → Bool
is_none none = true
is_none (some r) = false

terminal_disp-ne-retry :
    (fl : Float64) (p : RetryPolicy fl) (c : Class)
    → is_retry (some (terminal_routing fl p c)) ≡ false
unfolding terminal_routing
terminal_disp-ne-retry fl p c =
    elim p.at_end
      as (λ t.
        is_retry (
          some
            (at_once (terminal_disp t) (if terminal c then terminal_fault else retries_exhausted)))
        ≡ false) [ invalid ↦ refl | dead_letter ↦ refl | drop ↦ refl | stop ↦ refl ]

module _ (fl : Float64) (draw : ℕ → ℕ) (draw_lt : (n : ℕ) → 0 < n → draw n < n) (p : RetryPolicy fl)
    (small : ceiling fl p.backoff ≤ 2 ^ 53) where
  rescheduled-retry :
      (c : Class) (e : Error) (delay : ℕ) (more : Bool)
      → is_retry (some (rescheduled fl p c e (delay, more))) ≡ not (counted c && not more)
  unfolding rescheduled
  rescheduled-retry c e delay more = elim (Bool-cases (counted c && not more)) [
    | inl y ↦ rw y (terminal_disp-ne-retry fl p c)
    | inr z ↦ rw z refl
  ]

  -- Whether the budget permits another attempt after n.
  abbrev pub permits : Class → ℕ → Bool
  permits c n = not (counted c && not (ltb (first_attempt fl n) p.max_attempts))

  budgeted-retry :
      (c : Class) (e : Error) (a : Attempt) (now : ℕ)
      → is_retry (budgeted fl draw p c e a now) ≡ (not (is_over fl p a now) && permits c a.count)
  unfolding budgeted
  budgeted-retry c e a now = elim (Bool-cases (is_over fl p a now)) [
    | inl y ↦ rw y (terminal_disp-ne-retry fl p c)
    | inr z ↦
        let ((delay, more), called, (most, permitted)) =
          next-Answers fl draw draw_lt p (first_attempt fl a.count) small in
        let same : more ≡ ltb (first_attempt fl a.count) p.max_attempts = ground arith in
        rw (z, called)
          (rescheduled-retry c e delay more ∙ ap (λ (b : Bool). not (counted c && not b)) same)
  ]

  -- When a failure is tried again, and what that leaves of the attempt state.
  pub route-retry :
      (e : Error) (idempotent : Bool) (a : Attempt) (now : ℕ)
      → (is_retry (route fl draw e idempotent p a now).1 ≡ (
          is_none (unresolved (routed_class e) idempotent p.on_indeterminate)
          && not (terminal (routed_class e))
          && not (is_over fl p (spend (routed_class e) a) now)
          && permits (routed_class e) (spend (routed_class e) a).count))
  unfolding route
  route-retry e idempotent a now =
      elim (unresolved_cases (routed_class e) idempotent p.on_indeterminate) [
        | inl u ↦ elim (Bool-cases (terminal (routed_class e))) [
          | inl y ↦ rw (u, route, y) (terminal_disp-ne-retry fl p (routed_class e))
          | inr z ↦
              rw (u, route, z) (budgeted-retry (routed_class e) e (spend (routed_class e) a) now)
        ]
        | inr (inl u) ↦ rw (u, route) refl
        | inr (inr u) ↦ rw (u, route) refl
      ]

  pub route-spend :
      (e : Error) (idempotent : Bool) (a : Attempt) (now : ℕ)
      → is_retry (route fl draw e idempotent p a now).1 ≡ true
      → (route fl draw e idempotent p a now).0 ≡ spend (routed_class e) a
  unfolding route
  route-spend e idempotent a now h =
      elim (unresolved_cases (routed_class e) idempotent p.on_indeterminate) [
        | inl u ↦ elim (Bool-cases (terminal (routed_class e))) [
          | inl y ↦ absurd (cc (rw (u, y) at (route-retry e idempotent a now), h))
          | inr z ↦ rw (u, route, z) refl
        ]
        | inr (inl u) ↦ absurd (cc (rw u at (route-retry e idempotent a now), h))
        | inr (inr u) ↦ absurd (cc (rw u at (route-retry e idempotent a now), h))
      ]
