-- ===== src/Retry/Waits.antt =====
-- How long a failed unit of work waits before it is tried again.
use canal.Prelude.{
  ℕ, ◌^◌, ◌≤◌, ◌<◌, ◌≡◌, refl, ap, subst, List, [], ◌∷◌, ◌++◌, All, Bool, true, false, not, ◌&&◌,
  ◌⊎◌, Option, none, some, ltb, inl, inr, Bool-cases, Option-cases, if◌then◌else◌, arith,
}
use canal.Fault.{
  Class, terminal, counted, Label, Error, retry_after_of, fault, nil, opaque, wrap, join,
}
use canal.Fault.Policy.{
  Float64, RetryPolicy, invalid, dead_letter, drop, stop, Indeterminacy, stall, retry,
  dead_letter_it, ceiling,
}
use canal.Fault.Delays.{next-Answers}
use canal.Retry.{
  Attempt, Routing, disp_retry, disp_dead_letter, disp_stall, indeterminate_write, terminal_fault,
  retries_exhausted, at_once, terminal_disp, uncounted_floor, routed_class, unresolved, spend,
  first_attempt, wait, terminal_routing, rescheduled, is_over, budgeted, route,
}

abbrev pub larger : ℕ → ℕ → ℕ
larger a b = if ltb a b then b else a

-- A wait is the remote's hint, where the error carries one, and is otherwise bounded.
abbrev pub Within : ℕ → Option ℕ → ℕ → Type 0
Within most none delay = (0 < delay) × (delay ≤ larger most uncounted_floor)
Within most (some hint) delay = (0 < delay) × (delay ≡ hint)

-- The faults on the chain of single Unwraps, the outermost first; a joined error has no single cause.
abbrev pub chain : Error → List Label
chain nil = []
chain opaque = []
chain (wrap e) = chain e
chain (join e f) = []
chain (fault l e) = l ∷ chain e

abbrev pub Silent : List Label → Type 0
Silent ls = All (λ l. l.retry_after ≡ 0) ls

-- The Retry-After of the first fault of a chain that has one.
abbrev pub IsHint : Option ℕ → List Label → Type 0
IsHint none ls = Silent ls
IsHint (some hint) ls =
    (outer inner : List Label) × (l : Label) × (ls ≡ outer ++ l ∷ inner)
    × Silent outer
    × (l.retry_after ≡ hint)
    × (0 < hint)

retry_after_of-IsHint : (e : Error) → IsHint (retry_after_of e) (chain e)
unfolding retry_after_of
retry_after_of-IsHint nil = tt
retry_after_of-IsHint opaque = tt
retry_after_of-IsHint (wrap e) = retry_after_of-IsHint e
retry_after_of-IsHint (join e f) = tt
retry_after_of-IsHint (fault l e) = elim (Bool-cases (ltb 0 l.retry_after)) [
  | inl y ↦ rw y ([], chain e, l, refl, tt, refl, ground arith)
  | inr z ↦ rw z (elim (Option-cases (retry_after_of e)) [
    | inl n ↦ rw n (ground arith, subst (λ o. IsHint o (chain e)) n (retry_after_of-IsHint e))
    | inr (hint, given) ↦
        let (outer, inner, m, split, silent, is_it, pos) =
          subst (λ o. IsHint o (chain e)) given (retry_after_of-IsHint e) in
        rw given (l ∷ outer, inner, m, ap (λ ls. l ∷ ls) split, (ground arith, silent), is_it, pos)
  ])
]

retry_after_of-pos : (e : Error) (hint : ℕ) → retry_after_of e ≡ some hint → 0 < hint
retry_after_of-pos e hint h =
    let (outer, inner, l, split, silent, is_it, pos) =
      subst (λ o. IsHint o (chain e)) h (retry_after_of-IsHint e) in
    pos

pub unresolved_cases :
    (c : Class) (idempotent : Bool) (policy : Indeterminacy)
    → (unresolved c idempotent policy ≡ none)
      ⊎ (unresolved c idempotent policy ≡ some (at_once disp_dead_letter indeterminate_write))
      ⊎ (unresolved c idempotent policy ≡ some (at_once disp_stall indeterminate_write))
unfolding unresolved
unresolved_cases c idempotent stall = ground arith
unresolved_cases c idempotent retry = ground arith
unresolved_cases c idempotent dead_letter_it = ground arith

module _ (fl : Float64) where
  -- A routing that retries waits as it should, and no other waits at all.
  abbrev pub Timely : RetryPolicy fl → Error → Routing → Type 0
  Timely p e r = elim r.disp [
    | disp_retry ↦
        (hint : Option ℕ) × IsHint hint (chain e) × Within (ceiling fl p.backoff) hint r.delay
    | _ ↦ r.delay ≡ 0
  ]

  wait-Within :
      (p : RetryPolicy fl) (e : Error) (scheduled : ℕ) (more : Bool)
      → scheduled ≤ ceiling fl p.backoff
      → Within (ceiling fl p.backoff) (retry_after_of e) (wait fl p e (scheduled, more))
  unfolding wait ceiling
  wait-Within p e scheduled true most = elim (Option-cases (retry_after_of e)) [
    | inl none_given ↦ rw none_given (ground arith)
    | inr (hint, given) ↦ rw given (ground (arith, retry_after_of-pos e hint given))
  ]
  wait-Within p e scheduled false most = elim (Option-cases (retry_after_of e)) [
    | inl none_given ↦ rw none_given (ground arith)
    | inr (hint, given) ↦ rw given (ground (arith, retry_after_of-pos e hint given))
  ]

  terminal_routing-Timely :
      (p : RetryPolicy fl) (c : Class) (e : Error) → Timely p e (terminal_routing fl p c)
  unfolding terminal_routing
  terminal_routing-Timely p c e =
      elim p.at_end
        as (λ t.
          Timely p e (
            at_once (terminal_disp t) (if terminal c then terminal_fault else retries_exhausted))) [
              | invalid ↦ refl
              | dead_letter ↦ refl
              | drop ↦ refl
              | stop ↦ refl
            ]

  rescheduled-Timely :
      (p : RetryPolicy fl) (c : Class) (e : Error) (scheduled : ℕ) (more : Bool)
      → scheduled ≤ ceiling fl p.backoff
      → Timely p e (rescheduled fl p c e (scheduled, more))
  unfolding rescheduled
  rescheduled-Timely p c e scheduled more most = elim (Bool-cases (counted c && not more)) [
    | inl y ↦ rw y (terminal_routing-Timely p c e)
    | inr z ↦ rw z (retry_after_of e, retry_after_of-IsHint e, wait-Within p e scheduled more most)
  ]

  module _ (draw : ℕ → ℕ) (draw_lt : (n : ℕ) → 0 < n → draw n < n) where
    budgeted-Timely :
        (p : RetryPolicy fl) (c : Class) (e : Error) (a : Attempt) (now : ℕ)
        → ceiling fl p.backoff ≤ 2 ^ 53
        → (r : Routing) × (budgeted fl draw p c e a now ≡ some r) × Timely p e r
    unfolding budgeted
    budgeted-Timely p c e a now small = elim (Bool-cases (is_over fl p a now)) [
      | inl y ↦ (terminal_routing fl p c, rw y, terminal_routing-Timely p c e)
      | inr z ↦
          let ((delay, more), called, (most, permitted)) =
            next-Answers fl draw draw_lt p (first_attempt fl a.count) small in
          (
            rescheduled fl p c e (delay, more),
            rw (z, called),
            rescheduled-Timely p c e delay more most,
          )
    ]

    -- Routing a fault never panics. If it says retry, the wait is positive: the Retry-After of the
    -- first fault that has one on the chain of single Unwraps, if there is such a fault, and
    -- otherwise, which is always so of a joined error, at most the ceiling of the backoff or the
    -- uncounted floor, whichever is larger. Any other routing has no wait. The policy's ceiling is
    -- at most 2^53 nanoseconds.
    pub route-Timely :
        (e : Error) (idempotent : Bool) (p : RetryPolicy fl) (a : Attempt) (now : ℕ)
        → ceiling fl p.backoff ≤ 2 ^ 53
        → (r : Routing) × ((route fl draw e idempotent p a now).1 ≡ some r) × Timely p e r
    unfolding route
    route-Timely e idempotent p a now small =
        elim (unresolved_cases (routed_class e) idempotent p.on_indeterminate) [
          | inl u ↦ elim (Bool-cases (terminal (routed_class e))) [
            | inl y ↦ (
              terminal_routing fl p (routed_class e),
              rw (u, route, y),
              terminal_routing-Timely p (routed_class e) e,
            )
            | inr z ↦
                let (r, given, timely) =
                  budgeted-Timely p (routed_class e) e (spend (routed_class e) a) now small in
                (r, rw (u, route, z) given, timely)
          ]
          | inr (inl u) ↦ (at_once disp_dead_letter indeterminate_write, rw (u, route), refl)
          | inr (inr u) ↦ (at_once disp_stall indeterminate_write, rw (u, route), refl)
        ]
