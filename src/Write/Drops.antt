-- ===== src/Write/Drops.antt =====
-- route of internal/engine/retry.go: it drops a record only where the terminal disposition of the policy
-- is to drop.
use canal.Prelude.{
  ℕ, ◌≡◌, refl, Bool, true, false, not, Option, none, some, ◌&&◌, inl, inr, Bool-cases,
  Option-cases, if◌then◌else◌,
}
use canal.Fault.{Class, terminal, counted, Error}
use canal.Fault.Policy.{Float64, RetryPolicy, Terminal, invalid, dead_letter, drop, stop, next}
use canal.Retry.{
  Attempt, Routing, disp_drop, at_once, terminal_disp, routed_class, spend, first_attempt,
  terminal_routing, rescheduled, is_over, budgeted, route, Reason, terminal_fault,
  retries_exhausted,
}
use canal.Retry.Waits.{unresolved_cases}

abbrev pub drops : Option Routing → Bool
drops none = false
drops (some r) = elim r.disp [ disp_drop ↦ true | _ ↦ false ]

abbrev pub is_drop : Terminal → Bool
is_drop drop = true
is_drop _ = false

drops-terminal_disp :
    (t : Terminal) (why : Reason)
    → is_drop t ≡ false
    → drops (some (at_once (terminal_disp t) why)) ≡ false
drops-terminal_disp invalid why h = refl
drops-terminal_disp dead_letter why h = refl
drops-terminal_disp drop why h = h
drops-terminal_disp stop why h = refl

module _ (fl : Float64) (p : RetryPolicy fl) (kept : is_drop p.at_end ≡ false) where
  drops-terminal_routing : (c : Class) → drops (some (terminal_routing fl p c)) ≡ false
  unfolding terminal_routing
  drops-terminal_routing c =
      drops-terminal_disp p.at_end (if terminal c then terminal_fault else retries_exhausted) kept

  drops-rescheduled :
      (c : Class) (e : Error) (answer : ℕ × Bool)
      → drops (some (rescheduled fl p c e answer)) ≡ false
  unfolding rescheduled
  drops-rescheduled c e (scheduled, more) = elim (Bool-cases (counted c && not more)) [
    | inl y ↦ rw y (drops-terminal_routing c)
    | inr z ↦ rw z refl
  ]

  drops-budgeted :
      (draw : ℕ → ℕ) (c : Class) (e : Error) (a : Attempt) (now : ℕ)
      → drops (budgeted fl draw p c e a now) ≡ false
  unfolding budgeted
  drops-budgeted draw c e a now = elim (Bool-cases (is_over fl p a now)) [
    | inl y ↦ rw y (drops-terminal_routing c)
    | inr z ↦ rw z (elim (Option-cases (next fl draw p (first_attempt fl a.count))) [
      | inl panics ↦ rw panics refl
      | inr (answer, next') ↦ rw next' (drops-rescheduled c e answer)
    ])
  ]

  pub drops-route :
      (draw : ℕ → ℕ) (e : Error) (idempotent : Bool) (a : Attempt) (now : ℕ)
      → drops ((route fl draw e idempotent p a now).1) ≡ false
  unfolding route
  drops-route draw e idempotent a now =
      elim (unresolved_cases (routed_class e) idempotent p.on_indeterminate) [
        | inl n ↦ elim (Bool-cases (terminal (routed_class e))) [
          | inl y ↦ rw (n, route, y) (drops-terminal_routing (routed_class e))
          | inr z ↦
              rw (n, route, z)
                (drops-budgeted draw (routed_class e) e (spend (routed_class e) a) now)
        ]
        | inr (inl n) ↦ rw (n, route) refl
        | inr (inr n) ↦ rw (n, route) refl
      ]
