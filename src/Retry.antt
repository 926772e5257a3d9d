-- ===== src/Retry.antt =====
-- internal/engine/retry.go: what becomes of a unit of work that failed. A point in time is a number
-- of nanoseconds.
pub mod Waits
pub mod Endings
pub mod Budget
mod Tests
use canal.Prelude.{
  ℕ, suc, ◌+◌, ◌-◌, ◌≡◌, Bool, true, false, not, Option, none, some, List, [], ◌∷◌, ◌&&◌, ltb, leb,
  ◌==◌, if◌then◌else◌,
}
use canal.Fault.{
  Class, unclassified, indeterminate, not_connected, permanent_internal, is_class, terminal,
  counted, Error, class_of, retry_after_of,
}
use canal.Fault.Policy.{
  Float64, RetryPolicy, Terminal, dead_letter, drop, Indeterminacy, retry, dead_letter_it, next,
}

pub data Disposition : Type 0 where
  disp_retry disp_dead_letter disp_drop disp_stop disp_stall : Disposition

-- `started` is none while it is the zero time.
pub record Attempt : Type 0 where
  pub count : ℕ
  pub started : Option ℕ

pub data Reason : Type 0 where
  indeterminate_write retries_exhausted terminal_fault sustained_backoff not_connected_yet : Reason

pub record Routing : Type 0 where
  pub disp : Disposition
  pub delay : ℕ
  pub reason : Reason

abbrev pub uncounted_floor : ℕ
uncounted_floor = 100000000

-- The class that is routed: a fault without a class is a defect of the connector.
unfoldable pub routed_class : Error → Class
routed_class e = if is_class (class_of e) unclassified then permanent_internal else class_of e

abbrev pub at_once : Disposition → Reason → Routing
at_once d r = record { disp = d; delay = 0; reason = r }

abbrev pub terminal_disp : Terminal → Disposition
terminal_disp dead_letter = disp_dead_letter
terminal_disp drop = disp_drop
terminal_disp t = disp_stop

-- A write that may have landed, on a sink that would not absorb a second one: none where the policy
-- accepts it.
unfoldable pub unresolved : Class → Bool → Indeterminacy → Option Routing
unresolved c idempotent policy =
    if is_class c indeterminate && not idempotent
    then elim policy [
      | retry ↦ none
      | dead_letter_it ↦ some (at_once disp_dead_letter indeterminate_write)
      | _ ↦ some (at_once disp_stall indeterminate_write)
    ]
    else none

unfoldable pub spend : Class → Attempt → Attempt
spend c a = if counted c then record a { count = a.count + 1 } else a

module _ (fl : Float64) where
  unfoldable pub terminal_routing : RetryPolicy fl → Class → Routing
  terminal_routing p c =
      at_once (terminal_disp p.at_end) (if terminal c then terminal_fault else retries_exhausted)

  unfoldable pub is_over : RetryPolicy fl → Attempt → ℕ → Bool
  is_over p a now =
      ltb 0 p.backoff.max_elapsed
      && elim a.started [ none ↦ false | some since ↦ leb p.backoff.max_elapsed (now - since) ]

  abbrev pub first_attempt : ℕ → ℕ
  first_attempt n = if ltb n 1 then 1 else n

  abbrev pub floored : ℕ → ℕ
  floored d = if d == 0 then uncounted_floor else d

  -- The wait, from the delay of the schedule: the remote's own hint wins.
  unfoldable pub wait : RetryPolicy fl → Error → ℕ × Bool → ℕ
  wait p e (scheduled, more) = floored (elim (retry_after_of e) [
    | some hint ↦ hint
    | none ↦ if more then scheduled else p.backoff.max
  ])

  -- The end of route, from what Next answered.
  unfoldable pub rescheduled : RetryPolicy fl → Class → Error → ℕ × Bool → Routing
  rescheduled p c e (scheduled, more) =
      if counted c && not more then terminal_routing p c else record {
        disp = disp_retry;
        delay = wait p e (scheduled, more);
        reason = if is_class c not_connected then not_connected_yet else sustained_backoff;
      }

  -- The part of route after the budget is spent. none is the panic of Next.
  unfoldable pub budgeted : (ℕ → ℕ) → RetryPolicy fl → Class → Error → Attempt → ℕ → Option Routing
  budgeted draw p c e a now =
      if is_over p a now
      then some (terminal_routing p c)
      else elim (next fl draw p (first_attempt a.count)) [
        | none ↦ none
        | some answer ↦ some (rescheduled p c e answer)
      ]

  unfoldable pub route :
      (ℕ → ℕ) → Error → Bool → RetryPolicy fl → Attempt → ℕ → Attempt × Option Routing
  route draw e idempotent p a now =
      let c = routed_class e in
      elim (unresolved c idempotent p.on_indeterminate) [
        | some r ↦ (a, some r)
        | none ↦
            if terminal c
            then (a, some (terminal_routing p c))
            else (spend c a, budgeted draw p c e (spend c a) now)
      ]
