-- ===== src/Retry/Tests.antt =====
-- The retry policy at concrete inputs, with whole numbers in the place of floating point.
use canal.Prelude.{◌^◌, ◌≤◌, ◌≡◌, refl, true, false, some, [], ◌∷◌, ltb, arith}
use canal.Fault.{
  transient_upstream, indeterminate, opaque, new, throttle, wrap, class_of, as_fault, terminal,
  counted,
}
use canal.Fault.Policy.{RetryPolicy, ceiling, default_retry}
use canal.Fault.Whole.{whole, least, least-lt}
use canal.Retry.{routed_class, unresolved, route, Routing}
use canal.Retry.Waits.{Timely, route-Timely}
use canal.Retry.Endings.{Failure, rounds, is_still_tried, spent}
use canal.Retry.Budget.{fresh, rounds-budget, rounds-exhausted}

abbrev policy : RetryPolicy whole
policy = default_retry whole

policy-ceiling : ceiling whole policy.backoff ≤ 2 ^ 53
unfolding ceiling
policy-ceiling = omega arith

abbrev blip : Failure
blip = record { error = new transient_upstream 1 opaque; at = 5 }

abbrev slow_down : Failure
slow_down = record { error = wrap (throttle 1 7 opaque); at = 9 }

abbrev unsure : Failure
unsure = record { error = new indeterminate 1 opaque; at = 12 }

route-Timely_example :
    (r : Routing) × ((route whole least slow_down.error false policy (fresh 0) 9).1 ≡ some r)
    × Timely whole policy slow_down.error r
route-Timely_example =
    route-Timely whole least least-lt slow_down.error false policy (fresh 0) 9 policy-ceiling

rounds-budget_example :
    is_still_tried (rounds whole least false policy (fresh 0) (blip ∷ slow_down ∷ blip ∷ []))
    ≡ ltb (spent (blip ∷ slow_down ∷ blip ∷ [])) 4
unfolding routed_class class_of as_fault new throttle terminal unresolved
rounds-budget_example =
    rounds-budget whole least least-lt policy policy-ceiling false 0 (blip ∷ slow_down ∷ blip ∷ [])
      refl (omega arith) ((refl, refl), ((refl, refl), ((refl, refl), tt)))

rounds-exhausted_example :
    is_still_tried (rounds whole least true policy (fresh 0) (blip ∷ unsure ∷ blip ∷ blip ∷ []))
    ≡ false
unfolding routed_class class_of as_fault new counted
rounds-exhausted_example =
    rounds-exhausted whole least least-lt policy policy-ceiling true 0
      (blip ∷ unsure ∷ blip ∷ blip ∷ []) (omega arith) (omega arith)
