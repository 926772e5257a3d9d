-- ===== src/Write/Tests.antt =====
-- Writes and flushes at concrete inputs.
use canal.Prelude.{ℕ, ◌≡◌, refl, true, false, some, none, List, [], ◌∷◌, ap, ◌⊎◌, arith, length}
use canal.Prelude.Assoc.{lookup, insert}
use canal.Fault.Whole.{whole, least}
use canal.Retry.{
  route, routed_class, unresolved, terminal_routing, is_over, budgeted, rescheduled, spend, wait,
}
use canal.Fault.{
  is, transient_upstream, permanent_upstream, opaque, new, class_of, as_fault, terminal, counted,
  retry_after_of,
}
use canal.Fault.Policy.{
  raised, capped, exponential, growth, ceiling, default_retry, next, dead_letter as dead_lettering,
  RetryPolicy,
}
use canal.Write.Loop.{
  after_writing, after_sorting, sort_failed, sort_one, dispose, finished, write_set,
}
use canal.Write.{
  pos, negsuc, commits_durability, Reply, reconcile, write_once, write_requests, build_requests,
  settle_or_hold, landed, fail_named, name_all, defers_durability, letter_to, answered, Tally, Sink,
  Letterbox, Round, dead_letter,
}
use canal.Write.Requests.{count}
use canal.Write.Delivery.{Closed}
use canal.Write.Letters.{DeadLettered}
use canal.Write.Evidence.{delivered, SomeRound, Took}
use canal.Write.Flush.{
  Flight, flush_end_of_input, flush_sink, flush_one, flush_if_due, take, hold, return_unflushed,
  part, not_durable, fails, contains,
}
use canal.Write.Outcome.{write_set-Closed_once, write_set-SomeRound, write_set-finished}
use canal.Write.Keeping.{KeptIf, flush-KeptIf}

abbrev none_yet : Tally
none_yet = record { settled = []; held = []; abandoned = [] }

-- A sink that takes sets as they come.
abbrev plain : Sink
plain = record { batches = true; flusher = false; committer = false; idempotent = false }

abbrev staging : Sink
staging = record { batches = true; flusher = true; committer = false; idempotent = false }

abbrev policy : RetryPolicy whole
policy = record (default_retry whole) { at_end = dead_lettering }

abbrev grumble : List ℕ → Reply
grumble rs = answered (record {
  written = pos 1;
  failed = (1, new transient_upstream 1 opaque) ∷ (2, new permanent_upstream 1 opaque) ∷ [];
  deferred = [];
})

abbrev accept : List ℕ → Reply
accept rs = answered (record { written = pos (length rs); failed = []; deferred = [] })

abbrev letterbox : Letterbox
letterbox = record { encodes = λ r. true; reply = accept }

-- The first two of three records fail: one is presented again, one goes to a dead letter.
abbrev first : Round
first = record {
  encoding = none;
  reply = grumble;
  now = 5;
  letterboxes = letterbox ∷ [];
  cancelled = false;
}

abbrev second : Round
second = record first { reply = accept; now = 9 }

run :
    write_set whole least policy plain (first ∷ second ∷ []) [] (1 ∷ 2 ∷ 3 ∷ []) none_yet
    ≡ (record { settled = 3 ∷ 1 ∷ []; held = []; abandoned = 2 ∷ [] }, finished)
unfolding write_set is raised capped exponential growth ceiling write_once write_requests
    build_requests reconcile settle_or_hold landed fail_named name_all lookup insert
    defers_durability after_writing after_sorting sort_failed sort_one dispose dead_letter letter_to
    route routed_class unresolved terminal_routing is_over budgeted rescheduled spend wait class_of
    as_fault new terminal counted retry_after_of next
run = refl

write_set-Closed_once_example :
    Closed 2 0 1
      (write_set whole least policy plain (first ∷ second ∷ []) [] (1 ∷ 2 ∷ 3 ∷ []) none_yet)
write_set-Closed_once_example =
    write_set-Closed_once whole least policy plain 2 (first ∷ second ∷ []) (1 ∷ 2 ∷ 3 ∷ []) none_yet
      (omega arith)

write_set-SomeRound_example :
    let (t, ending) =
      write_set whole least policy plain (first ∷ second ∷ []) [] (1 ∷ 2 ∷ 3 ∷ []) none_yet in
    ((delivered 1 t ≡ 0) ⊎ SomeRound (Took 1) (first ∷ second ∷ []))
    × ((count 1 t.abandoned ≡ 0)
        ⊎ SomeRound (DeadLettered whole least policy plain 1) (first ∷ second ∷ []))
write_set-SomeRound_example =
    write_set-SomeRound whole least policy plain 1 (first ∷ second ∷ []) (1 ∷ 2 ∷ 3 ∷ []) none_yet
      refl

write_set-finished_example :
    SomeRound (Took 2) (first ∷ second ∷ [])
    ⊎ SomeRound (DeadLettered whole least policy plain 2) (first ∷ second ∷ [])
write_set-finished_example =
    write_set-finished whole least policy plain 2 (first ∷ second ∷ []) (1 ∷ 2 ∷ 3 ∷ []) none_yet
      refl refl (ap (λ w. w.1) run)

-- The sink makes one of two records durable while a third is written.
abbrev flight : Flight
flight = record {
  reply = answered (record { written = pos 1; failed = []; deferred = 5 ∷ [] });
  arrived = 6 ∷ [];
}

abbrev two_held : Tally
two_held = record { settled = []; held = 4 ∷ 5 ∷ []; abandoned = [] }

run_flush :
    flush_sink staging flush_end_of_input flight two_held
    ≡ some (record { settled = 4 ∷ []; held = 5 ∷ 6 ∷ []; abandoned = [] }, true)
unfolding flush_sink flush_one take hold return_unflushed part not_durable fails contains
    commits_durability
run_flush = refl

flush-KeptIf_example :
    KeptIf 5 flight two_held (flush_sink staging flush_end_of_input flight two_held)
    × KeptIf 5 flight two_held (flush_if_due 2 staging flight two_held)
flush-KeptIf_example = flush-KeptIf 5 flight 2 staging flush_end_of_input two_held

-- A dead-letter sink that names the record as failed counts as one that took it.
abbrev deaf : Letterbox
deaf = record {
  encodes = λ r. true;
  reply = λ rs. answered (record {
    written = pos 0;
    failed = (2, new permanent_upstream 1 opaque) ∷ [];
    deferred = [];
  });
}

deaf_letterbox : dead_letter (deaf ∷ []) 2 ≡ true
unfolding dead_letter letter_to
deaf_letterbox = refl

-- A negative count of written records reconciles with more failures than records.
negative_count :
    reconcile
      (record {
        written = negsuc 0;
        failed = (2, new permanent_upstream 1 opaque) ∷ (2, new permanent_upstream 1 opaque) ∷ [];
        deferred = [];
      })
      1
    ≡ true
unfolding reconcile
negative_count = refl
