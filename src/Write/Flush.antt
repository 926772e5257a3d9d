-- ===== src/Write/Flush.antt =====
-- internal/engine/durability.go: the records that a sink has accepted and has yet to make durable. The
-- state is the part of one node; the counters and the covered positions are left out.
use canal.Prelude.{
  ℕ, Bool, true, false, not, Option, none, some, List, [], ◌∷◌, ◌++◌, ◌==◌, ◌&&◌, ◌||◌,
  if◌then◌else◌, length, ltb, leb,
}
use canal.Fault.{Error}
use canal.Write.{
  WriteResult, Reply, refused, answered, Tally, Sink, commits_durability, defers_durability, is_nil,
}

pub data FlushReason : Type 0 where
  flush_checkpoint flush_drain flush_end_of_input : FlushReason

-- What happens in one flush: what Flush answers, and the records that other writes hold meanwhile.
pub record Flight : Type 0 where
  pub reply : Reply
  pub arrived : List ℕ

unfoldable pub due : ℕ → Tally → Bool
due trigger t = ltb 0 trigger && leb trigger (length t.held)

unfoldable pub hold : List ℕ → Tally → Tally
hold rs t = record t { held = t.held ++ rs }

unfoldable pub take : Tally → List ℕ × Tally
take t = (t.held, record t { held = [] })

unfoldable pub return_unflushed : List ℕ → Tally → Tally
return_unflushed rs t = record t { held = rs ++ t.held }

unfoldable pub contains : ℕ → List ℕ → Bool
contains k [] = false
contains k (r ∷ rs) = r == k || contains k rs

unfoldable pub fails : ℕ → List (ℕ × Error) → Bool
fails k [] = false
fails k ((r, e) ∷ rest) = r == k || fails k rest

-- The map notDurable.
unfoldable pub not_durable : WriteResult → ℕ → Bool
not_durable res r = fails r res.failed || contains r res.deferred

-- The records that a test holds of, and the others, both in their order.
unfoldable pub part : (ℕ → Bool) → List ℕ → List ℕ × List ℕ
part test [] = ([], [])
part test (r ∷ rs) =
    let (those, others) = part test rs in
    if test r then (r ∷ those, others) else (those, r ∷ others)

-- flushOne, after the records were taken. What arrives while Flush runs is held when it ends.
unfoldable pub flush_one : Flight → List ℕ → Tally → Tally × Bool
flush_one flight taken t =
    let t' = hold flight.arrived t in
    elim flight.reply [
      | refused e ↦ (return_unflushed taken t', false)
      | answered res ↦
          let (back, durable) = part (not_durable res) taken in
          let t'' = return_unflushed back t' in
          (record t'' { settled = t''.settled ++ durable }, true)
    ]

abbrev pub is_checkpoint : FlushReason → Bool
is_checkpoint flush_checkpoint = true
is_checkpoint _ = false

-- A Committer is only told the reason.
unfoldable pub signal_flush : Flight → Tally → Tally × Bool
signal_flush flight t =
    (hold flight.arrived t, elim flight.reply [ refused e ↦ false | answered res ↦ true ])

-- The body of the loop of flushSinks, for one node: none where no call is made.
unfoldable pub flush_sink : Sink → FlushReason → Flight → Tally → Option (Tally × Bool)
flush_sink sk reason flight t =
    if not sk.flusher
    then none
    else if commits_durability sk
    then some (signal_flush flight t)
    else let (taken, rest) = take t in
      if is_nil taken && is_checkpoint reason then none else some (flush_one flight taken rest)

unfoldable pub flush_if_due : ℕ → Sink → Flight → Tally → Option (Tally × Bool)
flush_if_due trigger sk flight t =
    if not (defers_durability sk) || commits_durability sk || not (due trigger t)
    then none
    else let (taken, rest) = take t in
      if is_nil taken then none else some (flush_one flight taken rest)
