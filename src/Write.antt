-- ===== src/Write.antt =====
-- internal/engine/write.go and durability.go: one set of records at one sink. A record is its id; the
-- bytes of a request, logs and counters are left out. What the sink and the encoder answer in a round
-- is an argument.
pub mod Loop
pub mod Conservation
pub mod Requests
pub mod Routed
pub mod Drops
pub mod Failures
pub mod Letters
pub mod Evidence
pub mod Outcome
pub mod Flush
pub mod Keeping
mod Tests
pub mod Delivery
use canal.Prelude.{
  ℕ, suc, ◌+◌, ◌≡◌, Bool, true, false, not, Option, none, some, List, [], ◌∷◌, ◌++◌, ◌==◌, ◌&&◌,
  ◌||◌, if◌then◌else◌, length,
}
use canal.Prelude.Assoc.{lookup, insert}
use canal.Fault.{Error}
use canal.Fault.Policy.{Float64, RetryPolicy}
use canal.Retry.{
  Attempt, Routing, Disposition, disp_retry, disp_dead_letter, disp_drop, disp_stop, disp_stall,
  route,
}

pub data ℤ : Type 0 where
  pos : ℕ → ℤ
  negsuc : ℕ → ℤ

pub record WriteResult : Type 0 where
  pub written : ℤ
  pub failed : List (ℕ × Error)
  pub deferred : List ℕ

-- WriteResult.Reconcile, for the count of a request.
unfoldable pub reconcile : WriteResult → ℕ → Bool
reconcile r count = elim r.written [
  | pos n ↦ count == n + length r.failed + length r.deferred
  | negsuc n ↦ count + suc n == length r.failed + length r.deferred
]

pub data Reply : Type 0 where
  refused : Error → Reply
  answered : WriteResult → Reply

-- What has become of records: settled as delivered, held for a flush, settled as abandoned.
pub record Tally : Type 0 where
  pub settled : List ℕ
  pub held : List ℕ
  pub abandoned : List ℕ

-- What a sink and its codecs are: whether a set becomes one request, and whether the sink is a Flusher
-- or a Committer.
pub record Sink : Type 0 where
  pub batches : Bool
  pub flusher : Bool
  pub committer : Bool
  pub idempotent : Bool

unfoldable pub commits_durability : Sink → Bool
commits_durability sk = sk.committer

unfoldable pub defers_durability : Sink → Bool
defers_durability sk = sk.flusher || sk.committer

unfoldable pub each_alone : List ℕ → List (List ℕ)
each_alone [] = []
each_alone (r ∷ rs) = (r ∷ []) ∷ each_alone rs

-- buildRequests, where every record can be encoded.
unfoldable pub build_requests : Sink → List ℕ → List (List ℕ)
build_requests sk rs = if sk.batches then rs ∷ [] else each_alone rs

-- failed[id] = err, for every record of a request.
unfoldable pub fail_all : Error → List ℕ → List (ℕ × Error) → List (ℕ × Error)
fail_all e [] failed = failed
fail_all e (r ∷ rs) failed = fail_all e rs (insert r e failed)

-- The map `named`: the last entry of a record wins.
unfoldable pub name_all : List (ℕ × Error) → List (ℕ × Error) → List (ℕ × Error)
name_all [] named = named
name_all ((r, e) ∷ rest) named = name_all rest (insert r e named)

unfoldable pub landed : List (ℕ × Error) → List ℕ → List ℕ
landed named [] = []
landed named (r ∷ rs) = elim (lookup r named) [
  | none ↦ r ∷ landed named rs
  | some e ↦ landed named rs
]

unfoldable pub fail_named : List (ℕ × Error) → List ℕ → List (ℕ × Error) → List (ℕ × Error)
fail_named named [] failed = failed
fail_named named (r ∷ rs) failed =
    fail_named named rs (elim (lookup r named) [ none ↦ failed | some e ↦ insert r e failed ])

unfoldable pub settle_or_hold : Sink → List ℕ → Tally → Tally
settle_or_hold sk rs t =
    if defers_durability sk
    then record t { held = t.held ++ rs }
    else record t { settled = t.settled ++ rs }

abbrev pub is_nil {ℓ} : {A : Type ℓ} → List A → Bool
is_nil [] = true
is_nil (x ∷ xs) = false

-- The tally, and the map `failed`, or none where the engine stops over a broken contract.
abbrev pub Written : Type 0
Written = Tally × Option (List (ℕ × Error))

unfoldable pub write_requests :
    Sink → (List ℕ → Reply) → List (List ℕ) → List (ℕ × Error) → Tally → Written
write_requests sk reply [] failed t = (t, some failed)
write_requests sk reply (rq ∷ rqs) failed t = elim (reply rq) [
  | refused e ↦ write_requests sk reply rqs (fail_all e rq failed) t
  | answered res ↦
      if reconcile res (length rq) && is_nil res.deferred
      then write_requests sk reply rqs (fail_named (name_all res.failed []) rq failed)
          (settle_or_hold sk (landed (name_all res.failed []) rq) t)
      else (t, none)
]

-- A sink that takes failed records: which it can encode, and what its Write answers.
pub record Letterbox : Type 0 where
  pub encodes : ℕ → Bool
  pub reply : List ℕ → Reply

abbrev pub is_answered : Reply → Bool
is_answered (refused e) = false
is_answered (answered res) = true

unfoldable pub letter_to : List Letterbox → ℕ → Bool
letter_to [] r = true
letter_to (box ∷ boxes) r = box.encodes r && is_answered (box.reply (r ∷ [])) && letter_to boxes r

-- deadLetter: whether it returns nil. The results of the writes are not read.
unfoldable pub dead_letter : List Letterbox → ℕ → Bool
dead_letter boxes r = not (is_nil boxes) && letter_to boxes r

-- One pass through the loop of writeSet: what the encoder answers, then the sink, the time at which
-- failures are routed, the sinks for failed records, and whether the wait is cut.
pub record Round : Type 0 where
  pub encoding : Option Error
  pub reply : List ℕ → Reply
  pub now : ℕ
  pub letterboxes : List Letterbox
  pub cancelled : Bool

unfoldable pub write_once : Sink → Round → List ℕ → Tally → Written
write_once sk round rs t = elim round.encoding [
  | some e ↦ (t, some (fail_all e rs []))
  | none ↦ write_requests sk round.reply (build_requests sk rs) [] t
]
