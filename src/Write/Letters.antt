-- ===== src/Write/Letters.antt =====
-- deadLetter of internal/engine/write.go: what a record that it disposes of rests on.
use canal.Prelude.{
  ℕ, ◌≡◌, refl, Bool, true, false, some, List, [], ◌∷◌, ◌&&◌, subst, inl, inr, not, ◌≢◌, All,
}
use canal.Write.{
  Sink, dead_letter, letter_to, is_answered, Letterbox, WriteResult, answered, is_nil, Round,
}
use canal.Write.Requests.{Reply-cases}
use canal.Write.Failures.{Failed}
use canal.Fault.{Error}
use canal.Fault.Policy.{Float64, RetryPolicy}
use canal.Retry.{Attempt, Routing, disp_dead_letter, route}

pub both : (a b : Bool) → a && b ≡ true → a ≡ true
both true b h = refl
both false b h = h

last : (a b : Bool) → a && b ≡ true → b ≡ true
last true b h = h
last false b h = absurd (cc h)

-- The record can be encoded for a sink of failed records, and that sink answers its write without an
-- error. What the answer says of the record is left open.
abbrev pub Answers : ℕ → Letterbox → Type 0
Answers k box = (box.encodes k ≡ true) × ((res : WriteResult) × (box.reply (k ∷ []) ≡ answered res))

-- There are sinks for failed records, and each of them answers.
abbrev pub Lettered : ℕ → Round → Type 0
Lettered k round = (round.letterboxes ≢ []) × All (Answers k) round.letterboxes

letter_to-Answers :
    (boxes : List Letterbox) (k : ℕ) → letter_to boxes k ≡ true → All (Answers k) boxes
unfolding letter_to
letter_to-Answers [] k h = tt
letter_to-Answers (box ∷ boxes) k h =
    let here = both (box.encodes k && is_answered (box.reply (k ∷ []))) (letter_to boxes k) h in
    let reply_fine = last (box.encodes k) (is_answered (box.reply (k ∷ []))) here in
    (
      (
        both (box.encodes k) (is_answered (box.reply (k ∷ []))) here,
        elim (Reply-cases (box.reply (k ∷ []))) [
          | inl (e, r) ↦ absurd (cc (rw r at reply_fine))
          | inr (res, r) ↦ (res, r)
        ],
      ),
      letter_to-Answers boxes k
          (last (box.encodes k && is_answered (box.reply (k ∷ []))) (letter_to boxes k) h),
    )

pub dead_letter-Lettered :
    (k : ℕ) (round : Round) → dead_letter round.letterboxes k ≡ true → Lettered k round
unfolding dead_letter
dead_letter-Lettered k round h =
    let boxes = round.letterboxes in
    (
      λ none'. absurd (cc (subst (λ bs. not (is_nil bs) && letter_to bs k ≡ true) none' h)),
      letter_to-Answers boxes k (last (not (is_nil boxes)) (letter_to boxes k) h),
    )

-- The record fails in this round with an error that is routed to a dead letter, and is given to the sinks
-- for failed records.
abbrev pub DeadLettered : (fl : Float64) → (ℕ → ℕ) → RetryPolicy fl → Sink → ℕ → Round → Type 0
DeadLettered fl draw p sk k round =
    (e : Error) × (a : Attempt) × (way : Routing) × Failed k e round
    × ((route fl draw e sk.idempotent p a round.now).1 ≡ some way)
    × (way.disp ≡ disp_dead_letter)
    × Lettered k round
