-- ===== src/Tracker.antt =====
-- internal/ledger/tracker.go: the ordered list of admissions and the prefix resolver.
-- A node of the Go list is a value with an identity; a ticket is that identity, or nothing. The
-- mutex makes each method one step. A node that has left the list is what the source marks `done`.
pub mod Cases
pub mod Spec
pub mod Relation
pub mod Walk
pub mod Discharge
pub mod Refinement
pub mod Counters
pub mod Accounts
pub mod Wakeups
mod Tests
use canal.Prelude.{
  ℕ, ◌+◌, ◌-◌, Bool, true, false, ◌&&◌, ◌||◌, Option, none, some, List, [], ◌∷◌, ◌++◌, ltb, leb,
  ◌==◌, if◌then◌else◌, add64, sub64,
}

pub record Node {ℓ} (P : Type ℓ) : Type ℓ where
  pub id : ℕ
  pub payload : P
  pub weight : ℕ
  pub refs : ℕ
  pub at : ℕ
  pub resolved : Bool
  pub abandoned : Bool

-- `nodes` and `pending` are the source's own counters beside the list from head to tail. `wakes`
-- counts the closings of the wake channel. `frontier` is the pair (resolved, resolvedOK).
pub record Tracker {ℓ} (P : Type ℓ) : Type ℓ where
  pub list : List (Node P)
  pub pending : ℕ
  pub nodes : ℕ
  pub budget : ℕ
  pub wakes : ℕ
  pub frontier : Option P
  pub admitted : ℕ
  pub settled : ℕ
  pub abandoned : ℕ
  pub closed : Bool
  pub next_id : ℕ

abbrev pub Ticket : Type 0
Ticket = Option ℕ

abbrev pub at_least_one : ℕ → ℕ
at_least_one n = if n == 0 then 1 else n

-- How many references are left: the switch of discharge.
unfoldable pub refs_left : Bool → ℕ → ℕ → ℕ
refs_left abandon n refs = if abandon then 0 else if leb refs n then 0 else refs - n

module _ {ℓ} {P : Type ℓ} where
  unfoldable pub new_tracker : ℕ → Tracker P
  new_tracker budget = record {
    list = [];
    pending = 0;
    nodes = 0;
    budget = at_least_one budget;
    wakes = 0;
    frontier = none;
    admitted = 0;
    settled = 0;
    abandoned = 0;
    closed = false;
    next_id = 0;
  }

  unfoldable pub append_locked : Tracker P → Node P → Tracker P
  append_locked t n = record t {
    list = t.list ++ n ∷ [];
    pending = add64 t.pending n.weight;
    nodes = t.nodes + 1;
    admitted = add64 t.admitted n.weight;
    next_id = t.next_id + 1;
  }

  -- Retiring one node at the head: it leaves the list and is counted once.
  unfoldable pub retire : Tracker P → Node P → List (Node P) → Tracker P
  retire t n rest = record t {
    list = rest;
    pending = sub64 t.pending n.weight;
    nodes = t.nodes - 1;
    settled = if n.abandoned then t.settled else add64 t.settled n.weight;
    abandoned = if n.abandoned then add64 t.abandoned n.weight else t.abandoned;
  }

  -- The loop of advanceLocked, over the list from the head; the last payload passed, if any.
  unfoldable pub walk : Tracker P → List (Node P) → Option P → Tracker P × Option P
  unfolding retire
  walk t [] last = (t, last)
  walk t (n ∷ rest) last = elim n.resolved [
    | true ↦ walk (retire t n rest) rest (some n.payload)
    | false ↦ (t, last)
  ]

  unfoldable pub publish : Tracker P × Option P → Tracker P × Option P
  publish (t, none) = (t, none)
  publish (t, some p) = (record t { frontier = some p; wakes = t.wakes + 1 }, some p)

  unfoldable pub advance_locked : Tracker P → Tracker P × Option P
  unfolding walk publish
  advance_locked t = publish (walk t t.list none)

  -- The admission rule that Track and TryTrack share.
  unfoldable pub has_room : Tracker P → ℕ → Bool
  has_room t weight = t.nodes == 0 || leb (add64 t.pending weight) t.budget

  unfoldable pub fresh_node : Tracker P → P → ℕ → ℕ → ℕ → Node P
  fresh_node t payload weight refs now = record {
    id = t.next_id;
    payload = payload;
    weight = at_least_one weight;
    refs = at_least_one refs;
    at = now;
    resolved = false;
    abandoned = false;
  }

  unfoldable pub try_track : Tracker P → P → ℕ → ℕ → ℕ → Tracker P × Option Ticket
  unfolding has_room fresh_node append_locked
  try_track t payload weight refs now =
      if t.closed
      then (t, none)
      else if has_room t (at_least_one weight)
      then (append_locked t (fresh_node t payload weight refs now), some (some t.next_id))
      else (t, none)

  -- The zero-weight marker that TrackResolved appends.
  unfoldable pub marker : ℕ → P → ℕ → Node P
  marker id payload now = record {
    id = id;
    payload = payload;
    weight = 0;
    refs = 0;
    at = now;
    resolved = true;
    abandoned = false;
  }

  unfoldable pub is_marker : Node P → Bool
  is_marker n = n.resolved && n.weight == 0 && n.refs == 0

  -- Overwrites the payload of the tail if that is a marker; `none` means it is not.
  unfoldable pub coalesce : List (Node P) → P → ℕ → Option (List (Node P))
  unfolding is_marker
  coalesce [] payload now = none
  coalesce (n ∷ []) payload now =
      if is_marker n then some (record n { payload = payload; at = now } ∷ []) else none
  coalesce (n ∷ m ∷ rest) payload now = elim (coalesce (m ∷ rest) payload now) [
    | none ↦ none
    | some l ↦ some (n ∷ l)
  ]

  unfoldable pub enter_resolved : Tracker P → P → ℕ → Tracker P
  unfolding coalesce append_locked marker
  enter_resolved t payload now = elim (coalesce t.list payload now) [
    | some l ↦ record t { list = l }
    | none ↦ append_locked t (marker t.next_id payload now)
  ]

  unfoldable pub track_resolved : Tracker P → P → ℕ → Tracker P × Option P
  unfolding enter_resolved advance_locked
  track_resolved t payload now =
      if t.closed then (t, none) else advance_locked (enter_resolved t payload now)

  unfoldable pub discharge_node : Bool → ℕ → Node P → Node P
  unfolding refs_left
  discharge_node abandon n m = record m {
    refs = refs_left abandon n m.refs;
    abandoned = if abandon then true else m.abandoned;
    resolved = if refs_left abandon n m.refs == 0 then true else m.resolved;
  }

  unfoldable pub discharge_list : ℕ → Bool → ℕ → List (Node P) → List (Node P)
  unfolding discharge_node
  discharge_list id abandon n [] = []
  discharge_list id abandon n (m ∷ rest) =
      (if m.id == id then discharge_node abandon n m else m) ∷ discharge_list id abandon n rest

  unfoldable pub find_node : ℕ → List (Node P) → Option (Node P)
  find_node id [] = none
  find_node id (m ∷ rest) = if m.id == id then some m else find_node id rest

  -- A node that is still listed, after its references are discharged: stop, or advance.
  unfoldable pub discharge_live : Tracker P → ℕ → Bool → ℕ → Node P → Tracker P × Option P
  unfolding refs_left discharge_list advance_locked
  discharge_live t id abandon n m =
      let t' : Tracker P = record t { list = discharge_list id abandon n t.list } in
      if ltb 0 (refs_left abandon n m.refs) then (t', none) else advance_locked t'

  unfoldable pub discharge : Tracker P → Ticket → ℕ → Bool → Tracker P × Option P
  unfolding find_node discharge_live
  discharge t none n abandon = (t, none)
  discharge t (some id) n abandon = elim (find_node id t.list) [
    | none ↦ (t, none)
    | some m ↦ discharge_live t id abandon n m
  ]

  unfoldable pub release : Tracker P → Ticket → ℕ → Tracker P × Option P
  unfolding discharge
  release t k n = discharge t k n false

  unfoldable pub abandon : Tracker P → Ticket → Tracker P × Option P
  unfolding discharge
  abandon t k = discharge t k 0 true

  unfoldable pub close : Tracker P → Tracker P
  close t = if t.closed then t else record t { closed = true; wakes = t.wakes + 1 }

-- What a blocked Track meets: a wake, with the tracker that it finds at the next lock, or the end
-- of its context.
pub data Wakeup {ℓ} (P : Type ℓ) : Type ℓ where
  woken : Tracker P → Wakeup P
  cancelled : Wakeup P

pub data Tracked {ℓ} (P : Type ℓ) : Type ℓ where
  entered : Tracker P → Ticket → Tracked P
  tracker_closed : Tracked P
  interrupted : Tracked P
  waiting : Tracker P → Tracked P

module _ {ℓ} {P : Type ℓ} where
  unfoldable pub track : Tracker P → List (Wakeup P) → P → ℕ → ℕ → ℕ → Tracked P
  unfolding has_room fresh_node append_locked
  track t [] payload weight refs now =
      if t.closed
      then tracker_closed
      else if has_room t (at_least_one weight)
      then entered (append_locked t (fresh_node t payload weight refs now)) (some t.next_id)
      else waiting t
  track t (cancelled ∷ later) payload weight refs now =
      if t.closed
      then tracker_closed
      else if has_room t (at_least_one weight)
      then entered (append_locked t (fresh_node t payload weight refs now)) (some t.next_id)
      else interrupted
  track t (woken t' ∷ later) payload weight refs now =
      let retry = track t' later payload weight refs now in
      if t.closed
      then tracker_closed
      else if has_room t (at_least_one weight)
      then entered (append_locked t (fresh_node t payload weight refs now)) (some t.next_id)
      else retry

  -- Resolved, Pending (without the clock) and Counts.
  pub resolved : Tracker P → Option P
  resolved t = t.frontier

  pub pending : Tracker P → ℕ × ℕ × Option P
  pending t = (t.pending, t.nodes, elim t.list [ [] ↦ none | n ∷ rest ↦ some n.payload ])

  pub counts : Tracker P → ℕ × ℕ × ℕ
  counts t = (t.admitted, t.settled, t.abandoned)
