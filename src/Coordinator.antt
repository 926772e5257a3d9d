-- ===== src/Coordinator.antt =====
-- The leases of internal/example/memstore/coordinator.go: Claim, Renew and Release of one row of the
-- plan. Times and durations are nanoseconds, and 0 is the zero time. Ids are only compared, so a
-- number stands for each, and 0 for the empty name.
pub mod Holding
pub mod Exclusion
pub mod Supersession
mod Tests
use canal.Prelude.{
  ℕ, ◌+◌, ◌*◌, Bool, true, false, not, ◌&&◌, ◌||◌, Option, none, some, List, [], ◌∷◌, ltb, ◌==◌,
  if◌then◌else◌, add64,
}
use canal.Prelude.Assoc.{lookup, insert}

abbrev pub default_lease_ttl : ℕ
default_lease_ttl = 30 * 1000000000

abbrev pub default_reassignment_delay : ℕ
default_reassignment_delay = 120 * 1000000000

-- The fields of a row that the leases read: those of its assignment and of its lane.
pub record Row : Type 0 where
  pub worker : ℕ
  pub epoch : ℕ
  pub expires : ℕ
  pub ttl : ℕ
  pub gated : Bool
  pub finished : Bool

pub record Lease : Type 0 where
  pub assignment : ℕ
  pub worker : ℕ
  pub epoch : ℕ
  pub expires : ℕ

pub record Coordinator : Type 0 where
  pub rows : List (ℕ × Row)
  pub epoch : ℕ

unfoldable pub lease_of : ℕ → Row → Lease
lease_of a r = record { assignment = a; worker = r.worker; epoch = r.epoch; expires = r.expires }

-- The worker that a row is reserved for at a time, 0 if there is none.
unfoldable pub holder : Row → ℕ → ℕ
holder r now =
    if r.worker == 0
    then 0
    else if ltb now r.expires
    then r.worker
    else if ltb now (r.expires + default_reassignment_delay)
    then r.worker
    else 0

abbrev pub set_row : Coordinator → ℕ → Row → Coordinator
set_row c a r = record c { rows = insert a r c.rows }

unfoldable pub grant : Coordinator → ℕ → Row → ℕ → ℕ → ℕ → Coordinator × Option Lease
unfolding lease_of
grant c a r w ttl now =
    let epoch : ℕ = add64 c.epoch 1 in
    let r' : Row = record r { worker = w; epoch = epoch; expires = now + ttl; ttl = ttl } in
    (record (set_row c a r') { epoch = epoch }, some (lease_of a r'))

abbrev pub is_taken : Row → ℕ → ℕ → Bool
is_taken r w now = not (holder r now == 0) && not (holder r now == w)

-- A time to live of 0 stands for every one that is not positive.
unfoldable pub claim : Coordinator → ℕ → ℕ → ℕ → ℕ → Coordinator × Option Lease
unfolding holder grant
claim c a w ttl now = if w == 0 then (c, none) else elim (lookup a c.rows) [
  | none ↦ (c, none)
  | some r ↦
      if r.gated || r.finished
      then (c, none)
      else if is_taken r w now
      then (c, none)
      else grant c a r w (if ttl == 0 then default_lease_ttl else ttl) now
]

abbrev pub is_current : Row → Lease → Bool
is_current r l = r.worker == l.worker && r.epoch == l.epoch

unfoldable pub renew : Coordinator → Lease → ℕ → Coordinator × Option Lease
unfolding lease_of
renew c l now = elim (lookup l.assignment c.rows) [
  | none ↦ (c, none)
  | some r ↦
      if not (is_current r l) then (c, none) else if not (ltb now r.expires) then (c, none) else (
        set_row c l.assignment (record r { expires = now + r.ttl }),
        some (lease_of l.assignment (record r { expires = now + r.ttl })),
      )
]

-- The second part says whether Release returns without an error.
unfoldable pub release : Coordinator → Lease → Coordinator × Bool
release c l = elim (lookup l.assignment c.rows) [
  | none ↦ (c, true)
  | some r ↦
      if not (is_current r l)
      then (c, false)
      else (set_row c l.assignment (record r { worker = 0; epoch = 0; expires = 0 }), true)
]

pub data Call : Type 0 where
  claims : ℕ → ℕ → ℕ → ℕ → Call
  renews : Lease → ℕ → Call
  releases : Lease → Call

unfoldable pub step : Coordinator → Call → Coordinator
step c (claims a w ttl now) = (claim c a w ttl now).0
step c (renews l now) = (renew c l now).0
step c (releases l) = (release c l).0

unfoldable pub run : Coordinator → List Call → Coordinator
run c [] = c
run c (o ∷ os) = run (step c o) os
