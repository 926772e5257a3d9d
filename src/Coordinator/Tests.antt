-- ===== src/Coordinator/Tests.antt =====
-- Runs of the leases on small inputs.
use canal.Prelude.{◌<◌, ◌≡◌, ◌≢◌, refl, inl, false, none, some, List, [], ◌∷◌, arith, All}
use canal.Prelude.Assoc.{lookup, insert}
use canal.Coordinator.{Row, Lease, Coordinator, claim, renew, release, Call, claims, releases, run}
use canal.Coordinator.Holding.{Rival}
use canal.Coordinator.Exclusion.{granted-exclusive}
use canal.Coordinator.Supersession.{superseded-refused}

abbrev free : Row
free = record { worker = 0; epoch = 0; expires = 0; ttl = 0; gated = false; finished = false }

-- Two rows, of which none is held.
abbrev plan : Coordinator
plan = record { rows = (1, free) ∷ (2, free) ∷ []; epoch = 4 }

abbrev first : Lease
first = record { assignment = 1; worker = 8; epoch = 5; expires = 150 }

first_granted : (claim plan 1 8 50 100).1 ≡ some first
unfolding claim lookup insert
first_granted = refl

-- Another worker tries at once and after the lease, renews what it does not hold, and takes row 2.
abbrev attempts : List Call
attempts =
    claims 1 9 50 120
    ∷ claims 1 9 50 160
    ∷ releases (record { assignment = 1; worker = 9; epoch = 5; expires = 150 })
    ∷ claims 2 9 50 170
    ∷ []

attempts-Rival : All (Rival 1 8 5 150) attempts
attempts-Rival = (
  (λ q. (λ e. omega (arith, e), omega arith)),
  (
    (λ q. (λ e. omega (arith, e), omega arith)),
    ((λ q. inl (λ e. omega (arith, e))), ((λ q. absurd (omega (arith, q))), tt)),
  ),
)

granted-exclusive_example :
    let c = run (claim plan 1 8 50 100).0 attempts in
    (claim c 1 9 50 149 ≡ (c, none)) × (149 < 150 → (renew c first 149).1 ≢ none)
granted-exclusive_example =
    granted-exclusive plan 1 8 50 100 first attempts 9 50 149 first_granted attempts-Rival
      (λ e. omega (arith, e)) (omega arith)

abbrev second : Lease
second = record { assignment = 1; worker = 9; epoch = 6; expires = 200000000200 }

-- The lease has expired, and the delay with it.
abbrev lapsed : Coordinator
lapsed = record {
  rows = (1, record free { worker = 8; epoch = 5; expires = 150; ttl = 50 }) ∷ [];
  epoch = 5;
}

second_granted : (claim lapsed 1 9 200 200000000000).1 ≡ some second
unfolding claim lookup insert
second_granted = refl

superseded-refused_example :
    let c = run (claim lapsed 1 9 200 200000000000).0 (releases second ∷ []) in
    (renew c first 120 ≡ (c, none)) × ((release c first).0 ≡ c)
superseded-refused_example =
    superseded-refused lapsed first second 9 200 200000000000 (releases second ∷ []) 120
      (omega arith) (omega arith) (omega arith) second_granted
