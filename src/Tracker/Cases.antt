-- ===== src/Tracker/Cases.antt =====
-- The branches of TryTrack of internal/ledger/tracker.go as equations.
use canal.Prelude.{ℕ, ◌≡◌, ◌⊎◌, inl, inr, true, false, none, some, arith, Bool-cases}
use canal.Tracker.{Tracker, append_locked, has_room, at_least_one, fresh_node, try_track}

module _ {ℓ} {P : Type ℓ} (t : Tracker P) (p : P) (weight refs now : ℕ) where
  pub try_track_cases :
      (try_track t p weight refs now ≡ (t, none))
      ⊎ ((t.closed ≡ false)
          × (has_room t (at_least_one weight) ≡ true)
          × (try_track t p weight refs now
              ≡ (append_locked t (fresh_node t p weight refs now), some (some t.next_id))))
  unfolding try_track
  try_track_cases = elim (Bool-cases t.closed) [
    | inl y ↦ inl (ground arith)
    | inr z ↦ elim (Bool-cases (has_room t (at_least_one weight))) [
      | inl room ↦ inr (z, room, ground arith)
      | inr full ↦ inl (ground arith)
    ]
  ]
