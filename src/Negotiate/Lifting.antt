-- ===== src/Negotiate/Lifting.antt =====
-- What a waiver of internal/engine/negotiate.go can lift, and what it leaves as it is.
use canal.Prelude.{
  ℕ, ◌≡◌, ◌≢◌, refl, Bool, true, false, some, List, [], ◌∷◌, ◌++◌, ◌&&◌, ◌⊎◌, inl, inr, Bool-cases,
  Option-cases, arith,
}
use canal.Negotiate.{Downgrade, warning, Diagnostic, is_error, has_number}
use canal.Negotiate.Waivers.{
  is_capability, is_waivable, waiver_covers, first_cover, mark_if, waive, waive_all, unused,
  apply_waivers,
}

-- A waiver that is signed and explained, is for the very node, and names the very interface; or, for a
-- refusal of the tier, both ends of the move.
pub record IsFor (w : Downgrade) (d : Diagnostic) : Type 0 where
  pub signed : w.acknowledged_by ≢ 0
  pub explained : w.reason ≢ 0
  pub scope : w.node ≡ d.node
  pub named :
      ((is_capability d.code ≡ true) × (d.iface ≢ 0) × (has_number w.missing d.iface ≡ true))
      ⊎ ((is_capability d.code ≡ false) × (w.requested ≢ 0) × (w.effective ≢ 0))

abbrev pub SomeFor : List Downgrade → Diagnostic → Type 0
SomeFor [] d = ⊥
SomeFor (w ∷ ws) d = IsFor w d ⊎ SomeFor ws d

-- Every refusal is as it was, or was lifted to a warning under a waiver that is for it.
abbrev pub EachLifted : List Downgrade → List Diagnostic → List Diagnostic → Type 0
EachLifted ws [] out = Unit
EachLifted ws (d ∷ ds) [] = ⊥
EachLifted ws (d ∷ ds) (d' ∷ out) =
    ((d' ≡ d) ⊎ ((d' ≡ record d { severity = warning }) × SomeFor ws d)) × EachLifted ws ds out

covers-IsFor : (w : Downgrade) (d : Diagnostic) → waiver_covers w d ≡ true → IsFor w d
unfolding waiver_covers
covers-IsFor w d h = record {
  signed = ground arith;
  explained = ground arith;
  scope = ground arith;
  named = ground arith;
}

first_cover-SomeFor :
    (ws : List Downgrade) (d : Diagnostic) (j : ℕ) → first_cover ws d ≡ some j → SomeFor ws d
unfolding first_cover
first_cover-SomeFor [] d j h = absurd (cc h)
first_cover-SomeFor (w ∷ ws) d j h = elim (Bool-cases (waiver_covers w d)) [
  | inl y ↦ inl (covers-IsFor w d y)
  | inr z ↦ elim (Option-cases (first_cover ws d)) [
    | inl n ↦ absurd (cc (rw (z, n) at h))
    | inr (i, found) ↦ inr (first_cover-SomeFor ws d i found)
  ]
]

waive-Lifted :
    (ws : List Downgrade) (d : Diagnostic)
    → ((waive ws d).0 ≡ d) ⊎ (((waive ws d).0 ≡ record d { severity = warning }) × SomeFor ws d)
unfolding waive
waive-Lifted ws d = elim (Bool-cases (is_error d.severity && is_waivable d.code)) [
  | inl y ↦ elim (Option-cases (first_cover ws d)) [
    | inl n ↦ inl (rw (y, n) refl)
    | inr (j, found) ↦ inr (rw (y, found) refl, first_cover-SomeFor ws d j found)
  ]
  | inr z ↦ inl (rw z refl)
]

EachLifted-append :
    (ws : List Downgrade) (ds out more : List Diagnostic)
    → EachLifted ws ds out
    → EachLifted ws ds (out ++ more)
EachLifted-append ws [] out more h = tt
EachLifted-append ws (d ∷ ds) [] more h = absurd h
EachLifted-append ws (d ∷ ds) (d' ∷ out) more h = (h.0, EachLifted-append ws ds out more h.1)

EachLifted-same : (ws : List Downgrade) (ds : List Diagnostic) → EachLifted ws ds ds
EachLifted-same ws [] = tt
EachLifted-same ws (d ∷ ds) = (inl refl, EachLifted-same ws ds)

waive_all-Lifted :
    (ws : List Downgrade) (ds : List Diagnostic) (used : List Bool)
    → EachLifted ws ds ((waive_all ws ds used).0)
unfolding waive_all
waive_all-Lifted ws [] used = tt
waive_all-Lifted ws (d ∷ ds) used =
    (waive-Lifted ws d, waive_all-Lifted ws ds (mark_if ((waive ws d).1) used))

-- Under any waivers every refusal stays as it was or becomes a warning with the rest unchanged, and
-- the latter only if some waiver is signed and explained, is for the very node, and names the very
-- interface of the refusal, or for a refusal that is not of a capability names some tiers, not
-- empty, as requested and effective, whichever they are.
pub apply_waivers-EachLifted :
    (ws : List Downgrade) (ds : List Diagnostic) → EachLifted ws ds (apply_waivers ws ds)
unfolding apply_waivers
apply_waivers-EachLifted [] ds = EachLifted-same [] ds
apply_waivers-EachLifted (w ∷ ws) ds =
    EachLifted-append (w ∷ ws) ds ((waive_all (w ∷ ws) ds (unused (w ∷ ws))).0) _
      (waive_all-Lifted (w ∷ ws) ds (unused (w ∷ ws)))
