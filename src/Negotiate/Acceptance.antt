-- ===== src/Negotiate/Acceptance.antt =====
-- What a pipeline that was accepted has: the refusals that no waiver can lift.
use canal.Prelude.{
  ℕ, ◌≡◌, refl, ◌∙◌, Bool, true, false, not, none, List, [], ◌∷◌, ◌++◌, ◌==◌, ◌&&◌, ◌||◌, inl, inr,
  Bool-cases, arith,
}
use canal.Negotiate.{Downgrade, Diagnostic, is_error, has_errors, cap_diag, when}
use canal.Negotiate.Waivers.{
  is_capability, is_waivable, waiver_covers, first_cover, mark_if, waive, waive_all, unused,
  apply_waivers,
}

-- An error that no waiver covers: it names no interface, or is of another kind.
abbrev pub blocks : Diagnostic → Bool
blocks d =
    is_error d.severity && (not (is_waivable d.code) || (is_capability d.code && d.iface == 0))

unfoldable pub has_blocker : List Diagnostic → Bool
has_blocker [] = false
has_blocker (d ∷ ds) = blocks d || has_blocker ds

has_errors-append :
    (ds es : List Diagnostic) → has_errors (ds ++ es) ≡ (has_errors ds || has_errors es)
unfolding has_errors
has_errors-append [] es = refl
has_errors-append (d ∷ ds) es = ground (arith, has_errors-append ds es)

pub has_blocker-append :
    (ds es : List Diagnostic) → has_blocker (ds ++ es) ≡ (has_blocker ds || has_blocker es)
unfolding has_blocker
has_blocker-append [] es = refl
has_blocker-append (d ∷ ds) es = ground (arith, has_blocker-append ds es)

first_cover-blocks :
    (ws : List Downgrade) (d : Diagnostic)
    → is_capability d.code ≡ true
    → d.iface ≡ 0
    → first_cover ws d ≡ none
unfolding first_cover waiver_covers
first_cover-blocks [] d c i = refl
first_cover-blocks (w ∷ ws) d c i = ground (arith, first_cover-blocks ws d c i)

waive-blocks : (ws : List Downgrade) (d : Diagnostic) → blocks d ≡ true → (waive ws d).0 ≡ d
unfolding waive
waive-blocks ws d h = ground (arith, first_cover-blocks ws d)

waive_all-blocked :
    (ws : List Downgrade) (ds : List Diagnostic) (used : List Bool)
    → has_blocker ds ≡ true
    → has_errors ((waive_all ws ds used).0) ≡ true
unfolding has_blocker has_errors waive_all
waive_all-blocked ws [] used h = cc
waive_all-blocked ws (d ∷ ds) used h = elim (Bool-cases (blocks d)) [
  | inl y ↦ rw (waive-blocks ws d y) (ground arith)
  | inr z ↦
      let later : has_errors ((waive_all ws ds (mark_if ((waive ws d).1) used)).0) ≡ true =
        waive_all-blocked ws ds (mark_if ((waive ws d).1) used) (rw z at h) in
      rw later (or_true (is_error ((waive ws d).0.severity)))
]
  where
    or_true : (b : Bool) → (b || true) ≡ true
    or_true true = refl
    or_true false = refl

blocker-error : (ds : List Diagnostic) → has_blocker ds ≡ true → has_errors ds ≡ true
unfolding has_blocker has_errors
blocker-error [] h = cc
blocker-error (d ∷ ds) h = ground (arith, blocker-error ds)

pub apply_waivers-blocked :
    (ws : List Downgrade) (ds : List Diagnostic)
    → has_blocker ds ≡ true
    → has_errors (apply_waivers ws ds) ≡ true
unfolding apply_waivers
apply_waivers-blocked [] ds h = blocker-error ds h
apply_waivers-blocked (w ∷ ws) ds h =
    has_errors-append ((waive_all (w ∷ ws) ds (unused (w ∷ ws))).0) _
    ∙ rw (waive_all-blocked (w ∷ ws) ds (unused (w ∷ ws)) h) refl

-- A pipeline that is accepted has nothing that blocks it, in any part of what was refused.
pub accepted_parts :
    (ds es : List Diagnostic)
    → has_blocker (ds ++ es) ≡ false
    → (has_blocker ds ≡ false) × (has_blocker es ≡ false)
accepted_parts ds es h = ground (arith, has_blocker-append ds es)

pub accepted-unblocked :
    (ws : List Downgrade) (ds : List Diagnostic)
    → has_errors (apply_waivers ws ds) ≡ false
    → has_blocker ds ≡ false
accepted-unblocked ws ds h = elim (Bool-cases (has_blocker ds)) [
  | inl y ↦ absurd (cc (apply_waivers-blocked ws ds y, h))
  | inr z ↦ z
]

-- The rows of the table that no waiver can cover.
pub unmet_by :
    (c : Bool) (d : Diagnostic) → blocks d ≡ true → has_blocker (when c d) ≡ false → c ≡ false
unfolding has_blocker
unmet_by true d b h = cc (rw b at h)
unmet_by false d b h = refl

pub unmet : (c : Bool) (id : ℕ) → has_blocker (when c (cap_diag id 0)) ≡ false → c ≡ false
unmet c id h = unmet_by c (cap_diag id 0) refl h
