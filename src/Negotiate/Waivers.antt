-- ===== src/Negotiate/Waivers.antt =====
-- internal/engine/negotiate.go: the waivers that an operator has signed, and what is left of the
-- refusals under them.
use canal.Prelude.{
  ℕ, zero, suc, Bool, true, false, not, Option, none, some, List, [], ◌∷◌, ◌++◌, ◌==◌, ◌&&◌, ◌||◌,
  if◌then◌else◌,
}
use canal.Negotiate.{
  Downgrade, Severity, error, warning, Code, capability, guarantee_refused, Diagnostic, is_error,
  has_number,
}

abbrev pub is_capability : Code → Bool
is_capability capability = true
is_capability c = false

abbrev pub is_waivable : Code → Bool
is_waivable capability = true
is_waivable guarantee_refused = true
is_waivable c = false

abbrev pub names_nothing : List ℕ → Bool
names_nothing [] = true
names_nothing (m ∷ ms) = false

unfoldable pub waiver_covers : Downgrade → Diagnostic → Bool
waiver_covers w d =
    if w.acknowledged_by == 0 || w.reason == 0
    then false
    else if names_nothing w.missing
    then false
    else if not (w.node == d.node)
    then false
    else if is_capability d.code
    then not (d.iface == 0) && has_number w.missing d.iface
    else not (w.requested == 0) && not (w.effective == 0)

-- The place of the first waiver that covers the refusal.
unfoldable pub first_cover : List Downgrade → Diagnostic → Option ℕ
first_cover [] d = none
first_cover (w ∷ ws) d =
    let later : Option ℕ = elim (first_cover ws d) [ none ↦ none | some j ↦ some (suc j) ] in
    if waiver_covers w d then some 0 else later

-- used[j] = true
unfoldable pub mark_used : ℕ → List Bool → List Bool
mark_used j [] = []
mark_used zero (b ∷ bs) = true ∷ bs
mark_used (suc j) (b ∷ bs) = b ∷ mark_used j bs

-- One refusal of the first loop, and the waiver that it uses.
unfoldable pub waive : List Downgrade → Diagnostic → Diagnostic × Option ℕ
waive ws d =
    if is_error d.severity && is_waivable d.code
    then elim (first_cover ws d) [
      | none ↦ (d, none)
      | some j ↦ (record d { severity = warning }, some j)
    ]
    else (d, none)

abbrev pub mark_if : Option ℕ → List Bool → List Bool
mark_if none used = used
mark_if (some j) used = mark_used j used

unfoldable pub waive_all :
    List Downgrade → List Diagnostic → List Bool → List Diagnostic × List Bool
waive_all ws [] used = ([], used)
waive_all ws (d ∷ ds) used =
    let (d', j) = waive ws d in
    let (ds', used') = waive_all ws ds (mark_if j used) in (d' ∷ ds', used')

abbrev pub about_waiver : Downgrade → Severity → Diagnostic
about_waiver w how = record { node = w.node; severity = how; code = guarantee_refused; iface = 0 }

-- What the second loop says of one waiver.
unfoldable pub review : Downgrade → Bool → List Diagnostic
review w used =
    if names_nothing w.missing
    then about_waiver w error ∷ []
    else if w.acknowledged_by == 0 || w.reason == 0
    then about_waiver w error ∷ []
    else if used
    then []
    else about_waiver w warning ∷ []

unfoldable pub review_all : List Downgrade → List Bool → List Diagnostic
review_all [] used = []
review_all (w ∷ ws) [] = []
review_all (w ∷ ws) (u ∷ used) = review w u ++ review_all ws used

abbrev pub unused : List Downgrade → List Bool
unused [] = []
unused (w ∷ ws) = false ∷ unused ws

unfoldable pub apply_waivers : List Downgrade → List Diagnostic → List Diagnostic
apply_waivers [] ds = ds
apply_waivers (w ∷ ws) ds =
    let (ds', used) = waive_all (w ∷ ws) ds (unused (w ∷ ws)) in ds' ++ review_all (w ∷ ws) used
