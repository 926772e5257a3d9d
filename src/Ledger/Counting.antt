-- ===== src/Ledger/Counting.antt =====
-- Settlement in internal/ledger/ledger.go keeps the pending count of a lane equal to the number of
-- groups that are open on it.
use canal.Prelude.{
  ℕ, ◌+◌, ◌-◌, ◌≡◌, refl, sym, ap, subst, ◌∙◌, inl, inr, some, List, [], ◌∷◌, arith, ◌==◌, leb,
  if◌then◌else◌, Bool-cases, Option-cases,
}
use canal.Prelude.Assoc.{lookup, insert, remove, lookup-insert, Distinct-remove}
use canal.Ledger.{Outcome, Group, LaneState, Ledger}
use canal.Ledger.Registration.{set_lane}
use canal.Ledger.Admission.{publish_position}
use canal.Ledger.Settlement.{
  settle_one, settle_group, note_outcome, close_group, account_group, settle_all, publish_all,
  emit_discrete, settle_locked, Advance, send_all,
}
use canal.Ledger.Commit.{open_groups}
use canal.Ledger.Groups.{open_groups-remove, pending_of, Counted, Counted-lanes, emit_lanes-pending}
use canal.Ledger.Quiet.{note_outcome-lane}
use canal.Ledger.Opening.{CountedIn, kept, publish_position-pending, rewritten}

-- A group that is closed is one less on its lane.
shut_one :
    (lanes : List (ℕ × LaneState)) (groups : List (ℕ × Group)) (id gid : ℕ) (g : Group)
    (st st' : LaneState)
    → lookup id lanes ≡ some st
    → lookup gid groups ≡ some g
    → g.lane ≡ id
    → st'.pending ≡ st.pending - 1
    → Counted lanes groups
    → Counted (insert id st' lanes) (remove gid groups)
shut_one lanes groups id gid g st st' e f q p h = record {
  count = λ j.
      let out : open_groups j groups ≡ (
          if id == j
          then open_groups j (remove gid groups) + 1
          else open_groups j (remove gid groups)) =
        subst
          (λ i. open_groups j groups ≡ (
            if i == j
            then open_groups j (remove gid groups) + 1
            else open_groups j (remove gid groups)))
          q (open_groups-remove j gid g groups h.once f) in
      rw (lookup-insert id j st' lanes) (elim (Bool-cases (id == j)) [
        | inl y ↦
            let same : id ≡ j = ground arith in
            let here : st.pending ≡ open_groups j groups =
              sym (ap pending_of e) ∙ ap (λ k. pending_of (lookup k lanes)) same ∙ h.count j in
            let less : open_groups j groups ≡ open_groups j (remove gid groups) + 1 = rw y at out in
            rw y (omega (arith, p, here, less))
        | inr z ↦
            let less : open_groups j groups ≡ open_groups j (remove gid groups) = rw z at out in
            rw z (h.count j ∙ less)
      ]);
  once = Distinct-remove gid groups h.once;
}

close_group-pending : (st : LaneState) (g : Group) → (close_group st g).pending ≡ st.pending - 1
unfolding close_group account_group
close_group-pending st g = ground arith

settle_group-CountedIn :
    (l : Ledger) (gid : ℕ) (g g0 : Group) (o : Outcome) (st : LaneState)
    → lookup g.lane l.lanes ≡ some st
    → lookup gid l.groups ≡ some g0
    → g.lane ≡ g0.lane
    → CountedIn l
    → CountedIn (settle_group l gid g o st).0
unfolding settle_group
settle_group-CountedIn l gid g g0 o st e f q h = elim (Bool-cases (leb g.refs g.settled)) [
  | inl y ↦
      rw y (shut_one l.lanes l.groups g.lane gid g0 st _ e f (sym q) (close_group-pending _ g) h)
  | inr z ↦ rw z (rewritten _ l.groups gid g0 g f q (kept l g.lane st _ e refl h))
]

settle_one-CountedIn : (l : Ledger) (o : Outcome) → CountedIn l → CountedIn (settle_one l o).0
unfolding settle_one
settle_one-CountedIn l o h = elim (Option-cases (lookup o.rec l.by_rec)) [
  | inl e ↦ rw (e, settle_one) h
  | inr (gid, e) ↦ elim (Option-cases (lookup gid l.groups)) [
    | inl f ↦ rw (e, settle_one, f) h
    | inr (g, f) ↦ elim (Option-cases (lookup g.lane l.lanes)) [
      | inl q ↦
          rw (e, settle_one, f, q)
            (rewritten l.lanes l.groups gid g (note_outcome g o) f (note_outcome-lane g o) h)
      | inr (st, q) ↦
          rw (e, settle_one, f, q)
            (settle_group-CountedIn _ gid (note_outcome g o) g o st (rw (note_outcome-lane g o) q) f
              (note_outcome-lane g o) h)
    ]
  ]
]

settle_all-CountedIn :
    (l : Ledger) (os : List Outcome) → CountedIn l → CountedIn (settle_all l os).0
unfolding settle_all
settle_all-CountedIn l [] h = h
settle_all-CountedIn l (o ∷ os) h =
    settle_all-CountedIn (settle_one l o).0 os (settle_one-CountedIn l o h)

publish_all-CountedIn :
    (l : Ledger) (ps : List Advance) → CountedIn l → CountedIn (publish_all l ps)
unfolding publish_all
publish_all-CountedIn l [] h = h
publish_all-CountedIn l ((id, p) ∷ rest) h = elim (Option-cases (lookup id l.lanes)) [
  | inl e ↦ rw (e, publish_all) (publish_all-CountedIn l rest h)
  | inr (st, e) ↦
      rw (e, publish_all)
        (publish_all-CountedIn (set_lane l id (publish_position st (some p))) rest
          (kept l id st _ e (publish_position-pending st (some p)) h))
]

pub settle_locked-CountedIn :
    (l : Ledger) (os : List Outcome) → CountedIn l → CountedIn (settle_locked l os)
unfolding settle_locked
settle_locked-CountedIn l os h =
    publish_all-CountedIn (settle_all l os).0 (settle_all l os).1 (settle_all-CountedIn l os h)

pub emit_discrete-CountedIn : (l : Ledger) → CountedIn l → CountedIn (emit_discrete l)
unfolding emit_discrete send_all
emit_discrete-CountedIn l h = Counted-lanes l.lanes _ l.groups (λ j. emit_lanes-pending j l.lanes) h
