-- ===== src/Ledger/Endings.antt =====
-- When internal/ledger/ledger.go says that a lane is over: RequestRetire, Retirable, and the final
-- acknowledgement of Committed and of emitDiscrete.
use canal.Prelude.{
  ℕ, ◌≡◌, refl, sym, ap, ◌∙◌, inl, inr, true, not, ◌&&◌, List, [], ◌∷◌, arith, ◌==◌, Bool-cases,
  Option-cases, All, All-append,
}
use canal.Prelude.Assoc.{lookup, All-lookup, Distinct}
use canal.Ledger.{Position, Group, LaneState, Ack, Ledger, fenced, is_discrete}
use canal.Ledger.Registration.{set_lane}
use canal.Ledger.Settlement.{is_last, is_empty, emit_lane, emit_lanes, discrete_ack}
use canal.Ledger.Commit.{
  commit_lane, commit_one, commit_all, prefix_ack, request_retire, retire_lanes, retirable,
  is_retirable, open_groups,
}
use canal.Ledger.Groups.{pending_of, Counted, Counted-set}
use canal.Ledger.Delivery.{silent_invariant, any_run-HoldsIn}
use canal.Ledger.Opening.{Labelled, CountedIn}
use canal.Ledger.Pending.{commit_lane-pending, new_ledger-run-CountedIn}
use canal.Ledger.Trace.{Op, run, new_ledger}

request_retire-Counted :
    (l : Ledger) (id : ℕ) → CountedIn l → (request_retire l id).1 ≡ (open_groups id l.groups == 0)
unfolding request_retire
request_retire-Counted l id h = elim (Option-cases (lookup id l.lanes)) [
  | inl e ↦
      let none_open : open_groups id l.groups ≡ 0 = sym (h.count id) ∙ ap pending_of e in
      rw (e, request_retire, none_open) (ground arith)
  | inr (st, e) ↦
      let same : open_groups id l.groups ≡ st.pending = sym (h.count id) ∙ ap pending_of e in
      elim (Bool-cases (st.pending == 0)) [
        | inl y ↦ simp (e, request_retire, same, y) refl
        | inr z ↦ simp (e, request_retire, same, z) refl
      ]
]

-- In every ledger that was reached with admissions whose group is one of the lane that its batch is
-- for, RequestRetire returns true if no group is open on the lane, and false if one is.
pub request_retire-run :
    (budget : ℕ) (os : List Op) (id : ℕ)
    → All Labelled os
    → let l = run (new_ledger budget) os in (request_retire l id).1 ≡ (open_groups id l.groups == 0)
request_retire-run budget os id q =
    request_retire-Counted (run (new_ledger budget) os) id (new_ledger-run-CountedIn budget os q)

retire_lanes-idle :
    (groups : List (ℕ × Group)) (lanes : List (ℕ × LaneState))
    → Distinct lanes
    → All (λ e. e.1.pending ≡ open_groups e.0 groups) lanes
    → All (λ id. open_groups id groups ≡ 0) (retire_lanes lanes).1
unfolding retire_lanes
retire_lanes-idle groups [] d h = tt
retire_lanes-idle groups ((id, st) ∷ lanes) d h = elim (Bool-cases (is_retirable st)) [
  | inl y ↦ rw y (ground (arith, h.0), retire_lanes-idle groups lanes d.1 h.1)
  | inr z ↦ rw z (retire_lanes-idle groups lanes d.1 h.1)
]

lanes-Counted :
    (lanes : List (ℕ × LaneState)) (groups : List (ℕ × Group))
    → Distinct lanes
    → Counted lanes groups
    → All (λ e. e.1.pending ≡ open_groups e.0 groups) lanes
lanes-Counted lanes groups d h =
    All-lookup (λ e. e.1.pending ≡ open_groups e.0 groups) lanes d
      (λ id st e. sym (ap pending_of e) ∙ h.count id)

run-Distinct : (budget : ℕ) (os : List Op) → Distinct (run (new_ledger budget) os).lanes
run-Distinct budget os =
    (any_run-HoldsIn silent_invariant (unfold silent_invariant in (λ j e. tt))
      (unfold silent_invariant in (λ j. tt)) budget os).keys

-- In every ledger that was reached with admissions whose group is one of the lane that its batch is
-- for, no group is open on a lane that Retirable returns.
pub retirable-run :
    (budget : ℕ) (os : List Op)
    → All Labelled os
    → let l = run (new_ledger budget) os in All (λ id. open_groups id l.groups ≡ 0) (retirable l).1
unfolding retirable
retirable-run budget os q =
    let l = run (new_ledger budget) os in
    let d = run-Distinct budget os in
    retire_lanes-idle l.groups l.lanes d
      (lanes-Counted l.lanes l.groups d (new_ledger-run-CountedIn budget os q))

-- An acknowledgement that says its lane is finished finds no group open on it.
abbrev pub FinalIdle : List (ℕ × Group) → Ack → Type 0
FinalIdle groups a = a.lane_finished ≡ true → open_groups a.lane groups ≡ 0

idle_last :
    (groups : List (ℕ × Group)) (id : ℕ) (st : LaneState)
    → st.pending ≡ open_groups id groups
    → is_last st ≡ true
    → open_groups id groups ≡ 0
idle_last groups id st h e = ground arith

commit_lane-FinalIdle :
    (groups : List (ℕ × Group)) (id : ℕ) (st : LaneState) (p : Position)
    → st.pending ≡ open_groups id groups
    → All (FinalIdle groups) (commit_lane id st p).1
unfolding commit_lane prefix_ack
commit_lane-FinalIdle groups id st p h = elim (Bool-cases (is_discrete st.ordering)) [
  | inl y ↦ rw y tt
  | inr z ↦ elim (Bool-cases st.finish_acked) [
    | inl told ↦ simp (z, told) tt
    | inr more ↦ elim (Bool-cases (fenced st)) [
      | inl fence ↦ simp (z, more, fence) tt
      | inr held ↦ simp (z, more, held) ((λ e. idle_last groups id st h e), tt)
    ]
  ]
]

emit_lane-FinalIdle :
    (groups : List (ℕ × Group)) (id : ℕ) (st : LaneState)
    → st.pending ≡ open_groups id groups
    → All (FinalIdle groups) (emit_lane id st).1
unfolding emit_lane discrete_ack
emit_lane-FinalIdle groups id st h = elim (Bool-cases (not (is_discrete st.ordering))) [
  | inl y ↦ simp y tt
  | inr z ↦ elim (Bool-cases (is_empty st.settled_handles && is_empty st.abandoned_handles)) [
    | inl none_settled ↦ simp (z, none_settled) tt
    | inr some_settled ↦ elim (Bool-cases st.finish_acked) [
      | inl told ↦ simp (z, some_settled, told) tt
      | inr more ↦ elim (Bool-cases (fenced st)) [
        | inl fence ↦ simp (z, some_settled, more, fence) tt
        | inr held ↦ simp (z, some_settled, more, held) ((λ e. idle_last groups id st h e), tt)
      ]
    ]
  ]
]

emit_lanes-FinalIdle :
    (groups : List (ℕ × Group)) (lanes : List (ℕ × LaneState))
    → All (λ e. e.1.pending ≡ open_groups e.0 groups) lanes
    → All (FinalIdle groups) (emit_lanes lanes).1
unfolding emit_lanes
emit_lanes-FinalIdle groups [] h = tt
emit_lanes-FinalIdle groups ((id, st) ∷ lanes) h =
    All-append (FinalIdle groups) (emit_lane id st).1 (emit_lanes lanes).1
      (emit_lane-FinalIdle groups id st h.0) (emit_lanes-FinalIdle groups lanes h.1)

commit_all-FinalIdle :
    (l : Ledger) (m : List (ℕ × Position))
    → CountedIn l
    → All (FinalIdle l.groups) (commit_all l m).1
unfolding commit_all commit_one
commit_all-FinalIdle l [] h = tt
commit_all-FinalIdle l ((id, p) ∷ m) h = elim (Option-cases (lookup id l.lanes)) [
  | inl e ↦ rw (e, commit_one) (commit_all-FinalIdle l m h)
  | inr (st, e) ↦
      let same : st.pending ≡ open_groups id l.groups = sym (ap pending_of e) ∙ h.count id in
      rw (e, commit_one)
        (All-append (FinalIdle l.groups) (commit_lane id st p).1 _
          (commit_lane-FinalIdle l.groups id st p same)
          (commit_all-FinalIdle (set_lane l id (commit_lane id st p).0) m (
            Counted-set l.lanes l.groups id _ (commit_lane-pending id st p ∙ sym (ap pending_of e))
              h)))
]

-- In every ledger that was reached with admissions whose group is one of the lane that its batch is
-- for, an acknowledgement that Committed or emitDiscrete builds says that its lane is finished only
-- if no group is open on the lane.
pub acks-FinalIdle :
    (budget : ℕ) (os : List Op) (m : List (ℕ × Position))
    → All Labelled os
    → let l = run (new_ledger budget) os in
      All (FinalIdle l.groups) (commit_all l m).1 × All (FinalIdle l.groups) (emit_lanes l.lanes).1
acks-FinalIdle budget os m q =
    let l = run (new_ledger budget) os in
    let h = new_ledger-run-CountedIn budget os q in
    (
      commit_all-FinalIdle l m h,
      emit_lanes-FinalIdle l.groups l.lanes
          (lanes-Counted l.lanes l.groups (run-Distinct budget os) h),
    )
