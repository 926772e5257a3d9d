-- ===== src/Ledger/Pending.antt =====
-- Every call of internal/ledger/ledger.go keeps the pending count of a lane equal to the number of
-- groups that are open on it.
use canal.Prelude.{
  ℕ, ◌≡◌, refl, subst, inl, inr, List, [], ◌∷◌, arith, ◌==◌, Bool-cases, Option-cases, All,
}
use canal.Prelude.Assoc.{lookup}
use canal.Ledger.{Position, Batch, LaneState, Ledger, fenced}
use canal.Ledger.Registration.{set_lane}
use canal.Ledger.Admission.{Admission, begun, Tracking, admit_begin, agree, new_group}
use canal.Ledger.Settlement.{send_all}
use canal.Ledger.Commit.{
  flushable, commit_lane, commit_one, commit_all, committed, finish_lane, request_retire, retirable,
  revoke_lane, revoke, close_ledger, open_groups,
}
use canal.Ledger.Groups.{
  Counted-lanes, flush_lanes-pending, retire_lanes-pending, close_trackers-pending,
}
use canal.Ledger.Trace.{
  Op, announces, holds_at, begins, tracks, finishes, expands, registers, settles, emits, flushes,
  commits, ends_lane, asks_retire, takes_retirable, revokes, shuts, step, run, new_ledger,
}
use canal.Ledger.Opening.{
  CountedIn, Labelled, kept, lane-CountedIn, set_epoch-CountedIn, admit_begin-CountedIn,
  admit_track-CountedIn, admit_finish-CountedIn, expand-CountedIn, register-CountedIn,
}
use canal.Ledger.Counting.{settle_locked-CountedIn, emit_discrete-CountedIn}

pub commit_lane-pending :
    (id : ℕ) (st : LaneState) (p : Position) → (commit_lane id st p).0.pending ≡ st.pending
unfolding commit_lane
commit_lane-pending id st p = ground arith

commit_all-CountedIn :
    (l : Ledger) (m : List (ℕ × Position)) → CountedIn l → CountedIn (commit_all l m).0
unfolding commit_all commit_one
commit_all-CountedIn l [] h = h
commit_all-CountedIn l ((id, p) ∷ m) h = elim (Option-cases (lookup id l.lanes)) [
  | inl e ↦ rw (e, commit_one) (commit_all-CountedIn l m h)
  | inr (st, e) ↦
      rw (e, commit_one)
        (commit_all-CountedIn (set_lane l id (commit_lane id st p).0) m
          (kept l id st _ e (commit_lane-pending id st p) h))
]

finish_lane-CountedIn : (l : Ledger) (id : ℕ) → CountedIn l → CountedIn (finish_lane l id)
unfolding finish_lane
finish_lane-CountedIn l id h = elim (Option-cases (lookup id l.lanes)) [
  | inl e ↦ rw (e, finish_lane) h
  | inr (st, e) ↦ rw (e, finish_lane) (kept l id st _ e refl h)
]

request_retire-CountedIn : (l : Ledger) (id : ℕ) → CountedIn l → CountedIn (request_retire l id).0
unfolding request_retire
request_retire-CountedIn l id h = elim (Option-cases (lookup id l.lanes)) [
  | inl e ↦ rw (e, request_retire) h
  | inr (st, e) ↦ elim (Bool-cases (st.pending == 0)) [
    | inl y ↦ simp (e, request_retire, y) (kept l id st _ e refl h)
    | inr z ↦ simp (e, request_retire, z) (kept l id st _ e refl h)
  ]
]

revoke-CountedIn : (l : Ledger) (id : ℕ) → CountedIn l → CountedIn (revoke l id).0
unfolding revoke
revoke-CountedIn l id h = elim (Option-cases (lookup id l.lanes)) [
  | inl e ↦ rw (e, revoke) h
  | inr (st, e) ↦ rw (e, revoke) (kept l id st _ e (unfold revoke_lane in refl) h)
]

close_ledger-CountedIn : (l : Ledger) → CountedIn l → CountedIn (close_ledger l)
unfolding close_ledger
close_ledger-CountedIn l h = elim (Bool-cases l.closed) [
  | inl y ↦ simp y h
  | inr z ↦ simp z (Counted-lanes l.lanes _ l.groups (λ j. close_trackers-pending j l.lanes) h)
]

step-CountedIn : (l : Ledger) (o : Op) → Labelled o → CountedIn l → CountedIn (step l o)
unfolding step
step-CountedIn l (announces id ord budget w) q h = lane-CountedIn l id ord budget w h
step-CountedIn l (holds_at id e) q h = set_epoch-CountedIn l id e h
step-CountedIn l (begins b now) q h = admit_begin-CountedIn l b now h
step-CountedIn l (tracks a now) q h = admit_track-CountedIn l a now h
step-CountedIn l (finishes a tr) q h = admit_finish-CountedIn l a tr q h
step-CountedIn l (expands g n) q h = expand-CountedIn l g n h
step-CountedIn l (registers r g) q h = register-CountedIn l r g h
step-CountedIn l (settles os) q h = settle_locked-CountedIn l os h
step-CountedIn l emits q h = emit_discrete-CountedIn l h
step-CountedIn l flushes q h =
    unfold flushable in Counted-lanes l.lanes _ l.groups (λ j. flush_lanes-pending j l.lanes) h
step-CountedIn l (commits m) q h = unfold committed send_all in commit_all-CountedIn l m h
step-CountedIn l (ends_lane id) q h = finish_lane-CountedIn l id h
step-CountedIn l (asks_retire id) q h = request_retire-CountedIn l id h
step-CountedIn l takes_retirable q h =
    unfold retirable in Counted-lanes l.lanes _ l.groups (λ j. retire_lanes-pending j l.lanes) h
step-CountedIn l (revokes id) q h = revoke-CountedIn l id h
step-CountedIn l shuts q h = close_ledger-CountedIn l h

run-CountedIn : (l : Ledger) (os : List Op) → All Labelled os → CountedIn l → CountedIn (run l os)
unfolding run
run-CountedIn l [] q h = h
run-CountedIn l (o ∷ os) q h = run-CountedIn (step l o) os q.1 (step-CountedIn l o q.0 h)

-- In every ledger that was reached with admissions whose group is one of the lane that its batch is
-- for, the pending count of every lane is the number of groups that are open on it, a lane that is
-- not registered has none open, and no group id is open twice.
pub new_ledger-run-CountedIn :
    (budget : ℕ) (os : List Op) → All Labelled os → CountedIn (run (new_ledger budget) os)
new_ledger-run-CountedIn budget os q =
    run-CountedIn (new_ledger budget) os q
      (unfold new_ledger lookup open_groups in record { count = λ j. refl; once = tt })

begun-Labelled :
    (l l' : Ledger) (x a : Admission)
    → x.unit.lane ≡ x.batch.lane
    → begun l x ≡ begun l' a
    → a.unit.lane ≡ a.batch.lane
begun-Labelled l l' x a q h =
    let same : x ≡ a = cc h in subst (λ y. y.unit.lane ≡ y.batch.lane) same q

-- Admit itself makes such admissions.
pub admit_begin-Labelled :
    (l : Ledger) (b : Batch) (now : ℕ) (l' : Ledger) (a : Admission) (tr : Tracking)
    → admit_begin l b now ≡ begun l' a
    → Labelled (finishes a tr)
unfolding admit_begin new_group
admit_begin-Labelled l b now l' a tr = elim (Option-cases (lookup b.lane l.lanes)) [
  | inl e ↦ rw (e, admit_begin) (λ h. absurd (cc h))
  | inr (st, e) ↦ elim (Bool-cases (fenced st)) [
    | inl f ↦ rw (e, admit_begin, f) (λ h. absurd (cc h))
    | inr u ↦ elim (Bool-cases (agree b.lane b.items)) [
      | inr m ↦ rw (e, admit_begin, u, m) (λ h. absurd (cc h))
      | inl g ↦ rw (e, admit_begin, u, g) (λ h. begun-Labelled _ l' _ a refl h)
    ]
  ]
]
