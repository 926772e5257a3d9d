-- ===== src/Ledger/Keeps.antt =====
-- Every call of internal/ledger/ledger.go keeps a lane's acknowledgement invariant.
use mathlib.Core.List.{append_assoc}
use canal.Prelude.{
  ℕ, ◌≡◌, refl, subst, inl, inr, Bool, true, false, some, List, [], ◌∷◌, ◌++◌, ◌==◌, leb,
  Bool-cases, Option-cases, All,
}
use canal.Prelude.Assoc.{lookup}
use canal.Ledger.{Position, Outcome, Group, LaneState, Ack, Ledger}
use canal.Ledger.Registration.{set_lane}
use canal.Ledger.Admission.{publish_position}
use canal.Ledger.Settlement.{
  settle_one, settle_group, note_outcome, settle_all, publish_all, emit_lanes, emit_discrete,
  send_all, sent, settle_locked, Advance,
}
use canal.Ledger.Commit.{
  flushable, commit_lane, commit_one, commit_all, committed, finish_lane, request_retire, retirable,
  revoke, close_trackers, close_ledger,
}
use canal.Ledger.Acks.{AckInvariant, Holds, Holds-Quiet, acks_of}
use canal.Ledger.Sweep.{Holds-Change, Holds-Sweep, sent-nil}
use canal.Ledger.Trace.{
  Op, announces, holds_at, begins, tracks, finishes, expands, registers, settles, emits, flushes,
  commits, ends_lane, asks_retire, takes_retirable, revokes, shuts, step, run, new_ledger,
}
use canal.Ledger.Quiet.{
  Quiet-publish, Quiet-revoke, Quiet-tracker, note_outcome-lane, Quiet-closing, Quiet-finish,
  Quiet-retire, commit_all-kept, flush_lanes-Sweep, retire_lanes-Sweep, close_trackers-Sweep,
  commit_lane-Change, emit_lanes-Sweep,
}
use canal.Ledger.Admits.{
  HoldsIn, InScope, lane-HoldsIn, set_epoch-HoldsIn, admit_begin-HoldsIn, admit_track-HoldsIn,
  admit_finish-HoldsIn, expand-HoldsIn, register-HoldsIn,
}

module _ (i : AckInvariant) where
  settle_group-HoldsIn :
      (l : Ledger) (gid : ℕ) (g : Group) (o : Outcome) (st : LaneState)
      → lookup g.lane l.lanes ≡ some st
      → HoldsIn i l
      → HoldsIn i (settle_group l gid g o st).0
  unfolding settle_group
  settle_group-HoldsIn l gid g o st e h = elim (Bool-cases (leb g.refs g.settled)) [
    | inl y ↦ rw y (Holds-Quiet i l.closed l.acks l.lanes g.lane st _ e (Quiet-closing st g o) h)
    | inr z ↦ rw z (Holds-Quiet i l.closed l.acks l.lanes g.lane st _ e (Quiet-tracker st _) h)
  ]

  settle_one-HoldsIn : (l : Ledger) (o : Outcome) → HoldsIn i l → HoldsIn i (settle_one l o).0
  unfolding settle_one
  settle_one-HoldsIn l o h = elim (Option-cases (lookup o.rec l.by_rec)) [
    | inl e ↦ rw (e, settle_one) h
    | inr (gid, e) ↦ elim (Option-cases (lookup gid l.groups)) [
      | inl f ↦ rw (e, settle_one, f) h
      | inr (g, f) ↦ elim (Option-cases (lookup g.lane l.lanes)) [
        | inl q ↦ rw (e, settle_one, f, q) h
        | inr (st, q) ↦
            rw (e, settle_one, f, q)
              (settle_group-HoldsIn _ gid (note_outcome g o) o st (rw (note_outcome-lane g o) q) h)
      ]
    ]
  ]

  settle_all-HoldsIn :
      (l : Ledger) (os : List Outcome) → HoldsIn i l → HoldsIn i (settle_all l os).0
  unfolding settle_all
  settle_all-HoldsIn l [] h = h
  settle_all-HoldsIn l (o ∷ os) h =
      settle_all-HoldsIn (settle_one l o).0 os (settle_one-HoldsIn l o h)

  publish_all-HoldsIn :
      (l : Ledger) (ps : List Advance) → HoldsIn i l → HoldsIn i (publish_all l ps)
  unfolding publish_all
  publish_all-HoldsIn l [] h = h
  publish_all-HoldsIn l ((id, p) ∷ rest) h = elim (Option-cases (lookup id l.lanes)) [
    | inl e ↦ rw (e, publish_all) (publish_all-HoldsIn l rest h)
    | inr (st, e) ↦
        rw (e, publish_all)
          (publish_all-HoldsIn (set_lane l id (publish_position st (some p))) rest
            (Holds-Quiet i l.closed l.acks l.lanes id st _ e (Quiet-publish st (some p)) h))
  ]

  -- What a pass or a commit has gathered is sent at once, unless the ledger is closed.
  send_all-HoldsIn :
      (l : Ledger) (out : List Ack)
      → Holds i l.closed (sent l.closed l.acks out) l.lanes
      → HoldsIn i (send_all l out)
  unfolding send_all
  send_all-HoldsIn l out h = h

  emit_discrete-HoldsIn : (l : Ledger) → HoldsIn i l → HoldsIn i (emit_discrete l)
  unfolding emit_discrete
  emit_discrete-HoldsIn l h =
      send_all-HoldsIn (record l { lanes = (emit_lanes l.lanes).0 }) (emit_lanes l.lanes).1
        (Holds-Sweep i l.closed l.acks (emit_lanes l.lanes).1 l.lanes (emit_lanes l.lanes).0
          (emit_lanes-Sweep l.lanes) h)

  settle_locked-HoldsIn :
      (l : Ledger) (os : List Outcome) → HoldsIn i l → HoldsIn i (settle_locked l os)
  unfolding settle_locked
  settle_locked-HoldsIn l os h =
      publish_all-HoldsIn (settle_all l os).0 (settle_all l os).1 (settle_all-HoldsIn l os h)

  sent-append :
      (closed : Bool) (acks xs ys : List Ack)
      → sent closed (sent closed acks xs) ys ≡ sent closed acks (xs ++ ys)
  sent-append true acks xs ys = refl
  sent-append false acks xs ys = append_assoc acks xs ys

  commit_one-Holds :
      (closed : Bool) (acks : List Ack) (l : Ledger) (id : ℕ) (p : Position)
      → Holds i closed acks l.lanes
      → Holds i closed (sent closed acks (commit_one l id p).1) (commit_one l id p).0.lanes
  unfolding commit_one
  commit_one-Holds closed acks l id p h = elim (Option-cases (lookup id l.lanes)) [
    | inl e ↦ rw (e, commit_one, sent-nil closed acks) h
    | inr (st, e) ↦
        rw (e, commit_one)
          (Holds-Change i closed acks (commit_lane id st p).1 l.lanes id st _ e
            (commit_lane-Change id st p) h)
  ]

  commit_all-Holds :
      (closed : Bool) (m : List (ℕ × Position)) (acks : List Ack) (l : Ledger)
      → Holds i closed acks l.lanes
      → Holds i closed (sent closed acks (commit_all l m).1) (commit_all l m).0.lanes
  unfolding commit_all
  commit_all-Holds closed [] acks l h = rw (sent-nil closed acks) h
  commit_all-Holds closed ((id, p) ∷ rest) acks l h =
      rw (← sent-append closed acks (commit_one l id p).1 (commit_all (commit_one l id p).0 rest).1)
        (commit_all-Holds closed rest _ (commit_one l id p).0
          (commit_one-Holds closed acks l id p h))

  committed-HoldsIn :
      (l : Ledger) (m : List (ℕ × Position)) → HoldsIn i l → HoldsIn i (committed l m)
  unfolding committed send_all
  committed-HoldsIn l m h =
      rw ((commit_all-kept l m).0, (commit_all-kept l m).1) (commit_all-Holds l.closed m l.acks l h)

  flushable-HoldsIn : (l : Ledger) → HoldsIn i l → HoldsIn i (flushable l).0
  unfolding flushable
  flushable-HoldsIn l h =
      rw (sent-nil l.closed l.acks) at
        (Holds-Sweep i l.closed l.acks [] l.lanes _ (flush_lanes-Sweep l.lanes) h)

  retirable-HoldsIn : (l : Ledger) → HoldsIn i l → HoldsIn i (retirable l).0
  unfolding retirable
  retirable-HoldsIn l h =
      rw (sent-nil l.closed l.acks) at
        (Holds-Sweep i l.closed l.acks [] l.lanes _ (retire_lanes-Sweep l.lanes) h)

  Holds-shut :
      (acks : List Ack) (lanes : List (ℕ × LaneState))
      → Holds i false acks lanes
      → Holds i true acks lanes
  Holds-shut acks lanes h = record {
    lane = λ id. elim (Option-cases (lookup id lanes)) [
      | inl e ↦ rw e (rw e at (h.lane id))
      | inr (st, e) ↦ rw e (i.shut id (acks_of id acks) st (rw e at (h.lane id)))
    ];
    keys = h.keys;
  }

  close-HoldsIn : (l : Ledger) → HoldsIn i l → HoldsIn i (close_ledger l)
  unfolding close_ledger
  close-HoldsIn l h = elim (Bool-cases l.closed) [
    | inl y ↦ simp y (subst (λ c. Holds i c l.acks l.lanes) y h)
    | inr z ↦ simp z (
        Holds-Sweep i true l.acks [] l.lanes (close_trackers l.lanes) (close_trackers-Sweep l.lanes)
          (Holds-shut l.acks l.lanes (subst (λ c. Holds i c l.acks l.lanes) z h)))
  ]

  finish_lane-HoldsIn : (l : Ledger) (id : ℕ) → HoldsIn i l → HoldsIn i (finish_lane l id)
  unfolding finish_lane
  finish_lane-HoldsIn l id h = elim (Option-cases (lookup id l.lanes)) [
    | inl e ↦ rw (e, finish_lane) h
    | inr (st, e) ↦
        rw (e, finish_lane) (Holds-Quiet i l.closed l.acks l.lanes id st _ e (Quiet-finish st) h)
  ]

  request_retire-HoldsIn : (l : Ledger) (id : ℕ) → HoldsIn i l → HoldsIn i (request_retire l id).0
  unfolding request_retire
  request_retire-HoldsIn l id h = elim (Option-cases (lookup id l.lanes)) [
    | inl e ↦ rw (e, request_retire) h
    | inr (st, e) ↦ elim (Bool-cases (st.pending == 0)) [
      | inl y ↦
          simp (e, request_retire, y)
            (Holds-Quiet i l.closed l.acks l.lanes id st _ e (Quiet-retire st true) h)
      | inr z ↦
          simp (e, request_retire, z)
            (Holds-Quiet i l.closed l.acks l.lanes id st _ e (Quiet-retire st st.retire_reported) h)
    ]
  ]

  revoke-HoldsIn : (l : Ledger) (id : ℕ) → HoldsIn i l → HoldsIn i (revoke l id).0
  unfolding revoke
  revoke-HoldsIn l id h = elim (Option-cases (lookup id l.lanes)) [
    | inl e ↦ rw (e, revoke) h
    | inr (st, e) ↦
        rw (e, revoke) (Holds-Quiet i l.closed l.acks l.lanes id st _ e (Quiet-revoke st) h)
  ]

  pub step-HoldsIn : (l : Ledger) (o : Op) → InScope i o → HoldsIn i l → HoldsIn i (step l o)
  unfolding step
  step-HoldsIn l (announces id ord budget w) k h = lane-HoldsIn i l id ord budget w h
  step-HoldsIn l (holds_at id e) k h = set_epoch-HoldsIn i l id e k h
  step-HoldsIn l (begins b now) k h = admit_begin-HoldsIn i l b now h
  step-HoldsIn l (tracks a now) k h = admit_track-HoldsIn i l a now h
  step-HoldsIn l (finishes a tr) k h = admit_finish-HoldsIn i l a tr h
  step-HoldsIn l (expands g n) k h = expand-HoldsIn i l g n h
  step-HoldsIn l (registers r g) k h = register-HoldsIn i l r g h
  step-HoldsIn l (settles os) k h = settle_locked-HoldsIn l os h
  step-HoldsIn l emits k h = emit_discrete-HoldsIn l h
  step-HoldsIn l flushes k h = flushable-HoldsIn l h
  step-HoldsIn l (commits m) k h = committed-HoldsIn l m h
  step-HoldsIn l (ends_lane id) k h = finish_lane-HoldsIn l id h
  step-HoldsIn l (asks_retire id) k h = request_retire-HoldsIn l id h
  step-HoldsIn l takes_retirable k h = retirable-HoldsIn l h
  step-HoldsIn l (revokes id) k h = revoke-HoldsIn l id h
  step-HoldsIn l shuts k h = close-HoldsIn l h

  pub run-HoldsIn :
      (l : Ledger) (os : List Op) → All (InScope i) os → HoldsIn i l → HoldsIn i (run l os)
  unfolding run
  run-HoldsIn l [] k h = h
  run-HoldsIn l (o ∷ os) k h = run-HoldsIn (step l o) os k.1 (step-HoldsIn l o k.0 h)

  pub new_ledger-HoldsIn : (b : ℕ) → ((id : ℕ) → i.absent id) → HoldsIn i (new_ledger b)
  unfolding new_ledger lookup
  new_ledger-HoldsIn b out = record { lane = λ id. (out id, refl); keys = tt }
