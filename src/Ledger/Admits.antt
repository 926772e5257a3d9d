-- ===== src/Ledger/Admits.antt =====
-- Registration and admission of internal/ledger/ledger.go keep an acknowledgement invariant.
use canal.Prelude.{ℕ, ◌≡◌, inl, inr, some, ◌==◌, Bool-cases, Option-cases}
use canal.Prelude.Assoc.{lookup}
use canal.Tracker.{Tracker, abandon}
use canal.Ledger.{Position, Ordering, WhenFull, Batch, LaneState, Ledger, fenced}
use canal.Ledger.Registration.{lane, set_epoch}
use canal.Ledger.Admission.{
  Admission, Tracking, holds, passes, sheds_batch, stops, set_tracker, admit_begin, admit_track,
  admit_finish, open_group, expand, register, agree,
}
use canal.Ledger.Acks.{AckInvariant, Holds, Holds-Quiet, Holds-epoch, Holds-fresh}
use canal.Ledger.Trace.{Op, holds_at, after_begin}
use canal.Ledger.Quiet.{Quiet-seq, Quiet-tracker, Quiet-passes, Quiet-shed, Quiet-open}

module _ (i : AckInvariant) where
  abbrev pub HoldsIn : Ledger → Type 0
  HoldsIn l = Holds i l.closed l.acks l.lanes

  abbrev pub InScope : Op → Type 0
  InScope (holds_at id e) = i.allows id e
  InScope _ = Unit

  pub lane-HoldsIn :
      (l : Ledger) (id : ℕ) (ord : Ordering) (budget : ℕ) (w : WhenFull)
      → HoldsIn l
      → HoldsIn (lane l id ord budget w).0
  unfolding lane
  lane-HoldsIn l id ord budget w h = elim (Bool-cases (id == 0)) [
    | inl y ↦ rw y h
    | inr z ↦ elim (Option-cases (lookup id l.lanes)) [
      | inl e ↦ rw (z, e, lane) (Holds-fresh i l.closed l.acks l.lanes id ord _ w e h)
      | inr (st, e) ↦ rw (z, e, lane) h
    ]
  ]

  pub set_epoch-HoldsIn :
      (l : Ledger) (id e : ℕ) → i.allows id e → HoldsIn l → HoldsIn (set_epoch l id e)
  unfolding set_epoch
  set_epoch-HoldsIn l id e ok h = elim (Option-cases (lookup id l.lanes)) [
    | inl q ↦ rw (q, set_epoch) h
    | inr (st, q) ↦ rw (q, set_epoch) (Holds-epoch i l.closed l.acks l.lanes id st e q ok h)
  ]

  pub admit_begin-HoldsIn :
      (l : Ledger) (b : Batch) (now : ℕ) → HoldsIn l → HoldsIn (after_begin l (admit_begin l b now))
  unfolding admit_begin
  admit_begin-HoldsIn l b now h = elim (Option-cases (lookup b.lane l.lanes)) [
    | inl e ↦ rw (e, admit_begin) h
    | inr (st, e) ↦ elim (Bool-cases (fenced st)) [
      | inl f ↦ rw (e, admit_begin, f) h
      | inr u ↦ elim (Bool-cases (agree b.lane b.items)) [
        | inr m ↦ rw (e, admit_begin, u, m) h
        | inl a ↦
            rw (e, admit_begin, u, a)
              (Holds-Quiet i l.closed l.acks l.lanes b.lane st _ e (Quiet-seq st _) h)
      ]
    ]
  ]

  -- A lane whose tracker alone has moved.
  set_tracker-HoldsIn :
      (l : Ledger) (id : ℕ) (st : LaneState) (t : Tracker Position)
      → lookup id l.lanes ≡ some st
      → HoldsIn l
      → HoldsIn (set_tracker l id st t)
  set_tracker-HoldsIn l id st t e h =
      Holds-Quiet i l.closed l.acks l.lanes id st _ e (Quiet-tracker st t) h

  pub admit_track-HoldsIn :
      (l : Ledger) (a : Admission) (now : ℕ) → HoldsIn l → HoldsIn (admit_track l a now).0
  unfolding admit_track
  admit_track-HoldsIn l a now h = elim (Option-cases (lookup a.batch.lane l.lanes)) [
    | inl e ↦ rw (e, admit_track) h
    | inr (st, e) ↦ rw (e, admit_track) (set_tracker-HoldsIn l a.batch.lane st _ e h)
  ]

  pub admit_finish-HoldsIn :
      (l : Ledger) (a : Admission) (tr : Tracking) → HoldsIn l → HoldsIn (admit_finish l a tr).0
  unfolding admit_finish
  admit_finish-HoldsIn l a stops h = h
  admit_finish-HoldsIn l a (passes moved) h = elim (Option-cases (lookup a.batch.lane l.lanes)) [
    | inl e ↦ rw (e, admit_finish) h
    | inr (st, e) ↦
        rw (e, admit_finish)
          (Holds-Quiet i l.closed l.acks l.lanes a.batch.lane st _ e (Quiet-passes st moved) h)
  ]
  admit_finish-HoldsIn l a (sheds_batch moved) h =
      elim (Option-cases (lookup a.batch.lane l.lanes)) [
        | inl e ↦ rw (e, admit_finish) h
        | inr (st, e) ↦
            rw (e, admit_finish)
              (Holds-Quiet i l.closed l.acks l.lanes a.batch.lane st _ e (Quiet-shed st moved _) h)
      ]
  admit_finish-HoldsIn l a (holds k) h = elim (Option-cases (lookup a.batch.lane l.lanes)) [
    | inl e ↦ rw (e, admit_finish) h
    | inr (st, e) ↦ elim (Option-cases (lookup a.batch.group l.groups)) [
      | inr (g, f) ↦
          rw (e, admit_finish, f)
            (set_tracker-HoldsIn l a.batch.lane st (abandon st.tracker k).0 e h)
      | inl f ↦
          rw (e, admit_finish, f)
            (unfold open_group in
              Holds-Quiet i l.closed l.acks l.lanes a.batch.lane st _ e (Quiet-open st _) h)
    ]
  ]

  pub expand-HoldsIn : (l : Ledger) (g n : ℕ) → HoldsIn l → HoldsIn (expand l g n).0
  unfolding expand
  expand-HoldsIn l gid n h = elim (Bool-cases (n == 0)) [
    | inl y ↦ rw y h
    | inr z ↦ elim (Option-cases (lookup gid l.groups)) [
      | inl e ↦ rw (z, e, expand) h
      | inr (g, e) ↦ elim (Option-cases (lookup g.lane l.lanes)) [
        | inl f ↦ rw (z, e, expand, f) h
        | inr (st, f) ↦
            rw (z, e, expand, f)
              (Holds-Quiet i l.closed l.acks l.lanes g.lane st _ f (Quiet-tracker st _) h)
      ]
    ]
  ]

  pub register-HoldsIn : (l : Ledger) (r g : ℕ) → HoldsIn l → HoldsIn (register l r g)
  unfolding register
  register-HoldsIn l r gid h = elim (Option-cases (lookup gid l.groups)) [
    | inl e ↦ rw (e, register) h
    | inr (g, e) ↦ rw (e, register) h
  ]
