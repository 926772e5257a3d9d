-- ===== src/Ledger/Opening.antt =====
-- Registration and admission of internal/ledger/ledger.go keep the count of open groups.
use canal.Prelude.{
  ℕ, ◌+◌, ◌≡◌, refl, sym, ap, ◌∙◌, inl, inr, Option, none, some, List, arith, ◌==◌, Bool-cases,
  Option-cases,
}
use canal.Prelude.Assoc.{lookup, insert, lookup-insert, Distinct-insert}
use canal.Ledger.{Position, Ordering, WhenFull, Batch, Group, LaneState, Ledger, fenced}
use canal.Ledger.Registration.{lane, set_epoch}
use canal.Ledger.Admission.{
  Admission, Tracking, holds, passes, sheds_batch, stops, admit_begin, admit_track, admit_finish,
  publish_position, open_group, expand, register, agree,
}
use canal.Ledger.Commit.{open_groups}
use canal.Ledger.Groups.{
  open_groups-insert_new, open_groups-insert_same, pending_of, Counted, Counted-set,
}
use canal.Ledger.Trace.{Op, finishes, after_begin}

abbrev pub CountedIn : Ledger → Type 0
CountedIn l = Counted l.lanes l.groups

-- The group of an admission is one of the lane that its batch is for.
abbrev pub Labelled : Op → Type 0
Labelled (finishes a tr) = a.unit.lane ≡ a.batch.lane
Labelled _ = Unit

-- The same count in a lane that is written back.
pub kept :
    (l : Ledger) (id : ℕ) (st st' : LaneState)
    → lookup id l.lanes ≡ some st
    → st'.pending ≡ st.pending
    → CountedIn l
    → Counted (insert id st' l.lanes) l.groups
kept l id st st' e p h = Counted-set l.lanes l.groups id st' (p ∙ sym (ap pending_of e)) h

pub publish_position-pending :
    (st : LaneState) (r : Option Position) → (publish_position st r).pending ≡ st.pending
unfolding publish_position
publish_position-pending st none = refl
publish_position-pending st (some p) = refl

pub lane-CountedIn :
    (l : Ledger) (id : ℕ) (ord : Ordering) (budget : ℕ) (w : WhenFull)
    → CountedIn l
    → CountedIn (lane l id ord budget w).0
unfolding lane
lane-CountedIn l id ord budget w h = elim (Bool-cases (id == 0)) [
  | inl y ↦ rw y h
  | inr z ↦ elim (Option-cases (lookup id l.lanes)) [
    | inl e ↦ rw (z, e, lane) (Counted-set l.lanes l.groups id _ (sym (ap pending_of e)) h)
    | inr (st, e) ↦ rw (z, e, lane) h
  ]
]

pub set_epoch-CountedIn : (l : Ledger) (id e : ℕ) → CountedIn l → CountedIn (set_epoch l id e)
unfolding set_epoch
set_epoch-CountedIn l id e h = elim (Option-cases (lookup id l.lanes)) [
  | inl q ↦ rw (q, set_epoch) h
  | inr (st, q) ↦ rw (q, set_epoch) (kept l id st _ q refl h)
]

pub admit_begin-CountedIn :
    (l : Ledger) (b : Batch) (now : ℕ)
    → CountedIn l
    → CountedIn (after_begin l (admit_begin l b now))
unfolding admit_begin
admit_begin-CountedIn l b now h = elim (Option-cases (lookup b.lane l.lanes)) [
  | inl e ↦ rw (e, admit_begin) h
  | inr (st, e) ↦ elim (Bool-cases (fenced st)) [
    | inl f ↦ rw (e, admit_begin, f) h
    | inr u ↦ elim (Bool-cases (agree b.lane b.items)) [
      | inr m ↦ rw (e, admit_begin, u, m) h
      | inl a ↦ rw (e, admit_begin, u, a) (kept l b.lane st _ e refl h)
    ]
  ]
]

pub admit_track-CountedIn :
    (l : Ledger) (a : Admission) (now : ℕ) → CountedIn l → CountedIn (admit_track l a now).0
unfolding admit_track
admit_track-CountedIn l a now h = elim (Option-cases (lookup a.batch.lane l.lanes)) [
  | inl e ↦ rw (e, admit_track) h
  | inr (st, e) ↦ rw (e, admit_track) (kept l a.batch.lane st _ e refl h)
]

-- A new group is counted where it is opened.
opened :
    (l : Ledger) (id gid : ℕ) (g : Group) (st st' : LaneState)
    → lookup id l.lanes ≡ some st
    → lookup gid l.groups ≡ none
    → g.lane ≡ id
    → st'.pending ≡ st.pending + 1
    → CountedIn l
    → Counted (insert id st' l.lanes) (insert gid g l.groups)
opened l id gid g st st' e f q p h = record {
  count = λ j.
      rw (lookup-insert id j st' l.lanes, open_groups-insert_new j gid g l.groups f, q)
        (elim (Bool-cases (id == j)) [
          | inl y ↦
              let same : id ≡ j = ground arith in
              let here : st.pending ≡ open_groups j l.groups =
                sym (ap pending_of e) ∙ ap (λ k. pending_of (lookup k l.lanes)) same ∙ h.count j in
              rw y (p ∙ ap (λ n. n + 1) here)
          | inr z ↦ rw z (h.count j)
        ]);
  once = Distinct-insert gid g l.groups h.once;
}

pub admit_finish-CountedIn :
    (l : Ledger) (a : Admission) (tr : Tracking)
    → a.unit.lane ≡ a.batch.lane
    → CountedIn l
    → CountedIn (admit_finish l a tr).0
unfolding admit_finish
admit_finish-CountedIn l a stops q h = h
admit_finish-CountedIn l a (passes moved) q h = elim (Option-cases (lookup a.batch.lane l.lanes)) [
  | inl e ↦ rw (e, admit_finish) h
  | inr (st, e) ↦
      rw (e, admit_finish) (kept l a.batch.lane st _ e (publish_position-pending st moved) h)
]
admit_finish-CountedIn l a (sheds_batch moved) q h =
    elim (Option-cases (lookup a.batch.lane l.lanes)) [
      | inl e ↦ rw (e, admit_finish) h
      | inr (st, e) ↦
          rw (e, admit_finish) (kept l a.batch.lane st _ e (publish_position-pending st moved) h)
    ]
admit_finish-CountedIn l a (holds k) q h = elim (Option-cases (lookup a.batch.lane l.lanes)) [
  | inl e ↦ rw (e, admit_finish) h
  | inr (st, e) ↦ elim (Option-cases (lookup a.batch.group l.groups)) [
    | inr (g, f) ↦ rw (e, admit_finish, f) (kept l a.batch.lane st _ e refl h)
    | inl f ↦
        rw (e, admit_finish, f)
          (unfold open_group in opened l a.batch.lane a.batch.group _ st _ e f q refl h)
  ]
]

-- A group that is written back on its lane.
pub rewritten :
    (lanes : List (ℕ × LaneState)) (groups : List (ℕ × Group)) (gid : ℕ) (g g' : Group)
    → lookup gid groups ≡ some g
    → g'.lane ≡ g.lane
    → Counted lanes groups
    → Counted lanes (insert gid g' groups)
rewritten lanes groups gid g g' e q h = record {
  count = λ j. h.count j ∙ sym (open_groups-insert_same j gid g g' groups e q);
  once = Distinct-insert gid g' groups h.once;
}

pub expand-CountedIn : (l : Ledger) (g n : ℕ) → CountedIn l → CountedIn (expand l g n).0
unfolding expand
expand-CountedIn l gid n h = elim (Bool-cases (n == 0)) [
  | inl y ↦ rw y h
  | inr z ↦ elim (Option-cases (lookup gid l.groups)) [
    | inl e ↦ rw (z, e, expand) h
    | inr (g, e) ↦ elim (Option-cases (lookup g.lane l.lanes)) [
      | inl f ↦ rw (z, e, expand, f) (rewritten l.lanes l.groups gid g _ e refl h)
      | inr (st, f) ↦
          rw (z, e, expand, f) (rewritten _ l.groups gid g _ e refl (kept l g.lane st _ f refl h))
    ]
  ]
]

pub register-CountedIn : (l : Ledger) (r g : ℕ) → CountedIn l → CountedIn (register l r g)
unfolding register
register-CountedIn l r gid h = elim (Option-cases (lookup gid l.groups)) [
  | inl e ↦ rw (e, register) h
  | inr (g, e) ↦ rw (e, register) h
]
