-- ===== src/Ledger/Trace.antt =====
-- Every locked section of internal/ledger/ledger.go that changes a ledger, as one step. The sections
-- of several goroutines interleave at the mutex, so a run is any sequence of them: Admit is the three
-- steps begins, tracks and finishes, and Settle the two steps settles and emits. An admission that
-- is under way is carried by its caller, and nothing is assumed of it here.
use canal.Prelude.{ℕ, Bool, List, [], ◌∷◌}
use canal.Ledger.{Position, Ordering, WhenFull, Outcome, Batch, Ledger}
use canal.Ledger.Registration.{lane, set_epoch}
use canal.Ledger.Admission.{
  Admission, Begun, refused, begun, Tracking, admit_begin, admit_track, admit_finish, expand,
  register,
}
use canal.Ledger.Settlement.{settle_locked, emit_discrete}
use canal.Ledger.Commit.{
  flushable, committed, finish_lane, request_retire, retirable, revoke, close_ledger,
}

pub data Op : Type 0 where
  announces : ℕ → Ordering → ℕ → WhenFull → Op
  holds_at : ℕ → ℕ → Op
  begins : Batch → ℕ → Op
  tracks : Admission → ℕ → Op
  finishes : Admission → Tracking → Op
  expands : ℕ → ℕ → Op
  registers : ℕ → ℕ → Op
  settles : List Outcome → Op
  emits : Op
  flushes : Op
  commits : List (ℕ × Position) → Op
  ends_lane : ℕ → Op
  asks_retire : ℕ → Op
  takes_retirable : Op
  revokes : ℕ → Op
  shuts : Op

abbrev pub after_begin : Ledger → Begun → Ledger
after_begin l (refused r) = l
after_begin l (begun l' a) = l'

unfoldable pub step : Ledger → Op → Ledger
step l (announces id ord budget w) = (lane l id ord budget w).0
step l (holds_at id e) = set_epoch l id e
step l (begins b now) = after_begin l (admit_begin l b now)
step l (tracks a now) = (admit_track l a now).0
step l (finishes a tr) = (admit_finish l a tr).0
step l (expands g n) = (expand l g n).0
step l (registers r g) = register l r g
step l (settles os) = settle_locked l os
step l emits = emit_discrete l
step l flushes = (flushable l).0
step l (commits m) = committed l m
step l (ends_lane id) = finish_lane l id
step l (asks_retire id) = (request_retire l id).0
step l takes_retirable = (retirable l).0
step l (revokes id) = (revoke l id).0
step l shuts = close_ledger l

unfoldable pub run : Ledger → List Op → Ledger
run l [] = l
run l (o ∷ os) = run (step l o) os

unfoldable pub new_ledger : ℕ → Ledger
new_ledger default_budget = record {
  default_budget = default_budget;
  lanes = [];
  groups = [];
  by_rec = [];
  acks = [];
  closed = Bool.false;
}
