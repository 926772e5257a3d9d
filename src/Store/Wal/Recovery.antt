-- ===== src/Store/Wal/Recovery.antt =====
-- What opening a log file gives, whole or cut anywhere: replay in pkg/store/wal/wal.go over the bytes
-- that encode has written.
use mathlib.Core.List.{append_assoc, append-nil}
use canal.Prelude.{
  ℕ, zero, suc, ◌+◌, ◌<◌, ◌≡◌, refl, sym, ap, subst, ◌∙◌, List, [], ◌∷◌, ◌++◌, map, ◌⊎◌, inl, inr,
  length, length-append, All, arith,
}
use canal.Store.Key.{Key}
use canal.Store.Wal.{Frame, whole, Index, apply, empty_index, replay_from, replay}
use canal.Store.Wal.Format.{KeyedEntry, payload, split_at}
use canal.Store.Wal.Bytes.{
  magic, same_bytes, end_of_file, torn_tail, replayed, encode, read_frame, named, replay_bytes,
  replay_body, replay_file,
}
use canal.Store.Wal.RoundTrip.{decode-payload}
use canal.Store.Wal.Framing.{FitsFrame, encode-length, read_frame-encode, read_frame-cut}
use canal.Store.Wal.Torn.{log_of, Cut, log-Cut}

All-kept {ℓ κ} :
    {A : Type ℓ} (P : A → Type κ) (l : List A) (a : A) (r : List A)
    → All P (l ++ a ∷ r)
    → All P l × P a
All-kept P [] a r h = (tt, h.0)
All-kept P (b ∷ l) a r h = let (left, at) = All-kept P l a r h.1 in ((h.0, left), at)

module _ (checksum : List ℕ → ℕ) (name : Key → ℕ) where
  -- The frame of the log that an entry is, for a store in which numbers stand for keys.
  abbrev pub frame_of : KeyedEntry → Frame
  frame_of e = whole (named checksum name e)

  -- Bytes at which replay stops.
  abbrev Stops : List ℕ → Type 0
  Stops bs = (read_frame checksum bs ≡ end_of_file) ⊎ (read_frame checksum bs ≡ torn_tail)

  replay_stop :
      (fuel : ℕ) (s : Index) (offset : ℕ) (bs : List ℕ)
      → Stops bs
      → replay_bytes checksum name (suc fuel) 2 s offset bs ≡ replayed s offset
  unfolding replay_bytes
  replay_stop fuel s offset bs (inl h) = rw (h, replay_bytes) refl
  replay_stop fuel s offset bs (inr h) = rw (h, replay_bytes) refl

  replay_step :
      (fuel : ℕ) (s : Index) (offset : ℕ) (e : KeyedEntry) (rest : List ℕ)
      → FitsFrame checksum e
      → replay_bytes checksum name (suc fuel) 2 s offset (encode checksum e ++ rest)
        ≡ replay_bytes checksum name fuel 2
            (apply s (named checksum name e))
            (offset + 8 + length (payload e))
            rest
  unfolding replay_bytes
  replay_step fuel s offset e rest fit =
      rw (read_frame-encode checksum e fit rest, replay_bytes, decode-payload e fit.entry) refl

  replay_entries :
      (fuel : ℕ) (s : Index) (offset : ℕ) (es : List KeyedEntry) (piece : List ℕ)
      → All (FitsFrame checksum) es
      → Stops piece
      → length (log_of checksum es ++ piece) < fuel
      → replay_bytes checksum name fuel 2 s offset (log_of checksum es ++ piece)
        ≡ replayed (replay_from s (map frame_of es)) (offset + length (log_of checksum es))
  unfolding replay_from
  replay_entries zero s offset es piece fit stop h = absurd (omega arith)
  replay_entries (suc fuel) s offset [] piece fit stop h =
      replay_stop fuel s offset piece stop ∙ ap (λ (n : ℕ). replayed s n) (omega arith)
  replay_entries (suc fuel) s offset (e ∷ es) piece fit stop h =
      let bytes : List ℕ = log_of checksum es in
      let frame : List ℕ = encode checksum e in
      let short : length (bytes ++ piece) < fuel = omega (
        arith,
        h,
        encode-length checksum e fit.0,
        length-append (frame ++ bytes) piece,
        length-append frame bytes,
        length-append bytes piece,
      ) in
      ap (replay_bytes checksum name (suc fuel) 2 s offset) (append_assoc frame bytes piece)
      ∙ replay_step fuel s offset e (bytes ++ piece) fit.0
      ∙ replay_entries fuel (apply s (named checksum name e)) (offset + 8 + length (payload e)) es
          piece fit.1 stop short
      ∙ ap (λ (n : ℕ). replayed (replay_from (apply s (named checksum name e)) (map frame_of es)) n)
          (omega (arith, encode-length checksum e fit.0, length-append frame bytes))

  replay_file-frames :
      (frames : List ℕ)
      → replay_file checksum name (magic ++ 0 ∷ 2 ∷ frames)
        ≡ replay_bytes checksum name (length frames + 1) 2 empty_index 10 frames
  unfolding replay_file replay_body split_at same_bytes
  replay_file-frames frames = refl

  replay_file_lem :
      (es : List KeyedEntry) (piece : List ℕ)
      → All (FitsFrame checksum) es
      → Stops piece
      → replay_file checksum name (magic ++ 0 ∷ 2 ∷ (log_of checksum es ++ piece))
        ≡ replayed (replay (map frame_of es)) (10 + length (log_of checksum es))
  unfolding replay
  replay_file_lem es piece fit stop =
      replay_file-frames (log_of checksum es ++ piece)
      ∙ replay_entries (length (log_of checksum es ++ piece) + 1) empty_index 10 es piece fit stop
          (omega arith)

  -- Opening a file that holds the frames of entries whose payloads are no longer than 64 MiB, and
  -- whose numbers and lengths fit 64 bits, gives the index that the replay of the same entries as
  -- abstract frames gives, and keeps the whole file.
  pub replay_file-log :
      (es : List KeyedEntry)
      → All (FitsFrame checksum) es
      → replay_file checksum name (magic ++ 0 ∷ 2 ∷ log_of checksum es)
        ≡ replayed (replay (map frame_of es)) (10 + length (log_of checksum es))
  unfolding read_frame
  replay_file-log es fit =
      ap (λ (l : List ℕ). replay_file checksum name (magic ++ 0 ∷ 2 ∷ l))
        (sym (append-nil (log_of checksum es)))
      ∙ replay_file_lem es [] fit (inl refl)

  -- A log of entries that the format can hold is cut anywhere in the middle, as by a crash: opening
  -- it replays the entries whose frames are whole, and nothing else, and keeps the bytes up to the
  -- end of the last of these. The cut is described by the entries that are whole, the next one, and
  -- the piece of its frame that is left.
  pub replay_file-truncated :
      (es : List KeyedEntry) (front : List ℕ) (x : ℕ) (back : List ℕ)
      → All (FitsFrame checksum) es
      → front ++ x ∷ back ≡ log_of checksum es
      → (c : Cut checksum es front) × (replay_file checksum name (magic ++ 0 ∷ 2 ∷ front)
          ≡ replayed (replay (map frame_of c.kept)) (10 + length (log_of checksum c.kept)))
  replay_file-truncated es front x back fit h =
      let c = log-Cut checksum es front x back h in
      let (kept, next) =
        All-kept (FitsFrame checksum) c.kept c.next c.later
          (subst (All (FitsFrame checksum)) c.entries fit) in
      (
        c,
        ap (λ (l : List ℕ). replay_file checksum name (magic ++ 0 ∷ 2 ∷ l)) c.bytes
            ∙ replay_file_lem c.kept c.piece kept
                (read_frame-cut checksum c.next next c.piece c.missing c.more c.partial),
      )
