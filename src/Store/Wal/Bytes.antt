-- ===== src/Store/Wal/Bytes.antt =====
-- pkg/store/wal/format.go and the replay of pkg/store/wal/wal.go: the frames of a log as bytes. The
-- checksum is a parameter, and so is the number that stands for the name of a key.
use canal.Prelude.{
  ℕ, zero, suc, ◌+◌, ◌*◌, ◌/◌, ◌%◌, ◌^◌, Bool, true, false, none, some, List, [], ◌∷◌, ◌++◌, ltb,
  ◌==◌, ◌&&◌, ◌||◌, if◌then◌else◌, length, map, word32,
}
use canal.Store.{Deletion}
use canal.Store.Key.{Key}
use canal.Store.Wal.{max_frame, AppliedWrite, Entry, Index, empty_index, apply}
use canal.Store.Wal.Format.{
  KeyedWrite, KeyedDelete, KeyedEntry, payload, split_at, decode, Read, ◌>>=◌, pure, u8,
}

-- binary.BigEndian.PutUint32
unfoldable pub be32 : ℕ → List ℕ
be32 n = (n / 2 ^ 24 % 256) ∷ (n / 2 ^ 16 % 256) ∷ (n / 2 ^ 8 % 256) ∷ (n % 256) ∷ []

-- binary.BigEndian.Uint32
unfoldable pub read_be32 : Read ℕ
read_be32 = do a ← u8; b ← u8; c ← u8; d ← u8; pure (a * 2 ^ 24 + b * 2 ^ 16 + c * 2 ^ 8 + d)

unfoldable pub same_bytes : List ℕ → List ℕ → Bool
same_bytes [] [] = true
same_bytes (a ∷ more) [] = false
same_bytes [] (b ∷ bs) = false
same_bytes (a ∷ more) (b ∷ bs) = a == b && same_bytes more bs

abbrev pub header : Read (ℕ × ℕ)
header = do n ← read_be32; want ← read_be32; pure (n, want)

abbrev pub magic : List ℕ
magic = 67 ∷ 65 ∷ 78 ∷ 65 ∷ 76 ∷ 87 ∷ 65 ∷ 76 ∷ []

pub data FrameRead : Type 0 where
  end_of_file torn_tail : FrameRead
  got : List ℕ → List ℕ → FrameRead

pub data Replayed : Type 0 where
  -- The index, and the number of bytes that are kept.
  replayed : Index → ℕ → Replayed
  unreadable : Replayed
  out_of_fuel : Replayed

module _ (checksum : List ℕ → ℕ) where
  unfoldable pub encode : KeyedEntry → List ℕ
  encode e = be32 (length (payload e) % word32) ++ (be32 (checksum (payload e)) ++ payload e)

  -- The rest of readFrame behind the header.
  unfoldable pub checked : ℕ → ℕ → List ℕ → FrameRead
  checked n want bs = if n == 0 || ltb max_frame n then torn_tail else elim (split_at n bs) [
    | none ↦ torn_tail
    | some (p, rest) ↦ if checksum p == want then got p rest else torn_tail
  ]

  unfoldable pub read_frame : List ℕ → FrameRead
  read_frame [] = end_of_file
  read_frame (b ∷ bs) = elim (header (b ∷ bs)) [
    | none ↦ torn_tail
    | some ((n, want), rest) ↦ checked n want rest
  ]

  module _ (name : Key → ℕ) where
    unfoldable pub named_write : KeyedWrite → AppliedWrite
    named_write w = record {
      key = name w.key;
      value = w.value;
      version = w.version;
      epoch_seen = w.epoch_seen;
    }

    unfoldable pub named_delete : KeyedDelete → Deletion
    named_delete d = record { key = name d.key; epoch = d.epoch }

    unfoldable pub named : KeyedEntry → Entry
    unfolding named_write named_delete
    named e = record { writes = map named_write e.writes; deletes = map named_delete e.deletes }

    -- One frame takes eight bytes at least, so as many rounds as there are bytes are enough.
    unfoldable pub replay_bytes : ℕ → ℕ → Index → ℕ → List ℕ → Replayed
    replay_bytes zero v s offset bs = out_of_fuel
    replay_bytes (suc fuel) v s offset bs = elim (read_frame bs) [
      | end_of_file ↦ replayed s offset
      | torn_tail ↦ replayed s offset
      | got p rest ↦ elim (decode p v) [
        | none ↦ unreadable
        | some e ↦ replay_bytes fuel v (apply s (named e)) (offset + 8 + length p) rest
      ]
    ]

    -- The frames behind the header, with the version that it gives.
    unfoldable pub replay_body : List ℕ → Replayed
    replay_body [] = unreadable
    replay_body (a ∷ []) = unreadable
    replay_body (a ∷ b ∷ frames) =
        if (a * 256 + b == 2) || (a * 256 + b == 1)
        then replay_bytes (length frames + 1) (a * 256 + b) empty_index 10 frames
        else unreadable

    -- The bytes of a file, or of the header that a new file is given.
    unfoldable pub replay_file : List ℕ → Replayed
    replay_file [] = replayed empty_index 10
    replay_file (b ∷ bs) = elim (split_at 8 (b ∷ bs)) [
      | none ↦ unreadable
      | some (start, body) ↦ if same_bytes start magic then replay_body body else unreadable
    ]
