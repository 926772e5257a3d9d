-- ===== src/Store/Wal/Tests.antt =====
-- A log of two entries at concrete bytes, whole and cut; the checksum here is the length.
use canal.Prelude.{ℕ, ◌≡◌, ◌+◌, refl, List, [], ◌∷◌, ◌++◌, map, some, length, All, arith}
use canal.Store.Key.{Key}
use canal.Store.Wal.{replay}
use canal.Store.Wal.Format.{
  KeyedEntry, uvarint, append_uvarint, append_bytes, append_all, append_key, append_write,
  append_delete, payload, decode,
}
use canal.Store.Wal.Bytes.{magic, be32, encode, replayed, replay_file}
use canal.Store.Wal.RoundTrip.{FitsEntry, decode-payload}
use canal.Store.Wal.Framing.{FitsFrame}
use canal.Store.Wal.Torn.{log_of, Cut}
use canal.Store.Wal.Recovery.{frame_of, replay_file-log, replay_file-truncated}

abbrev key : Key
key = record { tenant = 116 ∷ []; space = 115 ∷ []; parts = (97 ∷ []) ∷ (98 ∷ []) ∷ [] }

abbrev first : KeyedEntry
first = record {
  writes = record { key = key; value = 7 ∷ 8 ∷ []; version = 300; epoch_seen = 2 } ∷ [];
  deletes = [];
}

abbrev second : KeyedEntry
second = record { writes = []; deletes = record { key = key; epoch = 3 } ∷ [] }

first-FitsEntry : FitsEntry first
first-FitsEntry = record {
  writes_count = omega arith;
  deletes_count = omega arith;
  writes = omega arith;
  deletes = tt;
}

second-FitsEntry : FitsEntry second
second-FitsEntry = record {
  writes_count = omega arith;
  deletes_count = omega arith;
  writes = tt;
  deletes = omega arith;
}

abbrev crc : List ℕ → ℕ
crc p = length p

-- One key only, so one number.
abbrev length_of_parts : Key → ℕ
length_of_parts k = length k.parts

first-FitsFrame : FitsFrame crc first
unfolding payload append_uvarint append_bytes append_all append_key append_write uvarint
first-FitsFrame = record { entry = first-FitsEntry; size = omega arith; crc = omega arith }

second-FitsFrame : FitsFrame crc second
unfolding payload append_uvarint append_bytes append_all append_key append_delete uvarint
second-FitsFrame = record { entry = second-FitsEntry; size = omega arith; crc = omega arith }

both : All (FitsFrame crc) (first ∷ second ∷ [])
both = (first-FitsFrame, (second-FitsFrame, tt))

first_payload :
    payload first
    ≡ 1 ∷ 1 ∷ 1 ∷ 116 ∷ 1 ∷ 115 ∷ 2 ∷ 1 ∷ 97 ∷ 1 ∷ 98 ∷ 2 ∷ 7 ∷ 8 ∷ 172 ∷ 2 ∷ 2 ∷ 0 ∷ []
unfolding payload append_uvarint append_bytes append_all append_key append_write uvarint
first_payload = refl

decode-payload_example : decode (payload first) 2 ≡ some first
decode-payload_example = decode-payload first first-FitsEntry

replay_file-log_example :
    replay_file crc length_of_parts (magic ++ 0 ∷ 2 ∷ log_of crc (first ∷ second ∷ []))
    ≡ replayed
        (replay (map (frame_of crc length_of_parts) (first ∷ second ∷ [])))
        (10 + length (log_of crc (first ∷ second ∷ [])))
replay_file-log_example = replay_file-log crc length_of_parts (first ∷ second ∷ []) both

-- The log without its last byte.
abbrev all_but_one : List ℕ → List ℕ
all_but_one [] = []
all_but_one (b ∷ []) = []
all_but_one (b ∷ c ∷ bs) = b ∷ all_but_one (c ∷ bs)

cut_bytes :
    all_but_one (log_of crc (first ∷ second ∷ [])) ++ 3 ∷ [] ≡ log_of crc (first ∷ second ∷ [])
unfolding encode be32 payload append_uvarint append_bytes append_all append_key append_write
    append_delete uvarint
cut_bytes = refl

replay_file-truncated_example :
    (c : Cut crc (first ∷ second ∷ []) (all_but_one (log_of crc (first ∷ second ∷ []))))
    × (replay_file crc length_of_parts
          (magic ++ 0 ∷ 2 ∷ all_but_one (log_of crc (first ∷ second ∷ [])))
        ≡ replayed
            (replay (map (frame_of crc length_of_parts) c.kept))
            (10 + length (log_of crc c.kept)))
replay_file-truncated_example =
    replay_file-truncated crc length_of_parts (first ∷ second ∷ [])
      (all_but_one (log_of crc (first ∷ second ∷ []))) 3 [] both cut_bytes
