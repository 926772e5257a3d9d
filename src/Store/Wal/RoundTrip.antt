-- ===== src/Store/Wal/RoundTrip.antt =====
-- What the cursor of pkg/store/wal/format.go reads back from what encode has appended.
use mathlib.Core.List.{append-nil}
use canal.Prelude.{
  ℕ, ◌^◌, ◌≤◌, ◌<◌, ◌≡◌, refl, true, some, List, [], ◌∷◌, ◌++◌, leb, length, length-append, All,
  arith,
}
use canal.Store.Key.{Key}
use canal.Store.Wal.Format.{
  KeyedWrite, KeyedDelete, KeyedEntry, append_uvarint, append_bytes, append_all, append_key,
  append_write, append_delete, payload, Read, u8, read_uvarint, read_bytes, repeat, read_key,
  read_write, read_epoch, read_delete, check_that, read_entry, decode,
}
use canal.Store.Wal.Reading.{
  >>=-Reads, Reads, read_uvarint-Reads, read_bytes-Reads, pure-Reads, fits-Reads, check_that-Reads,
  repeat-Reads, append_all-length, append_bytes-length,
}

-- Lengths and numbers that a uint64 holds.
abbrev pub IsU64 : ℕ → Type 0
IsU64 n = n < 2 ^ 64

abbrev pub IsText : List ℕ → Type 0
IsText v = IsU64 (length v)

abbrev pub FitsKey : Key → Type 0
FitsKey k = IsText k.tenant × IsText k.space × IsU64 (length k.parts) × All IsText k.parts

every_part-Reads :
    (parts : List (List ℕ))
    → All IsText parts
    → All (λ a. Reads read_bytes a (append_bytes a)) parts
every_part-Reads [] h = tt
every_part-Reads (p ∷ parts) h = (read_bytes-Reads p h.0, every_part-Reads parts h.1)

read_key-Reads : (k : Key) → FitsKey k → Reads read_key k (append_key k)
unfolding read_key append_key
read_key-Reads k (tenant, space, count, parts) =
    >>=-Reads read_bytes _ k.tenant k _ _ (read_bytes-Reads k.tenant tenant) (
      >>=-Reads read_bytes _ k.space k _ _ (read_bytes-Reads k.space space) (
        >>=-Reads read_uvarint _ (length k.parts) k _ _ (read_uvarint-Reads (length k.parts) count)
          (fits-Reads (length k.parts) _ k _
            (append_all-length append_bytes k.parts append_bytes-length)
            (pure-Reads (λ parts. record { tenant = k.tenant; space = k.space; parts = parts })
              (repeat (length k.parts) read_bytes) k.parts _
              (repeat-Reads append_bytes read_bytes k.parts (every_part-Reads k.parts parts))))))

abbrev pub FitsWrite : KeyedWrite → Type 0
FitsWrite w = FitsKey w.key × IsText w.value × IsU64 w.version × IsU64 w.epoch_seen

abbrev pub FitsDelete : KeyedDelete → Type 0
FitsDelete d = FitsKey d.key × IsU64 d.epoch

read_write-Reads : (w : KeyedWrite) → FitsWrite w → Reads read_write w (append_write w)
unfolding read_write append_write
read_write-Reads w (key, value, version, epoch) =
    >>=-Reads read_key _ w.key w _ _ (read_key-Reads w.key key) (
      >>=-Reads read_bytes _ w.value w _ _ (read_bytes-Reads w.value value) (
        >>=-Reads read_uvarint _ w.version w _ _ (read_uvarint-Reads w.version version) (
          pure-Reads
            (λ e. record { key = w.key; value = w.value; version = w.version; epoch_seen = e })
            read_uvarint w.epoch_seen _ (read_uvarint-Reads w.epoch_seen epoch))))

read_delete-Reads : (d : KeyedDelete) → FitsDelete d → Reads (read_delete 2) d (append_delete d)
unfolding read_delete append_delete read_epoch
read_delete-Reads d (key, epoch) = >>=-Reads read_key _ d.key d _ _ (read_key-Reads d.key key) (
    pure-Reads (λ e. record { key = d.key; epoch = e }) read_uvarint d.epoch _
      (read_uvarint-Reads d.epoch epoch))

-- An entry that the format can express: 64-bit numbers and lengths.
pub record FitsEntry (e : KeyedEntry) : Type 0 where
  pub writes_count : IsU64 (length e.writes)
  pub deletes_count : IsU64 (length e.deletes)
  pub writes : All FitsWrite e.writes
  pub deletes : All FitsDelete e.deletes

module _ {A : Type 0} (f : A → List ℕ) (r : Read A) (Fits : A → Type 0) where
  All-Reads :
      ((a : A) → Fits a → Reads r a (f a))
      → (items : List A) → All Fits items
      → All (λ a. Reads r a (f a)) items
  All-Reads h [] k = tt
  All-Reads h (a ∷ items) k = (h a k.0, All-Reads h items k.1)

append_key-length : (k : Key) → 1 ≤ length (append_key k)
unfolding append_key
append_key-length k = omega (
  arith,
  length-append (append_bytes k.tenant) (
      append_bytes k.space ++ (append_uvarint (length k.parts) ++ append_all append_bytes k.parts)),
  append_bytes-length k.tenant,
)

append_write-length : (w : KeyedWrite) → 1 ≤ length (append_write w)
unfolding append_write
append_write-length w = omega (
  arith,
  length-append (append_key w.key)
      (append_bytes w.value ++ (append_uvarint w.version ++ append_uvarint w.epoch_seen)),
  append_key-length w.key,
)

append_delete-length : (d : KeyedDelete) → 1 ≤ length (append_delete d)
unfolding append_delete
append_delete-length d =
    omega
      (arith, length-append (append_key d.key) (append_uvarint d.epoch), append_key-length d.key)

-- The counts do not exceed the size of the payload.
payload-counts :
    (e : KeyedEntry)
    → (length e.writes ≤ length (payload e)) × (length e.deletes ≤ length (payload e))
unfolding payload
payload-counts e =
    let ds = append_all append_delete e.deletes in
    let ws = append_all append_write e.writes in
    let tail = append_uvarint (length e.deletes) ++ ds in
    omega (
      arith,
      append_all-length append_write e.writes append_write-length,
      append_all-length append_delete e.deletes append_delete-length,
      length-append (append_uvarint (length e.writes)) (ws ++ tail),
      length-append ws tail,
      length-append (append_uvarint (length e.deletes)) ds,
    )

read_entry-Reads :
    (e : KeyedEntry) (size : ℕ)
    → FitsEntry e
    → length e.writes ≤ size
    → length e.deletes ≤ size
    → Reads (read_entry 2 size) e (payload e)
unfolding read_entry payload u8 check_that
read_entry-Reads e size fit ws ds rest =
    let ws_ok : leb (length e.writes) size ≡ true = ground arith in
    let ds_ok : leb (length e.deletes) size ≡ true = ground arith in
    >>=-Reads read_uvarint _ (length e.writes) e (append_uvarint (length e.writes)) _
      (read_uvarint-Reads (length e.writes) fit.writes_count)
      (check_that-Reads (leb (length e.writes) size) _ e _ ws_ok (
        >>=-Reads (repeat (length e.writes) read_write) _ e.writes e _ _
          (repeat-Reads append_write read_write e.writes
            (All-Reads append_write read_write FitsWrite read_write-Reads e.writes fit.writes))
          (>>=-Reads read_uvarint _ (length e.deletes) e _ _
            (read_uvarint-Reads (length e.deletes) fit.deletes_count)
            (check_that-Reads (leb (length e.deletes) size) _ e _ ds_ok (
              pure-Reads (λ ds. record { writes = e.writes; deletes = ds })
                (repeat (length e.deletes) (read_delete 2)) e.deletes _
                (repeat-Reads append_delete (read_delete 2) e.deletes (
                  All-Reads append_delete (read_delete 2) FitsDelete read_delete-Reads e.deletes
                    fit.deletes)))))))
      rest

-- decode reads back, as version 2, the entry whose payload encode has written, if its numbers and
-- lengths fit 64 bits.
pub decode-payload : (e : KeyedEntry) → FitsEntry e → decode (payload e) 2 ≡ some e
unfolding decode
decode-payload e fit =
    let counts = payload-counts e in
    let whole = read_entry-Reads e (length (payload e)) fit counts.0 counts.1 [] in
    rw (rw (append-nil (payload e)) at whole, decode) refl
