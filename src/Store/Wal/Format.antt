-- ===== src/Store/Wal/Format.antt =====
-- pkg/store/wal/format.go: the bytes of an entry, of a frame, and of a log. A byte is a number below
-- 256. encoding/binary and io.ReadFull are the standard library's; CRC-32 is a parameter.
use canal.Prelude.{
  ℕ, zero, suc, ◌+◌, ◌-◌, ◌*◌, ◌/◌, ◌%◌, Bool, Option, none, some, List, [], ◌∷◌, ◌++◌, ltb, leb,
  ◌==◌, if◌then◌else◌, length,
}
use canal.Store.Key.{Key}

pub record KeyedWrite : Type 0 where
  pub key : Key
  pub value : List ℕ
  pub version : ℕ
  pub epoch_seen : ℕ

pub record KeyedDelete : Type 0 where
  pub key : Key
  pub epoch : ℕ

pub record KeyedEntry : Type 0 where
  pub writes : List KeyedWrite
  pub deletes : List KeyedDelete

abbrev pub format_version : ℕ
format_version = 2

-- binary.AppendUvarint: seven bits to a byte, the lowest first. Ten bytes hold 64 bits, so nine are
-- left after the first.
unfoldable pub uvarint : ℕ → ℕ → List ℕ
uvarint zero v = v ∷ []
uvarint (suc left) v =
    let higher = uvarint left (v / 128) in if ltb v 128 then v ∷ [] else (v % 128 + 128) ∷ higher

unfoldable pub append_uvarint : ℕ → List ℕ
append_uvarint v = uvarint 9 v

unfoldable pub append_bytes : List ℕ → List ℕ
append_bytes v = append_uvarint (length v) ++ v

-- The parts of a loop that appends one after the other.
unfoldable pub append_all {ℓ} : {A : Type ℓ} → (A → List ℕ) → List A → List ℕ
append_all f [] = []
append_all f (a ∷ more) = f a ++ append_all f more

unfoldable pub append_key : Key → List ℕ
append_key k =
    append_bytes k.tenant
    ++ (append_bytes k.space
        ++ (append_uvarint (length k.parts) ++ append_all append_bytes k.parts))

unfoldable pub append_write : KeyedWrite → List ℕ
append_write w =
    append_key w.key
    ++ (append_bytes w.value ++ (append_uvarint w.version ++ append_uvarint w.epoch_seen))

unfoldable pub append_delete : KeyedDelete → List ℕ
append_delete d = append_key d.key ++ append_uvarint d.epoch

unfoldable pub payload : KeyedEntry → List ℕ
payload e =
    1
    ∷ (append_uvarint (length e.writes)
        ++ (append_all append_write e.writes
            ++ (append_uvarint (length e.deletes) ++ append_all append_delete e.deletes)))

-- A read through the cursor: the value and the bytes behind it. Once a read has failed, the cursor
-- gives zeros and decode an error, so a failure ends the reading.
abbrev pub Read : Type 0 → Type 0
Read A = List ℕ → Option (A × List ℕ)

infixl 5 ◌>>=◌
abbrev pub ◌>>=◌ : {A B : Type 0} → Read A → (A → Read B) → Read B
◌>>=◌ r f bs = elim (r bs) [ none ↦ none | some (a, rest) ↦ f a rest ]

abbrev pub pure : {A : Type 0} → A → Read A
pure a bs = some (a, bs)

unfoldable pub u8 : Read ℕ
u8 [] = none
u8 (b ∷ bs) = some (b, bs)

abbrev pub higher_bits : ℕ → Option (ℕ × List ℕ) → Option (ℕ × List ℕ)
higher_bits b none = none
higher_bits b (some (v, rest)) = some (b - 128 + 128 * v, rest)

-- binary.Uvarint: the tenth byte holds one bit only.
unfoldable pub get_uvarint : ℕ → Read ℕ
get_uvarint left [] = none
get_uvarint zero (b ∷ bs) = if ltb 1 b then none else some (b, bs)
get_uvarint (suc left) (b ∷ bs) =
    let higher = higher_bits b (get_uvarint left bs) in if ltb b 128 then some (b, bs) else higher

unfoldable pub read_uvarint : Read ℕ
read_uvarint = get_uvarint 9

-- The next n bytes, none if there are fewer.
unfoldable pub split_at : ℕ → Read (List ℕ)
split_at zero bs = some ([], bs)
split_at (suc n) [] = none
split_at (suc n) (b ∷ bs) = elim (split_at n bs) [
  | none ↦ none
  | some (v, rest) ↦ some (b ∷ v, rest)
]

unfoldable pub read_bytes : Read (List ℕ)
read_bytes = do n ← read_uvarint; split_at n

unfoldable pub repeat : {A : Type 0} → ℕ → Read A → Read (List A)
repeat zero r = pure []
repeat (suc n) r = do a ← r; more ← repeat n r; pure (a ∷ more)

-- n > uint64(len(c.b)-c.i)
unfoldable pub fits : ℕ → Read (Unit {0})
fits n bs = if ltb (length bs) n then none else some (tt, bs)

infixl 5 ◌>>◌
abbrev pub ◌>>◌ : {B : Type 0} → Read (Unit {0}) → Read B → Read B
r >> s = r >>= λ _. s

unfoldable pub read_key : Read Key
read_key = do
  tenant ← read_bytes
  space ← read_bytes
  n ← read_uvarint
  fits n
  parts ← repeat n read_bytes
  pure (record { tenant = tenant; space = space; parts = parts })

unfoldable pub read_write : Read KeyedWrite
read_write = do
  key ← read_key
  value ← read_bytes
  version ← read_uvarint
  epoch ← read_uvarint
  pure (record { key = key; value = value; version = version; epoch_seen = epoch })

unfoldable pub read_epoch : ℕ → Read ℕ
read_epoch v = if leb format_version v then read_uvarint else pure 0

unfoldable pub read_delete : ℕ → Read KeyedDelete
read_delete v = do key ← read_key; epoch ← read_epoch v; pure (record { key = key; epoch = epoch })

-- A condition that decode checks.
unfoldable pub check_that : Bool → Read (Unit {0})
check_that ok bs = if ok then some (tt, bs) else none

unfoldable pub read_entry : ℕ → ℕ → Read KeyedEntry
read_entry v size = do
  op ← u8
  check_that (op == 1)
  writes ← read_uvarint
  check_that (leb writes size)
  ws ← repeat writes read_write
  deletes ← read_uvarint
  check_that (leb deletes size)
  ds ← repeat deletes (read_delete v)
  pure (record { writes = ws; deletes = ds })

-- What is left behind the last delete is not looked at.
unfoldable pub decode : List ℕ → ℕ → Option KeyedEntry
decode p v = elim (read_entry v (length p) p) [ none ↦ none | some (e, rest) ↦ some e ]
