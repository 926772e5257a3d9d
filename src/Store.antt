-- ===== src/Store.antt =====
-- pkg/store/key.go: the contract of a state store, and the checks that its two implementations share.
-- A key is only compared, by the string it is encoded as, so a number stands for both.
pub mod Memory
pub mod Wal
pub mod Key
pub mod Floors
pub mod Agreement
pub mod Calls
pub mod Equivalence
pub mod Rising
pub mod Fencing
mod Tests
use canal.Prelude.{
  ℕ, Bool, true, false, Option, none, some, List, [], ◌∷◌, ltb, ◌==◌, if◌then◌else◌, add64,
}
use canal.Prelude.Assoc.{lookup, insert}

pub record Versioned : Type 0 where
  pub key : ℕ
  pub value : List ℕ
  pub if_version : ℕ
  pub version : ℕ
  pub epoch : ℕ

pub record Deletion : Type 0 where
  pub key : ℕ
  pub epoch : ℕ

-- `writes` is a Go map from the name of a key.
pub record Batch : Type 0 where
  pub epoch : ℕ
  pub writes : List (ℕ × Versioned)
  pub deletes : List Deletion

unfoldable pub epoch_for : Batch → Versioned → ℕ
epoch_for b v = if v.epoch == 0 then b.epoch else v.epoch

unfoldable pub epoch_for_delete : Batch → Deletion → ℕ
epoch_for_delete b d = if d.epoch == 0 then b.epoch else d.epoch

unfoldable pub put_fenced : Batch → ℕ → List ℕ → ℕ → ℕ → Batch
put_fenced b k value if_version epoch = record b {
  writes =
      insert k
        (record { key = k; value = value; if_version = if_version; version = 0; epoch = epoch })
        b.writes;
}

unfoldable pub put : Batch → ℕ → List ℕ → ℕ → Batch
unfolding put_fenced
put b k value if_version = put_fenced b k value if_version 0

pub data Refusal : Type 0 where
  store_closed fenced conflict unknown not_compacted : Refusal

abbrev pub or_zero : Option ℕ → ℕ
or_zero none = 0
or_zero (some n) = n

-- epochs[name], 0 where that is missing.
unfoldable pub floor : ℕ → List (ℕ × ℕ) → ℕ
floor name epochs = or_zero (lookup name epochs)

unfoldable pub raise : ℕ → ℕ → List (ℕ × ℕ) → List (ℕ × ℕ)
unfolding floor
raise name epoch epochs = if ltb (floor name epochs) epoch then insert name epoch epochs else epochs

unfoldable pub is_below : ℕ → ℕ → List (ℕ × ℕ) → Bool
is_below epoch name epochs = elim (lookup name epochs) [ none ↦ false | some seen ↦ ltb epoch seen ]

unfoldable pub version_of : ℕ → List (ℕ × Versioned) → ℕ
version_of name held = elim (lookup name held) [ none ↦ 0 | some v ↦ v.version ]

-- One write of the first loop of Set.
unfoldable pub check_write :
    Batch → List (ℕ × Versioned) → List (ℕ × ℕ) → ℕ → Versioned → Option Refusal
unfolding epoch_for is_below
check_write b held epochs name v =
    if is_below (epoch_for b v) name epochs then some fenced else elim (lookup name held) [
      | none ↦ if v.if_version == 0 then none else some conflict
      | some cur ↦
          if v.if_version == 0
          then some conflict
          else if cur.version == v.if_version
          then none
          else some conflict
    ]

abbrev pub or_later : Option Refusal → Option Refusal → Option Refusal
or_later none later = later
or_later (some r) later = some r

unfoldable pub check_writes :
    Batch → List (ℕ × Versioned) → List (ℕ × ℕ) → List (ℕ × Versioned) → Option Refusal
unfolding check_write
check_writes b held epochs [] = none
check_writes b held epochs ((name, v) ∷ rest) =
    or_later (check_write b held epochs name v) (check_writes b held epochs rest)

unfoldable pub check_deletes : Batch → List (ℕ × ℕ) → List Deletion → Option Refusal
unfolding epoch_for_delete is_below
check_deletes b epochs [] = none
check_deletes b epochs (d ∷ rest) =
    let later = check_deletes b epochs rest in
    if is_below (epoch_for_delete b d) d.key epochs then some fenced else later

-- What Set refuses before it changes anything.
unfoldable pub check : Batch → List (ℕ × Versioned) → List (ℕ × ℕ) → Option Refusal
unfolding check_writes check_deletes
check b held epochs =
    or_later (check_writes b held epochs b.writes) (check_deletes b epochs b.deletes)
