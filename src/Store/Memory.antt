-- ===== src/Store/Memory.antt =====
-- internal/example/memstore/store.go: the state store in memory.
use canal.Prelude.{ℕ, Option, none, some, List, [], ◌∷◌, add64}
use canal.Prelude.Assoc.{lookup, insert, remove}
use canal.Store.{
  Versioned, Deletion, Batch, epoch_for, epoch_for_delete, Refusal, raise, version_of, check,
}

-- `held` is the field data.
pub record Memory : Type 0 where
  pub held : List (ℕ × Versioned)
  pub epochs : List (ℕ × ℕ)

unfoldable pub new_memory : Memory
new_memory = record { held = []; epochs = [] }

unfoldable pub write_all : Batch → Memory → List (ℕ × Versioned) → Memory
unfolding epoch_for raise version_of
write_all b s [] = s
write_all b s ((name, v) ∷ rest) =
    write_all b
      (record {
        held = insert name (record v { version = add64 (version_of name s.held) 1 }) s.held;
        epochs = raise name (epoch_for b v) s.epochs;
      })
      rest

unfoldable pub delete_all : Batch → Memory → List Deletion → Memory
unfolding epoch_for_delete raise
delete_all b s [] = s
delete_all b s (d ∷ rest) =
    delete_all b
      (record { held = remove d.key s.held; epochs = raise d.key (epoch_for_delete b d) s.epochs })
      rest

unfoldable pub set : Memory → Batch → Memory × Option Refusal
unfolding check write_all delete_all
set s b = elim (check b s.held s.epochs) [
  | some r ↦ (s, some r)
  | none ↦ (delete_all b (write_all b s b.writes) b.deletes, none)
]

unfoldable pub delete : Memory → List ℕ → Memory
delete s [] = s
delete s (k ∷ ks) = delete (record s { held = remove k s.held }) ks

unfoldable pub get : Memory → ℕ → Option Versioned
get s k = lookup k s.held
