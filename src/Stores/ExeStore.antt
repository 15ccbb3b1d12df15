-- ===== src/Stores/ExeStore.antt =====
-- crates/orchestrator/src/stores/exe_store.rs: the known exes, in a slot map by id and in a hash map
-- from their key to the id. A write through `get_mut` is `put`.
pub mod Index
use preload_ng.Prelude.{ℕ, ◌-◌, ◌/◌, ap, ite, Option, none, some, List, [], map, set}
use preload_ng.Prelude.HashMap as Map
use preload_ng.Prelude.HashMap.{HashMap}
use preload_ng.Domain.{ExeKey, ExeKey-discrete, Exe, new_exe}
use preload_ng.SlotMap.{SlotMap}

pub record ExeStore (s : SlotMap Exe) : Type 0 where
  pub exes : s.Slots
  pub by_key : HashMap ExeKey ℕ

module _ {s : SlotMap Exe} where
  abbrev pub empty : ExeStore s
  empty = record { exes = s.empty; by_key = [] }

  unfoldable pub ensure : ExeStore s → ExeKey → ℕ × ExeStore s
  ensure st key = elim (Map.get ExeKey-discrete st.by_key key) [
    | some id ↦ (id, st)
    | none ↦
        let (id, exes) = s.insert st.exes (new_exe key) in
        (id, record { exes = exes; by_key = Map.insert ExeKey-discrete st.by_key key id })
  ]

  unfoldable pub get : ExeStore s → ℕ → Option Exe
  get st id = s.get st.exes id

  unfoldable pub put : ExeStore s → ℕ → Exe → ExeStore s
  put st id exe = record st { exes = s.set st.exes id exe }

  unfoldable pub id_by_key : ExeStore s → ExeKey → Option ℕ
  id_by_key st key = Map.get ExeKey-discrete st.by_key key

  unfoldable pub iter : ExeStore s → List (ℕ × Exe)
  iter st = s.iter st.exes

  unfoldable pub keys : ExeStore s → List ExeKey
  keys st = Map.keys st.by_key
