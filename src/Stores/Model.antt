-- ===== src/Stores/Model.antt =====
-- crates/orchestrator/src/stores/mod.rs: `Stores`, the whole in-memory model, over the crates that
-- it is built on.
use preload_ng.Prelude.{ℕ, Bool, none, some}
use preload_ng.Prelude.HashMap.{HashSet}
use preload_ng.Domain.{Exe, ExeKey, MapKey, MapSegment, MarkovState}
use preload_ng.Floats.{Floats}
use preload_ng.SlotMap.{SlotMap, SlotMapLaws}
use preload_ng.Stores.ExeStore
use preload_ng.Stores.ExeStore.{ExeStore}
use preload_ng.Stores.MapStore
use preload_ng.Stores.MapStore.{MapStore}
use preload_ng.Stores.ExeMapIndex
use preload_ng.Stores.ExeMapIndex.{ExeMapIndex}
use preload_ng.Stores.MarkovGraph
use preload_ng.Stores.MarkovGraph.{MarkovGraph}
use preload_ng.Stores.ActiveSet
use preload_ng.Stores.ActiveSet.{ActiveSet}

-- The code outside the repository that the stores use.
pub record Env : Type 1 where
  pub floats : Floats
  pub exe_slots : SlotMap Exe
  pub map_slots : SlotMap MapSegment

pub record EnvLaws (env : Env) : Type 0 where
  pub exe_laws : SlotMapLaws env.exe_slots
  pub map_laws : SlotMapLaws env.map_slots

pub record Stores (env : Env) : Type 0 where
  pub exes : ExeStore env.exe_slots
  pub maps : MapStore env.map_slots
  pub exe_maps : ExeMapIndex
  pub markov : MarkovGraph env.floats
  pub active : ActiveSet
  pub model_time : ℕ
  pub last_accounting_time : ℕ

module _ {env : Env} where
  -- `Stores::default()`.
  abbrev pub empty_stores : Stores env
  empty_stores = record {
    exes = ExeStore.empty;
    maps = MapStore.empty;
    exe_maps = ExeMapIndex.empty;
    markov = MarkovGraph.empty;
    active = ActiveSet.empty;
    model_time = 0;
    last_accounting_time = 0;
  }

  unfoldable pub ensure_exe : Stores env → ExeKey → ℕ × Stores env
  ensure_exe st key =
      let (id, exes) = ExeStore.ensure st.exes key in (id, record st { exes = exes })

  unfoldable pub ensure_map_with_flag : Stores env → MapSegment → (ℕ × Bool) × Stores env
  ensure_map_with_flag st segment =
      let (r, maps) = MapStore.ensure_with_flag st.maps segment in (r, record st { maps = maps })

  unfoldable pub ensure_map : Stores env → MapSegment → ℕ × Stores env
  ensure_map st segment =
      let (id, maps) = MapStore.ensure st.maps segment in (id, record st { maps = maps })

  unfoldable pub attach_map : Stores env → ℕ → ℕ → Stores env
  attach_map st exe_id map_id = record st {
    exe_maps = ExeMapIndex.attach st.exe_maps exe_id map_id;
  }

  unfoldable pub ensure_markov_edge : Stores env → ℕ → ℕ → ℕ → MarkovState → Bool × Stores env
  ensure_markov_edge st a b now state =
      let (is_new, markov) = MarkovGraph.ensure_edge st.markov a b now state in
      (is_new, record st { markov = markov })

  unfoldable pub remove_map_by_key : Stores env → MapKey → Stores env
  remove_map_by_key st key = elim (MapStore.id_by_key st.maps key) [
    | none ↦ st
    | some id ↦ record st {
      exe_maps = ExeMapIndex.detach_map st.exe_maps id;
      maps = (MapStore.remove st.maps id).1;
    }
  ]

  unfoldable pub active_exes : Stores env → HashSet ℕ
  active_exes st = ActiveSet.exes st.active
