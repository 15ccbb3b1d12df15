-- ===== src/Stores/MapStore.antt =====
-- crates/orchestrator/src/stores/map_store.rs: the known file segments, in a slot map by id and in
-- a hash map from their key to the id.
pub mod Index
use preload_ng.Prelude.{ℕ, ◌≡◌, Bool, true, false, Option, none, some, List, []}
use preload_ng.Prelude.HashMap as Map
use preload_ng.Prelude.HashMap.{HashMap}
use preload_ng.Domain.{MapKey, MapKey-discrete, MapSegment, segment_key}
use preload_ng.SlotMap.{SlotMap}

pub record MapStore (s : SlotMap MapSegment) : Type 0 where
  pub maps : s.Slots
  pub by_key : HashMap MapKey ℕ

module _ {s : SlotMap MapSegment} where
  abbrev pub empty : MapStore s
  empty = record { maps = s.empty; by_key = [] }

  unfoldable pub ensure_with_flag : MapStore s → MapSegment → (ℕ × Bool) × MapStore s
  ensure_with_flag st segment = elim (Map.get MapKey-discrete st.by_key (segment_key segment)) [
    | some id ↦ ((id, false), st)
    | none ↦
        let (id, maps) = s.insert st.maps segment in
        (
          (id, true),
          record {
            maps = maps;
            by_key = Map.insert MapKey-discrete st.by_key (segment_key segment) id;
          },
        )
  ]

  unfoldable pub ensure : MapStore s → MapSegment → ℕ × MapStore s
  unfolding ensure_with_flag
  ensure st segment = let ((id, _), st') = ensure_with_flag st segment in (id, st')

  unfoldable pub get : MapStore s → ℕ → Option MapSegment
  get st id = s.get st.maps id

  unfoldable pub id_by_key : MapStore s → MapKey → Option ℕ
  id_by_key st key = Map.get MapKey-discrete st.by_key key

  unfoldable pub remove : MapStore s → ℕ → Bool × MapStore s
  remove st id =
      let (removed, maps) = s.remove st.maps id in
      elim removed [
        | some segment ↦ (
          true,
          record {
            maps = maps;
            by_key = Map.remove MapKey-discrete st.by_key (segment_key segment);
          },
        )
        | none ↦ (false, record st { maps = maps })
      ]

  unfoldable pub iter : MapStore s → List (ℕ × MapSegment)
  iter st = s.iter st.maps
