-- ===== src/Stores/Invariant.antt =====
-- The invariant of the stores, and the removal of a map from every store that knows it.
use preload_ng.Prelude.{
  ℕ, ◌≡◌, refl, ◌≢◌, inl, inr, ite, Bool, true, false, none, some, arith, ◌==◌, if◌then◌else◌,
  Option-cases,
}
use preload_ng.Domain.{MapKey, MapKey-discrete}
use preload_ng.Stores.Keyed.{value_at}
use preload_ng.Stores.ExeStore
use preload_ng.Stores.ExeStore.Index as ExeIndex
use preload_ng.Stores.MapStore
use preload_ng.Stores.MapStore.Index as MapIndex
use preload_ng.Stores.ExeMapIndex.Related
use preload_ng.Stores.ExeMapIndex.Related.{related, IsConsistent}
use preload_ng.Stores.MarkovGraph.Index as Graph
use preload_ng.Stores.ActiveSet.Window
use preload_ng.Stores.Model.{Env, EnvLaws, Stores, remove_map_by_key}

module _ {env : Env} where
  -- Each store is right in itself, and what the relation of exes and maps names is there.
  pub record IsValid (st : Stores env) : Type 0 where
    pub exes : ExeIndex.IsIndexed st.exes
    pub maps : MapIndex.IsIndexed st.maps
    pub exe_maps : IsConsistent st.exe_maps
    pub markov : Graph.IsValid st.markov
    pub active : Window.IsMap st.active
    pub exe_known : (e m : ℕ) → related st.exe_maps e m ≡ true → ExeStore.get st.exes e ≢ none
    pub map_known : (e m : ℕ) → related st.exe_maps e m ≡ true → MapStore.get st.maps m ≢ none

  -- The map with this id is the one that is known by the key.
  pub has_id : Stores env → MapKey → ℕ → Bool
  has_id st key m = elim (MapStore.id_by_key st.maps key) [ none ↦ false | some id ↦ id == m ]

  module _ (laws : EnvLaws env) (st : Stores env) (v : IsValid st) where
    open laws use {exe_laws, map_laws}

    -- `remove_map_by_key` keeps the invariant.
    pub remove_map_by_key-IsValid : (key : MapKey) → IsValid (remove_map_by_key st key)
    unfolding remove_map_by_key
    remove_map_by_key-IsValid key = elim (Option-cases (MapStore.id_by_key st.maps key)) [
      | inl absent ↦ rw (absent, remove_map_by_key) v
      | inr (id, known) ↦
          let (consistent, left) = Related.detach_map-related st.exe_maps id v.exe_maps in
          rw (known, remove_map_by_key)
            (record {
              exes = v.exes;
              maps = MapIndex.remove-IsIndexed map_laws st.maps v.maps id;
              exe_maps = consistent;
              markov = v.markov;
              active = v.active;
              exe_known = λ e m h. ground (arith, left e m, v.exe_known e m);
              map_known = λ e m h.
                  ground
                    (arith, left e m, v.map_known e m, MapIndex.get-remove map_laws st.maps id m);
            })
    ]

    -- `remove_map_by_key` forgets the segment with the key and its relation to every exe, and
    -- changes no other segment, no other relation and no other store.
    pub remove_map_by_key_lem :
        (key : MapKey)
        → ((k : MapKey)
            → MapIndex.segment_at (remove_map_by_key st key).maps k
              ≡ ite (MapKey-discrete key k) none (MapIndex.segment_at st.maps k))
          × ((e m : ℕ)
              → related (remove_map_by_key st key).exe_maps e m
                ≡ (if has_id st key m then false else related st.exe_maps e m))
          × ((remove_map_by_key st key).exes ≡ st.exes)
          × ((remove_map_by_key st key).markov ≡ st.markov)
    unfolding remove_map_by_key has_id MapStore.id_by_key value_at
    remove_map_by_key_lem key = elim (Option-cases (MapStore.id_by_key st.maps key)) [
      | inl absent ↦
          rw (absent, remove_map_by_key) ((λ k. ground arith), (λ e m. ground arith), refl, refl)
      | inr (id, known) ↦
          let (consistent, left) = Related.detach_map-related st.exe_maps id v.exe_maps in
          rw (known, remove_map_by_key)
            (
              (λ k. MapIndex.segment_at-remove map_laws st.maps v.maps id key k known),
              (λ e m. ground (arith, left e m)),
              refl,
              refl,
            )
    ]
