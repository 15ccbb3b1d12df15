-- ===== src/Stores/Preserve.antt =====
-- The operations of `Stores` that add to it, and the invariant.
use preload_ng.Prelude.{ℕ, ◌≢◌, none, arith}
use preload_ng.Domain.{ExeKey, MapSegment, MarkovState}
use preload_ng.Stores.ExeStore
use preload_ng.Stores.ExeStore.Index as ExeIndex
use preload_ng.Stores.MapStore
use preload_ng.Stores.MapStore.Index as MapIndex
use preload_ng.Stores.ExeMapIndex.Related
use preload_ng.Stores.ExeMapIndex.Related.{related}
use preload_ng.Stores.MarkovGraph.Index as Graph
use preload_ng.Stores.Invariant.{IsValid}
use preload_ng.Stores.Model.{
  Env, EnvLaws, Stores, empty_stores, ensure_exe, ensure_map, ensure_map_with_flag, attach_map,
  ensure_markov_edge,
}

module _ {env : Env} (laws : EnvLaws env) where
  open laws use {exe_laws, map_laws}

  pub empty_stores-IsValid : IsValid (empty_stores {env = env})
  empty_stores-IsValid = record {
    exes = ExeIndex.empty-IsIndexed exe_laws;
    maps = MapIndex.empty-IsIndexed map_laws;
    exe_maps = Related.empty-IsConsistent;
    markov = Graph.empty-IsValid;
    active = tt;
    exe_known = λ e m h. cc (h, Related.related-empty e m);
    map_known = λ e m h. cc (h, Related.related-empty e m);
  }

  module _ (st : Stores env) (v : IsValid st) where
    pub ensure_exe-IsValid : (key : ExeKey) → IsValid (ensure_exe st key).1
    unfolding ensure_exe
    ensure_exe-IsValid key = record {
      exes = ExeIndex.ensure-IsIndexed exe_laws st.exes v.exes key;
      exe_known = λ e m h.
          ground (arith, v.exe_known e m h, ExeIndex.get-ensure exe_laws st.exes key e v.exes);
      maps = v.maps;
      exe_maps = v.exe_maps;
      markov = v.markov;
      active = v.active;
      map_known = v.map_known;
    }

    pub ensure_map_with_flag-IsValid :
        (segment : MapSegment) → IsValid (ensure_map_with_flag st segment).1
    unfolding ensure_map_with_flag
    ensure_map_with_flag-IsValid segment = record {
      maps = MapIndex.ensure_with_flag-IsIndexed map_laws st.maps v.maps segment;
      map_known = λ e m h. ground (
        arith,
        v.map_known e m h,
        MapIndex.get-ensure_with_flag map_laws st.maps segment m v.maps,
      );
      exes = v.exes;
      exe_maps = v.exe_maps;
      markov = v.markov;
      active = v.active;
      exe_known = v.exe_known;
    }

    pub ensure_map-IsValid : (segment : MapSegment) → IsValid (ensure_map st segment).1
    unfolding ensure_map ensure_map_with_flag MapStore.ensure
    ensure_map-IsValid segment = ensure_map_with_flag-IsValid segment

    pub attach_map-IsValid :
        (exe_id map_id : ℕ)
        → ExeStore.get st.exes exe_id ≢ none
        → MapStore.get st.maps map_id ≢ none
        → IsValid (attach_map st exe_id map_id)
    unfolding attach_map
    attach_map-IsValid exe_id map_id known_exe known_map =
        let (consistent, added) = Related.attach-related st.exe_maps exe_id map_id v.exe_maps in
        record {
          exe_maps = consistent;
          exe_known = λ e m h. ground (arith, added e m, v.exe_known e m, known_exe);
          map_known = λ e m h. ground (arith, known_map, added e m, v.map_known e m);
          exes = v.exes;
          maps = v.maps;
          markov = v.markov;
          active = v.active;
        }

    pub ensure_markov_edge-IsValid :
        (a b now : ℕ) (state : MarkovState) → IsValid (ensure_markov_edge st a b now state).1
    unfolding ensure_markov_edge
    ensure_markov_edge-IsValid a b now state = record {
      markov = Graph.ensure_edge-IsValid st.markov a b now state v.markov;
      exes = v.exes;
      maps = v.maps;
      exe_maps = v.exe_maps;
      active = v.active;
      exe_known = v.exe_known;
      map_known = v.map_known;
    }
