-- ===== src/Persistence/RoundTrip.antt =====
-- A snapshot that is saved is the one that the next start loads.
use preload_ng.Prelude.{ℕ, ◌*◌, ◌/◌, ◌≡◌, refl, ap₂, false, List, [], ◌∷◌, map, All}
use preload_ng.Floats.{Floats}
use preload_ng.Error.{ok}
use preload_ng.Engine.Snapshot.{StoresSnapshot}
use mathlib.Core.List.{Permᴰ}
use preload_ng.Prefetch.Planner.Perm.{map-Permᴰ}
use preload_ng.Persistence.Tables.{
  Tables, ExeRow, MapRow, ExeMapRow, MarkovRow, Sqlx, SqlxLaws, fetch_all,
}
use preload_ng.Persistence.Rows.{
  Codec, as_i64, as_u64, markov_row, CodecLaws, nanos, map_option, state_row, exe_row, map_row,
  exe_map_row, exe_of_row, map_of_row, exe_map_of_row, markov_of_row,
}
use preload_ng.Persistence.Repo.{save_snapshot, fetch_optional, load_snapshot}
use preload_ng.Persistence.Casts.{as_u64-as_i64}
use preload_ng.Persistence.Inserts.{Each-Permᴰ, Each-back, decode_all-Each}
use preload_ng.Persistence.Storable.{
  IsExeStorable, IsMapStorable, IsExeMapStorable, IsMarkovStorable, IsStorable, exe_of_row-exe_row,
  map_of_row-map_row, exe_map_of_row-exe_map_row, markov_of_row-markov_row, meta_of_row-state_row,
}
use preload_ng.Persistence.Written.{tables_of, save_snapshot-ok}

-- The same state up to the order of the records; the time of creation keeps its whole seconds.
pub record IsSameSnapshot {fl : Floats} (got s : StoresSnapshot fl) : Type 0 where
  pub same_meta :
      got.meta
      ≡ record s.meta { created_at = map_option (λ t. t / nanos * nanos) s.meta.created_at }
  pub same_model_time : got.state.model_time ≡ s.state.model_time
  pub same_last_accounting_time : got.state.last_accounting_time ≡ s.state.last_accounting_time
  pub same_exes : Permᴰ got.state.exes s.state.exes
  pub same_maps : Permᴰ got.state.maps s.state.maps
  pub same_exe_maps : Permᴰ got.state.exe_maps s.state.exe_maps
  pub same_markov_edges : Permᴰ got.state.markov_edges s.state.markov_edges

map-back :
    {A B : Type 0} (f : A → B) (g : B → A) (P : A → Type 0)
    → ((a : A) → P a → g (f a) ≡ a)
    → (xs : List A) → All P xs
    → map g (map f xs) ≡ xs
map-back f g P back [] h = refl
map-back f g P back (a ∷ xs) (p, h) = ap₂ (λ b bs. b ∷ bs) (back a p) (map-back f g P back xs h)

module _ {fl : Floats} (codec : Codec fl) (sql : Sqlx) (never : (n : ℕ) → sql.fails n ≡ false)
    (order : SqlxLaws sql) where
  open codec use {F64}

  fetch_all-ok :
      {Row : Type 0} (n : ℕ) (rows : List Row)
      → fetch_all sql n rows ≡ ok (sql.select_order Row rows)
  unfolding fetch_all
  fetch_all-ok n rows = rw (never n) refl

  -- Rows that are read in any order and turned back.
  rows-back :
      {A Row : Type 0} (f : A → Row) (g : Row → A) (P : A → Type 0)
      → ((a : A) → P a → g (f a) ≡ a)
      → (xs : List A) → All P xs
      → Permᴰ (map g (sql.select_order Row (map f xs))) xs
  rows-back {Row = Row} f g P back xs h =
      rw (map-back f g P back xs h) at (map-Permᴰ g (order.select-perm Row (map f xs)))

  load-tables_of :
      CodecLaws codec
      → (s : StoresSnapshot fl) (h : IsStorable codec s)
      → (got : StoresSnapshot fl) × (load_snapshot codec sql (tables_of codec sql never s h)
          ≡ ok got)
        × IsSameSnapshot got s
  unfolding load_snapshot fetch_optional state_row
  load-tables_of laws s h =
      let t : Tables F64 = tables_of codec sql never s h in
      let (edges, each, perm) =
        Each-Permᴰ (markov_of_row codec) (order.select-perm MarkovRow t.markovs)
          s.state.markov_edges
          (Each-back (markov_row codec) (markov_of_row codec) IsMarkovStorable
            (markov_of_row-markov_row codec laws) s.state.markov_edges t.markovs
            h.markov_edges-IsMarkovStorable h.rows-Each) in
      let meta_back =
        meta_of_row-state_row codec laws s.meta s.state.model_time s.state.last_accounting_time
          h.meta-IsMetaStorable in
      let edges_back =
        decode_all-Each (markov_of_row codec) (sql.select_order MarkovRow t.markovs) edges each in
      (
        record {
          meta = record s.meta {
            created_at = map_option (λ t. t / nanos * nanos) s.meta.created_at;
          };
          state = record {
            model_time = as_u64 (as_i64 s.state.model_time);
            last_accounting_time = as_u64 (as_i64 s.state.last_accounting_time);
            exes = map (exe_of_row codec) (sql.select_order ExeRow t.exes);
            maps = map (map_of_row codec) (sql.select_order MapRow t.maps);
            exe_maps = map (exe_map_of_row codec) (sql.select_order (ExeMapRow F64) t.exe_maps);
            markov_edges = edges;
          };
        },
        rw
            (
              load_snapshot,
              never 0,
              meta_back,
              fetch_all-ok 1 t.exes,
              fetch_all-ok 2 t.maps,
              fetch_all-ok 3 t.exe_maps,
              fetch_all-ok 4 t.markovs,
              edges_back,
            )
            refl,
        record {
          same_meta = refl;
          same_model_time = as_u64-as_i64 s.state.model_time h.model_time-lt;
          same_last_accounting_time =
              as_u64-as_i64 s.state.last_accounting_time h.last_accounting_time-lt;
          same_exes =
              rows-back (exe_row codec) (exe_of_row codec) IsExeStorable (exe_of_row-exe_row codec)
                s.state.exes h.exes-IsExeStorable;
          same_maps =
              rows-back (map_row codec) (map_of_row codec) IsMapStorable (map_of_row-map_row codec)
                s.state.maps h.maps-IsMapStorable;
          same_exe_maps =
              rows-back (exe_map_row codec) (exe_map_of_row codec) IsExeMapStorable
                (exe_map_of_row-exe_map_row codec laws) s.state.exe_maps
                h.exe_maps-IsExeMapStorable;
          same_markov_edges = perm;
        },
      )

  -- If no statement fails, a snapshot whose paths are text, whose numbers have 64 bits and whose
  -- records have distinct primary keys is saved, and what is loaded then is that snapshot: every
  -- record with all its fields, in some order, and the time of creation in whole seconds.
  pub load_snapshot-save_snapshot :
      CodecLaws codec
      → (s : StoresSnapshot fl) → IsStorable codec s
      → (tables : Tables F64)
      → ((save_snapshot codec sql s tables).0 ≡ ok tt)
        × (got : StoresSnapshot fl) × (load_snapshot codec sql (save_snapshot codec sql s tables).1
            ≡ ok got)
        × IsSameSnapshot got s
  load_snapshot-save_snapshot laws s h tables =
      rw (save_snapshot-ok codec sql never s h tables)
        (let (got, loaded, same) = load-tables_of laws s h in (refl, got, loaded, same))
