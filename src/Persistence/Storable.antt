-- ===== src/Persistence/Storable.antt =====
-- The snapshots that crates/orchestrator/src/persistence/repo.rs stores without loss.
use preload_ng.Prelude.{ℕ, ◌*◌, ◌/◌, ◌^◌, ◌<◌, ◌≡◌, refl, Option, none, some, List, map, arith, All}
use preload_ng.Domain.{FilePath, utf8}
use preload_ng.Error.{ok, ◌>>=◌, bind-ok}
use preload_ng.Floats.{Floats}
use preload_ng.Prelude.Members.{NoRepeat}
use preload_ng.Engine.Snapshot.{
  SnapshotMeta, ExeRecord, MapRecord, ExeMapRecord, MarkovRecord, StoresSnapshot,
}
use preload_ng.Persistence.Tables.{
  Bytes, MarkovRow, Bytes-discrete, MapRowKey-discrete, ExeMapRowKey-discrete,
  MarkovRowKey-discrete,
}
use preload_ng.Persistence.Rows.{
  Codec, CodecLaws, map_option, nanos, text_of, state_row, exe_row, map_row, exe_map_row,
  markov_row, markov_fields, created_of, meta_of_row, exe_of_row, map_of_row, exe_map_of_row,
  markov_of_row,
}
use preload_ng.Persistence.Casts.{as_u64-as_i64, low_bits-pos, Below, map_option-casts}
use preload_ng.Persistence.Inserts.{Each}

-- The path is UTF-8.
abbrev pub IsText : FilePath → Type 0
IsText path = (s : Bytes) × (path ≡ utf8 s)

pub record IsExeStorable (r : ExeRecord) : Type 0 where
  pub path-IsText : IsText r.path
  pub total_running_time-lt : r.total_running_time < 2 ^ 64
  pub last_seen_time-lt : Below (2 ^ 64) r.last_seen_time

pub record IsMapStorable (r : MapRecord) : Type 0 where
  pub path-IsText : IsText r.path
  pub offset-lt : r.offset < 2 ^ 64
  pub length-lt : r.length < 2 ^ 64
  pub update_time-lt : r.update_time < 2 ^ 64

pub record IsExeMapStorable {fl : Floats} (r : ExeMapRecord fl) : Type 0 where
  pub exe_path-IsText : IsText r.exe_path
  pub path-IsText : IsText r.map_key.path
  pub offset-lt : r.map_key.offset < 2 ^ 64
  pub length-lt : r.map_key.length < 2 ^ 64

pub record IsMarkovStorable {fl : Floats} (r : MarkovRecord fl) : Type 0 where
  pub exe_a-IsText : IsText r.exe_a
  pub exe_b-IsText : IsText r.exe_b
  pub both_running_time-lt : r.both_running_time < 2 ^ 64

-- A SystemTime has whole seconds below 2 ^ 63.
pub record IsMetaStorable (m : SnapshotMeta) : Type 0 where
  pub schema_version-lt : m.schema_version < 2 ^ 32
  pub created_at-lt : Below (2 ^ 63 * nanos) m.created_at

-- Paths are text, numbers have 64 bits, every edge has a row, and no primary key stands twice.
pub record IsStorable {fl : Floats} (codec : Codec fl) (s : StoresSnapshot fl) : Type 0 where
  pub meta-IsMetaStorable : IsMetaStorable s.meta
  pub model_time-lt : s.state.model_time < 2 ^ 64
  pub last_accounting_time-lt : s.state.last_accounting_time < 2 ^ 64
  pub exes-IsExeStorable : All IsExeStorable s.state.exes
  pub maps-IsMapStorable : All IsMapStorable s.state.maps
  pub exe_maps-IsExeMapStorable : All IsExeMapStorable s.state.exe_maps
  pub markov_edges-IsMarkovStorable : All IsMarkovStorable s.state.markov_edges
  pub markov_rows : List MarkovRow
  pub rows-Each : Each (markov_row codec) s.state.markov_edges markov_rows
  pub exes-NoRepeat : NoRepeat Bytes-discrete (map (λ r. r.path) (map (exe_row codec) s.state.exes))
  pub maps-NoRepeat :
      NoRepeat MapRowKey-discrete (map (λ r. r.key) (map (map_row codec) s.state.maps))
  pub exe_maps-NoRepeat :
      NoRepeat ExeMapRowKey-discrete (map (λ r. r.key) (map (exe_map_row codec) s.state.exe_maps))
  pub markov_rows-NoRepeat : NoRepeat MarkovRowKey-discrete (map (λ r. r.key) markov_rows)

module _ {fl : Floats} (codec : Codec fl) where
  text_of_lem : (p : FilePath) → IsText p → utf8 (text_of codec p) ≡ p
  unfolding text_of
  text_of_lem p (s, e) = rw e refl

  pub exe_of_row-exe_row :
      (r : ExeRecord) → IsExeStorable r → exe_of_row codec (exe_row codec r) ≡ r
  unfolding exe_of_row exe_row
  exe_of_row-exe_row r h =
      rw
        (
          text_of_lem r.path h.path-IsText,
          as_u64-as_i64 r.total_running_time h.total_running_time-lt,
          map_option-casts r.last_seen_time h.last_seen_time-lt,
        )
        refl

  pub map_of_row-map_row :
      (r : MapRecord) → IsMapStorable r → map_of_row codec (map_row codec r) ≡ r
  unfolding map_of_row map_row
  map_of_row-map_row r h =
      rw
        (
          text_of_lem r.path h.path-IsText,
          as_u64-as_i64 r.offset h.offset-lt,
          as_u64-as_i64 r.length h.length-lt,
          as_u64-as_i64 r.update_time h.update_time-lt,
        )
        refl

  module _ (laws : CodecLaws codec) where
    pub exe_map_of_row-exe_map_row :
        (r : ExeMapRecord fl) → IsExeMapStorable r → exe_map_of_row codec (exe_map_row codec r) ≡ r
    unfolding exe_map_of_row exe_map_row
    exe_map_of_row-exe_map_row r h =
        rw
          (
            text_of_lem r.exe_path h.exe_path-IsText,
            text_of_lem r.map_key.path h.path-IsText,
            as_u64-as_i64 r.map_key.offset h.offset-lt,
            as_u64-as_i64 r.map_key.length h.length-lt,
            laws.of_f64-to_f64 r.prob,
          )
          refl

    -- The times of creation become whole seconds.
    created_of-print :
        (o : Option ℕ)
        → Below (2 ^ 63 * nanos) o
        → created_of codec (map_option (λ t. codec.print_u64 (t / nanos)) o)
          ≡ ok (map_option (λ t. t / nanos * nanos) o)
    unfolding created_of
    created_of-print none h = refl
    created_of-print (some t) h =
        let small : t / nanos < 2 ^ 63 = omega arith in
        rw (laws.parse-print (t / nanos) (omega (arith, small))) (ground (arith, small))

    pub markov_of_row-markov_row :
        (r : MarkovRecord fl) (row : MarkovRow)
        → IsMarkovStorable r
        → markov_row codec r ≡ ok row
        → markov_of_row codec row ≡ ok r
    unfolding markov_of_row markov_row
    markov_of_row-markov_row r row h made =
        let (ttl, ttl_made, made1) =
          bind-ok (codec.to_bytes4 r.time_to_leave)
            (λ ttl. codec.to_bytes16 r.transition_prob >>= λ tp. ok (markov_fields codec r ttl tp))
            row made in
        let (tp, tp_made, made2) =
          bind-ok (codec.to_bytes16 r.transition_prob) (λ tp. ok (markov_fields codec r ttl tp)) row
            made1 in
        let same : row ≡ markov_fields codec r ttl tp = cc in
        rw
          (
            same,
            laws.from-to_bytes4 r.time_to_leave ttl ttl_made,
            laws.from-to_bytes16 r.transition_prob tp tp_made,
            text_of_lem r.exe_a h.exe_a-IsText,
            text_of_lem r.exe_b h.exe_b-IsText,
            as_u64-as_i64 r.both_running_time h.both_running_time-lt,
          )
          refl

    pub meta_of_row-state_row :
        (m : SnapshotMeta) (model_time last_accounting_time : ℕ)
        → IsMetaStorable m
        → meta_of_row codec (state_row codec m model_time last_accounting_time)
          ≡ ok (record m { created_at = map_option (λ t. t / nanos * nanos) m.created_at })
    unfolding meta_of_row state_row created_of
    meta_of_row-state_row m model_time last_accounting_time h =
        rw
          (
            low_bits-pos m.schema_version h.schema_version-lt,
            created_of-print m.created_at h.created_at-lt,
          )
          refl
