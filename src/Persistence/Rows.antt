-- ===== src/Persistence/Rows.antt =====
-- crates/orchestrator/src/persistence/repo.rs: the row of each record, and the record of each row.
use preload_ng.Prelude.{ℕ, ◌*◌, ◌/◌, ◌^◌, ◌<◌, ◌≡◌, Option, none, some, List, ltb, if◌then◌else◌}
use preload_ng.Domain.{FilePath, utf8, raw}
use preload_ng.Error.{Outcome, ok, panic, ◌>>=◌}
use preload_ng.Floats.{Floats}
use preload_ng.Prelude.Int.{ℤ, pos, low_bits, wrap_i64}
use preload_ng.Stores.MarkovGraph.{Array4}
use preload_ng.Engine.Snapshot.{SnapshotMeta, ExeRecord, MapRecord, ExeMapRecord, MarkovRecord}
use preload_ng.Persistence.Tables.{Bytes, StateRow, ExeRow, MapRow, ExeMapRow, MarkovRow}

-- Conversions of Rust's standard library and of rkyv.
pub record Codec (fl : Floats) : Type 1 where
  pub F64 : Type 0
  -- `x as f64` and `x as f32`
  pub to_f64 : fl.F32 → F64
  pub of_f64 : F64 → fl.F32
  -- `to_string_lossy` of a path that is no UTF-8
  pub lossy : List ℕ → Bytes
  -- `u64::to_string` and `str::parse::<u64>`
  pub print_u64 : ℕ → Bytes
  pub parse_u64 : Bytes → Option ℕ
  -- `rkyv::to_bytes` and `rkyv::from_bytes`, with the error that they are mapped to
  pub to_bytes4 : Array4 fl.F32 → Outcome Bytes
  pub from_bytes4 : Bytes → Outcome (Array4 fl.F32)
  pub to_bytes16 : Array4 (Array4 fl.F32) → Outcome Bytes
  pub from_bytes16 : Bytes → Outcome (Array4 (Array4 fl.F32))

-- What is read is what was written.
pub record CodecLaws {fl : Floats} (codec : Codec fl) : Type 0 where
  pub of_f64-to_f64 : (x : fl.F32) → codec.of_f64 (codec.to_f64 x) ≡ x
  pub parse-print : (n : ℕ) → n < 2 ^ 64 → codec.parse_u64 (codec.print_u64 n) ≡ some n
  pub from-to_bytes4 :
      (x : Array4 fl.F32) (b : Bytes) → codec.to_bytes4 x ≡ ok b → codec.from_bytes4 b ≡ ok x
  pub from-to_bytes16 :
      (x : Array4 (Array4 fl.F32)) (b : Bytes)
      → codec.to_bytes16 x ≡ ok b
      → codec.from_bytes16 b ≡ ok x

-- `v as i64` of a u64, and `v as u64` of an i64.
abbrev pub as_i64 : ℕ → ℤ
as_i64 n = wrap_i64 (pos n)

abbrev pub as_u64 : ℤ → ℕ
as_u64 z = low_bits 64 z

-- A `SystemTime` from the epoch on is the number of nanoseconds since then.
abbrev pub nanos : ℕ
nanos = 1_000_000_000

abbrev pub map_option : {A B : Type 0} → (A → B) → Option A → Option B
map_option f none = none
map_option f (some a) = some (f a)

module _ {fl : Floats} (codec : Codec fl) where
  open codec use {
    F64, to_f64, of_f64, lossy, print_u64, parse_u64, to_bytes4, from_bytes4, to_bytes16,
    from_bytes16,
  }

  -- `path.to_string_lossy().to_string()`.
  unfoldable pub text_of : FilePath → Bytes
  text_of (utf8 s) = s
  text_of (raw b) = lossy b

  unfoldable pub state_row : SnapshotMeta → ℕ → ℕ → StateRow
  state_row meta model_time last_accounting_time = record {
    schema_version = pos meta.schema_version;
    app_version = meta.app_version;
    created_at = map_option (λ t. print_u64 (t / nanos)) meta.created_at;
    model_time = as_i64 model_time;
    last_accounting_time = as_i64 last_accounting_time;
  }

  unfoldable pub exe_row : ExeRecord → ExeRow
  exe_row exe = record {
    path = text_of exe.path;
    total_running_time = as_i64 exe.total_running_time;
    last_seen_time = map_option as_i64 exe.last_seen_time;
  }

  unfoldable pub map_row : MapRecord → MapRow
  map_row segment = record {
    key = record {
      path = text_of segment.path;
      offset = as_i64 segment.offset;
      length = as_i64 segment.length;
    };
    update_time = as_i64 segment.update_time;
  }

  unfoldable pub exe_map_row : ExeMapRecord fl → ExeMapRow F64
  exe_map_row r = record {
    key = record {
      exe_path = text_of r.exe_path;
      segment = record {
        path = text_of r.map_key.path;
        offset = as_i64 r.map_key.offset;
        length = as_i64 r.map_key.length;
      };
    };
    prob = to_f64 r.prob;
  }

  abbrev pub markov_fields : MarkovRecord fl → Bytes → Bytes → MarkovRow
  markov_fields r ttl tp = record {
    key = record { exe_a = text_of r.exe_a; exe_b = text_of r.exe_b };
    time_to_leave = ttl;
    transition_prob = tp;
    both_running_time = as_i64 r.both_running_time;
  }

  unfoldable pub markov_row : MarkovRecord fl → Outcome MarkovRow
  markov_row r = to_bytes4 r.time_to_leave >>= λ ttl.
      to_bytes16 r.transition_prob >>= λ tp. ok (markov_fields r ttl tp)

  -- `UNIX_EPOCH + Duration::from_secs(secs)` of the `created_at` that parses; a SystemTime holds
  -- seconds below 2 ^ 63, and the addition panics beyond them.
  unfoldable pub created_of : Option Bytes → Outcome (Option ℕ)
  created_of none = ok none
  created_of (some s) = elim (parse_u64 s) [
    | none ↦ ok none
    | some secs ↦ if ltb secs (2 ^ 63) then ok (some (secs * nanos)) else panic
  ]

  unfoldable pub meta_of_row : StateRow → Outcome SnapshotMeta
  meta_of_row row = created_of row.created_at >>= λ created_at. ok (record {
    schema_version = low_bits 32 row.schema_version;
    app_version = row.app_version;
    created_at = created_at;
  })

  unfoldable pub exe_of_row : ExeRow → ExeRecord
  exe_of_row row = record {
    path = utf8 row.path;
    total_running_time = as_u64 row.total_running_time;
    last_seen_time = map_option as_u64 row.last_seen_time;
  }

  unfoldable pub map_of_row : MapRow → MapRecord
  map_of_row row = record {
    path = utf8 row.key.path;
    offset = as_u64 row.key.offset;
    length = as_u64 row.key.length;
    update_time = as_u64 row.update_time;
  }

  unfoldable pub exe_map_of_row : ExeMapRow F64 → ExeMapRecord fl
  exe_map_of_row row = record {
    exe_path = utf8 row.key.exe_path;
    map_key = record {
      path = utf8 row.key.segment.path;
      offset = as_u64 row.key.segment.offset;
      length = as_u64 row.key.segment.length;
    };
    prob = of_f64 row.prob;
  }

  unfoldable pub markov_of_row : MarkovRow → Outcome (MarkovRecord fl)
  markov_of_row row = from_bytes4 row.time_to_leave >>= λ time_to_leave.
      from_bytes16 row.transition_prob >>= λ transition_prob. ok (record {
        exe_a = utf8 row.key.exe_a;
        exe_b = utf8 row.key.exe_b;
        time_to_leave = time_to_leave;
        transition_prob = transition_prob;
        both_running_time = as_u64 row.both_running_time;
      })
