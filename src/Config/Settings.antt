-- ===== src/Config/Settings.antt =====
-- crates/config/src/model.rs, system.rs and persistence.rs: the settings and their defaults.
use preload_ng.Prelude.{ℕ, ◌*◌, Bool, true, Option, none, some, List, [], ◌∷◌, if◌then◌else◌}
use preload_ng.Domain.{FilePath}
use preload_ng.Floats.{Floats}
use preload_ng.Prelude.Int.{pos, negsuc}
use preload_ng.Config.MemoryPolicy.{MemoryPolicy, SortStrategy, by_block}

-- Durations are in seconds.
pub record Model (fl : Floats) : Type 0 where
  pub cycle : ℕ
  pub use_correlation : Bool
  pub minsize : ℕ
  pub active_window : ℕ
  pub half_life : Option ℕ
  pub decay : fl.F32
  pub memory : MemoryPolicy

pub data PrefetchBackend : Type 0 where
  automatic readahead_backend madvise_backend read_backend : PrefetchBackend

-- A prefix is a text.
pub record System : Type 0 where
  pub doscan : Bool
  pub dopredict : Bool
  pub autosave : ℕ
  pub exeprefix : List (List ℕ)
  pub mapprefix : List (List ℕ)
  pub sortstrategy : SortStrategy
  pub prefetch_concurrency : Option ℕ
  pub policy_cache_ttl : ℕ
  pub policy_cache_capacity : ℕ
  pub fanotify : Bool
  pub prefetch_backend : PrefetchBackend

pub record Persistence : Type 0 where
  pub state_path : Option FilePath
  pub autosave_interval : Option ℕ
  pub save_on_shutdown : Bool

pub record Config (fl : Floats) : Type 0 where
  pub model : Model fl
  pub system : System
  pub persistence : Persistence

-- `MemoryPolicy::default`.
abbrev pub default_memory : MemoryPolicy
default_memory = record { memtotal = negsuc 4; memavailable = pos 95 }

-- `!/proc/`, `!/sys/`, `!/dev/`, `!/tmp/`, `!/run/` and `/`.
abbrev pub default_mapprefix : List (List ℕ)
default_mapprefix =
    (33 ∷ 47 ∷ 112 ∷ 114 ∷ 111 ∷ 99 ∷ 47 ∷ [])
    ∷ (33 ∷ 47 ∷ 115 ∷ 121 ∷ 115 ∷ 47 ∷ [])
    ∷ (33 ∷ 47 ∷ 100 ∷ 101 ∷ 118 ∷ 47 ∷ [])
    ∷ (33 ∷ 47 ∷ 116 ∷ 109 ∷ 112 ∷ 47 ∷ [])
    ∷ (33 ∷ 47 ∷ 114 ∷ 117 ∷ 110 ∷ 47 ∷ [])
    ∷ (47 ∷ [])
    ∷ []

-- `!/usr/sbin/`, `!/usr/local/sbin/` and `/`.
abbrev pub default_exeprefix : List (List ℕ)
default_exeprefix =
    (33 ∷ 47 ∷ 117 ∷ 115 ∷ 114 ∷ 47 ∷ 115 ∷ 98 ∷ 105 ∷ 110 ∷ 47 ∷ [])
    ∷ (33 ∷ 47 ∷ 117 ∷ 115 ∷ 114 ∷ 47 ∷ 108 ∷ 111 ∷ 99 ∷ 97 ∷ 108 ∷ 47 ∷ 115 ∷ 98 ∷ 105 ∷ 110 ∷ 47
        ∷ [])
    ∷ (47 ∷ [])
    ∷ []

abbrev pub default_system : System
default_system = record {
  doscan = true;
  dopredict = true;
  autosave = 3600;
  exeprefix = default_exeprefix;
  mapprefix = default_mapprefix;
  sortstrategy = by_block;
  prefetch_concurrency = some 1;
  policy_cache_ttl = 300;
  policy_cache_capacity = 1024;
  fanotify = true;
  prefetch_backend = automatic;
}

abbrev pub default_persistence : Persistence
default_persistence = record {
  state_path = none;
  autosave_interval = none;
  save_on_shutdown = true;
}

module _ (fl : Floats) where
  abbrev pub default_model : Model fl
  default_model = record {
    cycle = 20;
    use_correlation = true;
    minsize = 100_000;
    active_window = 6 * 60 * 60;
    half_life = none;
    decay = fl.of_decimal 1 2;
    memory = default_memory;
  }

  abbrev pub default_config : Config fl
  default_config = record {
    model = default_model;
    system = default_system;
    persistence = default_persistence;
  }

  -- `Model::decay_factor`; `ln` is the natural logarithm of Rust's f32.
  unfoldable pub decay_factor : (ln : fl.F32 → fl.F32) → Model fl → fl.F32
  decay_factor ln m = elim m.half_life [
    | none ↦ fl.max m.decay fl.zero32
    | some half_life ↦
        let secs = fl.of_u64 half_life in
        if fl.lt fl.zero32 secs then fl.div (ln (fl.of_u64 2)) secs else fl.zero32
  ]
