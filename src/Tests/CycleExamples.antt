-- ===== src/Tests/CycleExamples.antt =====
-- The theorems about the cycle of the program, at small inputs.
use preload_ng.Prelude.{
  ℕ, zero, suc, ◌+◌, ◌-◌, ◌*◌, ◌≤◌, min, ◌≡◌, refl, ◌≢◌, ◌↔◌, Bool, true, false, ◌&&◌, not, Option,
  none, some, List, [], ◌∷◌, ◌⊎◌, ◌^◌, ltb, any, arith, if◌then◌else◌, length,
}
use preload_ng.Prelude.HashMap.{member}
use preload_ng.Domain.{FilePath, utf8, MapKey, MapKey-discrete, segment_key, to_str}
use preload_ng.Error.{ok, panic, Holds}
use preload_ng.Prefetch.Ranges.{Kernel, uncached_ranges, do_readahead, readahead_from}
use preload_ng.Prefetch.Ranges.Cover
use preload_ng.Prefetch.ReadLoop
use preload_ng.Prefetch.Ranges.Cover.{between, covers, is_missing}
use preload_ng.Observation.Event.{Observation, obs_begin, exe_seen, map_seen, obs_end, CandidateExe}
use preload_ng.Observation.Admission.{
  accept, full, partial, RejectCache, DefaultAdmissionPolicy, allow_exe, accept_path, starts_with,
  strip_bang, decide, look_up, decide_uncached, best_from,
}
use preload_ng.Observation.Admission.Prefixes
use preload_ng.Observation.Admission.Verdict
use preload_ng.Observation.ModelUpdater.{Policy, ModelUpdater, ModelDelta, apply}
use preload_ng.Observation.ModelUpdater.Total
use preload_ng.Prediction.{MarkovPredictor, Prediction, predict}
use preload_ng.Prediction.Scores
use preload_ng.Stores.Invariant.{IsValid}
use preload_ng.Stores.Model.{Stores}
use preload_ng.Stores.MapStore.Index as MapIndex
use preload_ng.Engine.Snapshot.{StoresSnapshot, stores_from_snapshot}
use preload_ng.Engine.Restore
use preload_ng.Engine.Restore.Untouched.{joins_itself}
use preload_ng.Stores.MarkovGraph.{fill}
use preload_ng.Stores.MarkovGraph.SelfEdges
use preload_ng.Engine.Tick.{Services, PreloadEngine, tick, purge_denied, purge_stale}
use preload_ng.Engine.Tick.Purge
use preload_ng.Engine.Tick.Cycle
use preload_ng.Engine.Tick.Defaults
use preload_ng.Engine.Tick.Defaults.{update_with}
use preload_ng.Tests.Instances.{env, env_laws, millionths}
use preload_ng.Tests.Samples.{path_a, path_b, map_a, one_map_of_exe, one_map_of_exe-IsValid}

-- A policy that accepts all, over a world without a state.
abbrev pub accept_all : Policy (Unit)
accept_all = record {
  allow_exe = λ _ _. true;
  allow_map = λ _ _. true;
  decide = λ w _. (accept full, w);
}

abbrev updater : ModelUpdater millionths
updater = record { active_window = 60; decay = millionths.one }

abbrev predictor : MarkovPredictor millionths
predictor = record { use_correlation = true; cycle_secs = millionths.one }

abbrev scanned : Observation
scanned = obs_begin 5 1 ∷ exe_seen path_a 7 ∷ map_seen path_a map_a ∷ obs_end 6 1 [] ∷ []

apply-IsValid_example :
    (r : (Stores env × ModelDelta) × Unit) × (apply updater accept_all tt one_map_of_exe scanned
      ≡ some r)
    × IsValid r.0.0
    × (r.0.0.model_time ≡ 5)
    × (r.0.0.last_accounting_time ≡ 5)
unfolding Total.last_begin
apply-IsValid_example =
    Total.apply-IsValid env_laws updater accept_all tt one_map_of_exe scanned one_map_of_exe-IsValid

predict_example :
    (p : Prediction millionths) × (predict env predictor one_map_of_exe ≡ some p)
    × Scores.IsPrediction one_map_of_exe p
predict_example = Scores.predict_lem env_laws predictor one_map_of_exe one_map_of_exe-IsValid.markov

abbrev snapshot : StoresSnapshot millionths
snapshot = record {
  meta = record { schema_version = 1; app_version = none; created_at = none };
  state = record {
    model_time = 9;
    last_accounting_time = 9;
    exes =
        record { path = path_a; total_running_time = 3; last_seen_time = some 8 }
        ∷ record { path = path_b; total_running_time = 2; last_seen_time = some 7 }
        ∷ [];
    maps = record { path = path_a; offset = 0; length = 2048; update_time = 0 } ∷ [];
    exe_maps =
        record { exe_path = path_a; map_key = segment_key map_a; prob = millionths.one } ∷ [];
    markov_edges =
        record {
          exe_a = path_a;
          exe_b = path_b;
          time_to_leave = fill 0;
          transition_prob = fill (fill 0);
          both_running_time = 1;
        }
        ∷ [];
  };
}

stores_from_snapshot-IsValid_example :
    Holds
      (λ st.
        IsValid st
        × ((any joins_itself snapshot.state.markov_edges ≡ true)
            ⊎ SelfEdges.HasNoSelfEdge st.markov))
      (stores_from_snapshot env snapshot 60)
stores_from_snapshot-IsValid_example = Restore.stores_from_snapshot-IsValid env_laws snapshot 60

abbrev deny_all : FilePath → Bool
deny_all path = false

purge_denied_example :
    IsValid (purge_denied deny_all one_map_of_exe)
    × ((k : MapKey)
        → MapIndex.segment_at (purge_denied deny_all one_map_of_exe).maps k
          ≡ (if deny_all k.path then MapIndex.segment_at one_map_of_exe.maps k else none))
purge_denied_example =
    Purge.purge_denied_lem env_laws deny_all one_map_of_exe one_map_of_exe-IsValid

purge_stale_example :
    IsValid (purge_stale deny_all one_map_of_exe (segment_key map_a ∷ []))
    × ((k : MapKey)
        → MapIndex.segment_at (purge_stale deny_all one_map_of_exe (segment_key map_a ∷ [])).maps k
          ≡ (if member MapKey-discrete (segment_key map_a ∷ []) k && not (deny_all k.path)
              then none
              else MapIndex.segment_at one_map_of_exe.maps k))
purge_stale_example =
    Purge.purge_stale_lem env_laws deny_all one_map_of_exe (segment_key map_a ∷ [])
      one_map_of_exe-IsValid

abbrev pub services : Services env (Unit)
services = record {
  scan = λ w now scan_id. (ok scanned, w);
  admission = accept_all;
  apply = update_with updater accept_all;
  predict = predict env predictor;
  plan = λ _ _ _. record { maps = []; total_bytes = 0; budget_bytes = 0 };
  execute =
      λ w plan _. (record { num_maps = 0; total_bytes = 0; failures = segment_key map_a ∷ [] }, w);
  load = λ w. (ok snapshot, w);
  save = λ w _. (ok tt, w);
  exists = λ _ _. false;
  system_time = λ _. 0;
}

pub services-ServicesLaws : Cycle.ServicesLaws services
services-ServicesLaws =
    Defaults.default-ServicesLaws env_laws services updater predictor refl refl
      (λ w now scan_id h. ground arith)

abbrev pub engine : PreloadEngine env (Unit)
engine = record {
  config = record {
    doscan = true;
    dopredict = true;
    active_window = 60;
    cycle = 20;
    save_on_shutdown = true;
    autosave_interval = none;
    autosave = 3600;
    state_path = none;
  };
  services = services;
  stores = one_map_of_exe;
  scan_id = 0;
}

tick-IsValid_example : ((tick engine tt).0 ≢ panic) × IsValid (tick engine tt).1.0.stores
tick-IsValid_example =
    Cycle.tick-IsValid env_laws engine tt services-ServicesLaws one_map_of_exe-IsValid

all_cached : ℕ → List Bool
all_cached zero = []
all_cached (suc n) = true ∷ all_cached n

length-all_cached : (n : ℕ) → length (all_cached n) ≡ n
unfolding all_cached
length-all_cached zero = refl
length-all_cached (suc n) = omega (arith, length-all_cached n)

-- Of each mapping the kernel has every page in its cache but the first; it gives more flags than
-- there are pages.
abbrev kernel : Kernel
kernel = record {
  page_size = 4096;
  mincore = λ aligned_offset aligned_length. some (false ∷ all_cached aligned_length);
}

kernel_flags :
    (a l : ℕ) (pages : List Bool)
    → kernel.mincore a l ≡ some pages
    → l ≤ length pages * kernel.page_size
kernel_flags a l pages h = ground (arith, h, length-all_cached l)

uncached_ranges-covers_example :
    covers (uncached_ranges kernel 100 5000) 200
    ≡ (between 100 (100 + 5000) 200 && is_missing kernel 100 5000 200)
uncached_ranges-covers_example =
    Cover.uncached_ranges-covers kernel 100 5000 200 (omega arith) kernel_flags

do_readahead-covers_example :
    covers (do_readahead (λ _ _. true) 10 3).0 11
    ≡ (ltb (10 + 3) (2 ^ 63) && between 10 (10 + 3) 11)
unfolding do_readahead readahead_from
do_readahead-covers_example =
    Cover.do_readahead-covers (λ _ _. true) 10 3 11 (omega arith) (omega arith) refl

-- `/a` is denied by the second rule, which is longer than the first.
accept_path-longest_example :
    accept_path (utf8 (47 ∷ 97 ∷ [])) ((47 ∷ []) ∷ (33 ∷ 47 ∷ 97 ∷ []) ∷ [])
    ≡ not (strip_bang (33 ∷ 47 ∷ 97 ∷ [])).0
unfolding Prefixes.match_length Prefixes.Below starts_with strip_bang
accept_path-longest_example =
    Prefixes.accept_path-longest (47 ∷ 97 ∷ []) ((47 ∷ []) ∷ []) (33 ∷ 47 ∷ 97 ∷ []) []
      (omega arith) (omega arith, tt) tt

accept_path-unmatched_example : accept_path (utf8 (47 ∷ [])) ((47 ∷ 97 ∷ []) ∷ []) ≡ true
unfolding Prefixes.match_length Prefixes.Below starts_with strip_bang
accept_path-unmatched_example =
    Prefixes.accept_path-unmatched (47 ∷ []) ((47 ∷ 97 ∷ []) ∷ []) (omega arith, tt)

-- A policy without a cache, and a candidate that it accepts in part.
abbrev no_cache : RejectCache
no_cache = record {
  Cache = Unit;
  build = λ _ _. tt;
  get = λ c _. (none, c);
  insert = λ c _ _. c;
  invalidate = λ c _. c;
  entry_count = λ c. (0, c);
}

abbrev policy : DefaultAdmissionPolicy no_cache
policy = record {
  minsize = 100;
  exeprefix = [];
  mapprefix = [];
  cache_ttl = 0;
  cache_capacity = 0;
  cache = none;
  cache_hits = 0;
  cache_misses = 0;
  cache_inserts = 0;
  cache_invalidations = 0;
}

abbrev candidate : CandidateExe
candidate = record {
  path = path_a;
  pid = 7;
  maps = map_a ∷ [];
  total_size = 2048;
  rejected_maps = path_a ∷ [];
}

accepted_in_part : (decide policy candidate).0 ≡ accept partial
unfolding decide look_up decide_uncached accept_path best_from to_str
accepted_in_part = refl

decide-accept_example :
    (allow_exe policy candidate.path ≡ true)
    × (candidate.maps ≢ [])
    × (policy.minsize ≤ candidate.total_size)
    × ((candidate.rejected_maps ≡ []) ↔ (◌≡◌ {A = Bool} false true))
decide-accept_example = Verdict.decide-accept policy candidate false accepted_in_part

-- A file of 5 bytes that a read never splits.
abbrev read_five : ℕ → ℕ → Option ℕ
read_five pos asked = some (min asked (5 - pos))

five-IsFile : ReadLoop.IsFile 5 read_five
five-IsFile = record {
  count = λ pos asked. min asked (5 - pos);
  returned = λ pos asked. refl;
  bounded = λ pos asked. omega arith;
  progress = λ pos asked h. ground (arith, h);
}

readahead-all_example : ReadLoop.readahead read_five 2 9 ≡ some (min 9 (5 - 2))
readahead-all_example = ReadLoop.readahead-all 5 read_five 2 9 five-IsFile
