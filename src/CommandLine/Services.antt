-- ===== src/CommandLine/Services.antt =====
-- crates/cli/src/main.rs: the repository, the prefetcher and the control events that are chosen.
use preload_ng.Prelude.{ℕ, Bool, Option, none, some, ◌==◌, if◌then◌else◌}
use preload_ng.Domain.{FilePath}
use preload_ng.Error.{Outcome, ok, err, panic}
use preload_ng.Floats.{Floats}
use preload_ng.Config.Settings.{
  System, Config, PrefetchBackend, automatic, readahead_backend, madvise_backend, read_backend,
}
use preload_ng.Prefetch.Concurrent.{madvise_probe}
use preload_ng.CommandLine.Paths.{Cli}

-- The repository of `main`.
pub data Repository : Type 0 where
  noop_repository : Repository
  sqlite_repository : FilePath → Repository

unfoldable pub build_repository : {fl : Floats} → Cli → Config fl → Repository
build_repository cli config =
    if cli.no_persist then noop_repository else elim config.persistence.state_path [
      | none ↦ noop_repository
      | some path ↦ sqlite_repository path
    ]

-- A prefetcher, with its concurrency.
pub data Prefetcher : Type 0 where
  noop_prefetcher : Prefetcher
  readahead_prefetcher madvise_prefetcher read_prefetcher : (concurrency : ℕ) → Prefetcher

abbrev pub select_backend : (readahead_works : Bool) → PrefetchBackend → ℕ → Prefetcher
select_backend readahead_works readahead_backend concurrency = readahead_prefetcher concurrency
select_backend readahead_works madvise_backend concurrency = madvise_prefetcher concurrency
select_backend readahead_works read_backend concurrency = read_prefetcher concurrency
select_backend readahead_works automatic concurrency =
    if readahead_works
    then readahead_prefetcher concurrency
    else if madvise_probe
    then madvise_prefetcher concurrency
    else read_prefetcher concurrency

-- `parallelism` is `thread::available_parallelism`, `readahead_works` the probe of readahead(2).
unfoldable pub build_prefetcher :
    (parallelism : Option ℕ) → (readahead_works : Bool) → System → (no_prefetch : Bool) → Prefetcher
build_prefetcher parallelism readahead_works system no_prefetch =
    if no_prefetch then noop_prefetcher else elim system.prefetch_concurrency [
      | none ↦ elim parallelism [
        | none ↦ select_backend readahead_works system.prefetch_backend 1
        | some n ↦ select_backend readahead_works system.prefetch_backend n
      ]
      | some n ↦
          if n == 0
          then noop_prefetcher
          else select_backend readahead_works system.prefetch_backend n
    ]

-- SIGHUP, SIGUSR1 and SIGUSR2.
pub data Signal : Type 0 where
  hangup user_defined1 user_defined2 : Signal

-- A control event, as it is sent; a reload is given the configuration.
pub data Control (fl : Floats) : Type 0 where
  reload : Config fl → Control fl
  dump_status : Control fl
  save_now : Control fl

-- The bodies of the signal loops: a configuration that does not load sends nothing.
unfoldable pub control_of : {fl : Floats} → Outcome (Config fl) → Signal → Option (Control fl)
control_of (ok config) hangup = some (reload config)
control_of (err _) hangup = none
control_of panic hangup = none
control_of loaded user_defined1 = some dump_status
control_of loaded user_defined2 = some save_now
