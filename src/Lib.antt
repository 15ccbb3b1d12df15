-- ===== src/Lib.antt =====
-- preload-ng watches the running processes, learns by a Markov model which programs are started
-- together, and reads the files of the likely ones into the page cache. This library models the
-- crate crates/orchestrator: in each cycle the engine scans the processes, the updater changes the
-- stores, the predictor scores the exes and maps, the planner chooses maps for the memory that is
-- free, and the prefetcher reads them.
--
-- - Prelude: shared names, tests, lists, integers, hash maps (Prelude/HashMap), membership.
-- - SlotMap, Floats: the slotmap and half crates and Rust's f32, as interfaces.
-- - Domain: crates/orchestrator/src/domain.  Math: crates/orchestrator/src/math.rs.
--   Error: crates/orchestrator/src/error.rs.
-- - Stores/...: one module for each file of crates/orchestrator/src/stores, with the proofs in child
--   modules; Stores/Model is stores/mod.rs, Stores/Invariant the invariant over all of them, and
--   Stores/Preserve the operations that add to them. That no exe has an edge with itself, which
--   docs/ADR.md asks for, is not part of that invariant; Stores/MarkovGraph/SelfEdges is about it.
-- - Observation: crates/orchestrator/src/observation. Event is event.rs, Admission admission.rs (over
--   a cache with a time to live), ModelUpdater model_updater.rs, whose `apply` is one function for
--   each of its loops. Scanner is procfs_scanner.rs, over what procfs reads; Fanotify is
--   fanotify_watcher.rs, whose reader thread and drains are the steps of Fanotify/Relation.
-- - Prediction: crates/orchestrator/src/prediction.
-- - Prefetch/Planner: crates/orchestrator/src/prefetch/planner.rs; Prefetch/Sort is the sort of
--   Rust's slices. Prefetch/Ranges: the page ranges and the readahead loop of prefetcher.rs;
--   Prefetch/ReadLoop its read loop; Prefetch/Concurrent is `execute_concurrent` with the
--   prefetchers that it serves. Prefetch/Report is the report of plan.rs.
-- - Engine/Snapshot and Engine/Tick: crates/orchestrator/src/engine.rs, over services that act on a
--   state of the outside world; Engine/Restore is about the stores that a snapshot gives, and
--   Engine/Tick/Defaults fills the interface with the updater and the predictor above.
--   Engine/Run is `run_until`, as the steps of its loop.
-- - Persistence: crates/orchestrator/src/persistence/repo.rs. Tables is the schema of the migration,
--   with SQLite as the interface `Sqlx`, whose `fails` says which statement fails; Rows has the casts
--   of the records, Repo the two directions, Written, Storable and RoundTrip the way there and back.
-- - Config: crates/config/src. MemoryPolicy is memory_policy.rs and sort_strategy.rs, Settings the other
--   settings with their defaults, Merge and Files the merge of the files in lib.rs.
-- - CommandLine: crates/cli/src. Paths is cli.rs and the configuration of main.rs, Services what
--   main.rs chooses by it.
-- - Tests: instances of the interfaces, and the theorems at concrete inputs.
--
-- A handler that changes an object through `&mut self` is a function to the new object. An id is a
-- number, a path is its text. Unsigned subtraction that saturates is `-` on ℕ; other machine
-- arithmetic keeps its wrap-around or its saturation, except in the page ranges and the read loop, whose
-- offsets and lengths are those of files, below 2 ^ 63. A panic is `none`, or `panic` where there are
-- errors too. Four loops run on fuel: `prune_from` is given one round more than there are edges,
-- `readahead_from` and `read_from` a round for each byte, and `rounds` one for each task, which is
-- proved to be enough.
--
-- Not modelled: the parsing of the arguments, the logging, the installation of the signal handlers,
-- the process priority and the system clock, which are calls of other crates and of the system, and
-- what SQLite, procfs, fanotify and the TOML parser do, which are parameters.
pub mod Prelude
pub mod SlotMap
pub mod Floats
pub mod Math
pub mod Domain
pub mod Stores
pub mod Config
pub mod Prefetch
pub mod Observation
pub mod Prediction
pub mod Error
pub mod Engine
pub mod Persistence
pub mod CommandLine
mod Tests
