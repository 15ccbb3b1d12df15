-- ===== src/Persistence/Repo.antt =====
-- crates/orchestrator/src/persistence/repo.rs: `NoopRepository`, and `SqliteRepository` over the
-- tables. `SqliteRepository::new` only opens the database and runs the migration.
use preload_ng.Prelude.{ℕ, Option, none, some, List, [], ◌∷◌, map, if◌then◌else◌}
use preload_ng.Error.{Outcome, ok, err, panic, sqlx, ◌>>=◌}
use preload_ng.Floats.{Floats}
use preload_ng.Engine.Snapshot.{snapshot_schema_version, SnapshotMeta, StoresSnapshot}
use preload_ng.Persistence.Tables.{
  StateRow, Tables, Table, exe_table, map_table, exe_map_table, markov_table, Sqlx, Transaction,
  execute, fetch_all, insert_row,
}
use preload_ng.Persistence.Rows.{
  Codec, as_u64, state_row, exe_row, map_row, exe_map_row, markov_row, meta_of_row, exe_of_row,
  map_of_row, exe_map_of_row, markov_of_row,
}

abbrev pub default_meta : SnapshotMeta
default_meta = record {
  schema_version = snapshot_schema_version;
  app_version = none;
  created_at = none;
}

-- `NoopRepository::load`; its `save` does nothing.
abbrev pub empty_snapshot : {fl : Floats} → StoresSnapshot fl
empty_snapshot = record {
  meta = default_meta;
  state = record {
    model_time = 0;
    last_accounting_time = 0;
    exes = [];
    maps = [];
    exe_maps = [];
    markov_edges = [];
  };
}

-- The values of a row loop: each is decoded, up to the first that cannot be.
unfoldable pub decode_all : {A B : Type 0} → (A → Outcome B) → List A → Outcome (List B)
decode_all f [] = ok []
decode_all f (a ∷ xs) = f a >>= λ b. decode_all f xs >>= λ bs. ok (b ∷ bs)

module _ {fl : Floats} (codec : Codec fl) (sql : Sqlx) where
  open codec use {F64}

  -- One loop of `save_snapshot`: a row is made for each record and inserted.
  unfoldable pub insert_all :
      {A Row Key : Type 0}
      → Table F64 Row Key
      → (A → Outcome Row)
      → List A
      → Transaction F64
      → Outcome (Transaction F64)
  insert_all table row_of [] tx = ok tx
  insert_all table row_of (a ∷ xs) tx = row_of a >>= λ row.
      execute sql (insert_row table row) tx >>= λ tx'. insert_all table row_of xs tx'

  -- The five `DELETE FROM`.
  unfoldable pub delete_all : Transaction F64 → Outcome (Transaction F64)
  delete_all tx = execute sql (λ t. ok (record t { state = none })) tx >>= λ tx1.
      execute sql (λ t. ok (record t { exes = [] })) tx1 >>= λ tx2.
      execute sql (λ t. ok (record t { maps = [] })) tx2 >>= λ tx3.
      execute sql (λ t. ok (record t { exe_maps = [] })) tx3 >>= λ tx4.
      execute sql (λ t. ok (record t { markovs = [] })) tx4

  -- `INSERT INTO state (id, …) VALUES (1, …)`.
  unfoldable pub insert_state : StateRow → Tables F64 → Outcome (Tables F64)
  insert_state row tables = elim tables.state [
    | none ↦ ok (record tables { state = some row })
    | some _ ↦ err sqlx
  ]

  -- What `save_snapshot` does between the begin and the commit of its transaction.
  unfoldable pub write_snapshot : StoresSnapshot fl → Transaction F64 → Outcome (Transaction F64)
  write_snapshot snapshot tx =
      let state = snapshot.state in
      delete_all tx >>= λ tx1.
      execute sql
        (insert_state (state_row codec snapshot.meta state.model_time state.last_accounting_time))
        tx1
      >>= λ tx2. insert_all (exe_table F64) (λ r. ok (exe_row codec r)) state.exes tx2 >>= λ tx3.
          insert_all (map_table F64) (λ r. ok (map_row codec r)) state.maps tx3 >>= λ tx4.
          insert_all (exe_map_table F64) (λ r. ok (exe_map_row codec r)) state.exe_maps tx4
          >>= λ tx5. insert_all (markov_table F64) (markov_row codec) state.markov_edges tx5

  -- The end of a transaction: one that is dropped, or whose commit fails, changes nothing.
  unfoldable pub commit : Tables F64 → Outcome (Transaction F64) → Outcome (Unit {0}) × Tables F64
  commit tables (ok tx) = if sql.fails tx.executed then (err sqlx, tables) else (ok tt, tx.tables)
  commit tables (err e) = (err e, tables)
  commit tables panic = (panic, tables)

  -- The begin is statement 0.
  unfoldable pub save_snapshot : StoresSnapshot fl → Tables F64 → Outcome (Unit {0}) × Tables F64
  save_snapshot snapshot tables = commit tables (
      if sql.fails 0
      then err sqlx
      else write_snapshot snapshot (record { tables = tables; executed = 1 }))

  unfoldable pub fetch_optional : ℕ → Option StateRow → Outcome (Option StateRow)
  fetch_optional n row = if sql.fails n then err sqlx else ok row

  -- `load_snapshot`, whose five statements are numbered from 0.
  unfoldable pub load_snapshot : Tables F64 → Outcome (StoresSnapshot fl)
  load_snapshot tables = fetch_optional 0 tables.state >>= λ row.
      elim row [ none ↦ ok default_meta | some r ↦ meta_of_row codec r ] >>= λ meta.
      fetch_all sql 1 tables.exes >>= λ exes. fetch_all sql 2 tables.maps >>= λ maps.
      fetch_all sql 3 tables.exe_maps >>= λ exe_maps. fetch_all sql 4 tables.markovs >>= λ markovs.
      decode_all (markov_of_row codec) markovs >>= λ markov_edges. ok (record {
        meta = meta;
        state = record {
          model_time = elim row [ none ↦ 0 | some r ↦ as_u64 r.model_time ];
          last_accounting_time = elim row [ none ↦ 0 | some r ↦ as_u64 r.last_accounting_time ];
          exes = map (exe_of_row codec) exes;
          maps = map (map_of_row codec) maps;
          exe_maps = map (exe_map_of_row codec) exe_maps;
          markov_edges = markov_edges;
        };
      })
