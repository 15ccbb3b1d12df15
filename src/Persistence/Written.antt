-- ===== src/Persistence/Written.antt =====
-- What `save_snapshot` writes when no statement fails: one row for each record, in the tables that
-- it has emptied.
use preload_ng.Prelude.{ℕ, ◌+◌, ◌≡◌, refl, false, none, some, [], map, length}
use preload_ng.Floats.{Floats}
use preload_ng.Error.{ok}
use preload_ng.Engine.Snapshot.{StoresSnapshot}
use preload_ng.Persistence.Tables.{
  Tables, exe_table, map_table, exe_map_table, markov_table, Sqlx, Transaction, execute,
}
use preload_ng.Persistence.Rows.{Codec, state_row, exe_row, map_row, exe_map_row, markov_row}
use preload_ng.Persistence.Repo.{commit, delete_all, insert_state, write_snapshot, save_snapshot}
use preload_ng.Persistence.Inserts.{Each-map, TableLaws, execute-ok, insert_all_lem}
use preload_ng.Persistence.Storable.{IsStorable}

module _ (F64 : Type 0) where
  pub exe_table-TableLaws : TableLaws (exe_table F64)
  exe_table-TableLaws = record {
    rows-with_rows = λ t rs. refl;
    with_rows-with_rows = λ t rs ss. refl;
    with_rows-rows = λ t. refl;
  }

  pub map_table-TableLaws : TableLaws (map_table F64)
  map_table-TableLaws = record {
    rows-with_rows = λ t rs. refl;
    with_rows-with_rows = λ t rs ss. refl;
    with_rows-rows = λ t. refl;
  }

  pub exe_map_table-TableLaws : TableLaws (exe_map_table F64)
  exe_map_table-TableLaws = record {
    rows-with_rows = λ t rs. refl;
    with_rows-with_rows = λ t rs ss. refl;
    with_rows-rows = λ t. refl;
  }

  pub markov_table-TableLaws : TableLaws (markov_table F64)
  markov_table-TableLaws = record {
    rows-with_rows = λ t rs. refl;
    with_rows-with_rows = λ t rs ss. refl;
    with_rows-rows = λ t. refl;
  }

module _ {fl : Floats} (codec : Codec fl) (sql : Sqlx) (never : (n : ℕ) → sql.fails n ≡ false) where
  open codec use {F64}

  -- The rows of a storable snapshot.
  abbrev pub tables_of : (s : StoresSnapshot fl) → IsStorable codec s → Tables F64
  tables_of s h = record {
    state = some (state_row codec s.meta s.state.model_time s.state.last_accounting_time);
    exes = map (exe_row codec) s.state.exes;
    maps = map (map_row codec) s.state.maps;
    exe_maps = map (exe_map_row codec) s.state.exe_maps;
    markovs = h.markov_rows;
  }

  delete_all-ok :
      (tx : Transaction F64)
      → delete_all codec sql tx
        ≡ ok (record {
          tables = record { state = none; exes = []; maps = []; exe_maps = []; markovs = [] };
          executed = tx.executed + 1 + 1 + 1 + 1 + 1;
        })
  unfolding delete_all execute
  delete_all-ok tx =
      rw
        (
          never tx.executed,
          never (tx.executed + 1),
          never (tx.executed + 1 + 1),
          never (tx.executed + 1 + 1 + 1),
          never (tx.executed + 1 + 1 + 1 + 1),
        )
        refl

  pub write_snapshot-ok :
      (s : StoresSnapshot fl) (h : IsStorable codec s) (tx : Transaction F64)
      → (n : ℕ) × (write_snapshot codec sql s tx
          ≡ ok (record { tables = tables_of s h; executed = n }))
  unfolding write_snapshot insert_state
  write_snapshot-ok s h tx =
      let n : ℕ = tx.executed + 1 + 1 + 1 + 1 + 1 + 1 in
      let all : Tables F64 = tables_of s h in
      let emptied : Tables F64 = record {
        state = none;
        exes = [];
        maps = [];
        exe_maps = [];
        markovs = [];
      } in
      let with_state : Tables F64 = record emptied { state = all.state } in
      let with_exes : Tables F64 = record with_state { exes = all.exes } in
      let with_maps : Tables F64 = record with_exes { maps = all.maps } in
      let with_exe_maps : Tables F64 = record with_maps { exe_maps = all.exe_maps } in
      let n2 : ℕ = n + length s.state.exes in
      let n3 : ℕ = n2 + length s.state.maps in
      let n4 : ℕ = n3 + length s.state.exe_maps in
      let exes_in =
        insert_all_lem codec sql never (exe_table F64) (exe_table-TableLaws F64)
          (λ r. ok (exe_row codec r)) s.state.exes all.exes
          (record { tables = with_state; executed = n }) (Each-map (exe_row codec) s.state.exes)
          h.exes-NoRepeat in
      let maps_in =
        insert_all_lem codec sql never (map_table F64) (map_table-TableLaws F64)
          (λ r. ok (map_row codec r)) s.state.maps all.maps
          (record { tables = with_exes; executed = n2 }) (Each-map (map_row codec) s.state.maps)
          h.maps-NoRepeat in
      let exe_maps_in =
        insert_all_lem codec sql never (exe_map_table F64) (exe_map_table-TableLaws F64)
          (λ r. ok (exe_map_row codec r)) s.state.exe_maps all.exe_maps
          (record { tables = with_maps; executed = n3 })
          (Each-map (exe_map_row codec) s.state.exe_maps) h.exe_maps-NoRepeat in
      let markovs_in =
        insert_all_lem codec sql never (markov_table F64) (markov_table-TableLaws F64)
          (markov_row codec) s.state.markov_edges h.markov_rows
          (record { tables = with_exe_maps; executed = n4 }) h.rows-Each h.markov_rows-NoRepeat in
      (
        n4 + length s.state.markov_edges,
        rw (delete_all-ok tx, execute-ok codec sql never, exes_in, maps_in, exe_maps_in, markovs_in)
            refl,
      )

  pub save_snapshot-ok :
      (s : StoresSnapshot fl) (h : IsStorable codec s) (tables : Tables F64)
      → save_snapshot codec sql s tables ≡ (ok tt, tables_of s h)
  unfolding save_snapshot commit
  save_snapshot-ok s h tables =
      let (n, written) = write_snapshot-ok s h (record { tables = tables; executed = 1 }) in
      rw (never 0, written, never n) refl
