-- ===== src/Persistence/Atomic.antt =====
-- A save that fails at any statement leaves the database as it was.
use preload_ng.Prelude.{
  ◌≡◌, refl, ◌≢◌, ◌⊎◌, inl, inr, none, some, [], map, if◌then◌else◌, Bool-cases,
}
use preload_ng.Floats.{Floats}
use preload_ng.Error.{Outcome, ok, err, panic, sqlx, IfOk, bind-IfOk, IfOk-map, if-IfOk}
use preload_ng.Engine.Snapshot.{StoresSnapshot}
use preload_ng.Persistence.Tables.{
  StateRow, Tables, exe_table, map_table, exe_map_table, markov_table, Sqlx, Transaction,
}
use preload_ng.Persistence.Rows.{Codec, state_row, exe_row, map_row, exe_map_row, markov_row}
use preload_ng.Persistence.Repo.{
  commit, insert_all, delete_all, insert_state, write_snapshot, save_snapshot,
}
use preload_ng.Persistence.Inserts.{Each}
use preload_ng.Persistence.Written.{
  exe_table-TableLaws, map_table-TableLaws, exe_map_table-TableLaws, markov_table-TableLaws,
}
use preload_ng.Persistence.Faults.{execute-IfOk, insert_all-IfOk, insert_mapped-IfOk, execute-then}

-- The tables hold the rows of the snapshot's records, in their order, and no other.
pub record HasRows {fl : Floats} (codec : Codec fl) (s : StoresSnapshot fl) (t : Tables codec.F64)
    : Type 0 where
  pub state_row_is :
      t.state ≡ some (state_row codec s.meta s.state.model_time s.state.last_accounting_time)
  pub exes_are : t.exes ≡ map (exe_row codec) s.state.exes
  pub maps_are : t.maps ≡ map (map_row codec) s.state.maps
  pub exe_maps_are : t.exe_maps ≡ map (exe_map_row codec) s.state.exe_maps
  pub markovs_are : Each (markov_row codec) s.state.markov_edges t.markovs

module _ {fl : Floats} (codec : Codec fl) (sql : Sqlx) where
  open codec use {F64}

  delete_all-IfOk :
      (tx : Transaction F64)
      → IfOk
          (λ tx'.
            tx'.tables ≡ record { state = none; exes = []; maps = []; exe_maps = []; markovs = [] })
          (delete_all codec sql tx)
  unfolding delete_all
  delete_all-IfOk tx =
      let Empty : Tables F64 → Type 0 =
        λ t. t ≡ record { state = none; exes = []; maps = []; exe_maps = []; markovs = [] } in
      execute-then codec sql (λ t. Empty t.tables) (λ t. t.state ≡ none) _ tx _ refl
        (λ tx1 no_state.
          execute-then codec sql (λ t. Empty t.tables) (λ t. (t.state ≡ none) × (t.exes ≡ [])) _ tx1
            _ (no_state, refl)
            (λ tx2 (h1, h2).
              execute-then codec sql (λ t. Empty t.tables)
                (λ t. (t.state ≡ none) × (t.exes ≡ []) × (t.maps ≡ [])) _ tx2 _ (h1, h2, refl)
                (λ tx3 (h1, h2, h3).
                  execute-then codec sql (λ t. Empty t.tables)
                    (λ t. (t.state ≡ none) × (t.exes ≡ []) × (t.maps ≡ []) × (t.exe_maps ≡ [])) _
                    tx3 _ (h1, h2, h3, refl)
                    (λ tx4 (h1, h2, h3, h4).
                      execute-IfOk codec sql Empty (λ t. ok (record t { markovs = [] })) tx4
                        (rw (h1, h2, h3, h4) refl)))))

  write_snapshot-IfOk :
      (s : StoresSnapshot fl) (tx : Transaction F64)
      → IfOk (λ tx'. HasRows codec s tx'.tables) (write_snapshot codec sql s tx)
  unfolding write_snapshot insert_state
  write_snapshot-IfOk s tx =
      let Q : Transaction F64 → Type 0 = λ tx'. HasRows codec s tx'.tables in
      let row : StateRow = state_row codec s.meta s.state.model_time s.state.last_accounting_time in
      let t1 : Tables F64 = record {
        state = some row;
        exes = [];
        maps = [];
        exe_maps = [];
        markovs = [];
      } in
      let t2 : Tables F64 = record t1 { exes = map (exe_row codec) s.state.exes } in
      let t3 : Tables F64 = record t2 { maps = map (map_row codec) s.state.maps } in
      let t4 : Tables F64 = record t3 { exe_maps = map (exe_map_row codec) s.state.exe_maps } in
      bind-IfOk _ Q (delete_all codec sql tx) _ (delete_all-IfOk tx) (λ tx0 empty.
        execute-then codec sql Q (λ t. t ≡ t1) (insert_state codec sql row) tx0 _ (rw empty refl)
          (λ tx1 e1.
            bind-IfOk _ Q
              (insert_all codec sql (exe_table F64) (λ r. ok (exe_row codec r)) s.state.exes tx1) _
              (insert_mapped-IfOk codec sql (exe_table F64) (exe_table-TableLaws F64)
                (exe_row codec) s.state.exes t1 tx1 e1 refl)
              (λ tx2 e2.
                bind-IfOk _ Q
                  (insert_all codec sql (map_table F64) (λ r. ok (map_row codec r)) s.state.maps
                    tx2)
                  _
                  (insert_mapped-IfOk codec sql (map_table F64) (map_table-TableLaws F64)
                    (map_row codec) s.state.maps t2 tx2 e2 refl)
                  (λ tx3 e3.
                    bind-IfOk _ Q
                      (insert_all codec sql (exe_map_table F64) (λ r. ok (exe_map_row codec r))
                        s.state.exe_maps tx3)
                      _
                      (insert_mapped-IfOk codec sql (exe_map_table F64)
                        (exe_map_table-TableLaws F64) (exe_map_row codec) s.state.exe_maps t3 tx3 e3
                        refl)
                      (λ tx4 e4.
                        IfOk-map {Q = Q}
                          (λ tx5 (rs, each, inserted).
                            rw (inserted, e4)
                              (record {
                                state_row_is = refl;
                                exes_are = refl;
                                maps_are = refl;
                                exe_maps_are = refl;
                                markovs_are = each;
                              }))
                          (insert_all codec sql (markov_table F64) (markov_row codec)
                            s.state.markov_edges tx4)
                          (insert_all-IfOk codec sql (markov_table F64) (markov_table-TableLaws F64)
                            (markov_row codec) s.state.markov_edges tx4))))))

  commit-all_or_nothing :
      (P : Tables F64 → Type 0) (tables : Tables F64) (o : Outcome (Transaction F64))
      → IfOk (λ tx. P tx.tables) o
      → (((commit codec sql tables o).0 ≡ ok tt) × P (commit codec sql tables o).1)
        ⊎ (((commit codec sql tables o).0 ≢ ok tt) × ((commit codec sql tables o).1 ≡ tables))
  unfolding commit
  commit-all_or_nothing P tables (ok tx) h = elim (Bool-cases (sql.fails tx.executed)) [
    | inl fails ↦ rw fails (inr (λ e. cc, refl))
    | inr works ↦ rw works (inl (refl, h))
  ]
  commit-all_or_nothing P tables (err e) h = inr (λ e. cc, refl)
  commit-all_or_nothing P tables panic h = inr (λ e. cc, refl)

  -- A save either succeeds, and the tables then hold exactly the rows of the snapshot, whatever they
  -- held before, or it fails, at whichever statement, and the tables are as before.
  pub save_snapshot-all_or_nothing :
      (s : StoresSnapshot fl) (tables : Tables F64)
      → (((save_snapshot codec sql s tables).0 ≡ ok tt)
          × HasRows codec s (save_snapshot codec sql s tables).1)
        ⊎ (((save_snapshot codec sql s tables).0 ≢ ok tt)
            × ((save_snapshot codec sql s tables).1 ≡ tables))
  unfolding save_snapshot
  save_snapshot-all_or_nothing s tables =
      let start : Transaction F64 = record { tables = tables; executed = 1 } in
      commit-all_or_nothing (HasRows codec s) tables
        (if sql.fails 0 then err sqlx else write_snapshot codec sql s start)
        (if-IfOk (λ tx. HasRows codec s tx.tables) (sql.fails 0) sqlx
          (write_snapshot codec sql s start) (write_snapshot-IfOk s start))
