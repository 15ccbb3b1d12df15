-- ===== src/Persistence/Faults.antt =====
-- What a statement or a loop of insertions has done if it did not fail.
use preload_ng.Prelude.{◌+◌, ◌≡◌, refl, ◌∙◌, List, [], ◌∷◌, ◌++◌, map}
use preload_ng.Floats.{Floats}
use preload_ng.Error.{Outcome, ok, sqlx, ◌>>=◌, IfOk, bind-IfOk, IfOk-map, IfOk-itself, if-IfOk}
use mathlib.Core.List.{append_assoc, append-nil}
use preload_ng.Prelude.HashMap.{member}
use preload_ng.Persistence.Tables.{Tables, Table, Sqlx, Transaction, execute, insert_row}
use preload_ng.Persistence.Rows.{Codec}
use preload_ng.Persistence.Repo.{insert_all}
use preload_ng.Persistence.Inserts.{Each, TableLaws}

Each-map-inv :
    {A Row : Type 0} (f : A → Row) (xs : List A) (rs : List Row)
    → Each (λ a. ok (f a)) xs rs
    → rs ≡ map f xs
Each-map-inv f [] [] e = refl
Each-map-inv f (a ∷ xs) (r ∷ rs) (made, e) = let rest = Each-map-inv f xs rs e in cc
Each-map-inv f [] (r ∷ rs) e = elim e [ ]
Each-map-inv f (a ∷ xs) [] e = elim e [ ]

module _ {fl : Floats} (codec : Codec fl) (sql : Sqlx) where
  open codec use {F64}

  -- A statement that succeeds did what it says.
  pub execute-IfOk :
      (P : Tables F64 → Type 0) (statement : Tables F64 → Outcome (Tables F64))
      (tx : Transaction F64)
      → IfOk P (statement tx.tables)
      → IfOk (λ tx'. P tx'.tables) (execute sql statement tx)
  unfolding execute
  execute-IfOk P statement tx h =
      if-IfOk (λ tx'. P tx'.tables) (sql.fails tx.executed) sqlx
        (statement tx.tables >>= λ tables.
          ok (record { tables = tables; executed = tx.executed + 1 }))
        (bind-IfOk P (λ tx'. P tx'.tables) (statement tx.tables)
          (λ tables. ok (record { tables = tables; executed = tx.executed + 1 })) h (λ t p. p))

  module _ {A Row Key : Type 0} (table : Table F64 Row Key) (laws : TableLaws table)
      (row_of : A → Outcome Row) where
    insert_row-IfOk :
        (row : Row) (t : Tables F64)
        → IfOk (λ t'. t' ≡ table.with_rows t (table.rows t ++ row ∷ [])) (insert_row table row t)
    unfolding insert_row
    insert_row-IfOk row t =
        let t' = table.with_rows t (table.rows t ++ row ∷ []) in
        if-IfOk (λ u. u ≡ t')
          (member table.same_key (map table.key_of (table.rows t)) (table.key_of row)) sqlx (ok t')
          refl

    again :
        (t t' : Tables F64) (row : Row) (rs : List Row)
        → t' ≡ table.with_rows t (table.rows t ++ row ∷ [])
        → table.with_rows t' (table.rows t' ++ rs) ≡ table.with_rows t (table.rows t ++ row ∷ rs)
    again t t' row rs one =
        let first = table.rows t ++ row ∷ [] in
        rw
          (
            one,
            laws.rows-with_rows t first,
            append_assoc (table.rows t) (row ∷ []) rs,
            laws.with_rows-with_rows t first (table.rows t ++ row ∷ rs),
          )
          refl

    pub insert_all-IfOk :
        (xs : List A) (tx : Transaction F64)
        → IfOk
            (λ tx'.
              (rs : List Row) × Each row_of xs rs
              × (tx'.tables ≡ table.with_rows tx.tables (table.rows tx.tables ++ rs)))
            (insert_all codec sql table row_of xs tx)
    unfolding insert_all
    insert_all-IfOk [] tx =
        ([], tt, rw (append-nil (table.rows tx.tables), laws.with_rows-rows tx.tables) refl)
    insert_all-IfOk (a ∷ xs) tx =
        let Inserted : Transaction F64 → Type 0 = λ tx'.
          (rs : List Row) × Each row_of (a ∷ xs) rs
          × (tx'.tables ≡ table.with_rows tx.tables (table.rows tx.tables ++ rs)) in
        bind-IfOk (λ row. row_of a ≡ ok row) Inserted (row_of a)
          (λ row. execute sql (insert_row table row) tx >>= λ tx'.
            insert_all codec sql table row_of xs tx')
          (IfOk-itself (row_of a))
          (λ row made.
            bind-IfOk
              (λ tx'. tx'.tables ≡ table.with_rows tx.tables (table.rows tx.tables ++ row ∷ []))
              Inserted (execute sql (insert_row table row) tx)
              (λ tx'. insert_all codec sql table row_of xs tx')
              (execute-IfOk (λ t. t ≡ table.with_rows tx.tables (table.rows tx.tables ++ row ∷ []))
                (insert_row table row) tx (insert_row-IfOk row tx.tables))
              (λ tx' one.
                IfOk-map
                  (λ tx2 (rs, each, rest).
                    (row ∷ rs, (made, each), rest ∙ again tx.tables tx'.tables row rs one))
                  (insert_all codec sql table row_of xs tx') (insert_all-IfOk xs tx')))

  -- A loop over records that all have a row, on an empty table.
  pub insert_mapped-IfOk :
      {A Row Key : Type 0} (table : Table F64 Row Key) (laws : TableLaws table) (f : A → Row)
      (xs : List A) (t : Tables F64) (tx : Transaction F64)
      → tx.tables ≡ t
      → table.rows t ≡ []
      → IfOk
          (λ tx'. tx'.tables ≡ table.with_rows t (map f xs))
          (insert_all codec sql table (λ a. ok (f a)) xs tx)
  insert_mapped-IfOk table laws f xs t tx same empty =
      IfOk-map
        (λ tx' (rs, each, inserted). inserted ∙ rw (same, empty, Each-map-inv f xs rs each) refl)
        (insert_all codec sql table (λ a. ok (f a)) xs tx)
        (insert_all-IfOk table laws (λ a. ok (f a)) xs tx)

  -- A statement, and what follows it.
  pub execute-then :
      (Q : Transaction F64 → Type 0) (P : Tables F64 → Type 0)
      (statement : Tables F64 → Outcome (Tables F64)) (tx : Transaction F64)
      (k : Transaction F64 → Outcome (Transaction F64))
      → IfOk P (statement tx.tables)
      → ((tx' : Transaction F64) → P tx'.tables → IfOk Q (k tx'))
      → IfOk Q (execute sql statement tx >>= k)
  execute-then Q P statement tx k h next =
      bind-IfOk (λ tx'. P tx'.tables) Q (execute sql statement tx) k (execute-IfOk P statement tx h)
        next
