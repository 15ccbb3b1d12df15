-- ===== src/Persistence/Tables.antt =====
-- The database of crates/orchestrator/migrations/20260131000000_init.sql, as far as the statements
-- of crates/orchestrator/src/persistence/repo.rs use it: the rows of each table in the order of
-- their insertion, with the primary keys of the schema. SQLite itself and sqlx are `Sqlx`.
use preload_ng.Prelude.{ℕ, ◌+◌, Bool, Option, List, [], ◌∷◌, ◌++◌, map, ℕ_discrete, if◌then◌else◌}
use preload_ng.Prelude.HashMap.{member}
use preload_ng.Prelude.Int.{ℤ}
use preload_ng.Error.{Outcome, ok, err, sqlx, ◌>>=◌}
use mathlib.Core.List.{Permᴰ}

-- A TEXT or BLOB value, by its bytes.
abbrev pub Bytes : Type 0
Bytes = List ℕ

pub record StateRow : Type 0 where
  pub schema_version : ℤ
  pub app_version : Option Bytes
  pub created_at : Option Bytes
  pub model_time : ℤ
  pub last_accounting_time : ℤ

pub record ExeRow : Type 0 where
  pub path : Bytes
  pub total_running_time : ℤ
  pub last_seen_time : Option ℤ

pub record MapRowKey : Type 0 where
  pub path : Bytes
  pub offset : ℤ
  pub length : ℤ

pub record MapRow : Type 0 where
  pub key : MapRowKey
  pub update_time : ℤ

pub record ExeMapRowKey : Type 0 where
  pub exe_path : Bytes
  pub segment : MapRowKey

pub record ExeMapRow (F64 : Type 0) : Type 0 where
  pub key : ExeMapRowKey
  pub prob : F64

pub record MarkovRowKey : Type 0 where
  pub exe_a : Bytes
  pub exe_b : Bytes

pub record MarkovRow : Type 0 where
  pub key : MarkovRowKey
  pub time_to_leave : Bytes
  pub transition_prob : Bytes
  pub both_running_time : ℤ

-- The table `state` has at most the one row with the id 1.
pub record Tables (F64 : Type 0) : Type 0 where
  pub state : Option StateRow
  pub exes : List ExeRow
  pub maps : List MapRow
  pub exe_maps : List (ExeMapRow F64)
  pub markovs : List MarkovRow

-- A table among the tables, with its primary key.
pub record Table (F64 Row Key : Type 0) : Type 0 where
  pub rows : Tables F64 → List Row
  pub with_rows : Tables F64 → List Row → Tables F64
  pub same_key : Discrete Key
  pub key_of : Row → Key

pub Bytes-discrete : Discrete Bytes
Bytes-discrete = hlevel ℕ_discrete

pub ℤ-discrete : Discrete ℤ
ℤ-discrete = hlevel ℕ_discrete

pub MapRowKey-discrete : Discrete MapRowKey
MapRowKey-discrete = hlevel ℕ_discrete

pub ExeMapRowKey-discrete : Discrete ExeMapRowKey
ExeMapRowKey-discrete = hlevel ℕ_discrete

pub MarkovRowKey-discrete : Discrete MarkovRowKey
MarkovRowKey-discrete = hlevel ℕ_discrete

module _ (F64 : Type 0) where
  abbrev pub exe_table : Table F64 ExeRow Bytes
  exe_table = record {
    rows = λ t. t.exes;
    with_rows = λ t rows. record t { exes = rows };
    same_key = Bytes-discrete;
    key_of = λ r. r.path;
  }

  abbrev pub map_table : Table F64 MapRow MapRowKey
  map_table = record {
    rows = λ t. t.maps;
    with_rows = λ t rows. record t { maps = rows };
    same_key = MapRowKey-discrete;
    key_of = λ r. r.key;
  }

  abbrev pub exe_map_table : Table F64 (ExeMapRow F64) ExeMapRowKey
  exe_map_table = record {
    rows = λ t. t.exe_maps;
    with_rows = λ t rows. record t { exe_maps = rows };
    same_key = ExeMapRowKey-discrete;
    key_of = λ r. r.key;
  }

  abbrev pub markov_table : Table F64 MarkovRow MarkovRowKey
  markov_table = record {
    rows = λ t. t.markovs;
    with_rows = λ t rows. record t { markovs = rows };
    same_key = MarkovRowKey-discrete;
    key_of = λ r. r.key;
  }

-- What the database does beyond its tables: whether the n-th statement fails, for a reason outside
-- them such as a full disk, and the order in which a SELECT gives the rows.
pub record Sqlx : Type 1 where
  pub fails : ℕ → Bool
  pub select_order : (A : Type 0) → List A → List A

pub record SqlxLaws (sql : Sqlx) : Type 1 where
  pub select-perm : (A : Type 0) (rows : List A) → Permᴰ (sql.select_order A rows) rows

-- A transaction: its own view of the tables, and the number of statements that it has executed.
pub record Transaction (F64 : Type 0) : Type 0 where
  pub tables : Tables F64
  pub executed : ℕ

-- `query.fetch_all(&self.pool).await?`, as the n-th statement.
unfoldable pub fetch_all : Sqlx → {Row : Type 0} → ℕ → List Row → Outcome (List Row)
fetch_all sql {Row} n rows = if sql.fails n then err sqlx else ok (sql.select_order Row rows)

module _ {F64 : Type 0} where
  -- `query.execute(&mut *tx).await?`.
  unfoldable pub execute :
      Sqlx → (Tables F64 → Outcome (Tables F64)) → Transaction F64 → Outcome (Transaction F64)
  execute sql statement tx =
      if sql.fails tx.executed
      then err sqlx
      else (statement tx.tables >>= λ tables.
          ok (record { tables = tables; executed = tx.executed + 1 }))

  -- `INSERT INTO` a table, which a row with the same primary key makes fail.
  unfoldable pub insert_row :
      {Row Key : Type 0} → Table F64 Row Key → Row → Tables F64 → Outcome (Tables F64)
  insert_row table row tables =
      if member table.same_key (map table.key_of (table.rows tables)) (table.key_of row)
      then err sqlx
      else ok (table.with_rows tables (table.rows tables ++ row ∷ []))
