-- ===== src/Config/Merge.antt =====
-- crates/config/src/lib.rs: `merge_document` and `merge_item` over the items of toml_edit.
pub mod Look
pub mod Override
-- `toml_edit::Item`: a value (a number, a text, an array or an inline table) is its text. `Tables` is
-- an array of tables.
use preload_ng.Prelude.{ℕ, ◌-◌, ◌/◌, inl, ite, List, ℕ_discrete}

mutual
  pub data Item : Type 0 where
    no_item : Item
    value : List ℕ → Item
    table : Table → Item
    array_of_tables : Tables → Item

  pub data Table : Type 0 where
    no_entries : Table
    entry : (key : List ℕ) → Item → Table → Table

  pub data Tables : Type 0 where
    no_tables : Tables
    one_more : Table → Tables → Tables

pub Key-discrete : Discrete (List ℕ)
Key-discrete = hlevel ℕ_discrete

-- A change of the item that `target.entry(key).or_insert(Item::None)` gives.
unfoldable pub change_entry : (Item → Item) → Table → List ℕ → Table
change_entry f no_entries key = entry key (f no_item) no_entries
change_entry f (entry k item rest) key =
    ite (Key-discrete k key) (entry k (f item) rest) (entry k item (change_entry f rest key))

-- `target_array.push` for each table.
unfoldable pub push_all : Tables → Tables → Tables
push_all no_tables tables = tables
push_all (one_more t ts) tables = one_more t (push_all ts tables)

-- An item of the source over one of the target; a document is its root table.
unfoldable mutual
  pub merge_item : Item → Item → Item
  merge_item (table source) (table target) = table (merge_document source target)
  merge_item (array_of_tables source) (array_of_tables target) =
      array_of_tables (push_all target source)
  merge_item source target = source

  pub merge_document : Table → Table → Table
  merge_document no_entries target = target
  merge_document (entry key item source) target =
      merge_document source (change_entry (λ old. merge_item item old) target key)
