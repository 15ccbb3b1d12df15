-- ===== src/Config/Merge/Look.antt =====
-- What a document of crates/config/src/lib.rs holds at a path of keys.
use preload_ng.Prelude.{
  ℕ, ◌≡◌, refl, sym, ap, ◌∙◌, inl, inr, ite, Option, none, some, List, [], ◌∷◌, arith, Option-cases,
}
use preload_ng.Config.Merge.{
  Item, Table, no_item, value, table, no_entries, entry, Key-discrete, change_entry, merge_document,
}

-- The item of a key.
unfoldable pub get_item : Table → List ℕ → Option Item
get_item no_entries key = none
get_item (entry k item rest) key = ite (Key-discrete k key) (some item) (get_item rest key)

-- What a path of keys leads to: a value, nothing since a key is missing, or nothing since an item
-- that is no table stands there.
pub data Found : Type 0 where
  found : List ℕ → Found
  missing : Found
  blocked : Found

unfoldable pub look_in : Item → List (List ℕ) → Found
look_in (value v) [] = found v
look_in (table t) (key ∷ path) = elim (get_item t key) [
  | none ↦ missing
  | some item ↦ look_in item path
]
look_in item path = blocked

abbrev pub value_of : Found → Option (List ℕ)
value_of (found v) = some v
value_of missing = none
value_of blocked = none

-- The value at a path.
abbrev pub value_at : Item → List (List ℕ) → Option (List ℕ)
value_at item path = value_of (look_in item path)

-- The value of the later file, or where it says nothing that of the earlier one.
abbrev pub later_or : Found → Option (List ℕ) → Option (List ℕ)
later_or (found v) earlier = some v
later_or missing earlier = earlier
later_or blocked earlier = none

-- No key stands twice in a table, as TOML demands.
abbrev mutual
  pub IsDistinct : Item → Type 0
  IsDistinct (table t) = AreDistinct t
  IsDistinct _ = Unit

  pub AreDistinct : Table → Type 0
  AreDistinct no_entries = Unit
  AreDistinct (entry key item rest) =
      (get_item rest key ≡ none) × IsDistinct item × AreDistinct rest

-- What `entry(key).or_insert(Item::None)` gives.
abbrev pub item_or_none : Option Item → Item
item_or_none none = no_item
item_or_none (some old) = old

abbrev pub old_item : Table → List ℕ → Item
old_item t key = item_or_none (get_item t key)

pub get-change_entry :
    (f : Item → Item) (t : Table) (key k : List ℕ)
    → get_item (change_entry f t key) k
      ≡ ite (Key-discrete key k) (some (f (old_item t k))) (get_item t k)
unfolding get_item change_entry
get-change_entry f no_entries key k = ground arith
get-change_entry f (entry j item rest) key k = ground (arith, get-change_entry f rest key k)

pub later_or-none : (f : Found) → value_of f ≡ later_or f none
later_or-none (found v) = refl
later_or-none missing = refl
later_or-none blocked = refl

pub look_in-missing :
    (t : Table) (key : List ℕ) (path : List (List ℕ))
    → get_item t key ≡ none
    → look_in (table t) (key ∷ path) ≡ missing
unfolding look_in
look_in-missing t key path e = rw (look_in, e) refl

pub look_in-there :
    (t : Table) (key : List ℕ) (path : List (List ℕ)) (item : Item)
    → get_item t key ≡ some item
    → look_in (table t) (key ∷ path) ≡ look_in item path
unfolding look_in
look_in-there t key path item e = rw (look_in, e) refl

look_in-no_item : (path : List (List ℕ)) → look_in no_item path ≡ blocked
unfolding look_in
look_in-no_item [] = refl
look_in-no_item (key ∷ path) = refl

-- What a table gives at a path that begins with a key.
pub value_at-key :
    (t : Table) (key : List ℕ) (path : List (List ℕ))
    → value_at (table t) (key ∷ path) ≡ value_at (old_item t key) path
value_at-key t key path = elim (Option-cases (get_item t key)) [
  | inl absent ↦
      ap value_of (look_in-missing t key path absent)
      ∙ sym (ap value_of (look_in-no_item path))
      ∙ sym (ap (λ o. value_at (item_or_none o) path) absent)
  | inr (item, there) ↦
      ap value_of (look_in-there t key path item there)
      ∙ sym (ap (λ o. value_at (item_or_none o) path) there)
]

pub merge_document-empty :
    (target : Table) (key : List ℕ) (path : List (List ℕ))
    → value_at (table (merge_document no_entries target)) (key ∷ path)
      ≡ later_or (look_in (table no_entries) (key ∷ path)) (value_at (table target) (key ∷ path))
unfolding look_in get_item merge_document
merge_document-empty target key path = refl
