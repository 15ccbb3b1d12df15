-- ===== src/Config/Merge/Override.antt =====
-- A value of a later file of crates/config/src/lib.rs overrides that of an earlier one.
use preload_ng.Prelude.{
  ℕ, ◌≡◌, refl, sym, ap, ap₂, ◌∙◌, subst, inl, inr, if_pos, if_neg, none, some, List, [], ◌∷◌,
  arith, Option-cases,
}
use preload_ng.Config.Merge.{
  Item, Table, Tables, no_item, value, table, array_of_tables, no_entries, entry, Key-discrete,
  change_entry, merge_item, merge_document,
}
use preload_ng.Config.Merge.Look.{
  get_item, look_in, value_of, value_at, later_or, IsDistinct, AreDistinct, old_item,
  get-change_entry, later_or-none, look_in-missing, look_in-there, value_at-key,
  merge_document-empty,
}

array-blocked :
    (ss : Tables) (target : Item) (path : List (List ℕ))
    → value_at (merge_item (array_of_tables ss) target) path ≡ none
unfolding look_in merge_item
array-blocked ss no_item [] = refl
array-blocked ss no_item (key ∷ path) = refl
array-blocked ss (value v) [] = refl
array-blocked ss (value v) (key ∷ path) = refl
array-blocked ss (table t) [] = refl
array-blocked ss (table t) (key ∷ path) = refl
array-blocked ss (array_of_tables ts) [] = refl
array-blocked ss (array_of_tables ts) (key ∷ path) = refl

-- Tables that have the same item at the key.
look_in-same :
    (t u : Table) (key : List ℕ) (path : List (List ℕ))
    → get_item t key ≡ get_item u key
    → look_in (table t) (key ∷ path) ≡ look_in (table u) (key ∷ path)
look_in-same t u key path e = elim (Option-cases (get_item u key)) [
  | inl absent ↦ look_in-missing t key path (e ∙ absent) ∙ sym (look_in-missing u key path absent)
  | inr (item, there) ↦
      look_in-there t key path item (e ∙ there) ∙ sym (look_in-there u key path item there)
]

get_item-same :
    (k key : List ℕ) (item : Item) (rest : Table)
    → k ≡ key
    → get_item (entry k item rest) key ≡ some item
unfolding get_item
get_item-same k key item rest e = ground (arith, e)

get_item-other :
    (k key : List ℕ) (item : Item) (rest : Table)
    → ¬ (k ≡ key)
    → get_item (entry k item rest) key ≡ get_item rest key
unfolding get_item
get_item-other k key item rest n = if_neg (Key-discrete k key) n (some item) (get_item rest key)

merge_document-entry :
    (k : List ℕ) (item : Item) (rest target : Table)
    → merge_document (entry k item rest) target
      ≡ merge_document rest (change_entry (λ old. merge_item item old) target k)
unfolding merge_document
merge_document-entry k item rest target = refl

-- One entry of the later table.
merge_entry-step :
    (k : List ℕ) (item : Item) (rest target : Table) (key : List ℕ) (path : List (List ℕ))
    → get_item rest k ≡ none
    → (let changed : Table = change_entry (λ old. merge_item item old) target k in
        value_at (table (merge_document rest changed)) (key ∷ path)
        ≡ later_or (look_in (table rest) (key ∷ path)) (value_at (table changed) (key ∷ path)))
    → ((old : Item)
        → value_at (merge_item item old) path ≡ later_or (look_in item path) (value_at old path))
    → value_at (table (merge_document (entry k item rest) target)) (key ∷ path)
      ≡ later_or
          (look_in (table (entry k item rest)) (key ∷ path))
          (value_at (table target) (key ∷ path))
merge_entry-step k item rest target key path once ih below =
    let changed : Table = change_entry (λ old. merge_item item old) target k in
    let got = get-change_entry (λ old. merge_item item old) target k key in
    let start =
      ap (λ t. value_at (table t) (key ∷ path)) (merge_document-entry k item rest target) ∙ ih in
    elim (Key-discrete k key) [
      | yes same ↦
          let later =
            look_in-there (entry k item rest) key path item (get_item-same k key item rest same) in
          let gone =
            look_in-missing rest key path (subst (λ j. get_item rest j ≡ none) same once) in
          let there =
            got
            ∙ if_pos (Key-discrete k key) same (some (merge_item item (old_item target key)))
                (get_item target key) in
          start
          ∙ ap (λ f. later_or f (value_at (table changed) (key ∷ path))) gone
          ∙ ap value_of
              (look_in-there changed key path (merge_item item (old_item target key)) there)
          ∙ below (old_item target key)
          ∙ sym (ap₂ later_or later (value_at-key target key path))
      | no other ↦
          let later =
            look_in-same (entry k item rest) rest key path (get_item-other k key item rest other) in
          let kept = look_in-same changed target key path (
            got
            ∙ if_neg (Key-discrete k key) other (some (merge_item item (old_item target key)))
                (get_item target key)) in
          start ∙ sym (ap₂ later_or later (ap value_of (sym kept)))
    ]

mutual
  unfolding look_in merge_item

  merge_item_value :
      (source target : Item) (path : List (List ℕ))
      → IsDistinct source
      → value_at (merge_item source target) path
        ≡ later_or (look_in source path) (value_at target path)
  merge_item_value (table source) (table target) [] d = refl
  merge_item_value (table source) (table target) (key ∷ path) d =
      merge_document_value source target key path d
  merge_item_value (table source) no_item [] d = refl
  merge_item_value (table source) no_item (key ∷ path) d =
      later_or-none (look_in (table source) (key ∷ path))
  merge_item_value (table source) (value v) [] d = refl
  merge_item_value (table source) (value v) (key ∷ path) d =
      later_or-none (look_in (table source) (key ∷ path))
  merge_item_value (table source) (array_of_tables ts) [] d = refl
  merge_item_value (table source) (array_of_tables ts) (key ∷ path) d =
      later_or-none (look_in (table source) (key ∷ path))
  merge_item_value (value v) target [] d = refl
  merge_item_value (value v) target (key ∷ path) d = refl
  merge_item_value no_item target [] d = refl
  merge_item_value no_item target (key ∷ path) d = refl
  merge_item_value (array_of_tables ss) target [] d = array-blocked ss target []
  merge_item_value (array_of_tables ss) target (key ∷ path) d = array-blocked ss target (key ∷ path)

  merge_document_value :
      (source target : Table) (key : List ℕ) (path : List (List ℕ))
      → AreDistinct source
      → value_at (table (merge_document source target)) (key ∷ path)
        ≡ later_or (look_in (table source) (key ∷ path)) (value_at (table target) (key ∷ path))
  merge_document_value no_entries target key path d = merge_document-empty target key path
  merge_document_value (entry k item rest) target key path (once, d, ds) =
      merge_entry-step k item rest target key path once
        (merge_document_value rest (change_entry (λ old. merge_item item old) target k) key path ds)
        (λ old. merge_item_value item old path d)

-- A value of the later item is the one that is read, a key that it does not have is read from the
-- earlier one, and what it has in place of a table hides the earlier one.
pub value_at-merge_item :
    (source target : Item) (path : List (List ℕ))
    → IsDistinct source
    → value_at (merge_item source target) path
      ≡ later_or (look_in source path) (value_at target path)
value_at-merge_item source target path d = merge_item_value source target path d
