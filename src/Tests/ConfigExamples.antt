-- ===== src/Tests/ConfigExamples.antt =====
-- The theorem about the configuration's files, at two small documents.
use preload_ng.Prelude.{◌≡◌, refl, [], ◌∷◌}
use preload_ng.Config.Merge.{Item, value, table, no_entries, entry, merge_item}
use preload_ng.Config.Merge.Override
use preload_ng.Config.Merge.Look.{value_at, look_in, later_or, get_item, IsDistinct}

-- `[m] c = 60` and `d = 1`, and then `[m] c = 20`.
abbrev earlier : Item
earlier = table (
    entry (109 ∷ [])
      (table
        (entry (99 ∷ []) (value (54 ∷ 48 ∷ [])) (entry (100 ∷ []) (value (49 ∷ [])) no_entries)))
      no_entries)

abbrev later : Item
later =
    table (entry (109 ∷ []) (table (entry (99 ∷ []) (value (50 ∷ 48 ∷ [])) no_entries)) no_entries)

later-IsDistinct : IsDistinct later
unfolding get_item
later-IsDistinct = (refl, (refl, tt, tt), tt)

value_at-merge_item_example :
    value_at (merge_item later earlier) ((109 ∷ []) ∷ (100 ∷ []) ∷ [])
    ≡ later_or
        (look_in later ((109 ∷ []) ∷ (100 ∷ []) ∷ []))
        (value_at earlier ((109 ∷ []) ∷ (100 ∷ []) ∷ []))
value_at-merge_item_example =
    Override.value_at-merge_item later earlier ((109 ∷ []) ∷ (100 ∷ []) ∷ []) later-IsDistinct
