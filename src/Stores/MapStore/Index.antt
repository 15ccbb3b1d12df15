-- ===== src/Stores/MapStore/Index.antt =====
-- The map store is a finite map from keys to segments.
use preload_ng.Prelude.{
  ℕ, ◌≡◌, refl, ◌∙◌, ◌≢◌, inl, inr, ite, true, false, Option, none, some, arith, ℕ_discrete,
  Option-cases,
}
use preload_ng.Prelude.HashMap as Map
use preload_ng.Domain.{MapKey, MapKey-discrete, MapSegment, segment_key}
use preload_ng.SlotMap.{SlotMap, SlotMapLaws}
use preload_ng.Stores.Keyed
use preload_ng.Stores.Keyed.{IsKeyed, key_in, value_at}
use preload_ng.Stores.MapStore.{get, MapStore, empty, ensure_with_flag, id_by_key, remove}

abbrev pub IsIndexed : {s : SlotMap MapSegment} → MapStore s → Type 0
IsIndexed {s} st = IsKeyed MapKey-discrete segment_key s st.maps st.by_key

-- The store as a map from keys to segments.
abbrev pub segment_at : {s : SlotMap MapSegment} → MapStore s → MapKey → Option MapSegment
segment_at {s} st = value_at MapKey-discrete segment_key s st.maps st.by_key

module _ {s : SlotMap MapSegment} (laws : SlotMapLaws s) where
  pub empty-IsIndexed : IsIndexed (empty {s = s})
  empty-IsIndexed = Keyed.empty-IsKeyed MapKey-discrete segment_key laws

  module _ (st : MapStore s) (ix : IsIndexed st) where
    -- `ensure_with_flag` keeps the index right.
    pub ensure_with_flag-IsIndexed :
        (segment : MapSegment) → IsIndexed (ensure_with_flag st segment).1
    unfolding ensure_with_flag
    ensure_with_flag-IsIndexed segment =
        elim (Option-cases (Map.get MapKey-discrete st.by_key (segment_key segment))) [
          | inr (id, known) ↦ rw (known, ensure_with_flag) ix
          | inl new ↦
              rw (new, ensure_with_flag)
                (Keyed.insert-IsKeyed MapKey-discrete segment_key laws st.maps st.by_key ix segment
                  new)
        ]

    -- `ensure_with_flag` stores the segment if its key is unknown, and else changes no segment.
    pub segment_at-ensure_with_flag :
        (segment : MapSegment) (key : MapKey)
        → segment_at (ensure_with_flag st segment).1 key
          ≡ ite
              (MapKey-discrete (segment_key segment) key)
              (elim (segment_at st key) [ none ↦ some segment | some old ↦ some old ])
              (segment_at st key)
    unfolding ensure_with_flag value_at
    segment_at-ensure_with_flag segment key =
        elim (Option-cases (Map.get MapKey-discrete st.by_key (segment_key segment))) [
          | inr (id, known) ↦
              rw (known, ensure_with_flag) (ground (arith, ix.found (segment_key segment) id))
          | inl new ↦
              rw (new, ensure_with_flag)
                (ground (
                  arith,
                  Keyed.value_at-insert MapKey-discrete segment_key laws st.maps st.by_key ix
                      segment key new,
                ))
        ]

    -- The id that `ensure_with_flag` returns is the id of the key from then on, and the flag says
    -- whether the key was unknown before.
    pub ensure_with_flag-id_by_key :
        (segment : MapSegment)
        → (id_by_key (ensure_with_flag st segment).1 (segment_key segment)
            ≡ some (ensure_with_flag st segment).0.0)
          × ((ensure_with_flag st segment).0.1
              ≡ elim (segment_at st (segment_key segment)) [ none ↦ true | some _ ↦ false ])
    unfolding ensure_with_flag id_by_key value_at
    ensure_with_flag-id_by_key segment =
        elim (Option-cases (Map.get MapKey-discrete st.by_key (segment_key segment))) [
          | inr (id, known) ↦
              rw (known, ensure_with_flag) (ground (arith, ix.found (segment_key segment) id))
          | inl new ↦
              rw (new, ensure_with_flag)
                (ground (
                  arith,
                  Map.get-insert MapKey-discrete st.by_key (segment_key segment)
                      (s.insert st.maps segment).0 (segment_key segment),
                ))
        ]

    -- `remove` keeps the index right.
    pub remove-IsIndexed : (id : ℕ) → IsIndexed (remove st id).1
    unfolding remove
    remove-IsIndexed id = elim (Option-cases (s.get st.maps id)) [
      | inl absent ↦
          rw (laws.removed st.maps id ∙ absent, remove)
            (Keyed.remove_absent-IsKeyed MapKey-discrete segment_key laws st.maps st.by_key ix id
              absent)
      | inr (segment, there) ↦
          rw (laws.removed st.maps id ∙ there, remove)
            (Keyed.remove-IsKeyed MapKey-discrete segment_key laws st.maps st.by_key ix id segment
              there)
    ]

    -- `remove` of the id of a key forgets this key and no other.
    pub segment_at-remove :
        (id : ℕ) (k key : MapKey)
        → id_by_key st k ≡ some id
        → segment_at (remove st id).1 key ≡ ite (MapKey-discrete k key) none (segment_at st key)
    unfolding remove id_by_key
    segment_at-remove id k key known = elim (Option-cases (s.get st.maps id)) [
      | inl absent ↦ absurd (ground (arith, ix.found k id))
      | inr (segment, there) ↦
          let same : segment_key segment ≡ k = ground (arith, ix.found k id) in
          rw (laws.removed st.maps id ∙ there, remove, ← same)
            (Keyed.value_at-remove MapKey-discrete segment_key laws st.maps st.by_key ix id segment
              key there)
    ]

  -- `remove` takes the segment of this id and no other.
  pub get-remove :
      (st : MapStore s) (id j : ℕ) → get (remove st id).1 j ≡ ite (ℕ_discrete id j) none (get st j)
  unfolding remove get
  get-remove st id j = elim (Option-cases (s.get st.maps id)) [
    | inl absent ↦ rw (laws.removed st.maps id ∙ absent, remove) (laws.get-remove st.maps id j)
    | inr (segment, there) ↦
        rw (laws.removed st.maps id ∙ there, remove) (laws.get-remove st.maps id j)
  ]

  -- `ensure_with_flag` keeps every segment, and the returned id has one.
  pub get-ensure_with_flag :
      (st : MapStore s) (segment : MapSegment) (j : ℕ)
      → IsIndexed st
      → (get st j ≢ none → get (ensure_with_flag st segment).1 j ≡ get st j)
        × (get (ensure_with_flag st segment).1 (ensure_with_flag st segment).0.0 ≢ none)
  unfolding ensure_with_flag get
  get-ensure_with_flag st segment j ix =
      elim (Option-cases (Map.get MapKey-discrete st.by_key (segment_key segment))) [
        | inr (id, known) ↦
            rw (known, ensure_with_flag)
              (λ h. refl, λ h. ground (arith, ix.found (segment_key segment) id))
        | inl new ↦
            rw (new, ensure_with_flag)
              (
                (λ h.
                    ground
                      (arith, laws.get-insert st.maps segment j, laws.get_fresh st.maps segment)),
                (λ h. ground (arith, laws.get-insert st.maps segment (s.insert st.maps segment).0)),
              )
      ]
