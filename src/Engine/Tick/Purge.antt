-- ===== src/Engine/Tick/Purge.antt =====
-- What the purges remove from the map store.
use preload_ng.Prelude.{
  ℕ, ◌≡◌, refl, sym, ap, ◌∙◌, ◌⊎◌, inl, inr, Bool, true, false, ◌&&◌, not, none, some, List, [],
  ◌∷◌, arith, ℕ_discrete, if◌then◌else◌, Bool-cases, Option-cases,
}
use preload_ng.Prelude.HashMap as Map
use preload_ng.Prelude.HashMap.{member}
use preload_ng.Domain.{FilePath, MapKey, MapKey-discrete, MapSegment, segment_key}
use preload_ng.Stores.Keyed.{value_at}
use preload_ng.Stores.MapStore
use preload_ng.Stores.MapStore.Index as MapIndex
use preload_ng.Stores.Invariant
use preload_ng.Stores.Invariant.{IsValid, remove_map_by_key-IsValid}
use preload_ng.Stores.Model.{Env, EnvLaws, Stores, remove_map_by_key}
use preload_ng.Engine.Tick.{denied_keys, purge_denied, purge_stale, remove_all}

denied_keys-allowed :
    (allowed : FilePath → Bool) (entries : List (ℕ × MapSegment)) (k : MapKey)
    → allowed k.path ≡ true
    → member MapKey-discrete (denied_keys allowed entries) k ≡ false
unfolding denied_keys member
denied_keys-allowed allowed [] k h = refl
denied_keys-allowed allowed ((id, segment) ∷ entries) k h =
    ground (arith, denied_keys-allowed allowed entries k h, h)

denied_keys-denied :
    (allowed : FilePath → Bool) (entries : List (ℕ × MapSegment)) (id : ℕ) (segment : MapSegment)
    → allowed segment.path ≡ false
    → Map.get ℕ_discrete entries id ≡ some segment
    → member MapKey-discrete (denied_keys allowed entries) (segment_key segment) ≡ true
unfolding denied_keys member Map.get
denied_keys-denied allowed [] id segment h there = ground arith
denied_keys-denied allowed ((j, other) ∷ entries) id segment h there =
    ground (arith, denied_keys-denied allowed entries id segment h)

module _ {env : Env} (laws : EnvLaws env) where
  remove_all_lem :
      (st : Stores env) (keys : List MapKey)
      → IsValid st
      → IsValid (remove_all st keys)
        × ((k : MapKey)
            → MapIndex.segment_at (remove_all st keys).maps k
              ≡ (if member MapKey-discrete keys k then none else MapIndex.segment_at st.maps k))
  unfolding remove_all member
  remove_all_lem st [] v = (v, λ k. refl)
  remove_all_lem st (key ∷ keys) v =
      let (v', left) =
        remove_all_lem (remove_map_by_key st key) keys (remove_map_by_key-IsValid laws st v key) in
      let gone = (Invariant.remove_map_by_key_lem laws st v key).0 in
      (v', λ k. ground (arith, left k, gone k))

  -- A key without a segment, or one whose segment the iteration visits.
  segment_at-cases :
      (st : Stores env)
      → IsValid st
      → (k : MapKey)
      → (MapIndex.segment_at st.maps k ≡ none)
        ⊎ ((id : ℕ) × (segment : MapSegment) × (Map.get ℕ_discrete (MapStore.iter st.maps) id
              ≡ some segment)
            × (segment_key segment ≡ k))
  unfolding value_at MapStore.iter
  segment_at-cases st v k = elim (Option-cases (Map.get MapKey-discrete st.maps.by_key k)) [
    | inl absent ↦ inl (ground arith)
    | inr (id, known) ↦
        let keyed = v.maps.found k id known in
        let visited = laws.map_laws.get-iter st.maps.maps id in
        elim (Option-cases (env.map_slots.get st.maps.maps id)) [
          | inl gone ↦ inl (ground arith)
          | inr (segment, there) ↦ inr (id, segment, visited ∙ there, ground arith)
        ]
  ]

  -- The purge after loading keeps the stores valid, forgets exactly the segments whose path the
  -- policy denies, and changes no other segment.
  pub purge_denied_lem :
      (allowed : FilePath → Bool) (st : Stores env)
      → IsValid st
      → IsValid (purge_denied allowed st)
        × ((k : MapKey)
            → MapIndex.segment_at (purge_denied allowed st).maps k
              ≡ (if allowed k.path then MapIndex.segment_at st.maps k else none))
  unfolding purge_denied
  purge_denied_lem allowed st v =
      let keys = denied_keys allowed (MapStore.iter st.maps) in
      let (v', left) = remove_all_lem st keys v in
      (
        v',
        λ k. elim (Bool-cases (allowed k.path)) [
          | inl accepted ↦
              ground (arith, left k, denied_keys-allowed allowed (MapStore.iter st.maps) k accepted)
          | inr denied ↦ elim (segment_at-cases st v k) [
            | inl absent ↦ ground (arith, left k)
            | inr (id, segment, there, same) ↦
                let found =
                  denied_keys-denied allowed (MapStore.iter st.maps) id segment
                    (ap (λ m. allowed m.path) same ∙ denied) there in
                let listed = sym (ap (member MapKey-discrete keys) same) ∙ found in
                ground (arith, left k, listed)
          ]
        ],
      )

  -- The removal of stale maps keeps the stores valid, forgets the segments with a failed key whose
  -- file is gone, and changes no other segment.
  pub purge_stale_lem :
      (exists : FilePath → Bool) (st : Stores env) (failures : List MapKey)
      → IsValid st
      → IsValid (purge_stale exists st failures)
        × ((k : MapKey)
            → MapIndex.segment_at (purge_stale exists st failures).maps k ≡ (
                if member MapKey-discrete failures k && not (exists k.path)
                then none
                else MapIndex.segment_at st.maps k))
  unfolding purge_stale member
  purge_stale_lem exists st [] v = (v, λ k. refl)
  purge_stale_lem exists st (key ∷ keys) v = elim (Bool-cases (exists key.path)) [
    | inl there ↦
        let (v', left) = purge_stale_lem exists st keys v in
        rw (there, purge_stale) (v', λ k. ground (arith, left k, there))
    | inr lost ↦
        let (v', left) =
          purge_stale_lem exists (remove_map_by_key st key) keys
            (remove_map_by_key-IsValid laws st v key) in
        let gone = (Invariant.remove_map_by_key_lem laws st v key).0 in
        rw (lost, purge_stale) (v', λ k. ground (arith, left k, gone k, lost))
  ]
