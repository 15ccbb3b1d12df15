-- ===== src/Stores/Keyed.antt =====
-- What the exe store and the map store share: values in a slot map, found by a key that each value
-- carries through a hash map from keys to ids.
use preload_ng.Prelude.{ℕ, ◌≡◌, inl, inr, ite, Option, none, some, [], arith, Option-cases}
use preload_ng.Prelude.HashMap as Map
use preload_ng.Prelude.HashMap.{HashMap}
use preload_ng.SlotMap.{SlotMap, SlotMapLaws}

module _ {V K : Type 0} (dec : Discrete K) (key_of : V → K) where
  abbrev pub key_in : Option V → Option K
  key_in none = none
  key_in (some v) = some (key_of v)

  -- A key leads to an id exactly when the value with this id has the key.
  pub record IsKeyed (s : SlotMap V) (slots : s.Slots) (by_key : HashMap K ℕ) : Type 0 where
    pub found :
        (key : K) (id : ℕ) → Map.get dec by_key key ≡ some id → key_in (s.get slots id) ≡ some key
    pub listed :
        (key : K) (id : ℕ) → key_in (s.get slots id) ≡ some key → Map.get dec by_key key ≡ some id

  -- The abstract view: a map from keys to values.
  unfoldable pub value_at : (s : SlotMap V) → s.Slots → HashMap K ℕ → K → Option V
  value_at s slots by_key key = elim (Map.get dec by_key key) [
    | none ↦ none
    | some id ↦ s.get slots id
  ]

  module _ {s : SlotMap V} (laws : SlotMapLaws s) where
    pub empty-IsKeyed : IsKeyed s s.empty []
    unfolding Map.get
    empty-IsKeyed = record {
      found = λ key id h. ground arith;
      listed = λ key id h. ground (arith, laws.get-empty id);
    }

    module _ (slots : s.Slots) (by_key : HashMap K ℕ) (ix : IsKeyed s slots by_key) where
      pub insert-IsKeyed :
          (v : V)
          → Map.get dec by_key (key_of v) ≡ none
          → IsKeyed s (s.insert slots v).1 (Map.insert dec by_key (key_of v) (s.insert slots v).0)
      insert-IsKeyed v new = record {
        found = λ key id h. ground (
          arith,
          Map.get-insert dec by_key (key_of v) (s.insert slots v).0 key,
          laws.get-insert slots v id,
          laws.get_fresh slots v,
          ix.found key id,
        );
        listed = λ key id h. ground (
          arith,
          Map.get-insert dec by_key (key_of v) (s.insert slots v).0 key,
          laws.get-insert slots v id,
          laws.get_fresh slots v,
          ix.listed key id,
        );
      }

      pub remove-IsKeyed :
          (id : ℕ) (v : V)
          → s.get slots id ≡ some v
          → IsKeyed s (s.remove slots id).1 (Map.remove dec by_key (key_of v))
      remove-IsKeyed id v there = record {
        found = λ key j h. ground (
          arith,
          Map.get-remove dec by_key (key_of v) key,
          laws.get-remove slots id j,
          ix.found key j,
          ix.listed (key_of v) id,
        );
        listed = λ key j h. ground (
          arith,
          Map.get-remove dec by_key (key_of v) key,
          laws.get-remove slots id j,
          ix.listed key j,
          ix.listed (key_of v) id,
          ix.found (key_of v) j,
        );
      }

      -- A write that keeps the key keeps the index.
      pub set-IsKeyed :
          (id : ℕ) (v w : V)
          → s.get slots id ≡ some v
          → key_of w ≡ key_of v
          → IsKeyed s (s.set slots id w) by_key
      set-IsKeyed id v w there same = record {
        found = λ key j h. ground (arith, laws.get-set slots id w j, ix.found key j);
        listed = λ key j h. ground (arith, laws.get-set slots id w j, ix.listed key j);
      }

      pub remove_absent-IsKeyed :
          (id : ℕ) → s.get slots id ≡ none → IsKeyed s (s.remove slots id).1 by_key
      remove_absent-IsKeyed id absent = record {
        found = λ key j h. ground (arith, laws.get-remove slots id j, ix.found key j);
        listed = λ key j h. ground (arith, laws.get-remove slots id j, ix.listed key j);
      }

      pub value_at-insert :
          (v : V) (key : K)
          → Map.get dec by_key (key_of v) ≡ none
          → value_at s
              (s.insert slots v).1
              (Map.insert dec by_key (key_of v) (s.insert slots v).0)
              key
            ≡ ite (dec (key_of v) key) (some v) (value_at s slots by_key key)
      unfolding value_at
      value_at-insert v key new = elim (Option-cases (Map.get dec by_key key)) [
        | inl absent ↦ ground (
          arith,
          Map.get-insert dec by_key (key_of v) (s.insert slots v).0 key,
          laws.get-insert slots v (s.insert slots v).0,
        )
        | inr (id, there) ↦ ground (
          arith,
          Map.get-insert dec by_key (key_of v) (s.insert slots v).0 key,
          laws.get-insert slots v (s.insert slots v).0,
          laws.get-insert slots v id,
          laws.get_fresh slots v,
          ix.found key id,
        )
      ]

      pub value_at-remove :
          (id : ℕ) (v : V) (key : K)
          → s.get slots id ≡ some v
          → value_at s (s.remove slots id).1 (Map.remove dec by_key (key_of v)) key
            ≡ ite (dec (key_of v) key) none (value_at s slots by_key key)
      unfolding value_at
      value_at-remove id v key there = elim (Option-cases (Map.get dec by_key key)) [
        | inl absent ↦ ground (arith, Map.get-remove dec by_key (key_of v) key)
        | inr (j, found) ↦ ground (
          arith,
          Map.get-remove dec by_key (key_of v) key,
          laws.get-remove slots id j,
          ix.found key j,
        )
      ]

      pub value_at-set :
          (id : ℕ) (v w : V) (key : K)
          → s.get slots id ≡ some v
          → key_of w ≡ key_of v
          → value_at s (s.set slots id w) by_key key
            ≡ ite (dec (key_of v) key) (some w) (value_at s slots by_key key)
      unfolding value_at
      value_at-set id v w key there same = elim (Option-cases (Map.get dec by_key key)) [
        | inl absent ↦ ground (arith, ix.listed (key_of v) id)
        | inr (j, found) ↦
            ground (arith, laws.get-set slots id w j, ix.found key j, ix.listed (key_of v) id)
      ]
