-- ===== src/Stores/ExeStore/Index.antt =====
-- The exe store is a finite map from keys to exes.
use preload_ng.Prelude.{ℕ, ◌≡◌, refl, ◌≢◌, inl, inr, ite, Option, none, some, arith, Option-cases}
use preload_ng.Prelude.HashMap as Map
use preload_ng.Domain.{ExeKey, ExeKey-discrete, Exe, new_exe}
use preload_ng.SlotMap.{SlotMap, SlotMapLaws}
use preload_ng.Stores.Keyed
use preload_ng.Stores.Keyed.{IsKeyed, key_in, value_at}
use preload_ng.Stores.ExeStore.{ExeStore, empty, ensure, get, put, id_by_key}

abbrev pub exe_key : Exe → ExeKey
exe_key exe = exe.key

abbrev pub IsIndexed : {s : SlotMap Exe} → ExeStore s → Type 0
IsIndexed {s} st = IsKeyed ExeKey-discrete exe_key s st.exes st.by_key

-- The store as a map from keys to exes.
abbrev pub exe_at : {s : SlotMap Exe} → ExeStore s → ExeKey → Option Exe
exe_at {s} st = value_at ExeKey-discrete exe_key s st.exes st.by_key

module _ {s : SlotMap Exe} (laws : SlotMapLaws s) where
  pub empty-IsIndexed : IsIndexed (empty {s = s})
  empty-IsIndexed = Keyed.empty-IsKeyed ExeKey-discrete exe_key laws

  module _ (st : ExeStore s) (ix : IsIndexed st) where
    -- `ensure` keeps the index right.
    pub ensure-IsIndexed : (key : ExeKey) → IsIndexed (ensure st key).1
    unfolding ensure
    ensure-IsIndexed key = elim (Option-cases (Map.get ExeKey-discrete st.by_key key)) [
      | inr (id, known) ↦ rw (known, ensure) ix
      | inl new ↦
          rw (new, ensure)
            (Keyed.insert-IsKeyed ExeKey-discrete exe_key laws st.exes st.by_key ix (new_exe key)
              new)
    ]

    -- `ensure` adds a new exe if the key is unknown, and else changes no exe; the returned id is the
    -- id of the key from then on.
    pub exe_at-ensure :
        (key k : ExeKey)
        → (exe_at (ensure st key).1 k
            ≡ ite
                (ExeKey-discrete key k)
                (elim (exe_at st k) [ none ↦ some (new_exe key) | some old ↦ some old ])
                (exe_at st k))
          × (id_by_key (ensure st key).1 key ≡ some (ensure st key).0)
    unfolding ensure id_by_key value_at
    exe_at-ensure key k = elim (Option-cases (Map.get ExeKey-discrete st.by_key key)) [
      | inr (id, known) ↦ rw (known, ensure) (ground (arith, ix.found key id))
      | inl new ↦
          rw (new, ensure)
            (ground (
              arith,
              Keyed.value_at-insert ExeKey-discrete exe_key laws st.exes st.by_key ix (new_exe key)
                  k new,
              Map.get-insert ExeKey-discrete st.by_key key (s.insert st.exes (new_exe key)).0 key,
            ))
    ]

    -- A write that keeps the key keeps the index right, and changes the exe with this key only.
    pub put-IsIndexed :
        (id : ℕ) (old exe : Exe)
        → get st id ≡ some old
        → exe.key ≡ old.key
        → IsIndexed (put st id exe)
    unfolding put get
    put-IsIndexed id old exe there same =
        Keyed.set-IsKeyed ExeKey-discrete exe_key laws st.exes st.by_key ix id old exe there same

    pub exe_at-put :
        (id : ℕ) (old exe : Exe) (k : ExeKey)
        → get st id ≡ some old
        → exe.key ≡ old.key
        → exe_at (put st id exe) k ≡ ite (ExeKey-discrete old.key k) (some exe) (exe_at st k)
    unfolding put get
    exe_at-put id old exe k there same =
        Keyed.value_at-set ExeKey-discrete exe_key laws st.exes st.by_key ix id old exe k there same

  -- `ensure` keeps every exe, and the returned id has one.
  pub get-ensure :
      (st : ExeStore s) (key : ExeKey) (j : ℕ)
      → IsIndexed st
      → (get st j ≢ none → get (ensure st key).1 j ≡ get st j)
        × (get (ensure st key).1 (ensure st key).0 ≢ none)
  unfolding ensure get
  get-ensure st key j ix = elim (Option-cases (Map.get ExeKey-discrete st.by_key key)) [
    | inr (id, known) ↦ rw (known, ensure) (λ h. refl, λ h. ground (arith, ix.found key id))
    | inl new ↦
        rw (new, ensure)
          (
            (λ h. ground (
              arith,
              laws.get-insert st.exes (new_exe key) j,
              laws.get_fresh st.exes (new_exe key),
            )),
            (λ h.
                ground (
                  arith,
                  laws.get-insert st.exes (new_exe key) (s.insert st.exes (new_exe key)).0,
                )),
          )
  ]
