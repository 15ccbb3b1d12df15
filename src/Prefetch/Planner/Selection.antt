-- ===== src/Prefetch/Planner/Selection.antt =====
-- The selection loop: what it spends, what it takes, and what it leaves out.
use preload_ng.Prelude.{
  ℕ, ◌+◌, ◌-◌, ◌*◌, ◌≤◌, ◌<◌, min, ◌≡◌, refl, ◌≢◌, ◌⊎◌, inl, inr, true, false, none, some, List, [],
  ◌∷◌, ◌++◌, map, arith, ℕ_discrete, ltb, ltb→lt, Bool-cases, Option-cases, length,
}
use mathlib.Core.List.{map-append}
use preload_ng.Prelude.HashMap.{member}
use preload_ng.Prelude.Members.{sum, sum-append, NoRepeat, NoRepeat-snoc, member-append}
use preload_ng.Domain.{MapSegment}
use preload_ng.Floats.{Floats}
use preload_ng.SlotMap.{SlotMap}
use preload_ng.Stores.MapStore
use preload_ng.Stores.MapStore.{MapStore}
use preload_ng.Prefetch.Planner.Defs.{u64_max, kb, Selection, consider, select}

module _ (fl : Floats) {s : SlotMap MapSegment} (maps : MapStore s) where
  -- The size of a map in bytes, and in whole kilobytes; 0 if it is not known.
  unfoldable pub bytes_of : ℕ → ℕ
  bytes_of id = elim (MapStore.get maps id) [ none ↦ 0 | some map ↦ map.length ]

  unfoldable pub kb_of : ℕ → ℕ
  kb_of id = elim (MapStore.get maps id) [ none ↦ 0 | some map ↦ kb map.length ]

  pub bytes-le-kb : (id : ℕ) → bytes_of id ≤ kb_of id * 1024
  unfolding bytes_of kb_of
  bytes-le-kb id = ground arith

  abbrev pub ids : Selection fl → List ℕ
  ids sel = map (λ item. item.id) sel.selected

  -- The budget that is spent is the size of what is selected.
  pub record IsAccounted (start : ℕ) (sel : Selection fl) : Type 0 where
    pub spent : sum kb_of (ids sel) + sel.budget_kb ≡ start
    pub counted : sel.total_bytes ≡ min (sum bytes_of (ids sel)) u64_max

  -- The selection with one more map.
  abbrev taken : Selection fl → ℕ × fl.F16 → MapSegment → Selection fl
  taken sel (id, score) map = record {
    budget_kb = sel.budget_kb - kb map.length;
    total_bytes = min (sel.total_bytes + map.length) u64_max;
    selected = sel.selected ++ record { id = id; score = score; index = length sel.selected } ∷ [];
  }

  -- A map is left out only if it is not known or does not fit.
  abbrev DoesNotFit : Selection fl → ℕ → Type 0
  DoesNotFit sel id = (MapStore.get maps id ≡ none) ⊎ (sel.budget_kb < kb_of id)

  consider_cases :
      (sel : Selection fl) (item : ℕ × fl.F16)
      → ((consider fl maps sel item ≡ sel) × DoesNotFit sel item.0)
        ⊎ ((segment : MapSegment) × (MapStore.get maps item.0 ≡ some segment)
            × (kb segment.length ≤ sel.budget_kb)
            × (consider fl maps sel item ≡ taken sel item segment))
  unfolding consider kb_of
  consider_cases sel (id, score) = elim (Option-cases (MapStore.get maps id)) [
    | inl unknown ↦ inl (rw (unknown, consider) refl, inl unknown)
    | inr (segment, known) ↦ elim (Bool-cases (ltb sel.budget_kb (kb segment.length))) [
      | inl large ↦
          inl (rw (known, consider, large) refl, inr (rw (known, kb_of) (ltb→lt _ _ large)))
      | inr fits ↦ inr (segment, known, ground arith, rw (known, consider, fits) refl)
    ]
  ]

  ids-taken :
      (sel : Selection fl) (item : ℕ × fl.F16) (segment : MapSegment)
      → ids (taken sel item segment) ≡ ids sel ++ item.0 ∷ []
  ids-taken sel item segment = map-append (λ x. x.id) sel.selected _

  taken-IsAccounted :
      (start : ℕ) (sel : Selection fl) (item : ℕ × fl.F16) (segment : MapSegment)
      → MapStore.get maps item.0 ≡ some segment
      → kb segment.length ≤ sel.budget_kb
      → IsAccounted start sel
      → IsAccounted start (taken sel item segment)
  unfolding kb_of bytes_of
  taken-IsAccounted start sel item segment known fits a = record {
    spent =
        rw (ids-taken sel item segment, sum-append kb_of (ids sel) (item.0 ∷ [])) (ground arith);
    counted =
        rw (ids-taken sel item segment, sum-append bytes_of (ids sel) (item.0 ∷ [])) (ground arith);
  }

  pub select-IsAccounted :
      (start : ℕ) (sel : Selection fl) (items : List (ℕ × fl.F16))
      → IsAccounted start sel
      → IsAccounted start (select fl maps sel items)
  unfolding select
  select-IsAccounted start sel [] a = a
  select-IsAccounted start sel (item ∷ items) a = elim (consider_cases sel item) [
    | inl (same, _) ↦ rw (same, select) (select-IsAccounted start sel items a)
    | inr (segment, known, fits, step) ↦
        rw (step, select)
          (select-IsAccounted start (taken sel item segment) items
            (taken-IsAccounted start sel item segment known fits a))
  ]

  -- Selecting goes on from what is selected, and never gives budget back.
  select_grows :
      (sel : Selection fl) (items : List (ℕ × fl.F16)) (id : ℕ)
      → ((select fl maps sel items).budget_kb ≤ sel.budget_kb)
        × (member ℕ_discrete (ids sel) id ≡ true
            → member ℕ_discrete (ids (select fl maps sel items)) id ≡ true)
  unfolding select
  select_grows sel [] id = (omega arith, λ h. h)
  select_grows sel (item ∷ items) id = elim (consider_cases sel item) [
    | inl (same, _) ↦ rw (same, select) (select_grows sel items id)
    | inr (segment, known, fits, step) ↦
        let (less_left, kept) = select_grows (taken sel item segment) items id in
        rw (step, select)
          (
            omega arith,
            λ h. kept (
                rw (ids-taken sel item segment)
                  (ground (arith, member-append ℕ_discrete (ids sel) (item.0 ∷ []) id))),
          )
  ]

  still_out :
      (sel sel' : Selection fl) (id : ℕ)
      → sel'.budget_kb ≤ sel.budget_kb
      → DoesNotFit sel id
      → DoesNotFit sel' id
  still_out sel sel' id h (inl unknown) = inl unknown
  still_out sel sel' id h (inr large) = inr (omega arith)

  -- Every item is selected in the end, or is not known, or is larger than the budget that is left.
  pub select-maximal :
      (sel : Selection fl) (items : List (ℕ × fl.F16)) (id : ℕ)
      → member ℕ_discrete (map (λ e. e.0) items) id ≡ true
      → (member ℕ_discrete (ids (select fl maps sel items)) id ≡ true)
        ⊎ DoesNotFit (select fl maps sel items) id
  unfolding select member
  select-maximal sel [] id h = absurd (cc)
  select-maximal sel (item ∷ items) id h = elim (ℕ_discrete item.0 id) [
    | no other ↦ select-maximal (consider fl maps sel item) items id (ground arith)
    | yes this ↦ elim (consider_cases sel item) [
      | inl (same, out) ↦
          rw (same, select, ← this)
            (inr
              (still_out sel (select fl maps sel items) item.0 (select_grows sel items id).0 out))
      | inr (segment, known, fits, step) ↦
          rw (step, select)
            (inl (
              (select_grows (taken sel item segment) items id).1 (
                rw (ids-taken sel item segment)
                  (ground (arith, member-append ℕ_discrete (ids sel) (item.0 ∷ []) id)))))
    ]
  ]

  -- What is selected was selected before or is among the items.
  pub select-subset :
      (sel : Selection fl) (items : List (ℕ × fl.F16)) (id : ℕ)
      → member ℕ_discrete (ids (select fl maps sel items)) id ≡ true
      → (member ℕ_discrete (ids sel) id ≡ true)
        ⊎ (member ℕ_discrete (map (λ e. e.0) items) id ≡ true)
  unfolding select member
  select-subset sel [] id h = inl h
  select-subset sel (item ∷ items) id h = elim (consider_cases sel item) [
    | inl (same, _) ↦ ground (arith, select-subset sel items id (rw (same, select) at h))
    | inr (segment, known, fits, step) ↦ ground (
      arith,
      select-subset (taken sel item segment) items id (rw (step, select) at h),
      ids-taken sel item segment,
      member-append ℕ_discrete (ids sel) (item.0 ∷ []) id,
    )
  ]

  -- Only known maps are selected.
  pub select-known :
      (sel : Selection fl) (items : List (ℕ × fl.F16)) (id : ℕ)
      → (member ℕ_discrete (ids sel) id ≡ true → MapStore.get maps id ≢ none)
      → member ℕ_discrete (ids (select fl maps sel items)) id ≡ true
      → MapStore.get maps id ≢ none
  unfolding select member
  select-known sel [] id old h = old h
  select-known sel (item ∷ items) id old h = elim (consider_cases sel item) [
    | inl (same, _) ↦ select-known sel items id old (rw (same, select) at h)
    | inr (segment, known, fits, step) ↦
        select-known (taken sel item segment) items id
          (λ m. ground (
            arith,
            old,
            ids-taken sel item segment,
            member-append ℕ_discrete (ids sel) (item.0 ∷ []) id,
          ))
          (rw (step, select) at h)
  ]

  -- Items without repetition are selected without repetition.
  pub select-NoRepeat :
      (sel : Selection fl) (items : List (ℕ × fl.F16))
      → NoRepeat ℕ_discrete (ids sel)
      → NoRepeat ℕ_discrete (map (λ e. e.0) items)
      → ((id : ℕ)
          → member ℕ_discrete (map (λ e. e.0) items) id ≡ true
          → member ℕ_discrete (ids sel) id ≡ false)
      → NoRepeat ℕ_discrete (ids (select fl maps sel items))
  unfolding select member
  select-NoRepeat sel [] h k apart = h
  select-NoRepeat sel (item ∷ items) h k apart = elim (consider_cases sel item) [
    | inl (same, _) ↦
        rw (same, select) (select-NoRepeat sel items h k.1 (λ id m. apart id (ground arith)))
    | inr (segment, known, fits, step) ↦
        rw (step, select)
          (select-NoRepeat (taken sel item segment) items
            (rw (ids-taken sel item segment)
              (NoRepeat-snoc ℕ_discrete (ids sel) item.0 h (apart item.0 (ground arith))))
            k.1
            (λ id m.
              rw (ids-taken sel item segment)
                (ground (arith, member-append ℕ_discrete (ids sel) (item.0 ∷ []) id, apart id))))
  ]
