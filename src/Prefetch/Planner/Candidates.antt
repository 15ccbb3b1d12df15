-- ===== src/Prefetch/Planner/Candidates.antt =====
-- The candidates of the planner are the maps with a positive score, each once.
use preload_ng.Prelude.{
  ℕ, ◌≡◌, refl, ◌∙◌, Bool, false, none, some, List, [], ◌∷◌, map, arith, ℕ_discrete, keep,
}
use mathlib.Core.List.{Permᴰ}
use preload_ng.Prelude.HashMap as HashMap
use preload_ng.Prelude.HashMap.{
  member, Distinct, retain, retained, keys, member-keys, get-retain, retain-Distinct, contains_key,
}
use preload_ng.Prelude.Members.{NoRepeat, NoRepeat-Permᴰ, member-Permᴰ}
use preload_ng.Domain.{MapSegment}
use preload_ng.Floats.{Floats}
use preload_ng.SlotMap.{SlotMap}
use preload_ng.Stores.MapStore.{MapStore}
use preload_ng.Prefetch.Sort.{Std, SortLaws}
use preload_ng.Prefetch.Planner.Defs.{candidates}
use preload_ng.Prefetch.Planner.Perm.{map-Permᴰ, Permᴰ-symm}

keep-retain :
    {V : Type 0} (p : ℕ → V → Bool) (m : HashMap.HashMap ℕ V) → keep (λ e. p e.0 e.1) m ≡ retain p m
unfolding keep retain
keep-retain p [] = refl
keep-retain p ((k, v) ∷ m) = ground (arith, keep-retain p m)

Distinct-NoRepeat :
    {V : Type 0} (m : HashMap.HashMap ℕ V) → Distinct ℕ_discrete m → NoRepeat ℕ_discrete (keys m)
Distinct-NoRepeat [] h = tt
Distinct-NoRepeat ((k, v) ∷ m) h =
    (ground (arith, member-keys ℕ_discrete m k), Distinct-NoRepeat m h.1)

-- The map has a positive score.
abbrev pub is_scored : (fl : Floats) → HashMap.HashMap ℕ fl.F16 → ℕ → Bool
is_scored fl map_scores id = elim (HashMap.get ℕ_discrete map_scores id) [
  | none ↦ false
  | some score ↦ fl.is_positive score
]

module _ (fl : Floats) {s : SlotMap MapSegment} (maps : MapStore s) {std : Std}
    (laws : SortLaws std) (map_scores : HashMap.HashMap ℕ fl.F16)
    (distinct : Distinct ℕ_discrete map_scores) where
  abbrev ids_of : List (ℕ × fl.F16) → List ℕ
  ids_of = map (λ e. e.0)

  candidates-perm :
      Permᴰ
        (ids_of (candidates fl maps std map_scores))
        (keys (retain (λ _ score. fl.is_positive score) map_scores))
  unfolding candidates
  candidates-perm =
      map-Permᴰ (λ e. e.0)
        (rw (← keep-retain (λ _ score. fl.is_positive score) map_scores) (
          laws.sort-perm (ℕ × fl.F16) (λ a b. fl.total_cmp b.1 a.1)
            (keep (λ e. fl.is_positive e.1) map_scores)))

  pub candidates-NoRepeat : NoRepeat ℕ_discrete (ids_of (candidates fl maps std map_scores))
  candidates-NoRepeat = NoRepeat-Permᴰ ℕ_discrete (Permᴰ-symm candidates-perm) (
      Distinct-NoRepeat _
        (retain-Distinct ℕ_discrete (λ _ score. fl.is_positive score) map_scores distinct))

  pub member-candidates :
      (id : ℕ)
      → member ℕ_discrete (ids_of (candidates fl maps std map_scores)) id
        ≡ is_scored fl map_scores id
  member-candidates id =
      member-Permᴰ ℕ_discrete id candidates-perm
      ∙ ground (
        arith,
        member-keys ℕ_discrete (retain (λ _ score. fl.is_positive score) map_scores) id,
        get-retain ℕ_discrete (λ _ score. fl.is_positive score) map_scores id distinct,
      )
