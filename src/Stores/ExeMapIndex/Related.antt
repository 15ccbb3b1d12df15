-- ===== src/Stores/ExeMapIndex/Related.antt =====
-- The index as a relation between exes and maps.
use preload_ng.Prelude.{
  ℕ, ◌≡◌, refl, ◌≢◌, inl, inr, ite, Bool, true, false, ◌&&◌, not, none, some, List, [], ◌∷◌, arith,
  ℕ_discrete, Option-cases,
}
use preload_ng.Prelude.HashMap.{
  HashMap, HashSet, get, insert, remove, contains, add, keys, member, get-insert, get-remove,
  member-keys,
}
use preload_ng.Stores.ExeMapIndex.Defs.{
  empty, ExeMapIndex, get_or_default, add_to, store_or_drop, remove_from, remove_from_each, attach,
  detach_map, remove_exe,
}

-- `x` stands in the set at `k`.
pub holds : HashMap ℕ (HashSet ℕ) → ℕ → ℕ → Bool
holds m k x = contains ℕ_discrete (get_or_default m k) x

-- No key of the map holds an empty set.
abbrev pub NoEmpty : HashMap ℕ (HashSet ℕ) → Type 0
NoEmpty m = (k : ℕ) → get ℕ_discrete m k ≢ some []

holds-add_to :
    (m : HashMap ℕ (HashSet ℕ)) (k x j y : ℕ)
    → holds (add_to m k x) j y
      ≡ ite (ℕ_discrete k j) (ite (ℕ_discrete x y) true (holds m j y)) (holds m j y)
unfolding holds add_to
holds-add_to m k x j y = ground (
  arith,
  get-insert ℕ_discrete m k (add ℕ_discrete (get_or_default m k) x) j,
  get-insert ℕ_discrete (get_or_default m k) x tt y,
)

get_or_default-store_or_drop :
    (m : HashMap ℕ (HashSet ℕ)) (k : ℕ) (s : HashSet ℕ) (j : ℕ)
    → get_or_default (store_or_drop m k s) j ≡ ite (ℕ_discrete k j) s (get_or_default m j)
unfolding store_or_drop
get_or_default-store_or_drop m k [] j = ground (arith, get-remove ℕ_discrete m k j)
get_or_default-store_or_drop m k (e ∷ s) j = ground (arith, get-insert ℕ_discrete m k (e ∷ s) j)

holds-remove_from :
    (m : HashMap ℕ (HashSet ℕ)) (k x j y : ℕ)
    → holds (remove_from m k x) j y
      ≡ ite (ℕ_discrete k j) (ite (ℕ_discrete x y) false (holds m j y)) (holds m j y)
unfolding holds remove_from get
holds-remove_from m k x j y = elim (Option-cases (get ℕ_discrete m k)) [
  | inl none_there ↦ rw (none_there, remove_from) (ground arith)
  | inr (s, there) ↦
      rw (there, remove_from)
        (ground (
          arith,
          get_or_default-store_or_drop m k (remove ℕ_discrete s x) j,
          get-remove ℕ_discrete s x y,
        ))
]

holds-remove_from_each :
    (m : HashMap ℕ (HashSet ℕ)) (ks : List ℕ) (x j y : ℕ)
    → holds (remove_from_each m ks x) j y
      ≡ holds m j y && not (member ℕ_discrete ks j && member ℕ_discrete (x ∷ []) y)
unfolding remove_from_each member
holds-remove_from_each m [] x j y = ground arith
holds-remove_from_each m (k ∷ ks) x j y =
    ground (arith, holds-remove_from m k x j y, holds-remove_from_each (remove_from m k x) ks x j y)

insert-ne-nil : (s : HashSet ℕ) (x : ℕ) → add ℕ_discrete s x ≢ []
unfolding insert
insert-ne-nil [] x e = cc
insert-ne-nil ((y, u) ∷ s) x e = ground arith

NoEmpty-add_to : (m : HashMap ℕ (HashSet ℕ)) (k x : ℕ) → NoEmpty m → NoEmpty (add_to m k x)
unfolding add_to
NoEmpty-add_to m k x h j e = ground (
  arith,
  h j,
  insert-ne-nil (get_or_default m k) x,
  get-insert ℕ_discrete m k (add ℕ_discrete (get_or_default m k) x) j,
)

NoEmpty-store_or_drop :
    (m : HashMap ℕ (HashSet ℕ)) (k : ℕ) (s : HashSet ℕ) → NoEmpty m → NoEmpty (store_or_drop m k s)
unfolding store_or_drop
NoEmpty-store_or_drop m k [] h j e = ground (arith, h j, get-remove ℕ_discrete m k j)
NoEmpty-store_or_drop m k (x ∷ s) h j e = ground (arith, h j, get-insert ℕ_discrete m k (x ∷ s) j)

NoEmpty-remove_from :
    (m : HashMap ℕ (HashSet ℕ)) (k x : ℕ) → NoEmpty m → NoEmpty (remove_from m k x)
unfolding remove_from
NoEmpty-remove_from m k x h = elim (Option-cases (get ℕ_discrete m k)) [
  | inl none_there ↦ rw (none_there, remove_from) h
  | inr (s, there) ↦ rw (there, remove_from) (NoEmpty-store_or_drop m k (remove ℕ_discrete s x) h)
]

NoEmpty-remove_from_each :
    (m : HashMap ℕ (HashSet ℕ)) (ks : List ℕ) (x : ℕ)
    → NoEmpty m
    → NoEmpty (remove_from_each m ks x)
unfolding remove_from_each
NoEmpty-remove_from_each m [] x h = h
NoEmpty-remove_from_each m (k ∷ ks) x h =
    NoEmpty-remove_from_each (remove_from m k x) ks x (NoEmpty-remove_from m k x h)

NoEmpty-remove : (m : HashMap ℕ (HashSet ℕ)) (k : ℕ) → NoEmpty m → NoEmpty (remove ℕ_discrete m k)
NoEmpty-remove m k h j e = ground (arith, h j, get-remove ℕ_discrete m k j)

-- Exe `e` is recorded as having mapped map `m`.
pub related : ExeMapIndex → ℕ → ℕ → Bool
related ix e m = holds ix.exe_to_maps e m

-- The two directions agree, and no set is empty.
pub record IsConsistent (ix : ExeMapIndex) : Type 0 where
  pub symmetric : (e m : ℕ) → holds ix.exe_to_maps e m ≡ holds ix.map_to_exes m e
  pub no_empty_exe : NoEmpty ix.exe_to_maps
  pub no_empty_map : NoEmpty ix.map_to_exes

pub empty-IsConsistent : IsConsistent empty
unfolding holds get
empty-IsConsistent = record {
  symmetric = λ e m. refl;
  no_empty_exe = λ k h. cc;
  no_empty_map = λ k h. cc;
}

pub related-empty : (e m : ℕ) → related empty e m ≡ false
unfolding related holds get
related-empty e m = refl

-- `attach` keeps the index consistent, and adds exactly the pair.
pub attach-related :
    (ix : ExeMapIndex) (exe_id map_id : ℕ)
    → IsConsistent ix
    → IsConsistent (attach ix exe_id map_id)
      × ((e m : ℕ)
          → related (attach ix exe_id map_id) e m
            ≡ ite
                (ℕ_discrete exe_id e)
                (ite (ℕ_discrete map_id m) true (related ix e m))
                (related ix e m))
unfolding attach related
attach-related ix exe_id map_id c = (
  record {
    symmetric = λ e m. ground (
      arith,
      c.symmetric e m,
      holds-add_to ix.exe_to_maps exe_id map_id e m,
      holds-add_to ix.map_to_exes map_id exe_id m e,
    );
    no_empty_exe = NoEmpty-add_to ix.exe_to_maps exe_id map_id c.no_empty_exe;
    no_empty_map = NoEmpty-add_to ix.map_to_exes map_id exe_id c.no_empty_map;
  },
  λ e m. holds-add_to ix.exe_to_maps exe_id map_id e m,
)

-- What the set at `k` holds, by the list of its keys.
member-holds :
    (m : HashMap ℕ (HashSet ℕ)) (k x : ℕ) (s : HashSet ℕ)
    → get ℕ_discrete m k ≡ some s
    → member ℕ_discrete (keys s) x ≡ holds m k x
unfolding holds
member-holds m k x s h = ground (arith, member-keys ℕ_discrete s x)

holds-remove :
    (m : HashMap ℕ (HashSet ℕ)) (k j x : ℕ)
    → holds (remove ℕ_discrete m k) j x ≡ ite (ℕ_discrete k j) false (holds m j x)
unfolding holds get
holds-remove m k j x = ground (arith, get-remove ℕ_discrete m k j)

holds_absent :
    (m : HashMap ℕ (HashSet ℕ)) (k x : ℕ) → get ℕ_discrete m k ≡ none → holds m k x ≡ false
unfolding holds get
holds_absent m k x h = ground arith

-- `detach_map` keeps the index consistent, and removes exactly the pairs of the map.
pub detach_map-related :
    (ix : ExeMapIndex) (map_id : ℕ)
    → IsConsistent ix
    → IsConsistent (detach_map ix map_id)
      × ((e m : ℕ)
          → related (detach_map ix map_id) e m ≡ ite (ℕ_discrete map_id m) false (related ix e m))
unfolding detach_map related member
detach_map-related ix map_id c = elim (Option-cases (get ℕ_discrete ix.map_to_exes map_id)) [
  | inl absent ↦
      rw (absent, detach_map)
        (c, λ e m. ground (arith, c.symmetric e m, holds_absent ix.map_to_exes map_id e absent))
  | inr (exes, there) ↦
      rw (there, detach_map)
        (
          record {
            symmetric = λ e m. ground (
              arith,
              c.symmetric e m,
              member-holds ix.map_to_exes map_id e exes there,
              holds-remove_from_each ix.exe_to_maps (keys exes) map_id e m,
              holds-remove ix.map_to_exes map_id m e,
            );
            no_empty_exe =
                NoEmpty-remove_from_each ix.exe_to_maps (keys exes) map_id c.no_empty_exe;
            no_empty_map = NoEmpty-remove ix.map_to_exes map_id c.no_empty_map;
          },
          λ e m. ground (
            arith,
            c.symmetric e m,
            member-holds ix.map_to_exes map_id e exes there,
            holds-remove_from_each ix.exe_to_maps (keys exes) map_id e m,
          ),
        )
]

-- `remove_exe` keeps the index consistent, and removes exactly the pairs of the exe.
pub remove_exe-related :
    (ix : ExeMapIndex) (exe_id : ℕ)
    → IsConsistent ix
    → IsConsistent (remove_exe ix exe_id)
      × ((e m : ℕ)
          → related (remove_exe ix exe_id) e m ≡ ite (ℕ_discrete exe_id e) false (related ix e m))
unfolding remove_exe related member
remove_exe-related ix exe_id c = elim (Option-cases (get ℕ_discrete ix.exe_to_maps exe_id)) [
  | inl absent ↦
      rw (absent, remove_exe)
        (c, λ e m. ground (arith, holds_absent ix.exe_to_maps exe_id m absent))
  | inr (maps, there) ↦
      rw (there, remove_exe)
        (
          record {
            symmetric = λ e m. ground (
              arith,
              c.symmetric e m,
              member-holds ix.exe_to_maps exe_id m maps there,
              holds-remove_from_each ix.map_to_exes (keys maps) exe_id m e,
              holds-remove ix.exe_to_maps exe_id e m,
            );
            no_empty_exe = NoEmpty-remove ix.exe_to_maps exe_id c.no_empty_exe;
            no_empty_map =
                NoEmpty-remove_from_each ix.map_to_exes (keys maps) exe_id c.no_empty_map;
          },
          λ e m. holds-remove ix.exe_to_maps exe_id e m,
        )
]
