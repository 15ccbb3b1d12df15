-- ===== src/Stores/ActiveSet/Window.antt =====
-- Which exes the active set keeps.
use preload_ng.Prelude.{
  ℕ, ◌≡◌, refl, ◌∙◌, false, not, Option, none, some, List, [], ◌∷◌, arith, ℕ_discrete,
  if◌then◌else◌,
}
use preload_ng.Prelude.HashMap as Map
use preload_ng.Prelude.HashMap.{
  HashMap, Distinct, retain, retained, collect, member, contains, contains_key,
}
use preload_ng.Stores.ActiveSet.{ActiveSet, update_all, update, expired, prune, exes}

-- When the exe was last seen.
abbrev pub seen : ActiveSet → ℕ → Option ℕ
seen st exe_id = Map.get ℕ_discrete st.last_seen exe_id

-- Each exe stands in the hash map once.
abbrev pub IsMap : ActiveSet → Type 0
IsMap st = Distinct ℕ_discrete st.last_seen

update_all-Distinct :
    (m : HashMap ℕ ℕ) (ids : List ℕ) (now : ℕ)
    → Distinct ℕ_discrete m
    → Distinct ℕ_discrete (update_all m ids now)
unfolding update_all
update_all-Distinct m [] now h = h
update_all-Distinct m (i ∷ ids) now h =
    update_all-Distinct (Map.insert ℕ_discrete m i now) ids now
      (Map.insert-Distinct ℕ_discrete m i now h)

get-update_all :
    (m : HashMap ℕ ℕ) (ids : List ℕ) (now k : ℕ)
    → Map.get ℕ_discrete (update_all m ids now) k
      ≡ (if member ℕ_discrete ids k then some now else Map.get ℕ_discrete m k)
unfolding update_all member
get-update_all m [] now k = refl
get-update_all m (i ∷ ids) now k = ground (
  arith,
  get-update_all (Map.insert ℕ_discrete m i now) ids now k,
  Map.get-insert ℕ_discrete m i now k,
)

-- `update` sets the time of the given exes to now and leaves the others.
pub seen-update :
    (st : ActiveSet) (active_now : List ℕ) (now k : ℕ)
    → seen (update st active_now now) k
      ≡ (if member ℕ_discrete active_now k then some now else seen st k)
unfolding update
seen-update st active_now now k = get-update_all st.last_seen active_now now k

pub update-IsMap :
    (st : ActiveSet) (active_now : List ℕ) (now : ℕ) → IsMap st → IsMap (update st active_now now)
unfolding update
update-IsMap st active_now now h = update_all-Distinct st.last_seen active_now now h

pub contains-exes :
    (st : ActiveSet) (k : ℕ)
    → contains ℕ_discrete (exes st) k ≡ contains_key ℕ_discrete st.last_seen k
unfolding exes
contains-exes st k =
    Map.contains-collect ℕ_discrete (Map.keys st.last_seen) k
    ∙ Map.member-keys ℕ_discrete st.last_seen k

pub prune-IsMap : (st : ActiveSet) (now window : ℕ) → IsMap st → IsMap (prune st now window).1
unfolding prune
prune-IsMap st now window h =
    Map.retain-Distinct ℕ_discrete (λ _ last. not (expired now window last)) st.last_seen h

-- `prune` keeps, with its time, an exe that was seen at most `window` seconds ago, and drops and
-- returns exactly the others.
pub seen-prune :
    (st : ActiveSet) (now window k : ℕ)
    → IsMap st
    → (seen (prune st now window).1 k
        ≡ retained (λ last. not (expired now window last)) (seen st k))
      × (contains ℕ_discrete (prune st now window).0 k
          ≡ elim (seen st k) [ none ↦ false | some last ↦ expired now window last ])
unfolding prune
seen-prune st now window k h = (
  Map.get-retain ℕ_discrete (λ _ last. not (expired now window last)) st.last_seen k h,
  ground (
    arith,
    Map.contains-collect ℕ_discrete
        (Map.keys (retain (λ _ last. expired now window last) st.last_seen)) k,
    Map.member-keys ℕ_discrete (retain (λ _ last. expired now window last) st.last_seen) k,
    Map.get-retain ℕ_discrete (λ _ last. expired now window last) st.last_seen k h,
  ),
)
