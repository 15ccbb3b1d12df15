-- ===== src/Stores/ActiveSet.antt =====
-- crates/orchestrator/src/stores/active_set.rs: when each exe was last seen running.
pub mod Window
use preload_ng.Prelude.{ℕ, ◌-◌, Bool, not, List, [], ◌∷◌, ℕ_discrete, ltb}
use preload_ng.Prelude.HashMap as Map
use preload_ng.Prelude.HashMap.{HashMap, HashSet, retain, collect, member}

pub record ActiveSet : Type 0 where
  pub last_seen : HashMap ℕ ℕ

abbrev pub empty : ActiveSet
empty = record { last_seen = [] }

update_all : HashMap ℕ ℕ → List ℕ → ℕ → HashMap ℕ ℕ
update_all m [] now = m
update_all m (exe_id ∷ ids) now = update_all (Map.insert ℕ_discrete m exe_id now) ids now

unfoldable pub update : ActiveSet → List ℕ → ℕ → ActiveSet
unfolding update_all
update st active_now now = record { last_seen = update_all st.last_seen active_now now }

-- `now.saturating_sub(last) > window`: subtraction on ℕ stops at 0 as the source's does.
abbrev pub expired : ℕ → ℕ → ℕ → Bool
expired now window last = ltb window (now - last)

unfoldable pub prune : ActiveSet → ℕ → ℕ → HashSet ℕ × ActiveSet
prune st now window = (
  collect ℕ_discrete (Map.keys (retain (λ _ last. expired now window last) st.last_seen)),
  record { last_seen = retain (λ _ last. not (expired now window last)) st.last_seen },
)

unfoldable pub exes : ActiveSet → HashSet ℕ
exes st = collect ℕ_discrete (Map.keys st.last_seen)
