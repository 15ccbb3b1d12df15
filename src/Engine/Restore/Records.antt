-- ===== src/Engine/Restore/Records.antt =====
-- The first loops of `stores_from_snapshot` in crates/orchestrator/src/engine.rs, over the records of
-- maps and exes, keep the stores valid.
use preload_ng.Prelude.{ℕ, ◌≡◌, refl, inl, inr, Option, none, some, List, [], ◌∷◌, Bool-cases}
use preload_ng.Domain.{ExeKey, Exe, new_segment}
use preload_ng.Error.{ok_or, Holds}
use preload_ng.Observation.ModelUpdater.{modify_exe}
use preload_ng.Observation.ModelUpdater.Preserves
use preload_ng.Stores.ActiveSet
use preload_ng.Stores.ActiveSet.Window
use preload_ng.Stores.MarkovGraph.{MarkovGraph}
use preload_ng.Stores.MarkovGraph.Index as Graph
use preload_ng.Stores.Invariant.{IsValid}
use preload_ng.Stores.Preserve
use preload_ng.Stores.Model.{Env, EnvLaws, Stores, ensure_exe, ensure_map}
use preload_ng.Engine.Snapshot.{
  ExeRecord, MapRecord, restore_maps, restored, restore_exes, is_recent, restore_active,
}

pub ok_or-Holds : {A : Type 0} (o : Option A) (e : _) → Holds (λ a. o ≡ some a) (ok_or o e)
ok_or-Holds none e = tt
ok_or-Holds (some a) e = refl

-- The invariant does not read the two times.
pub at_times-IsValid :
    {env : Env} (st : Stores env) (model_time last_accounting_time : ℕ)
    → IsValid st
    → IsValid (record st { model_time = model_time; last_accounting_time = last_accounting_time })
at_times-IsValid st t u v = record {
  exes = v.exes;
  maps = v.maps;
  exe_maps = v.exe_maps;
  markov = v.markov;
  active = v.active;
  exe_known = v.exe_known;
  map_known = v.map_known;
}

pub with_markov-IsValid :
    {env : Env} (st : Stores env) (g : MarkovGraph env.floats)
    → IsValid st
    → Graph.IsValid g
    → IsValid (record st { markov = g })
with_markov-IsValid st g v valid = record {
  exes = v.exes;
  maps = v.maps;
  exe_maps = v.exe_maps;
  markov = valid;
  active = v.active;
  exe_known = v.exe_known;
  map_known = v.map_known;
}

with_active-IsValid :
    {env : Env} (st : Stores env) (active : _)
    → IsValid st
    → Window.IsMap active
    → IsValid (record st { active = active })
with_active-IsValid st active v once = record {
  exes = v.exes;
  maps = v.maps;
  exe_maps = v.exe_maps;
  markov = v.markov;
  active = once;
  exe_known = v.exe_known;
  map_known = v.map_known;
}

module _ {env : Env} (laws : EnvLaws env) where
  pub restore_maps-IsValid :
      (st : Stores env) (records : List MapRecord)
      → IsValid st
      → IsValid (restore_maps env st records)
  unfolding restore_maps
  restore_maps-IsValid st [] v = v
  restore_maps-IsValid st (r ∷ records) v =
      let segment = new_segment r.path r.offset r.length r.update_time in
      restore_maps-IsValid (ensure_map st segment).1 records
        (Preserve.ensure_map-IsValid laws st v segment)

  pub restore_exes-IsValid :
      (st : Stores env) (records : List ExeRecord)
      → IsValid st
      → IsValid (restore_exes env st records)
  unfolding restore_exes
  restore_exes-IsValid st [] v = v
  restore_exes-IsValid st (r ∷ records) v =
      let key : ExeKey = record { path = r.path } in
      let known = ensure_exe st key in
      restore_exes-IsValid (modify_exe known.1 known.0 (restored env r)) records (
        Preserves.modify_exe-IsValid laws known.1 known.0 (restored env r)
          (Preserve.ensure_exe-IsValid laws st v key) (λ exe. refl))

  pub restore_active-IsValid :
      (active_window : ℕ) (st : Stores env) (exes : List (ℕ × Exe))
      → IsValid st
      → IsValid (restore_active env active_window st exes)
  unfolding restore_active
  restore_active-IsValid active_window st [] v = v
  restore_active-IsValid active_window st ((exe_id, exe) ∷ exes) v =
      elim (Bool-cases (is_recent env st.model_time active_window exe)) [
        | inl recent ↦
            rw (recent, restore_active)
              (restore_active-IsValid active_window
                (record st { active = ActiveSet.update st.active (exe_id ∷ []) st.model_time }) exes
                (with_active-IsValid st (ActiveSet.update st.active (exe_id ∷ []) st.model_time) v
                  (Window.update-IsMap st.active (exe_id ∷ []) st.model_time v.active)))
        | inr old ↦ rw (old, restore_active) (restore_active-IsValid active_window st exes v)
      ]
