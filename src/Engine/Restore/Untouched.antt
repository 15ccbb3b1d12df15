-- ===== src/Engine/Restore/Untouched.antt =====
-- The steps of `stores_from_snapshot` in crates/orchestrator/src/engine.rs that leave the graph alone,
-- and the records that would join an exe with itself.
use preload_ng.Prelude.{
  ℕ, ◌≡◌, refl, ◌∙◌, inl, inr, ite, Bool, true, false, List, [], ◌∷◌, Bool-cases, Option-cases,
}
use preload_ng.Domain.{FilePath-discrete, Exe, new_segment}
use preload_ng.Floats.{Floats}
use preload_ng.Observation.ModelUpdater.{modify_exe}
use preload_ng.Stores.ActiveSet
use preload_ng.Stores.ExeStore
use preload_ng.Stores.Model.{Env, Stores, ensure_exe, ensure_map}
use preload_ng.Engine.Snapshot.{
  ExeRecord, MapRecord, MarkovRecord, restore_maps, restored, restore_exes, is_recent,
  restore_active,
}

-- A record of an edge that joins an exe with itself.
abbrev pub joins_itself : {fl : Floats} → MarkovRecord fl → Bool
joins_itself r = ite (FilePath-discrete r.exe_a r.exe_b) true false

module _ {env : Env} where
  modify_exe-markov :
      (st : Stores env) (id : ℕ) (f : Exe → Exe) → (modify_exe st id f).markov ≡ st.markov
  unfolding modify_exe
  modify_exe-markov st id f = elim (Option-cases (ExeStore.get st.exes id)) [
    | inl absent ↦ rw (absent, modify_exe) refl
    | inr (exe, there) ↦ rw (there, modify_exe) refl
  ]

  pub restore_maps-markov :
      (st : Stores env) (records : List MapRecord)
      → (restore_maps env st records).markov ≡ st.markov
  unfolding restore_maps ensure_map
  restore_maps-markov st [] = refl
  restore_maps-markov st (r ∷ records) =
      restore_maps-markov (ensure_map st (new_segment r.path r.offset r.length r.update_time)).1
        records

  pub restore_exes-markov :
      (st : Stores env) (records : List ExeRecord)
      → (restore_exes env st records).markov ≡ st.markov
  unfolding restore_exes ensure_exe
  restore_exes-markov st [] = refl
  restore_exes-markov st (r ∷ records) =
      let known = ensure_exe st (record { path = r.path }) in
      restore_exes-markov (modify_exe known.1 known.0 (restored env r)) records
      ∙ modify_exe-markov known.1 known.0 (restored env r)

  pub restore_active-markov :
      (active_window : ℕ) (st : Stores env) (exes : List (ℕ × Exe))
      → (restore_active env active_window st exes).markov ≡ st.markov
  unfolding restore_active
  restore_active-markov active_window st [] = refl
  restore_active-markov active_window st ((exe_id, exe) ∷ exes) =
      elim (Bool-cases (is_recent env st.model_time active_window exe)) [
        | inl recent ↦
            rw (recent, restore_active)
              (restore_active-markov active_window
                (record st { active = ActiveSet.update st.active (exe_id ∷ []) st.model_time })
                exes)
        | inr old ↦ rw (old, restore_active) (restore_active-markov active_window st exes)
      ]
