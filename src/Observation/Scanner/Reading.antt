-- ===== src/Observation/Scanner/Reading.antt =====
-- What a scan reads of a process's maps, apart from when it reads them: reporting the cached maps
-- gives the events that a new reading would give.
use preload_ng.Prelude.{
  ℕ, ◌≡◌, refl, sym, ap, ap₂, ◌∙◌, inl, inr, none, some, List, [], ◌∷◌, ◌++◌, map, Option-cases,
}
use mathlib.Core.List.{append_assoc, append-nil}
use preload_ng.Domain.{FilePath}
use preload_ng.Observation.Event.{Observation}
use preload_ng.Observation.Scanner.{
  CachedMap, MemoryMap, Process, ProcessMaps, maps_ok, maps_err, cached_map, map_event, Collected,
  scan_lines, scan_maps, emit_cached_maps,
}

unfoldable pub read_lines : List MemoryMap → List CachedMap
read_lines [] = []
read_lines (line ∷ lines) = elim (cached_map line) [
  | none ↦ read_lines lines
  | some cm ↦ cm ∷ read_lines lines
]

abbrev pub maps_in : ProcessMaps → List CachedMap
maps_in (maps_ok lines) = read_lines lines
maps_in (maps_err reason) = []

abbrev pub read_maps : Process → List CachedMap
read_maps process = maps_in process.maps

scan_lines_lem :
    (exe_path : FilePath) (time : ℕ) (lines : List MemoryMap) (cached : List CachedMap)
    (events : Observation)
    → scan_lines exe_path time lines cached events
      ≡ (cached ++ read_lines lines, events ++ map (map_event exe_path time) (read_lines lines))
unfolding scan_lines read_lines
scan_lines_lem exe_path time [] cached events =
    ap₂ (λ a b. (a, b)) (sym (append-nil cached)) (sym (append-nil events))
scan_lines_lem exe_path time (line ∷ lines) cached events = elim (Option-cases (cached_map line)) [
  | inl skipped ↦
      rw (scan_lines, read_lines, skipped) (scan_lines_lem exe_path time lines cached events)
  | inr (cm, kept) ↦
      rw (scan_lines, read_lines, kept)
        (scan_lines_lem exe_path time lines (cached ++ cm ∷ [])
            (events ++ map_event exe_path time cm ∷ [])
          ∙ rw
              (
                append_assoc cached (cm ∷ []) (read_lines lines),
                append_assoc events (map_event exe_path time cm ∷ [])
                    (map (map_event exe_path time) (read_lines lines)),
              )
              refl)
]

emit_cached_maps_lem :
    (exe_path : FilePath) (maps : List CachedMap) (time : ℕ) (events : Observation)
    → emit_cached_maps exe_path maps time events ≡ events ++ map (map_event exe_path time) maps
unfolding emit_cached_maps
emit_cached_maps_lem exe_path [] time events = sym (append-nil events)
emit_cached_maps_lem exe_path (cm ∷ maps) time events =
    emit_cached_maps_lem exe_path maps time (events ++ map_event exe_path time cm ∷ [])
    ∙ append_assoc events (map_event exe_path time cm ∷ []) (map (map_event exe_path time) maps)

-- The maps that are cached, and the events of a reading.
pub scan_maps_lem :
    (process : Process) (exe_path : FilePath) (time : ℕ) (out : Collected)
    → ((scan_maps process exe_path time out).0 ≡ read_maps process)
      × ((scan_maps process exe_path time out).1.events
          ≡ out.events ++ map (map_event exe_path time) (read_maps process))
unfolding scan_maps
scan_maps_lem process exe_path time out = go process.maps refl
  where
    go :
        (maps : ProcessMaps)
        → process.maps ≡ maps
        → ((scan_maps process exe_path time out).0 ≡ read_maps process)
          × ((scan_maps process exe_path time out).1.events
              ≡ out.events ++ map (map_event exe_path time) (read_maps process))
    go (maps_ok lines) e =
        rw (scan_maps, e)
          (
            ap (λ p. p.0) (scan_lines_lem exe_path time lines [] out.events),
            ap (λ p. p.1) (scan_lines_lem exe_path time lines [] out.events),
          )
    go (maps_err reason) e = rw (scan_maps, e) (refl, sym (append-nil out.events))

-- Reporting the maps that an earlier scan cached gives, at any later time and after any other
-- events, exactly the events that reading the same unchanged maps again would give.
pub emit_cached_maps-scan_maps :
    (process : Process) (exe_path : FilePath) (time time' : ℕ) (out out' : Collected)
    → emit_cached_maps exe_path (scan_maps process exe_path time out).0 time' out'.events
      ≡ (scan_maps process exe_path time' out').1.events
emit_cached_maps-scan_maps process exe_path time time' out out' =
    rw
      (
        emit_cached_maps_lem exe_path (scan_maps process exe_path time out).0 time' out'.events,
        (scan_maps_lem process exe_path time out).0,
        (scan_maps_lem process exe_path time' out').1,
      )
      refl
