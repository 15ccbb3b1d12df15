-- ===== src/Observation/Scanner/Paths.antt =====
-- `sanitize_path` of crates/orchestrator/src/observation/procfs_scanner.rs.
use preload_ng.Prelude.{ℕ, Bool, ◌||◌, not, Option, none, some, List, [], ◌∷◌, if◌then◌else◌}
use preload_ng.Domain.{FilePath, utf8, raw, to_str}
use preload_ng.Observation.Admission.{starts_with}

-- `Path::has_root`: the path starts with `/`.
unfoldable pub has_root : FilePath → Bool
has_root (utf8 s) = starts_with s (47 ∷ [])
has_root (raw b) = starts_with b (47 ∷ [])

-- `str::contains`.
unfoldable pub contains_text : List ℕ → List ℕ → Bool
contains_text [] pattern = starts_with [] pattern
contains_text (c ∷ s) pattern =
    let rest = contains_text s pattern in starts_with (c ∷ s) pattern || rest

-- `s.split(pattern).next()`: the text before the first occurrence of the pattern.
unfoldable pub before : List ℕ → List ℕ → List ℕ
before [] pattern = []
before (c ∷ s) pattern =
    let rest = before s pattern in if starts_with (c ∷ s) pattern then [] else c ∷ rest

-- `(deleted)`.
abbrev pub deleted : List ℕ
deleted = 40 ∷ 100 ∷ 101 ∷ 108 ∷ 101 ∷ 116 ∷ 101 ∷ 100 ∷ 41 ∷ []

-- `.#prelink#.`.
abbrev pub prelink : List ℕ
prelink = 46 ∷ 35 ∷ 112 ∷ 114 ∷ 101 ∷ 108 ∷ 105 ∷ 110 ∷ 107 ∷ 35 ∷ 46 ∷ []

unfoldable pub sanitize_path : FilePath → Option FilePath
sanitize_path path = if not (has_root path) then none else elim (to_str path) [
  | none ↦ none
  | some path_str ↦
      if contains_text path_str deleted then none else some (utf8 (before path_str prelink))
]
