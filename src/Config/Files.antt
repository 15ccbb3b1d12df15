-- ===== src/Config/Files.antt =====
-- `Config::load`, `Config::save` and `Config::load_multiple` of crates/config/src/lib.rs.
use preload_ng.Prelude.{ℕ, Bool, List, [], ◌∷◌, if◌then◌else◌}
use preload_ng.Domain.{FilePath}
use preload_ng.Error.{Outcome, ok, ◌>>=◌}
use preload_ng.Floats.{Floats}
use preload_ng.Config.Merge.{Table, no_entries, merge_document}
use preload_ng.Config.Settings.{Config}

-- `toml_edit` and `serde`, with the derived conversions of the settings; `slice::sort` of texts.
pub record Toml (fl : Floats) : Type 0 where
  pub from_str : List ℕ → Outcome (Config fl)
  pub to_string_pretty : Config fl → Outcome (List ℕ)
  pub parse : List ℕ → Outcome Table
  pub print : Table → List ℕ
  pub sort_texts : List (List ℕ) → List (List ℕ)

-- The file system as the program reads it.
pub record FileSystem : Type 0 where
  pub exists : FilePath → Bool
  pub is_dir : FilePath → Bool
  pub read_to_string : FilePath → Outcome (List ℕ)
  pub read_dir : FilePath → Outcome (List (Outcome FilePath))

module _ {fl : Floats} (toml : Toml fl) where
  unfoldable pub apply_defaults : Config fl → Config fl
  apply_defaults config = record config {
    system = record config.system {
      exeprefix = toml.sort_texts config.system.exeprefix;
      mapprefix = toml.sort_texts config.system.mapprefix;
    };
  }

  unfoldable pub load : FileSystem → FilePath → Outcome (Config fl)
  load files path = files.read_to_string path >>= λ text.
      toml.from_str text >>= λ config. ok (apply_defaults config)

  -- The text that `save` writes.
  unfoldable pub saved_text : Config fl → Outcome (List ℕ)
  saved_text config = toml.to_string_pretty config

  -- The loop over the paths; a file that does not exist is skipped.
  unfoldable pub merge_files : FileSystem → List FilePath → Table → Outcome Table
  merge_files files [] merged = ok merged
  merge_files files (path ∷ paths) merged =
      if files.exists path
      then (files.read_to_string path >>= λ text.
          toml.parse text >>= λ doc. merge_files files paths (merge_document doc merged))
      else merge_files files paths merged

  unfoldable pub load_multiple : FileSystem → List FilePath → Outcome (Config fl)
  load_multiple files paths = merge_files files paths no_entries >>= λ merged.
      toml.from_str (toml.print merged) >>= λ config. ok (apply_defaults config)
