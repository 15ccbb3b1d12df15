-- ===== src/CommandLine/Paths.antt =====
-- crates/cli/src/cli.rs, and the configuration of crates/cli/src/main.rs.
use preload_ng.Prelude.{
  ℕ, Bool, true, false, not, Option, none, some, List, [], ◌∷◌, ◌++◌, if◌then◌else◌,
}
use preload_ng.Domain.{FilePath, utf8}
use preload_ng.Error.{Outcome, ok, err, io, ◌>>=◌}
use preload_ng.Floats.{Floats}
use preload_ng.Config.Settings.{Config, default_config}
use preload_ng.Config.Files.{Toml, FileSystem, load_multiple}

-- `Cli`, but for the verbosity.
pub record Cli : Type 0 where
  pub config : Option FilePath
  pub config_dir : Option FilePath
  pub state : Option FilePath
  pub once : Bool
  pub no_persist : Bool
  pub no_prefetch : Bool

-- Paths and the environment in Rust's standard library: `Path::extension` is `toml`,
-- `Path::is_absolute`, `PathBuf::join` with a text, `slice::sort`, and `env::var_os`.
pub record Std : Type 0 where
  pub is_toml : FilePath → Bool
  pub is_absolute : FilePath → Bool
  pub join : FilePath → List ℕ → FilePath
  pub sort_paths : List FilePath → List FilePath
  pub xdg_config_home : Option FilePath
  pub xdg_cache_home : Option FilePath
  pub home : Option FilePath

unfoldable pub ensure_file_exists : FileSystem → FilePath → Outcome (Unit {0})
ensure_file_exists files path = if files.exists path then ok tt else err io

-- The loop over the entries of a directory.
unfoldable pub toml_entries : Std → List (Outcome FilePath) → Outcome (List FilePath)
toml_entries std [] = ok []
toml_entries std (entry ∷ entries) = entry >>= λ path.
    toml_entries std entries >>= λ paths. ok (if std.is_toml path then path ∷ paths else paths)

unfoldable pub collect_toml : Std → FileSystem → FilePath → Bool → Outcome (List FilePath)
collect_toml std files dir strict =
    if not (files.exists dir)
    then (if strict then err io else ok [])
    else if not (files.is_dir dir)
    then err io
    else (files.read_dir dir >>= λ entries.
        toml_entries std entries >>= λ paths. ok (std.sort_paths paths))

-- `/etc/preload-ng/config.toml`.
abbrev pub system_config_path : FilePath
system_config_path = utf8 (
    47 ∷ 101 ∷ 116 ∷ 99 ∷ 47 ∷ 112 ∷ 114 ∷ 101 ∷ 108 ∷ 111 ∷ 97 ∷ 100 ∷ 45 ∷ 110 ∷ 103 ∷ 47 ∷ 99
    ∷ 111 ∷ 110 ∷ 102 ∷ 105 ∷ 103 ∷ 46 ∷ 116 ∷ 111 ∷ 109 ∷ 108 ∷ [])

-- `/etc/preload-ng/config.d`.
abbrev pub system_config_dir : FilePath
system_config_dir = utf8 (
    47 ∷ 101 ∷ 116 ∷ 99 ∷ 47 ∷ 112 ∷ 114 ∷ 101 ∷ 108 ∷ 111 ∷ 97 ∷ 100 ∷ 45 ∷ 110 ∷ 103 ∷ 47 ∷ 99
    ∷ 111 ∷ 110 ∷ 102 ∷ 105 ∷ 103 ∷ 46 ∷ 100 ∷ [])

-- `preload-ng`, `config.toml`, `.config`, `.cache` and `state.db`.
abbrev pub preload_text : List ℕ
preload_text = 112 ∷ 114 ∷ 101 ∷ 108 ∷ 111 ∷ 97 ∷ 100 ∷ 45 ∷ 110 ∷ 103 ∷ []

abbrev pub config_toml_text : List ℕ
config_toml_text = 99 ∷ 111 ∷ 110 ∷ 102 ∷ 105 ∷ 103 ∷ 46 ∷ 116 ∷ 111 ∷ 109 ∷ 108 ∷ []

abbrev pub dot_config_text : List ℕ
dot_config_text = 46 ∷ 99 ∷ 111 ∷ 110 ∷ 102 ∷ 105 ∷ 103 ∷ []

abbrev pub dot_cache_text : List ℕ
dot_cache_text = 46 ∷ 99 ∷ 97 ∷ 99 ∷ 104 ∷ 101 ∷ []

abbrev pub state_db_text : List ℕ
state_db_text = 115 ∷ 116 ∷ 97 ∷ 116 ∷ 101 ∷ 46 ∷ 100 ∷ 98 ∷ []

-- The first of two, or the second.
abbrev pub or_else : {A : Type 0} → Option A → Option A → Option A
or_else none other = other
or_else (some a) other = some a

abbrev pub join_option : Std → Option FilePath → List ℕ → Option FilePath
join_option std none text = none
join_option std (some path) text = some (std.join path text)

unfoldable pub user_config_path : Std → Option FilePath
user_config_path std =
    join_option std
      (join_option std (or_else std.xdg_config_home (join_option std std.home dot_config_text))
        preload_text)
      config_toml_text

abbrev pub absolute_only : Std → Option FilePath → Option FilePath
absolute_only std none = none
absolute_only std (some path) = if std.is_absolute path then some path else none

unfoldable pub default_state_path : Std → Option FilePath
default_state_path std =
    join_option std
      (join_option std
        (or_else (absolute_only std std.xdg_cache_home) (join_option std std.home dot_cache_text))
        preload_text)
      state_db_text

-- A file that exists, as a list of at most one path.
abbrev pub if_exists : FileSystem → Option FilePath → List FilePath
if_exists files none = []
if_exists files (some path) = if files.exists path then path ∷ [] else []

abbrev pub collect_dir : Std → FileSystem → Option FilePath → Outcome (List FilePath)
collect_dir std files none = ok []
collect_dir std files (some dir) = collect_toml std files dir true

-- The paths in the order in which a later file overrides an earlier one.
unfoldable pub resolve_config_paths : Std → FileSystem → Cli → Outcome (List FilePath)
resolve_config_paths std files cli = elim cli.config [
  | some config ↦ ensure_file_exists files config >>= λ _.
      collect_dir std files cli.config_dir >>= λ more. ok (config ∷ more)
  | none ↦
      (if files.is_dir system_config_dir
        then collect_toml std files system_config_dir false
        else ok [])
      >>= λ system_files. collect_dir std files cli.config_dir >>= λ more. ok (
          if_exists files (some system_config_path)
          ++ system_files
          ++ if_exists files (user_config_path std)
          ++ if_exists files (some (utf8 config_toml_text))
          ++ more)
]

module _ {fl : Floats} (toml : Toml fl) (std : Std) (files : FileSystem) where
  -- The defaults if there is no file.
  unfoldable pub load_paths : List FilePath → Outcome (Config fl)
  load_paths [] = ok (default_config fl)
  load_paths (path ∷ paths) = load_multiple toml files (path ∷ paths)

  unfoldable pub load_config_from_cli : Cli → Outcome (Config fl)
  load_config_from_cli cli = resolve_config_paths std files cli >>= λ paths.
      load_paths paths >>= λ config. ok (record config {
        persistence = record config.persistence {
          state_path =
              or_else (or_else cli.state config.persistence.state_path) (default_state_path std);
        };
      })
