-- ===== src/Setup/Migrate.antt =====
-- setup.rs: the migration from Salmon Watch.
pub mod Copying
pub mod Config
pub mod Plan
use salmon.Base.{
  ◌==◌, or_else, Bool, true, false, not, ◌&&◌, ◌||◌, Option, none, some, List, [], ◌∷◌, ◌++◌, map,
  Text, codes, text_eq, is_empty, any, if◌then◌else◌,
}
use salmon.Base.Results.{Result, ok, err}
use salmon.Base.Strings.{
  lines, contains, strip_prefix, split_once, replace, trim_start, space_length,
}
use salmon.Base.Maps.{contains_key}
use salmon.Files.{
  Files, Call, inspect, read, unlink, Host, World, Io, ◌>>=◌, ◌>>◌, done, fail, look, attempt,
  print_line, unless, found, contents_of, exists, remove_file, path_join, read_contents,
}
use salmon.Setup.Entry.{after_last_slash}
use salmon.Setup.Quoting.{shell_argument}
use salmon.Setup.Install.{FileResult, created, preserved, reinstalled, install_file, parent_of}
use salmon.Setup.Execute.{Setting, InstallPaths, SetupOperation, complete, execute_with}
use salmon.Setup.Migrate.Copying.{
  Listing, Journaled, copy_directory_contents_noclobber, rollback_created_files,
}
use salmon.Setup.Migrate.Config.{migrate_salmon_config}

-- The files that the former setup made.
pub record SalmonWatchPaths : Type 0 where
  pub config : Text
  pub autostart : List Text
  pub launcher : List Text
  pub icons : List Text

unfoldable pub salmon_watch_paths : Text → Text → SalmonWatchPaths
salmon_watch_paths config_home data_home = record {
  config = path_join config_home (codes "salmon-watch/salmon-watch.yml");
  autostart =
      path_join config_home (codes "autostart/salmon-watch.desktop")
      ∷ path_join config_home (codes "autostart/salmon-watch-legacy.desktop")
      ∷ [];
  launcher =
      path_join data_home (codes "applications/salmon-watch.desktop")
      ∷ path_join data_home (codes "applications/salmon-watch-legacy.desktop")
      ∷ [];
  icons =
      path_join data_home (codes "icons/hicolor/scalable/apps/salmon-watch.svg")
      ∷ path_join data_home (codes "icons/hicolor/scalable/apps/salmon-watch-legacy.svg")
      ∷ [];
}

unfoldable pub install_paths : Text → Text → InstallPaths
install_paths config_home data_home = record {
  autostart = path_join config_home (codes "autostart/montray-ui.desktop");
  launcher = path_join data_home (codes "applications/montray-ui.desktop");
  icon = path_join data_home (codes "icons/hicolor/scalable/apps/montray-ui.svg");
}

abbrev pub desktop_files : SalmonWatchPaths → List Text
desktop_files paths = paths.autostart ++ paths.launcher ++ paths.icons

-- what a generated entry names as its program
abbrev pub first_word : Text → Text
first_word [] = []
first_word (c ∷ cs) =
    let rest = first_word cs in if space_length (c ∷ cs) == 0 then c ∷ rest else []

abbrev pub first_of : Option (Text × Text) → Text → Text
first_of none text = text
first_of (some parts) text = parts.0

abbrev pub executable_of : Text → Text
executable_of value = elim (strip_prefix value (codes "\"")) [
  | some quoted ↦ first_of (split_once quoted (codes "\"")) quoted
  | none ↦ first_word (trim_start value)
]

abbrev pub expected_name : Text → Bool
expected_name path =
    text_eq (after_last_slash path) (codes "salmon-watch")
    || text_eq (after_last_slash path) (codes "salmon-watch-legacy")

abbrev pub exec_value : List Text → Option Text
exec_value [] = none
exec_value (line ∷ rest) = or_else (strip_prefix line (codes "Exec=")) (exec_value rest)

unfoldable pub salmon_executable_in : Text → Option Text
salmon_executable_in contents =
    if contains contents (codes "X-Salmon-Watch-Desktop-Entry-Version=2")
    then elim (exec_value (lines contents)) [
      | none ↦ none
      | some value ↦
          let path = replace (codes "%%") (codes "%") (executable_of value) in
          if expected_name path then some path else none
    ]
    else none

-- The surroundings of a migration: `migrate_state` is the importer of persistence.rs.
pub record MigrationContext : Type 0 where
  pub setting : Setting
  pub salmon : SalmonWatchPaths
  pub montray : InstallPaths
  pub executable : Text
  pub migrate_state : Io (Unit {0})
  pub is_utf8 : Text → Bool
  pub listing : Listing
  pub permission_denied : Text → Bool

abbrev pub one_of_paths : Text → List Text → Bool
one_of_paths path paths = any (text_eq path) paths

module _ (host : Host) where
  unfoldable pub existing_paths : List Text → Io (List Text)
  existing_paths [] = done []
  existing_paths (path ∷ paths) = do
    attempt host inspect path
    files ← look
    rest ← existing_paths paths
    done (if contains_key path files then path ∷ rest else rest)

  unfoldable pub existing_salmon_paths : SalmonWatchPaths → Io (List Text)
  existing_salmon_paths paths = existing_paths (paths.config ∷ desktop_files paths)

  abbrev pub is_set_up : Text → InstallPaths → Files → Bool
  is_set_up config_filename montray files =
      exists config_filename files
      && (exists montray.autostart files || exists montray.launcher files)

  abbrev pub listed : List Text → Text
  listed [] = []
  listed (path ∷ []) = codes "  " ++ path
  listed (path ∷ other ∷ paths) = codes "  " ++ path ++ codes "\n" ++ listed (other ∷ paths)

  unfoldable pub reject_salmon_watch_installation :
      Text → InstallPaths → SalmonWatchPaths → Io (Unit {0})
  reject_salmon_watch_installation config_filename montray salmon = do
    existing ← existing_salmon_paths salmon
    files ← look
    (if is_empty existing || is_set_up config_filename montray files
        then done tt
        else fail (
            codes "a Salmon Watch installation was detected:\n"
            ++ listed existing
            ++ codes
                "\n\nMigrate it explicitly with:\n\n    montray-ui setup migrate-from-salmon\n\nTo create a separate Montray UI installation, rerun setup with --ignore-salmon"))

  unfoldable pub generated_salmon_executable : Text → Io (Option Text)
  generated_salmon_executable entry = do
    attempt host read entry
    files ← look
    (if exists entry files
        then (found (codes "read " ++ entry) (contents_of entry files)
            >>= (λ contents. done (salmon_executable_in contents)))
        else done none)

  abbrev pub with_executable : Option Text → List Text → List Text
  with_executable none known = known
  with_executable (some path) known = if one_of_paths path known then known else known ++ path ∷ []

  unfoldable pub former_executables : List Text → List Text → Io (List Text)
  former_executables [] known = done known
  former_executables (entry ∷ entries) known = do
    executable ← generated_salmon_executable entry
    former_executables entries (with_executable executable known)

  unfoldable pub remove_file_if_present : Text → Io (Unit {0})
  remove_file_if_present path = do
    files ← look
    (if contains_key path files then remove_file host path else done tt)

  unfoldable pub remove_all_present : List Text → Io (Unit {0})
  remove_all_present [] = done tt
  remove_all_present (path ∷ paths) = do remove_file_if_present path; remove_all_present paths

  module _ (context : MigrationContext) where
    abbrev pub settle : Text → World × Result Text (Unit {0}) → World × Result Text (Unit {0})
    settle path (after, ok value) = (after, ok tt)
    settle path (after, err failure) =
        if context.permission_denied failure
        then print_line host
            (codes
                "The former Salmon Watch executable could not be removed without elevated permissions:\n  "
              ++ path
              ++ codes "\nRemove it manually with:\n  sudo rm -- "
              ++ shell_argument path)
            after
        else (after, err (codes "remove former executable " ++ path ++ codes ": " ++ failure))

    unfoldable pub remove_former_executable : Text → Io (Unit {0})
    remove_former_executable path world = settle path (remove_file_if_present path world)

    unfoldable pub remove_former_executables : List Text → Io (Unit {0})
    remove_former_executables [] = done tt
    remove_former_executables (path ∷ paths) = do
      (if text_eq path context.executable then done tt else remove_former_executable path)
      remove_former_executables paths

    unfoldable pub print_all : List Text → Io (Unit {0})
    print_all [] = done tt
    print_all (path ∷ paths) = do print_line host (codes "  detected: " ++ path); print_all paths

    unfoldable pub print_plan : List Text → Text → Io (Unit {0})
    print_plan existing config_filename = do
      print_line host (codes "Would migrate Salmon Watch to Montray UI:")
      print_all existing
      print_line host (
          codes "  copy configuration to: "
          ++ config_filename
          ++ codes "\n  install Montray UI desktop integration")
      print_line host
          (codes "  remove former Salmon Watch desktop integration and its referenced executable")

    unfoldable pub perform_migration : Text → Io (Unit {0})
    perform_migration config_filename = do
      migrate_salmon_config host context.is_utf8 context.listing context.salmon.config
          config_filename
      files ← look
      unless (context.setting.load config_filename files)
      context.migrate_state
      backup ←
          execute_with host context.setting config_filename complete true context.montray
            context.executable
      former ← former_executables (context.salmon.autostart ++ context.salmon.launcher) []
      remove_all_present (desktop_files context.salmon)
      remove_former_executables former
      print_line host (
          codes
            "Migration complete. Former Salmon Watch desktop integration was removed; its configuration directory was retained as a backup.")

    unfoldable pub start_migration : Text → Bool → List Text → Files → Io (Unit {0})
    start_migration config_filename dry_run existing files =
        if is_empty existing
        then (if exists config_filename files
            then print_line host
                (codes "No Salmon Watch installation remains; Montray UI is already configured.")
            else fail (codes "no Salmon Watch installation was found"))
        else if not (any (λ path. not (text_eq path context.salmon.config)) existing)
            && is_set_up config_filename context.montray files
        then print_line host
            (codes "No Salmon Watch desktop integration remains; Montray UI is already configured.")
        else if dry_run
        then print_plan existing config_filename
        else perform_migration config_filename

    unfoldable pub migrate_from_salmon_with : Text → Bool → Io (Unit {0})
    migrate_from_salmon_with config_filename dry_run = do
      existing ← existing_salmon_paths context.salmon
      files ← look
      start_migration config_filename dry_run existing files
