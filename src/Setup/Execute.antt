-- ===== src/Setup/Execute.antt =====
-- setup.rs: `execute_with`, which is what all setup operations come down to.
pub mod Kept
pub mod Preserved
pub mod Copies
pub mod Backed
pub mod Targets
pub mod Reinstalled
use salmon.Base.{
  Bool, true, false, not, ◌&&◌, ◌||◌, Option, none, some, List, [], ◌∷◌, ◌++◌, Text, codes, text_eq,
  starts_with, is_empty, if◌then◌else◌,
}
use salmon.Base.Results.{Result, ok, err}
use salmon.Base.Maps.{retain, insert}
use salmon.Files.{
  create_dir_all, change, directory, Files, Call, create_directory, create_temporary,
  set_permissions, Host, World, Io, ◌>>=◌, ◌>>◌, done, fail, look, attempt, print_line, found,
  contents_of, path_join, unless,
}
use salmon.Setup.Entry.{desktop_entry, is_legacy_desktop_entry}
use salmon.Setup.Quoting.{shell_argument}
use salmon.Setup.Install.{install, existing_targets, back_up_all, below, or_clean_up}

-- The surroundings of a run: `absolute` stands for the working directory, `load` for
-- `Config::load`, whose parser is a library, `default_config_path` for the default path of the
-- configuration, and `saved` for the directory that `tempfile` makes.
pub record Setting : Type 0 where
  pub absolute : Text → Option Text
  pub load : Text → Files → Option Text
  pub default_config_path : Option Text
  pub saved : Text
  pub backup_parent : Text
  pub temporary_directory : Text
  pub default_config : Text
  pub application_icon : Text

pub record InstallPaths : Type 0 where
  pub autostart : Text
  pub launcher : Text
  pub icon : Text

pub data SetupOperation : Type 0 where
  complete : SetupOperation
  create_config : SetupOperation
  install_autostart : SetupOperation
  install_launcher : SetupOperation

abbrev pub creates_config : SetupOperation → Bool
creates_config complete = true
creates_config create_config = true
creates_config install_autostart = false
creates_config install_launcher = false

abbrev pub installs_autostart : SetupOperation → Bool
installs_autostart complete = true
installs_autostart create_config = false
installs_autostart install_autostart = true
installs_autostart install_launcher = false

abbrev pub installs_launcher : SetupOperation → Bool
installs_launcher complete = true
installs_launcher create_config = false
installs_launcher install_autostart = false
installs_launcher install_launcher = true

abbrev pub is_complete : SetupOperation → Bool
is_complete operation = creates_config operation && installs_autostart operation

abbrev pub is_legacy : Option Text → Bool
is_legacy none = false
is_legacy (some contents) = is_legacy_desktop_entry contents

-- A file that cannot be read is not one.
unfoldable pub is_legacy_desktop_entry_file : Host → Text → Files → Bool
is_legacy_desktop_entry_file host path files = elim (host.fault Call.read path files) [
  | some failure ↦ false
  | none ↦ is_legacy (contents_of path files)
]

-- `Path::starts_with`: whole names
abbrev pub path_starts_with : Text → Text → Bool
path_starts_with path base = text_eq path base || starts_with path (path_join base [])

-- `if test { action }`
abbrev pub when : Bool → Io (Unit {0}) → Io (Unit {0})
when test action = if test then action else done tt

abbrev pub of_result : {A : Type 0} → Result Text A → Io A
of_result (ok value) = done value
of_result (err failure) = fail failure

-- `start_command`
unfoldable pub start_command : Option Text → Text → Text → Text
start_command default_config executable config_filename = elim default_config [
  | none ↦ shell_argument executable ++ codes " --config " ++ shell_argument config_filename
  | some path ↦
      if text_eq path config_filename
      then shell_argument executable
      else shell_argument executable ++ codes " --config " ++ shell_argument config_filename
]

-- what a reinstallation replaces, with the names in the backup
unfoldable pub backup_targets : Bool → SetupOperation → InstallPaths → List (Text × Text)
backup_targets reinstall operation paths =
    if reinstall
    then (if installs_autostart operation
        then (paths.autostart, codes "autostart/montray-ui.desktop") ∷ []
        else [])
      ++ (if installs_launcher operation
          then (paths.launcher, codes "applications/montray-ui.desktop")
            ∷ (paths.icon, codes "icons/montray-ui.svg")
            ∷ []
          else [])
    else []

module _ (host : Host) (setting : Setting) where
  unfoldable pub validate_executable_path : Text → Io Text
  validate_executable_path executable = do
    path ← found (codes "resolve executable") (setting.absolute executable)
    base ←
        found (codes "resolve temporary directory") (setting.absolute setting.temporary_directory)
    (if path_starts_with path base
        then fail (codes "refusing to install from temporary executable " ++ path)
        else done path)

  unfoldable pub make_backup : List (Text × Text) → Io (Option Text)
  make_backup existing = do
    create_dir_all host setting.backup_parent
    attempt host create_temporary setting.backup_parent
    change (insert setting.saved directory)
    or_clean_up (retain (λ path node. not (below setting.saved path)))
        (attempt host set_permissions setting.saved >> back_up_all host setting.saved existing)
    done (some setting.saved)

  unfoldable pub backup_existing_files : List (Text × Text) → Io (Option Text)
  backup_existing_files targets = do
    existing ← existing_targets host targets
    (if is_empty existing then done none else make_backup existing)

  unfoldable pub install_config : SetupOperation → Text → Io (Unit {0})
  install_config operation config_filename = when (creates_config operation) (
      install host (codes "configuration") (codes "Configuration") config_filename
        setting.default_config false)

  abbrev pub announce_backup : Option Text → Io (Unit {0})
  announce_backup none = done tt
  announce_backup (some saved) =
      print_line host (codes "Backed up files that will be replaced to " ++ saved)

  unfoldable pub install_autostart_entry :
      SetupOperation → Bool → InstallPaths → Text → Io (Unit {0})
  install_autostart_entry operation reinstall paths entry = when (installs_autostart operation) (
      install host (codes "desktop autostart entry") (codes "Desktop autostart entry")
        paths.autostart entry reinstall)

  unfoldable pub install_launcher_files :
      SetupOperation → Bool → InstallPaths → Text → Io (Unit {0})
  install_launcher_files operation reinstall paths entry = when (installs_launcher operation) (
      install host (codes "application icon") (codes "Application icon") paths.icon
        setting.application_icon reinstall
      >> install host (codes "application launcher") (codes "Application launcher") paths.launcher
          entry reinstall)

  unfoldable pub final_words : SetupOperation → Bool → Text → Text → Io (Unit {0})
  final_words operation legacy executable config_filename = do
    when legacy (
        print_line host (
          codes
            "\nNOTE: detected desktop integration from the older web-based Montray UI.\nRun this setup command again with --reinstall to replace the old files. The configuration will not be overwritten."))
    when (is_complete operation) (
        print_line host (
          codes
            "\nMontray UI is configured and installed for desktop autostart and application-menu launch. To start it now, run:\n\n    "
          ++ start_command setting.default_config_path executable config_filename))

  -- After the backup, files are replaced.
  unfoldable pub install_all :
      SetupOperation
      → Bool
      → InstallPaths
      → Bool
      → Text
      → Text
      → Text
      → Text
      → Option Text
      → Io (Option Text)
  install_all operation reinstall paths legacy executable config_filename autostart_entry
        launcher_entry backup =
      do
        announce_backup backup
        install_autostart_entry operation reinstall paths autostart_entry
        install_launcher_files operation reinstall paths launcher_entry
        final_words operation legacy executable config_filename
        done backup

  unfoldable pub is_legacy_installation : SetupOperation → Bool → InstallPaths → Files → Bool
  is_legacy_installation operation reinstall paths files =
      not reinstall
      && is_complete operation
      && is_legacy_desktop_entry_file host paths.autostart files
      && is_legacy_desktop_entry_file host paths.launcher files

  unfoldable pub integrate : Text → SetupOperation → Bool → InstallPaths → Text → Io (Option Text)
  integrate filename operation reinstall paths executable = do
    config_filename ← found (codes "resolve config path") (setting.absolute filename)
    files ← look
    unless (setting.load config_filename files)
    path ← validate_executable_path executable
    autostart_entry ← of_result (desktop_entry path config_filename true)
    launcher_entry ← of_result (desktop_entry path config_filename false)
    files ← look
    backup ← backup_existing_files (backup_targets reinstall operation paths)
    install_all operation reinstall paths (is_legacy_installation operation reinstall paths files)
        path config_filename autostart_entry launcher_entry backup

  unfoldable pub execute_with :
      Text → SetupOperation → Bool → InstallPaths → Text → Io (Option Text)
  execute_with config_filename operation reinstall paths executable = do
    install_config operation config_filename
    (if not (installs_autostart operation) && not (installs_launcher operation)
        then done none
        else integrate config_filename operation reinstall paths executable)
