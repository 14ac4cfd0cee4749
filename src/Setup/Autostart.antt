-- ===== src/Setup/Autostart.antt =====
-- setup.rs: the login entry on its own, and the default configuration.
pub mod Removal
use salmon.Base.{
  Bool, true, false, not, ◌&&◌, ◌||◌, Option, none, some, [], ◌∷◌, ◌++◌, Text, codes, text_eq,
  if◌then◌else◌,
}
use salmon.Base.Results.{Result, ok, err, ensure}
use salmon.Base.Maps.{contains_key}
use salmon.Files.{
  Files, Call, inspect, read, Host, Io, ◌>>=◌, ◌>>◌, done, fail, look, attempt, found, contents_of,
  exists, remove_file, path_join,
}
use salmon.Setup.Entry.{desktop_entry, has_desktop_entry_version, is_legacy_desktop_entry}
use salmon.Setup.Install.{FileResult, created, preserved, reinstalled, install_file}
use salmon.Setup.Execute.{Setting, of_result}

abbrev pub is_created : FileResult → Bool
is_created created = true
is_created preserved = false
is_created reinstalled = false

unfoldable pub validate_platform : Text → Result Text (Unit {0})
validate_platform os =
    ensure (text_eq os (codes "linux"))
      (codes "montray-ui setup is not implemented on this platform (" ++ os ++ codes ")")

-- setup's own entries, and those of the former client
abbrev pub is_ours : Text → Bool
is_ours contents = has_desktop_entry_version contents || is_legacy_desktop_entry contents

module _ (host : Host) where
  unfoldable pub create_default_config : Setting → Text → Io Bool
  create_default_config setting config_filename = do
    result ← install_file host config_filename setting.default_config false
    done (is_created result)

  unfoldable pub autostart_enabled_at : Text → Io Bool
  autostart_enabled_at path = do
    attempt host inspect path
    files ← look
    done (contains_key path files)

  unfoldable pub remove_ours : Text → Text → Io Bool
  remove_ours path contents =
      if is_ours contents
      then (remove_file host path >> done false)
      else fail (
          codes "autostart file "
          ++ path
          ++ codes " was not created by Montray; leaving it unchanged")

  unfoldable pub remove_found : Text → Files → Io Bool
  remove_found path files =
      if exists path files
      then (found (codes "read " ++ path) (contents_of path files) >>= remove_ours path)
      else done false

  unfoldable pub remove_entry : Text → Io Bool
  remove_entry path = do attempt host read path; files ← look; remove_found path files

  unfoldable pub set_autostart_file : Text → Text → Bool → Io Bool
  set_autostart_file path entry true = do result ← install_file host path entry false; done true
  set_autostart_file path entry false = remove_entry path

  -- The directory of the user's configuration and the executable are calls of libraries.
  unfoldable pub set_autostart : Setting → Text → Option Text → Option Text → Text → Bool → Io Bool
  set_autostart setting os config_home executable config_filename enabled = do
    of_result (validate_platform os)
    home ← found (codes "determine user configuration directory") config_home
    elim enabled [
      | false ↦ set_autostart_file (path_join home (codes "autostart/montray-ui.desktop")) [] false
      | true ↦
          (found (codes "locate executable") executable >>= (λ program.
            found (codes "resolve config path") (setting.absolute config_filename) >>= (λ filename.
              of_result (desktop_entry program filename true) >>= (λ entry.
                set_autostart_file (path_join home (codes "autostart/montray-ui.desktop")) entry
                  true))))
    ]
