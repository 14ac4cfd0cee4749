-- ===== src/Setup/Execute/Reinstalled.antt =====
-- setup.rs: `execute_with` with `--reinstall`, and what becomes of the files it replaces.
use salmon.Base.{
  text_eq_refl, ◌||◌, Bool, true, false, not, ◌&&◌, Option, some, ◌≡◌, ◌⊎◌, arith, Text, text_eq,
  text_eq_refl, if_rule, inl, inr,
}
use salmon.Base.Results.{Result, ok, err}
use salmon.Base.Maps.{get}
use salmon.Files.{file, Host, World, Io, continue, ◌>>=◌, look, path_join}
use salmon.Files.Keeps.{Preorder, Keeps, continue_rule, found-Keeps, unless-Keeps}
use salmon.Setup.Install.{below}
use salmon.Setup.Entry.{desktop_entry}
use salmon.Setup.Execute.{
  Setting, InstallPaths, SetupOperation, installs_autostart, installs_launcher, backup_targets,
  backup_existing_files, install_all, integrate, execute_with,
}
use salmon.Setup.Execute.Kept.{KeptBut-Preorder}
use salmon.Setup.Execute.Preserved.{
  Replaces, execute-Keeps, backup-Keeps, install_all-Keeps, config-Keeps, executable-Keeps,
  of_result-Keeps,
}
use salmon.Setup.Execute.Copies.{Holds, StaysAt, stays_rule}
use salmon.Setup.Execute.Backed.{saved_by_backup}
use salmon.Setup.Execute.Targets.{
  listed-Member, listed-Replaces, is_listed, Member, All-Member, Outside, is_desktop_file,
  copy_is_no_desktop_file, targets_Saves, targets-Outside,
}

-- The file is where it was, or its contents are in the backup.
abbrev pub Safe : {A : Type 0} → Text → Text → Text → World × Result Text A → Type 0
Safe path copy contents result =
    (get path result.0.files ≡ some (file contents))
    ⊎ (get copy result.0.files ≡ some (file contents))

-- If a success holds the copy, a failure the file, and the rest keeps the copy.
backed_then :
    {A B : Type 0} (path copy contents : Text) (action : Io A) (rest : A → Io B) (world : World)
    → Holds copy contents (action world)
    → get path (action world).0.files ≡ some (file contents)
    → ((value : A) (after : World)
        → get copy after.files ≡ some (file contents)
        → get copy (rest value after).0.files ≡ some (file contents))
    → Safe path copy contents ((action >>= rest) world)
unfolding ◌>>=◌
backed_then {A} path copy contents action rest world held still keeps =
    on_result (action world) held still
  where
    on_result :
        (result : World × Result Text A)
        → Holds copy contents result
        → get path result.0.files ≡ some (file contents)
        → Safe path copy contents (continue rest result)
    on_result (after, ok value) h k = inr (keeps value after h)
    on_result (after, err failure) h k = inl k

module _ (host : Host) (setting : Setting) (operation : SetupOperation) (reinstall : Bool)
    (paths : InstallPaths) (outside : Outside setting.saved paths) (target : Text × Text)
    (contents : Text) (member : Member target (backup_targets reinstall operation paths)) where
  abbrev P : {A : Type 0} → World × Result Text A → Type 0
  P = Safe target.0 (path_join setting.saved target.1) contents

  abbrev Source : World → Type 0
  Source world = get target.0 world.files ≡ some (file contents)

  target_outside : below setting.saved target.0 ≡ false
  target_outside =
      All-Member (λ t. below setting.saved t.0 ≡ false) target
        (backup_targets reinstall operation paths)
        (targets-Outside reinstall operation paths setting.saved outside) member

  replaced : Replaces (is_desktop_file paths) operation reinstall paths
  replaced = (
    λ h t. ground (arith, text_eq_refl paths.autostart),
    λ h t. (ground (arith, text_eq_refl paths.launcher), ground (arith, text_eq_refl paths.icon)),
  )

  install_Safe :
      (legacy : Bool) (executable config_filename autostart_entry launcher_entry : Text)
      (world : World)
      → Source world
      → P (
          (backup_existing_files host setting (backup_targets reinstall operation paths)
              >>= install_all host setting operation reinstall paths legacy executable
                  config_filename autostart_entry launcher_entry)
            world)
  unfolding Keeps
  install_Safe legacy executable config_filename autostart_entry launcher_entry world there =
      backed_then target.0 (path_join setting.saved target.1) contents
        (backup_existing_files host setting (backup_targets reinstall operation paths)) _ world
        (saved_by_backup host setting target contents target_outside _ world
          (targets_Saves reinstall operation paths setting.saved target member) there)
        (backup-Keeps (below setting.saved) host setting (λ path h. ground (arith, h)) _ world
          target.0 (file contents) target_outside there)
        (λ backup after held.
          install_all-Keeps (is_desktop_file paths) host setting operation reinstall paths replaced
            legacy executable config_filename autostart_entry launcher_entry backup after
            (path_join setting.saved target.1) (file contents)
            (copy_is_no_desktop_file setting.saved target.1 paths outside) held)

  abbrev order : Preorder (StaysAt target.0)
  order = KeptBut-Preorder (λ path. not (text_eq path target.0))

  before_then :
      {A B : Type 0} (action : Io A) (rest : A → Io B) (world : World)
      → Keeps (StaysAt target.0) action
      → Source world
      → ((value : A) (after : World) → Source after → P (rest value after))
      → P ((action >>= rest) world)
  before_then action rest world stays there good =
      stays_rule P target.0 (file contents) action rest world stays there good
        (λ failure after h. inl h)

  integrate_Safe :
      (filename executable : Text) (world : World)
      → Source world
      → P (integrate host setting filename operation reinstall paths executable world)
  unfolding integrate
  integrate_Safe filename executable world there =
      before_then _ _ world (found-Keeps _ order _ (setting.absolute filename)) there
        (λ config_filename w1 h1. continue_rule P look _ w1 (
          before_then _ _ w1 (unless-Keeps _ order (setting.load config_filename w1.files)) h1
            (λ _ w2 h2.
              before_then _ _ w2 (executable-Keeps _ host setting executable) h2 (λ path w3 h3.
                before_then _ _ w3
                  (of_result-Keeps _ host setting (desktop_entry path config_filename true)) h3
                  (λ autostart_entry w4 h4.
                    before_then _ _ w4
                      (of_result-Keeps _ host setting (desktop_entry path config_filename false)) h4
                      (λ launcher_entry w5 h5. continue_rule P look _ w5 (
                        install_Safe _ path config_filename autostart_entry launcher_entry w5
                          h5)))))))

target_Safe :
    (host : Host) (setting : Setting) (config_filename executable : Text)
    (operation : SetupOperation) (reinstall : Bool) (paths : InstallPaths) (world : World)
    (target : Text × Text) (contents : Text)
    → Outside setting.saved paths
    → Member target (backup_targets reinstall operation paths)
    → get target.0 world.files ≡ some (file contents)
    → Safe target.0
        (path_join setting.saved target.1)
        contents
        (execute_with host setting config_filename operation reinstall paths executable world)
unfolding execute_with
target_Safe host setting config_filename executable operation reinstall paths world target contents
      outside member there =
    before_then host setting operation reinstall paths outside target contents member _ _ world
      (config-Keeps (λ path. not (text_eq path target.0)) host setting operation config_filename)
      there
      (λ _ after h.
        if_rule {A = Io (Option Text)}
          (λ action. Safe target.0 (path_join setting.saved target.1) contents (action after))
          (not (installs_autostart operation) && not (installs_launcher operation)) _ _ (λ _. inl h)
          (λ _.
            integrate_Safe host setting operation reinstall paths outside target contents member
              config_filename executable after h))

-- Whatever call fails and whenever it does, no file is lost to setup: a file that is not in the
-- backup directory of this run is there as it was when setup returns, or that directory has a file
-- with its contents, if the three desktop files are not inside that directory.
pub reinstall_backs_up :
    (host : Host) (setting : Setting) (config_filename executable : Text)
    (operation : SetupOperation) (reinstall : Bool) (paths : InstallPaths) (world : World)
    (path contents : Text)
    → Outside setting.saved paths
    → below setting.saved path ≡ false
    → get path world.files ≡ some (file contents)
    → let after =
        (execute_with host setting config_filename operation reinstall paths executable world).0 in
      (get path after.files ≡ some (file contents))
      ⊎ ((name : Text) × (get (path_join setting.saved name) after.files ≡ some (file contents)))
unfolding Keeps
reinstall_backs_up host setting config_filename executable operation reinstall paths world path
      contents outside apart there =
    elim (listed-Member path (backup_targets reinstall operation paths)) [
      | inl (name, m) ↦
          elim (target_Safe host setting config_filename executable operation reinstall paths world
            (path, name) contents outside m there) [
              | inl same ↦ inl same
              | inr copy ↦ inr (name, copy)
            ]
      | inr unlisted ↦ inl (
          execute-Keeps
            (λ p. below setting.saved p || is_listed (backup_targets reinstall operation paths) p)
            host setting operation reinstall paths
            (listed-Replaces reinstall operation paths setting.saved) (λ p h. ground (arith, h))
            config_filename executable world path (file contents) (ground (arith, apart, unlisted))
            there)
    ]
