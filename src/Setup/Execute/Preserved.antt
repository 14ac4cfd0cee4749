-- ===== src/Setup/Execute/Preserved.antt =====
-- setup.rs: `execute_with` leaves alone what it was not asked to replace.
use salmon.Base.{
  Bool, true, false, not, ◌&&◌, ◌||◌, Option, none, some, List, [], ◌∷◌, ◌≡◌, arith, Text, text_eq,
  text_eq_refl, Bool-cases, is_empty, inl, inr,
}
use salmon.Base.Results.{Result, ok, err}
use salmon.Base.Maps.{get, retain}
use salmon.Files.{
  file, directory, Node, Files, create_temporary, set_permissions, Host, World, Io, done, path_join,
}
use salmon.Files.Keeps.{
  change-Keeps, create_dir_all-Keeps, Preorder, Keeps, bind-Keeps, attempt-Keeps, found-Keeps,
  done-Keeps, fail-Keeps, look-Keeps, print-Keeps, unless-Keeps, if-Keeps,
}
use salmon.Setup.Install.{install, back_up_all, below, or_clean_up, cleaned}
use salmon.Setup.Install.Keeping.{install-Keeps, existing-Keeps, back_up-Keeps}
use salmon.Setup.Execute.{
  Setting, InstallPaths, SetupOperation, creates_config, installs_autostart, installs_launcher,
  is_complete, when, of_result, backup_targets, validate_executable_path, make_backup,
  backup_existing_files, install_config, announce_backup, install_autostart_entry,
  install_launcher_files, final_words, install_all, integrate, execute_with, path_starts_with,
}
use salmon.Setup.Entry.{desktop_entry}
use salmon.Setup.Execute.Kept.{
  KeptBut, KeptBut-Preorder, insert_new-KeptBut, insert_let_go-KeptBut, retain-KeptBut, below_join,
  below_itself, made-KeptBut,
}

-- the paths that a reinstallation may write over
abbrev pub Replaces : (Text → Bool) → SetupOperation → Bool → InstallPaths → Type 0
Replaces let_go operation reinstall paths =
    (reinstall ≡ true → installs_autostart operation ≡ true → let_go paths.autostart ≡ true)
    × (reinstall ≡ true
        → installs_launcher operation ≡ true
        → (let_go paths.launcher ≡ true) × (let_go paths.icon ≡ true))

module _ (let_go : Text → Bool) (host : Host) (setting : Setting) where
  order : Preorder (KeptBut let_go)
  order = KeptBut-Preorder let_go

  clean_up-Keeps :
      {A : Type 0} (undo : Files → Files) (action : Io A)
      → ((files : Files) → KeptBut let_go files (undo files))
      → Keeps (KeptBut let_go) action
      → Keeps (KeptBut let_go) (or_clean_up undo action)
  unfolding Keeps
  clean_up-Keeps {A} undo action h k world = cleaned-KeptBut (action world) (k world)
    where
      cleaned-KeptBut :
          (result : World × Result Text A)
          → KeptBut let_go world.files result.0.files
          → KeptBut let_go world.files (cleaned undo result).0.files
      cleaned-KeptBut (after, ok value) l = l
      cleaned-KeptBut (after, err failure) l =
          (KeptBut-Preorder let_go).chain world.files after.files (undo after.files) l
            (h after.files)

  module _
      (spared : (path : Text) → let_go path ≡ false → not (below setting.saved path) ≡ true) where
    below_let_go : (path : Text) → below setting.saved path ≡ true → let_go path ≡ true
    below_let_go path inside = elim (Bool-cases (let_go path)) [
      | inl gone ↦ gone
      | inr kept ↦ let apart = spared path kept in ground (arith, apart, inside)
    ]

    back_up_all-Keeps :
        (targets : List (Text × Text))
        → Keeps (KeptBut let_go) (back_up_all host setting.saved targets)
    unfolding back_up_all
    back_up_all-Keeps [] = done-Keeps _ order tt
    back_up_all-Keeps (target ∷ targets) =
        bind-Keeps _ order _ _
          (back_up-Keeps _ order host (made-KeptBut let_go) setting.saved target (λ contents files.
            insert_let_go-KeptBut let_go (path_join setting.saved target.1) (file contents) files
              (below_let_go _ (below_join setting.saved target.1))))
          (λ _. back_up_all-Keeps targets)

    make_backup-Keeps :
        (existing : List (Text × Text)) → Keeps (KeptBut let_go) (make_backup host setting existing)
    unfolding make_backup
    make_backup-Keeps existing =
        bind-Keeps _ order _ _
          (create_dir_all-Keeps _ order (made-KeptBut let_go) host setting.backup_parent)
          (λ _.
            bind-Keeps _ order _ _
              (attempt-Keeps _ order host create_temporary setting.backup_parent)
              (λ _.
                bind-Keeps _ order _ _
                  (change-Keeps _ order _ (λ files.
                    insert_let_go-KeptBut let_go setting.saved directory files
                      (below_let_go setting.saved (below_itself setting.saved))))
                  (λ _.
                    bind-Keeps _ order _ _
                      (clean_up-Keeps (retain (λ path node. not (below setting.saved path))) _
                        (λ files.
                          retain-KeptBut let_go (λ path. not (below setting.saved path)) files
                            spared)
                        (bind-Keeps _ order _ _
                          (attempt-Keeps _ order host set_permissions setting.saved)
                          (λ _. back_up_all-Keeps existing)))
                      (λ _. done-Keeps _ order (some setting.saved)))))

    pub backup-Keeps :
        (targets : List (Text × Text))
        → Keeps (KeptBut let_go) (backup_existing_files host setting targets)
    unfolding backup_existing_files
    backup-Keeps targets = bind-Keeps _ order _ _ (existing-Keeps _ order host targets) (λ existing.
        if-Keeps _ order (is_empty existing) _ _ (λ h. done-Keeps _ order none)
          (λ h. make_backup-Keeps existing))

  when-Keeps :
      (test : Bool) (action : Io (Unit {0}))
      → (test ≡ true → Keeps (KeptBut let_go) action)
      → Keeps (KeptBut let_go) (when test action)
  when-Keeps test action h = if-Keeps _ order test action (done tt) h (λ _. done-Keeps _ order tt)

  pub config-Keeps :
      (operation : SetupOperation) (config_filename : Text)
      → Keeps (KeptBut let_go) (install_config host setting operation config_filename)
  unfolding install_config
  config-Keeps operation config_filename = when-Keeps (creates_config operation) _ (λ _.
      install-Keeps _ order host (made-KeptBut let_go) _ _ config_filename setting.default_config
        false (insert_new-KeptBut let_go config_filename (file setting.default_config))
        (λ h. absurd (no_replace h)))
    where
      no_replace : false ≡ true → ⊥
      no_replace h = cc

  pub of_result-Keeps :
      {A : Type 0} (result : Result Text A) → Keeps (KeptBut let_go) (of_result result)
  of_result-Keeps (ok value) = done-Keeps _ order value
  of_result-Keeps (err failure) = fail-Keeps _ order _ failure

  pub executable-Keeps :
      (executable : Text)
      → Keeps (KeptBut let_go) (validate_executable_path host setting executable)
  unfolding validate_executable_path
  executable-Keeps executable =
      bind-Keeps _ order _ _ (found-Keeps _ order _ (setting.absolute executable)) (λ path.
        bind-Keeps _ order _ _
          (found-Keeps _ order _ (setting.absolute setting.temporary_directory))
          (λ base.
            if-Keeps _ order (path_starts_with path base) _ _ (λ _. fail-Keeps _ order _ _)
              (λ _. done-Keeps _ order path)))

  words-Keeps :
      (operation : SetupOperation) (legacy : Bool) (executable config_filename : Text)
      → Keeps
          (KeptBut let_go)
          (final_words host setting operation legacy executable config_filename)
  unfolding final_words
  words-Keeps operation legacy executable config_filename =
      bind-Keeps _ order _ _ (when-Keeps legacy _ (λ _. print-Keeps _ order host _))
        (λ _. when-Keeps (is_complete operation) _ (λ _. print-Keeps _ order host _))

  announce-Keeps :
      (backup : Option Text) → Keeps (KeptBut let_go) (announce_backup host setting backup)
  announce-Keeps none = done-Keeps _ order tt
  announce-Keeps (some saved) = print-Keeps _ order host _

  module _ (operation : SetupOperation) (reinstall : Bool) (paths : InstallPaths)
      (replaced : Replaces let_go operation reinstall paths) where
    pub install_all-Keeps :
        (legacy : Bool) (executable config_filename autostart_entry launcher_entry : Text)
        (backup : Option Text)
        → Keeps (KeptBut let_go) (
            install_all host setting operation reinstall paths legacy executable config_filename
              autostart_entry launcher_entry backup)
    unfolding install_all install_autostart_entry install_launcher_files
    install_all-Keeps legacy executable config_filename autostart_entry launcher_entry backup =
        bind-Keeps _ order _ _ (announce-Keeps backup) (λ _.
          bind-Keeps _ order _ _
            (when-Keeps (installs_autostart operation) _
              (λ t. put _ _ paths.autostart autostart_entry (λ h. replaced.0 h t)))
            (λ _.
              bind-Keeps _ order _ _
                (when-Keeps (installs_launcher operation) _ (λ t.
                  bind-Keeps _ order _ _
                    (put _ _ paths.icon setting.application_icon (λ h. (replaced.1 h t).1))
                    (λ _. put _ _ paths.launcher launcher_entry (λ h. (replaced.1 h t).0))))
                (λ _.
                  bind-Keeps _ order _ _ (words-Keeps operation legacy executable config_filename)
                    (λ _. done-Keeps _ order backup))))
      where
        put :
            (description capitalized path contents : Text)
            → (reinstall ≡ true → let_go path ≡ true)
            → Keeps (KeptBut let_go) (install host description capitalized path contents reinstall)
        put description capitalized path contents gone =
            install-Keeps _ order host (made-KeptBut let_go) _ _ path contents reinstall
              (insert_new-KeptBut let_go path (file contents))
              (λ h files. insert_let_go-KeptBut let_go path (file contents) files (gone h))

    integrate-Keeps :
        ((path : Text) → let_go path ≡ false → not (below setting.saved path) ≡ true)
        → (config_filename executable : Text)
        → Keeps
            (KeptBut let_go)
            (integrate host setting config_filename operation reinstall paths executable)
    unfolding integrate
    integrate-Keeps spared config_filename executable =
        bind-Keeps _ order _ _ (found-Keeps _ order _ (setting.absolute config_filename))
          (λ filename. look-Keeps _ order _ (λ files.
            bind-Keeps _ order _ _ (unless-Keeps _ order (setting.load filename files)) (λ _.
              bind-Keeps _ order _ _ (executable-Keeps executable) (λ path.
                bind-Keeps _ order _ _ (of_result-Keeps (desktop_entry path filename true))
                  (λ autostart_entry.
                    bind-Keeps _ order _ _ (of_result-Keeps (desktop_entry path filename false))
                      (λ launcher_entry. look-Keeps _ order _ (λ files.
                        bind-Keeps _ order _ _
                          (backup-Keeps spared (backup_targets reinstall operation paths))
                          (λ backup.
                            install_all-Keeps _ path filename autostart_entry launcher_entry
                              backup))))))))

    pub execute-Keeps :
        ((path : Text) → let_go path ≡ false → not (below setting.saved path) ≡ true)
        → (config_filename executable : Text)
        → Keeps
            (KeptBut let_go)
            (execute_with host setting config_filename operation reinstall paths executable)
    unfolding execute_with
    execute-Keeps spared config_filename executable =
        bind-Keeps _ order _ _ (config-Keeps operation config_filename) (λ _.
          if-Keeps _ order (not (installs_autostart operation) && not (installs_launcher operation))
            _ _ (λ _. done-Keeps _ order {A = Option Text} none)
            (λ _. integrate-Keeps spared config_filename executable))

-- the paths that a run may write over, and those of its new backup directory
abbrev pub let_go_by : Bool → InstallPaths → Text → Text → Bool
let_go_by reinstall paths saved path =
    below saved path
    || reinstall
      && (text_eq path paths.autostart || text_eq path paths.launcher || text_eq path paths.icon)

-- Whatever call fails and whenever it does, setup keeps every file, link and directory that was
-- there, the configuration among them. The only exceptions are the three desktop files, and those
-- only when a reinstallation is asked for, and what lies in the backup directory of this run.
pub setup_keeps_files :
    (host : Host) (setting : Setting) (config_filename executable : Text)
    (operation : SetupOperation) (reinstall : Bool) (paths : InstallPaths) (world : World)
    (path : Text) (node : Node)
    → let_go_by reinstall paths setting.saved path ≡ false
    → get path world.files ≡ some node
    → get path
        (execute_with host setting config_filename operation reinstall paths executable
          world).0.files
      ≡ some node
unfolding Keeps
setup_keeps_files host setting config_filename executable operation reinstall paths world =
    execute-Keeps let_go host setting operation reinstall paths
      (
        λ h t. ground (arith, text_eq_refl paths.autostart),
        λ h t.
            (ground (arith, text_eq_refl paths.launcher), ground (arith, text_eq_refl paths.icon)),
      )
      (λ path h. ground arith) config_filename executable world
  where
    let_go : Text → Bool
    let_go = let_go_by reinstall paths setting.saved
