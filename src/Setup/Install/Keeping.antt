-- ===== src/Setup/Install/Keeping.antt =====
-- setup.rs: what the installation of a file does to the others.
use salmon.Base.{
  Bool, true, false, not, ◌&&◌, List, [], ◌∷◌, ◌≡◌, Text, codes, if◌then◌else◌, if_rule,
}
use salmon.Base.Maps.{get, insert, contains_key}
use salmon.Files.{
  directory, is_directory, file, Files, create_temporary, set_permissions, write_temporary, persist,
  inspect, copy, write_destination, Host, Io, ◌>>=◌, fail, change, exists, contents_of, path_join,
}
use salmon.Files.Keeps.{
  Preorder, Keeps, bind-Keeps, attempt-Keeps, found-Keeps, done-Keeps, look-Keeps, print-Keeps,
  attempt_then, if-Keeps, change-Keeps, create_dir_all-Keeps,
}
use salmon.Setup.Install.{
  FileResult, created, preserved, reinstalled, prepare_temporary, persist_over, persist_noclobber,
  put_file, install_file, install, report, existing_targets, parent_of, back_up,
}

module _ (R : Files → Files → Type 0) (order : Preorder R) (host : Host) where
  report-Keeps :
      (description capitalized path : Text) (result : FileResult)
      → Keeps R (report host description capitalized path result)
  unfolding report
  report-Keeps description capitalized path created = print-Keeps R order host _
  report-Keeps description capitalized path preserved = print-Keeps R order host _
  report-Keeps description capitalized path reinstalled = print-Keeps R order host _

  pub temporary-Keeps : (parent : Text) → Keeps R (prepare_temporary host parent)
  unfolding prepare_temporary
  temporary-Keeps parent =
      bind-Keeps R order _ _ (attempt-Keeps R order host create_temporary parent) (λ _.
        bind-Keeps R order _ _ (attempt-Keeps R order host set_permissions parent) (λ _.
          bind-Keeps R order _ _ (attempt-Keeps R order host write_temporary parent)
            (λ _. attempt-Keeps R order host write_temporary parent)))

  module _ (path contents : Text) where
    pub noclobber-Keeps :
        ((files : Files)
          → contains_key path files ≡ false
          → R files (insert path (file contents) files))
        → Keeps R (persist_noclobber host path contents)
    unfolding persist_noclobber put_file change Keeps ◌>>=◌
    noclobber-Keeps new world =
        if_rule {A = Io FileResult} (λ action. R world.files (action world).0.files)
          (contains_key path world.files) _ _ (λ there. order.same world.files)
          (λ absent.
            attempt_then R order host persist path (put_file path contents world.files) world
              (new world.files absent))

    over-Keeps :
        ((files : Files) → R files (insert path (file contents) files))
        → Keeps R (persist_over host path contents)
    unfolding persist_over put_file change Keeps ◌>>=◌
    over-Keeps put world =
        attempt_then R order host persist path
          (if is_directory (get path world.files)
            then fail (codes "replace file")
            else put_file path contents world.files)
          world
          (if_rule {A = Io FileResult} (λ action. R world.files (action world).0.files)
            (is_directory (get path world.files)) (fail (codes "replace file"))
            (put_file path contents world.files) (λ there. order.same world.files)
            (λ absent. put world.files))

    -- If the file may be put where nothing is, and over what is there when that is asked for.
    pub install_file-Keeps :
        (fresh : (path : Text) (files : Files)
          → contains_key path files ≡ false
          → R files (insert path directory files))
        (replace : Bool)
        → ((files : Files)
            → contains_key path files ≡ false
            → R files (insert path (file contents) files))
        → (replace ≡ true → (files : Files) → R files (insert path (file contents) files))
        → Keeps R (install_file host path contents replace)
    unfolding install_file
    install_file-Keeps fresh replace new put =
        bind-Keeps R order _ _ (found-Keeps R order _ (parent_of path)) (λ parent.
          bind-Keeps R order _ _ (create_dir_all-Keeps R order fresh host parent) (λ _.
            look-Keeps R order _ (λ files.
              if-Keeps R order (not replace && exists path files) _ _
                (λ there. done-Keeps R order preserved)
                (λ absent. bind-Keeps R order _ _ (temporary-Keeps parent) (λ _.
                  if-Keeps R order replace _ _ (λ h. over-Keeps (put h))
                    (λ h. noclobber-Keeps new))))))

  pub install-Keeps :
      (fresh : (path : Text) (files : Files)
        → contains_key path files ≡ false
        → R files (insert path directory files))
      (description capitalized path contents : Text) (replace : Bool)
      → ((files : Files)
          → contains_key path files ≡ false
          → R files (insert path (file contents) files))
      → (replace ≡ true → (files : Files) → R files (insert path (file contents) files))
      → Keeps R (install host description capitalized path contents replace)
  unfolding install
  install-Keeps fresh description capitalized path contents replace new put =
      bind-Keeps R order _ _ (install_file-Keeps path contents fresh replace new put)
        (λ result. report-Keeps description capitalized path result)

  pub existing-Keeps : (targets : List (Text × Text)) → Keeps R (existing_targets host targets)
  unfolding existing_targets
  existing-Keeps [] = done-Keeps R order []
  existing-Keeps (target ∷ targets) =
      bind-Keeps R order _ _ (attempt-Keeps R order host inspect target.0) (λ _.
        look-Keeps R order _
          (λ files. bind-Keeps R order _ _ (existing-Keeps targets) (λ rest. done-Keeps R order _)))

  -- If the copy may be put where it goes in the backup.
  pub back_up-Keeps :
      (fresh : (path : Text) (files : Files)
        → contains_key path files ≡ false
        → R files (insert path directory files))
      (saved : Text) (target : Text × Text)
      → ((contents : Text) (files : Files)
          → R files (insert (path_join saved target.1) (file contents) files))
      → Keeps R (back_up host saved target)
  unfolding back_up
  back_up-Keeps fresh saved target put =
      bind-Keeps R order _ _ (found-Keeps R order _ (parent_of (path_join saved target.1)))
        (λ parent. bind-Keeps R order _ _ (create_dir_all-Keeps R order fresh host parent) (λ _.
          bind-Keeps R order _ _ (attempt-Keeps R order host copy target.0) (λ _.
            look-Keeps R order _ (λ files.
              bind-Keeps R order _ _ (found-Keeps R order _ (contents_of target.0 files))
                (λ contents.
                  bind-Keeps R order _ _ (change-Keeps R order _ (put contents))
                    (λ _. attempt-Keeps R order host write_destination _))))))
