-- ===== src/Examples/Disk.antt =====
-- cmd/montray-ui/src/setup.rs and persistence.rs on small file systems.
use salmon.Base.{
  ◌⊎◌, ◌≡◌, refl, arith, Bool, true, false, none, some, [], ◌∷◌, ◌++◌, Text, codes, text_eq,
  text_lt, starts_with,
}
use salmon.Base.Results.{Result, ok, err}
use salmon.Base.Maps.{get, insert, remove}
use salmon.Base.Strings.{replace_from}
use salmon.Files.{
  directory, create_dir_all, file, Host, World, attempt, change, exists, followed, contents_of,
  ◌>>=◌, read_contents, remove_file, path_join,
}
use salmon.Setup.Install.{parent_of, install_file, prepare_temporary, persist_noclobber, put_file}
use salmon.Setup.Execute.{Setting, InstallPaths, complete, execute_with}
use salmon.Setup.Execute.Targets.{Outside}
use salmon.Setup.Install.{below}
use salmon.Files.Keeps.{Grown}
use salmon.Setup.Execute.Reinstalled.{reinstall_backs_up}
use salmon.Setup.Execute.Preserved.{let_go_by, setup_keeps_files}
use salmon.Setup.Migrate.Copying.{
  Listing, end, file_entry, link_entry, copy_directory_contents_noclobber, copy_entries, copy_one,
  copy_file, then_do, end_of_links, rollback_created_files, remove_created, try_remove,
}
use salmon.Setup.Migrate.Copying.Journal.{Plain}
use salmon.Setup.Migrate.Config.{migrate_salmon_config, copy_config, after_config, copy_neighbours}
use salmon.Setup.Migrate.Config.Undone.{migration_rolls_back}
use salmon.Persistence.Store.{Format, update}
use salmon.Persistence.Store.Atomic.{Committed, update_atomic}
use salmon.Persistence.Import.{Inspected, versioned, default_state_path}
use salmon.Persistence.Import.Kept.{import_keeps_files}

-- a host on which every call succeeds
abbrev healthy : Host
healthy = record { fault = λ call path files. none }

abbrev config_path : Text
config_path = codes "/c/m.yml"

abbrev paths : InstallPaths
paths = record { autostart = codes "/a/m"; launcher = codes "/l/m"; icon = codes "/i/m" }

abbrev setting : Setting
setting = record {
  absolute = λ path. some path;
  load = λ path files. none;
  default_config_path = none;
  saved = codes "/t/b";
  backup_parent = codes "/t";
  temporary_directory = codes "/t";
  default_config = codes "wsClient:";
  application_icon = codes "<svg/>";
}

abbrev configured : World
configured = record { files = (config_path, file (codes "mine")) ∷ []; printed = [] }

config_there : get config_path configured.files ≡ some (file (codes "mine"))
unfolding get text_eq
config_there = refl

config_kept : let_go_by true paths (codes "/t/b") config_path ≡ false
unfolding text_eq starts_with
config_kept = refl

setup_keeps_files_example :
    get config_path
      (execute_with healthy setting config_path complete true paths
        (codes "/o/m")
        configured).0.files
    ≡ some (file (codes "mine"))
setup_keeps_files_example =
    setup_keeps_files healthy setting config_path (codes "/o/m") complete true paths configured
      config_path (file (codes "mine")) config_kept config_there

abbrev installed : World
installed = record { files = (codes "/a/m", file (codes "mine")) ∷ []; printed = [] }

paths-Outside : Outside (codes "/t/b") paths
unfolding starts_with text_eq
paths-Outside = (refl, refl, refl)

autostart_apart : below (codes "/t/b") (codes "/a/m") ≡ false
unfolding starts_with text_eq
autostart_apart = refl

autostart_there : get (codes "/a/m") installed.files ≡ some (file (codes "mine"))
unfolding get text_eq
autostart_there = refl

abbrev reinstalled_world : World
reinstalled_world =
    (execute_with healthy setting config_path complete true paths (codes "/o/m") installed).0

reinstall_backs_up_example :
    (get (codes "/a/m") reinstalled_world.files ≡ some (file (codes "mine")))
    ⊎ ((name : Text) × (get (path_join (codes "/t/b") name) reinstalled_world.files
          ≡ some (file (codes "mine"))))
reinstall_backs_up_example =
    reinstall_backs_up healthy setting config_path (codes "/o/m") complete true paths installed
      (codes "/a/m") (codes "mine") paths-Outside autostart_apart autostart_there

abbrev entry : Text
entry = codes "X-Montray-Desktop-Entry-Version=2"

abbrev blank : World
blank = record { files = []; printed = [] }

-- the directory of the entries is new
abbrev made : World
made = record { files = (codes "/a", directory) ∷ []; printed = [] }

-- The configuration and one token are copied; the link behind them ends the migration.
abbrev former : World
former = record {
  files = (codes "/c", directory) ∷ (codes "/s/s.yml", file (codes "old")) ∷ [];
  printed = [];
}

abbrev listing : Listing
listing = file_entry (codes "t") (codes "secret") (link_entry (codes "l") end)

abbrev is_utf8 : Text → Bool
is_utf8 text = true

former-Plain : Plain former.files
unfolding get
former-Plain path target e = ground arith

abbrev link_refused : Text
link_refused = codes "refusing to migrate symbolic link in Salmon Watch configuration: /s/l"

migration_fails :
    migrate_salmon_config healthy is_utf8 listing (codes "/s/s.yml") config_path former
    ≡ (former, err link_refused)
unfolding migrate_salmon_config exists followed get text_eq ◌>>=◌ copy_config read_contents attempt
    contents_of parent_of install_file prepare_temporary persist_noclobber put_file change insert
    text_lt starts_with replace_from after_config copy_neighbours copy_directory_contents_noclobber
    copy_entries copy_one copy_file then_do end_of_links rollback_created_files remove_created
    try_remove remove_file remove create_dir_all
migration_fails = refl

migration_rolls_back_example : Grown former.files former.files
migration_rolls_back_example =
    migration_rolls_back healthy is_utf8 listing (codes "/s/s.yml") config_path former former
      link_refused (λ path files. refl) former-Plain migration_fails

-- a state that is its own text
abbrev format : Format Text
format = record { initial = codes "0"; parse = λ text. some text; print = λ state. some state }

abbrev next : Text → Result Text Text
next old = ok (old ++ codes "1")

update_atomic_example :
    Committed healthy format (codes "/s") next blank (update healthy format (codes "/s") next blank)
update_atomic_example = update_atomic healthy format (codes "/s") next blank

abbrev inspected : Text → Inspected
inspected text = versioned 1

abbrev home : World
home = record { files = (codes "/h/.s", file (codes "state")) ∷ []; printed = [] }

state_there : get (codes "/h/.s") home.files ≡ some (file (codes "state"))
unfolding get text_eq
state_there = refl

import_keeps_files_example :
    get
      (codes "/h/.s")
      (default_state_path healthy inspected
        (some (codes "/h"))
        (codes ".m")
        (codes ".s")
        (codes ".l")
        home).0.files
    ≡ some (file (codes "state"))
import_keeps_files_example =
    import_keeps_files healthy inspected (some (codes "/h")) (codes ".m") (codes ".s") (codes ".l")
      home (codes "/h/.s") (file (codes "state")) state_there
