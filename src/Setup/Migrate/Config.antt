-- ===== src/Setup/Migrate/Config.antt =====
-- setup.rs: `migrate_salmon_config`.
pub mod Undone
use salmon.Base.{
  Bool, true, false, not, Option, none, some, List, [], ◌∷◌, ◌++◌, Text, codes, if◌then◌else◌,
}
use salmon.Base.Results.{Result, ok, err}
use salmon.Base.Strings.{replace}
use salmon.Files.{
  Files, Host, World, Io, ◌>>=◌, ◌>>◌, done, fail, look, found, exists, read_contents,
}
use salmon.Setup.Install.{FileResult, created, preserved, reinstalled, install_file, parent_of}
use salmon.Setup.Migrate.Copying.{
  Listing, Journaled, copy_directory_contents_noclobber, rollback_created_files,
}

module _ (host : Host) where
  abbrev pub end_copy : Option Text → Journaled → World × Result Text (Unit {0})
  end_copy none now = (now.world, ok tt)
  end_copy (some failure) now = rollback_created_files host now.created failure now.world

  abbrev pub finish_copy : Journaled → World × Result Text (Unit {0})
  finish_copy now = end_copy now.failure now

-- `is_utf8` is the check of `String::from_utf8`.
module _ (host : Host) (is_utf8 : Text → Bool) (listing : Listing) where
  -- the rest, once the configuration itself is there
  unfoldable pub copy_neighbours : Text → Text → Text → Text → Io (Unit {0})
  copy_neighbours source_directory destination_directory source destination world =
      finish_copy host (
        copy_directory_contents_noclobber host source_directory destination_directory source listing
          (record { world = world; created = destination ∷ []; failure = none }))

  unfoldable pub after_config : Text → Text → Text → Text → FileResult → Io (Unit {0})
  after_config source_directory destination_directory source destination created =
      copy_neighbours source_directory destination_directory source destination
  after_config source_directory destination_directory source destination preserved = done tt
  after_config source_directory destination_directory source destination reinstalled =
      fail
        (codes "internal error: entered unreachable code: migration never replaces configuration")

  unfoldable pub copy_config : Text → Text → Io (Unit {0})
  copy_config source destination = do
    text ← read_contents host source
    (if is_utf8 text then done tt else fail (codes "Salmon Watch config is not UTF-8"))
    source_directory ← found (codes "Salmon Watch config has no parent") (parent_of source)
    destination_directory ← found (codes "Montray UI config has no parent") (parent_of destination)
    result ←
        install_file host destination (replace source_directory destination_directory text) false
    after_config source_directory destination_directory source destination result

  unfoldable pub migrate_salmon_config : Text → Text → Io (Unit {0})
  migrate_salmon_config source destination = do
    files ← look
    (if exists destination files then done tt else copy_config source destination)
