-- ===== src/Persistence/Import.antt =====
-- persistence.rs: the import of the state of the former application.
pub mod Kept
use salmon.Base.{ℕ, Bool, true, false, Option, none, some, ◌++◌, Text, codes, if◌then◌else◌, ltb}
use salmon.Base.Results.{Result, ok, err}
use salmon.Files.{
  Files, Call, create_temporary, set_permissions, write_temporary, read, Host, World, Io, ◌>>=◌,
  ◌>>◌, done, fail, look, attempt, found, contents_of, exists, path_join,
}
use salmon.Setup.Install.{FileResult, created, preserved, reinstalled, parent_of, persist_noclobber}

-- The version in the state's JSON as serde_json reads it: no JSON object, an object without the
-- field, one with a field that is no natural number, or one with a version.
pub data Inspected : Type 0 where
  malformed : Inspected
  no_object : Inspected
  unversioned : Inspected
  bad_version : Inspected
  versioned : ℕ → Inspected

abbrev pub is_new : FileResult → Bool
is_new created = true
is_new preserved = false
is_new reinstalled = true

module _ (host : Host) where
  unfoldable pub persist_copy_noclobber : Text → Text → Io Bool
  persist_copy_noclobber data_ destination = do
    parent ← found (codes "state filename has no parent directory") (parent_of destination)
    attempt host create_temporary parent
    attempt host set_permissions parent
    attempt host write_temporary parent
    attempt host write_temporary parent
    attempt host write_temporary parent
    result ← persist_noclobber host destination data_
    done (is_new result)

  -- a read of a file that is not there gives nothing
  unfoldable pub read_if_present : Text → Io (Option Text)
  read_if_present path = do
    attempt host read path
    files ← look
    (if exists path files
        then (found (codes "failed to read state file " ++ path) (contents_of path files)
            >>= (λ data_. done (some data_)))
        else done none)

  abbrev pub copy_data : Text → Option Text → Io Bool
  copy_data destination none = done false
  copy_data destination (some data_) = persist_copy_noclobber data_ destination

  unfoldable pub copy_renamed_state : Text → Text → Io Bool
  copy_renamed_state source destination = do
    files ← look
    (if exists destination files
        then done false
        else (read_if_present source >>= copy_data destination))

  module _ (inspected : Text → Inspected) where
    abbrev pub copy_inspected : Text → Text → Text → Inspected → Io Bool
    copy_inspected source legacy data_ malformed =
        fail (codes "failed to inspect state file for migration " ++ source)
    copy_inspected source legacy data_ no_object =
        fail (codes "state file for migration is not a JSON object: " ++ source)
    copy_inspected source legacy data_ unversioned = persist_copy_noclobber data_ legacy
    copy_inspected source legacy data_ bad_version =
        fail (codes "state schema_version is not a non-negative integer")
    copy_inspected source legacy data_ (versioned version) =
        if ltb version 1 then persist_copy_noclobber data_ legacy else done false

    abbrev pub copy_legacy : Text → Text → Option Text → Io Bool
    copy_legacy source legacy none = done false
    copy_legacy source legacy (some data_) = copy_inspected source legacy data_ (inspected data_)

    unfoldable pub preserve_legacy_state : Text → Text → Io Bool
    preserve_legacy_state source legacy = do
      files ← look
      (if exists legacy files
          then done false
          else (read_if_present source >>= copy_legacy source legacy))

    unfoldable pub import_state : Text → Text → Text → Io Text
    import_state state_path former_path legacy_path = do
      preserved_ ← preserve_legacy_state former_path legacy_path
      imported ← copy_renamed_state former_path state_path
      done state_path

    -- `STATE_FILENAME` and its two like are below the user's home.
    unfoldable pub default_state_path : Option Text → Text → Text → Text → Io Text
    default_state_path home_dir state_filename former_filename legacy_filename = do
      home ← found (codes "could not determine the user home directory") home_dir
      files ← look
      (if exists (path_join home state_filename) files
          then done (path_join home state_filename)
          else import_state (path_join home state_filename) (path_join home former_filename)
              (path_join home legacy_filename))
