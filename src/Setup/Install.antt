-- ===== src/Setup/Install.antt =====
-- setup.rs: the installation of a file, and the backup of those that are replaced.
pub mod Keeping
use salmon.Base.{
  ℕ, Bool, true, false, not, ◌&&◌, ◌||◌, Option, none, some, List, [], ◌∷◌, ◌++◌, map, Text, codes,
  text_eq, starts_with, ◌==◌, is_empty, is_some, if◌then◌else◌,
}
use salmon.Base.Results.{Result, ok, err}
use salmon.Base.Maps.{Map, get, insert, remove, retain, contains_key}
use salmon.Files.{
  create_dir_all, is_directory, Node, file, link, directory, Files, Call, create_directory,
  create_temporary, set_permissions, write_temporary, write_destination, persist, inspect, copy,
  resolve, Host, World, Io, ◌>>=◌, ◌>>◌, done, fail, look, attempt, change, print_line, found,
  contents_of, exists, path_join,
}
use salmon.Setup.Entry.{desktop_entry, is_legacy_desktop_entry}
use salmon.Setup.Quoting.{shell_argument}

-- `Path::parent`, for a path without a slash at its end
abbrev pub before_last_slash : Text → Option Text
before_last_slash [] = none
before_last_slash (c ∷ cs) = cut c (before_last_slash cs)
  where
    cut : ℕ → Option Text → Option Text
    cut c none = if c == b'/' then some [] else none
    cut c (some front) = some (c ∷ front)

abbrev pub parent_of_cut : Option Text → Option Text
parent_of_cut none = some []
parent_of_cut (some []) = some (codes "/")
parent_of_cut (some (c ∷ cs)) = some (c ∷ cs)

unfoldable pub parent_of : Text → Option Text
parent_of path =
    if is_empty path || text_eq path (codes "/")
    then none
    else parent_of_cut (before_last_slash path)

pub data FileResult : Type 0 where
  created : FileResult
  preserved : FileResult
  reinstalled : FileResult

unfoldable pub put_file : Text → Text → Files → Io FileResult
put_file path contents files = do
  change (insert path (file contents))
  done (if exists path files then reinstalled else created)

module _ (host : Host) where
  -- `NamedTempFile` with its permissions and contents; it is removed again unless it is persisted
  unfoldable pub prepare_temporary : Text → Io (Unit {0})
  prepare_temporary parent = do
    attempt host create_temporary parent
    attempt host set_permissions parent
    attempt host write_temporary parent
    attempt host write_temporary parent

  -- `persist` takes the place of a file or a link, not of a directory.
  unfoldable pub persist_over : Text → Text → Io FileResult
  persist_over path contents = do
    files ← look
    attempt host persist path
    (if is_directory (get path files)
        then fail (codes "replace file")
        else put_file path contents files)

  unfoldable pub persist_noclobber : Text → Text → Io FileResult
  persist_noclobber path contents = do
    files ← look
    (if contains_key path files
        then done preserved
        else (attempt host persist path >> put_file path contents files))

  unfoldable pub install_file : Text → Text → Bool → Io FileResult
  install_file path contents replace = do
    parent ← found (codes "installation filename has no parent") (parent_of path)
    create_dir_all host parent
    files ← look
    (if not replace && exists path files
        then done preserved
        else (prepare_temporary parent
            >> (if replace then persist_over path contents else persist_noclobber path contents)))

  -- the description, as it is and with its first letter as a capital
  unfoldable pub report : Text → Text → Text → FileResult → Io (Unit {0})
  report description capitalized path created =
      print_line host (codes "Created " ++ description ++ codes " at " ++ path)
  report description capitalized path preserved =
      print_line host
        (capitalized ++ codes " already exists at " ++ path ++ codes "; leaving it unchanged")
  report description capitalized path reinstalled =
      print_line host (codes "Reinstalled " ++ description ++ codes " at " ++ path)

  -- a file, and what is said of it
  unfoldable pub install : Text → Text → Text → Text → Bool → Io (Unit {0})
  install description capitalized path contents replace = do
    result ← install_file path contents replace
    report description capitalized path result

  -- the targets that are there
  unfoldable pub existing_targets : List (Text × Text) → Io (List (Text × Text))
  existing_targets [] = done []
  existing_targets (target ∷ targets) = do
    attempt host inspect target.0
    files ← look
    rest ← existing_targets targets
    done (if contains_key target.0 files then target ∷ rest else rest)

  unfoldable pub back_up : Text → Text × Text → Io (Unit {0})
  back_up saved target = do
    parent ← found (codes "backup path has a parent") (parent_of (path_join saved target.1))
    create_dir_all host parent
    attempt host copy target.0
    files ← look
    contents ← found (codes "back up " ++ target.0) (contents_of target.0 files)
    change (insert (path_join saved target.1) (file contents))
    attempt host write_destination (path_join saved target.1)

  unfoldable pub back_up_all : Text → List (Text × Text) → Io (Unit {0})
  back_up_all saved [] = done tt
  back_up_all saved (target ∷ targets) = do back_up saved target; back_up_all saved targets

-- a directory and what lies below it, which goes with it
abbrev pub below : Text → Text → Bool
below saved path = text_eq path saved || starts_with path (path_join saved [])

abbrev pub cleaned : {A : Type 0} → (Files → Files) → World × Result Text A → World × Result Text A
cleaned undo (world, ok value) = (world, ok value)
cleaned undo (world, err failure) = (record world { files = undo world.files }, err failure)

-- `TempDir` removes its directory when it is dropped before `keep`.
abbrev pub or_clean_up : {A : Type 0} → (Files → Files) → Io A → Io A
or_clean_up undo action world = cleaned undo (action world)
