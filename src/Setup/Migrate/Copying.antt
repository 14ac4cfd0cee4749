-- ===== src/Setup/Migrate/Copying.antt =====
-- setup.rs: `copy_directory_contents_noclobber`, with its journal of created files, and the rollback.
pub mod Journal
pub mod Rollback
use salmon.Base.{
  ℕ, zero, suc, or_else, Bool, true, false, not, ◌&&◌, Option, none, some, List, [], ◌∷◌, ◌++◌,
  Text, codes, text_eq, if◌then◌else◌,
}
use mathlib.Core.List.{reverse}
use salmon.Base.Results.{Result, ok, err}
use salmon.Base.Maps.{get, insert, remove, contains_key}
use salmon.Files.{
  create_dir_all, Node, file, link, directory, Files, most_links, found, remove_file, Call,
  create_directory, list_directory, inspect, copy, write_destination, unlink, Host, World, Io,
  continue, ◌>>=◌, ◌>>◌, done, fail, look, attempt, change, exists, path_join,
}

-- What `read_dir` gives of the former directory: an entry, and those after it.
pub data Listing : Type 0 where
  end : Listing
  file_entry : Text → Text → Listing → Listing
  directory_entry : Text → Listing → Listing → Listing
  link_entry : Text → Listing → Listing
  other_entry : Text → Listing → Listing

-- The journal outlives a failure: an action on it gives the journal beside the files.
pub record Journaled : Type 0 where
  pub world : World
  pub created : List Text
  pub failure : Option Text

abbrev pub settled : List Text → World × Result Text (Unit {0}) → Journaled
settled created (world, ok value) = record { world = world; created = created; failure = none }
settled created (world, err failure) = record {
  world = world;
  created = created;
  failure = some failure;
}

-- a step that leaves the journal alone
abbrev pub step : Io (Unit {0}) → Journaled → Journaled
step action now = settled now.created (action now.world)

-- `?`: after a failure nothing more is done
abbrev pub go_on : Option Text → Journaled → (Journaled → Journaled) → Journaled
go_on (some failure) now rest = now
go_on none now rest = rest now

unfoldable pub then_do : Journaled → (Journaled → Journaled) → Journaled
then_do now rest = go_on now.failure now rest

-- `continue`, for the file that is copied apart
abbrev pub skipping : Bool → Journaled → Journaled → Journaled
skipping skip now copied = if skip then now else copied

-- The path at which an open that creates the file creates it: links are followed.
unfoldable pub end_of_links : ℕ → Text → Files → Option Text
end_of_links zero path files = none
end_of_links (suc fuel) path files = elim (get path files) [
  | none ↦ some path
  | some (file contents) ↦ some path
  | some (link target) ↦ end_of_links fuel target files
  | some directory ↦ some path
]

abbrev pub note : Text → Journaled → Journaled
note path now = record now { created = now.created ++ path ∷ [] }

abbrev pub removal : Text → World × Result Text (Unit {0}) → World × Option Text
removal path (after, ok value) = (after, none)
removal path (after, err failure) = (after, some (codes "remove " ++ path ++ codes ": " ++ failure))

abbrev pub with_context : Option Text → Text → Text
with_context none failure = failure
with_context (some rollback_error) failure =
    codes "migration rollback was incomplete: " ++ rollback_error ++ codes ": " ++ failure

module _ (host : Host) where
  -- `fs::copy` can fail before it creates the file, and after
  unfoldable pub copy_file : Text → Text → Io (Unit {0})
  copy_file path contents = do
    attempt host copy path
    files ← look
    target ← found (codes "copy Salmon Watch file " ++ path) (end_of_links most_links path files)
    change (insert target (file contents))
    attempt host write_destination path

  unfoldable pub copy_one : Text → Text → Journaled → Journaled
  copy_one path contents now =
      if exists path now.world.files then now else step (copy_file path contents) (note path now)

  unfoldable pub copy_entries : Text → Text → Text → Listing → Journaled → Journaled
  copy_entries source destination skipped end now = now
  copy_entries source destination skipped (file_entry name contents rest) now =
      then_do
        (skipping (text_eq (path_join source name) skipped) now
          (copy_one (path_join destination name) contents now))
        (copy_entries source destination skipped rest)
  copy_entries source destination skipped (directory_entry name inner rest) now =
      then_do
        (skipping (text_eq (path_join source name) skipped) now (
          then_do (step (create_dir_all host (path_join destination name)) now) (λ ready.
            then_do (step (attempt host list_directory (path_join source name)) ready)
              (copy_entries (path_join source name) (path_join destination name) skipped inner))))
        (copy_entries source destination skipped rest)
  copy_entries source destination skipped (link_entry name rest) now =
      then_do
        (skipping (text_eq (path_join source name) skipped) now (
          step
            (fail (
              codes "refusing to migrate symbolic link in Salmon Watch configuration: "
              ++ path_join source name))
            now))
        (copy_entries source destination skipped rest)
  copy_entries source destination skipped (other_entry name rest) now =
      copy_entries source destination skipped rest now

  unfoldable pub copy_directory_contents_noclobber :
      Text → Text → Text → Listing → Journaled → Journaled
  copy_directory_contents_noclobber source destination skipped listing now =
      then_do (step (create_dir_all host destination) now) (λ ready.
        then_do (step (attempt host list_directory source) ready)
          (copy_entries source destination skipped listing))

  -- A file that is not there is passed over.
  unfoldable pub try_remove : Text → World → World × Option Text
  try_remove path world =
      if contains_key path world.files
      then removal path (remove_file host path world)
      else (world, none)

  -- the first failure is reported
  unfoldable pub remove_created : List Text → World → World × Option Text
  remove_created [] world = (world, none)
  remove_created (path ∷ paths) world =
      let now = try_remove path world in
      let later = remove_created paths now.0 in (later.0, or_else now.1 later.1)

  unfoldable pub rollback_created_files : List Text → Text → Io (Unit {0})
  rollback_created_files created failure world =
      let undone = remove_created (reverse created) world in
      (undone.0, err (with_context undone.1 failure))
