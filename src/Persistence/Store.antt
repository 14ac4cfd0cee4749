-- ===== src/Persistence/Store.antt =====
-- persistence.rs: `load`, `save` and the transactions of `Store`, on the file system. The lock makes
-- each of them one step.
pub mod Atomic
use salmon.Base.{Bool, true, false, Option, none, some, ◌++◌, Text, codes, if◌then◌else◌}
use salmon.Base.Results.{Result, ok, err}
use salmon.Files.{
  Files, Call, create_temporary, set_permissions, write_temporary, read, Host, World, Io, ◌>>=◌,
  ◌>>◌, done, fail, look, attempt, found, contents_of, exists,
}
use salmon.Setup.Install.{parent_of, persist_over}
use salmon.Setup.Execute.{of_result}

-- The state with its JSON, which serde_json reads and writes.
pub record Format (State : Type 0) : Type 0 where
  pub initial : State
  pub parse : Text → Option State
  pub print : State → Option Text

module _ (host : Host) {State : Type 0} (format : Format State) where
  unfoldable pub load_found : Text → Files → Io State
  load_found path files =
      if exists path files
      then (found (codes "failed to read state file " ++ path) (contents_of path files)
          >>= (λ data_. found (codes "failed to parse state file " ++ path) (format.parse data_)))
      else done format.initial

  unfoldable pub load : Text → Io State
  load path = do attempt host read path; files ← look; load_found path files

  -- encoded, finished with a line feed, flushed and synchronized
  unfoldable pub write_state : Text → State → Io Text
  write_state parent state = do
    attempt host create_temporary parent
    attempt host set_permissions parent
    attempt host write_temporary parent
    text ← found (codes "failed to encode state file") (format.print state)
    attempt host write_temporary parent
    attempt host write_temporary parent
    attempt host write_temporary parent
    done (text ++ codes "\n")

  unfoldable pub save : Text → State → Io (Unit {0})
  save path state = do
    parent ← found (codes "state filename has no parent directory") (parent_of path)
    text ← write_state parent state
    result ← persist_over host path text
    done tt

  -- `Store::update`
  unfoldable pub update : Text → (State → Result Text State) → Io (Unit {0})
  update path change_ = do old ← load path; new ← of_result (change_ old); save path new
