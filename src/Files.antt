-- ===== src/Files.antt =====
-- The file system as setup, migration and the token command of the client see it. A path is a text
-- with `/` between its names, and a file is found under the path that the code writes. Any call can
-- fail, with any message and at any moment: `Host.fault` says when. Rust's `?` and `bail!` are the
-- error of `Io`.
pub mod Keeps
use salmon.Base.{
  ℕ, zero, suc, Bool, true, false, Option, none, some, List, [], ◌∷◌, ◌++◌, Text, codes,
  if◌then◌else◌, ◌==◌, ◌≡◌, ◌&&◌, not, is_empty,
}
use salmon.Base.Results.{Result, ok, err}
use salmon.Base.Maps.{Map, get, insert, remove, contains_key}

pub data Node : Type 0 where
  file : Text → Node
  link : Text → Node
  directory : Node

abbrev pub Files : Type 0
Files = Map Node

-- the calls of the operating system that can fail
pub data Call : Type 0 where
  create_directory : Call
  create_temporary : Call
  set_permissions : Call
  write_temporary : Call
  write_destination : Call
  persist : Call
  inspect : Call
  read : Call
  copy : Call
  unlink : Call
  list_directory : Call
  print : Call
  resolve : Call

pub record Host : Type 0 where
  pub fault : Call → Text → Files → Option Text

pub record World : Type 0 where
  pub files : Files
  pub printed : List Text

abbrev pub Io : Type 0 → Type 0
Io A = World → World × Result Text A

abbrev pub continue : {A B : Type 0} → (A → Io B) → World × Result Text A → World × Result Text B
continue rest (world, ok value) = rest value world
continue rest (world, err failure) = (world, err failure)

infixl 5 ◌>>=◌ ◌>>◌
unfoldable pub ◌>>=◌ : {A B : Type 0} → Io A → (A → Io B) → Io B
◌>>=◌ action rest world = continue rest (action world)

abbrev pub ◌>>◌ : {B : Type 0} → Io (Unit {0}) → Io B → Io B
action >> rest = action >>= (λ _. rest)

abbrev pub done : {A : Type 0} → A → Io A
done value world = (world, ok value)

abbrev pub fail : {A : Type 0} → Text → Io A
fail failure world = (world, err failure)

-- the files at this moment
abbrev pub look : Io Files
look world = (world, ok world.files)

-- the part of a call that can fail
abbrev pub unless : Option Text → Io (Unit {0})
unless none world = (world, ok tt)
unless (some failure) world = (world, err failure)

unfoldable pub attempt : Host → Call → Text → Io (Unit {0})
attempt host call path world = unless (host.fault call path world.files) world

unfoldable pub change : (Files → Files) → Io (Unit {0})
change f world = (record world { files = f world.files }, ok tt)

abbrev pub show : Text → Io (Unit {0})
show line world = (record world { printed = world.printed ++ line ∷ [] }, ok tt)

unfoldable pub print_line : Host → Text → Io (Unit {0})
print_line host line = do attempt host print line; show line

-- `context`, for what is not there
abbrev pub found : {A : Type 0} → Text → Option A → Io A
found failure none = fail failure
found failure (some value) = done value

-- Following links, at most forty as Linux does.
unfoldable pub followed : ℕ → Text → Files → Option Node
followed zero path files = none
followed (suc fuel) path files = elim (get path files) [
  | none ↦ none
  | some (file contents) ↦ some (file contents)
  | some (link target) ↦ followed fuel target files
  | some directory ↦ some directory
]

abbrev pub most_links : ℕ
most_links = 40

-- what a read gives
unfoldable pub contents_of : Text → Files → Option Text
contents_of path files = elim (followed most_links path files) [
  | none ↦ none
  | some (file contents) ↦ some contents
  | some (link target) ↦ none
  | some directory ↦ none
]

-- `Path::exists`
unfoldable pub exists : Text → Files → Bool
exists path files = elim (followed most_links path files) [ none ↦ false | some node ↦ true ]

abbrev pub is_directory : Option Node → Bool
is_directory none = false
is_directory (some (file contents)) = false
is_directory (some (link target)) = false
is_directory (some directory) = true

-- the paths to a path, the outermost first
unfoldable pub paths_to : Text → Text → List Text
paths_to front [] = if is_empty front then [] else front ∷ []
paths_to front (c ∷ cs) =
    let rest = paths_to (front ++ c ∷ []) cs in
    if c == b'/' && not (is_empty front) then front ∷ rest else rest

-- `mkdir`, where nothing is
unfoldable pub make_missing : Host → Text → Io (Unit {0})
make_missing host path = do attempt host create_directory path; change (insert path directory)

unfoldable pub make_directory : Host → Text → Io (Unit {0})
make_directory host path = do
  files ← look
  (if contains_key path files
      then (if is_directory (followed most_links path files)
          then done tt
          else fail (codes "create directory " ++ path))
      else make_missing host path)

unfoldable pub make_directories : Host → List Text → Io (Unit {0})
make_directories host [] = done tt
make_directories host (path ∷ paths) = do make_directory host path; make_directories host paths

-- `fs::create_dir_all`: a call that fails leaves the directories that it has made.
unfoldable pub create_dir_all : Host → Text → Io (Unit {0})
create_dir_all host path = do
  files ← look
  (if is_directory (followed most_links path files)
      then done tt
      else make_directories host (paths_to [] path))

-- `fs::read` and `fs::copy` fail where there is no readable file.
unfoldable pub read_contents : Host → Text → Io Text
read_contents host path = do
  attempt host read path
  files ← look
  found (codes "cannot read " ++ path) (contents_of path files)

-- `fs::remove_file`, which takes a link itself
unfoldable pub remove_file : Host → Text → Io (Unit {0})
remove_file host path = do attempt host unlink path; change (remove path)

-- `Path::join`
abbrev pub path_join : Text → Text → Text
path_join path name = path ++ codes "/" ++ name
