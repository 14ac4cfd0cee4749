-- ===== src/Files/Keeps.antt =====
-- What every action of a kind does to the files, step by step: a relation between the files before
-- and after that no step breaks, failures included.
use salmon.Base.Maps.{get, insert, contains_key, get-insert}
use salmon.Base.{
  Bool, true, false, if◌then◌else◌, if_rule, Option, none, some, ◌≡◌, ◌⊎◌, refl, sym, ap, ◌∙◌, Text,
  text_eq, text_eq_iff, arith, Bool-cases, List, [], ◌∷◌, inl, inr,
}
use salmon.Base.Results.{Result, ok, err}
use salmon.Files.{
  Node, directory, is_directory, followed, most_links, paths_to, make_missing, make_directory,
  make_directories, create_dir_all, Files, Host, Call, World, Io, ◌>>=◌, ◌>>◌, done, fail, look,
  attempt, change, print_line, continue, unless, show, found, read_contents, contents_of,
}

-- a relation that steps can be chained in
pub record Preorder (R : Files → Files → Type 0) : Type 0 where
  pub same : (files : Files) → R files files
  pub chain : (a b c : Files) → R a b → R b c → R a c

unfoldable pub Keeps : (Files → Files → Type 0) → {A : Type 0} → Io A → Type 0
Keeps R action = (world : World) → R world.files (action world).0.files

module _ (R : Files → Files → Type 0) (order : Preorder R) where
  pub continue-Keeps :
      {A B : Type 0} (before : Files) (rest : A → Io B) (result : World × Result Text A)
      → R before result.0.files
      → ((value : A) → Keeps R (rest value))
      → R before (continue rest result).0.files
  unfolding Keeps
  continue-Keeps before rest (world, ok value) h k =
      order.chain before world.files (rest value world).0.files h (k value world)
  continue-Keeps before rest (world, err failure) h k = h

  pub bind-Keeps :
      {A B : Type 0} (action : Io A) (rest : A → Io B)
      → Keeps R action
      → ((value : A) → Keeps R (rest value))
      → Keeps R (action >>= rest)
  unfolding Keeps ◌>>=◌
  bind-Keeps action rest h k world = continue-Keeps world.files rest (action world) (h world) k

  pub unless-Keeps : (fault : Option Text) → Keeps R (unless fault)
  unfolding Keeps
  unless-Keeps none world = order.same world.files
  unless-Keeps (some failure) world = order.same world.files

  pub attempt-Keeps : (host : Host) (call : Call) (path : Text) → Keeps R (attempt host call path)
  unfolding attempt Keeps
  attempt-Keeps host call path world = unless-Keeps (host.fault call path world.files) world

  pub done-Keeps : {A : Type 0} (value : A) → Keeps R (done value)
  unfolding Keeps
  done-Keeps value world = order.same world.files

  pub fail-Keeps : (A : Type 0) (failure : Text) → Keeps R (fail {A = A} failure)
  unfolding Keeps
  fail-Keeps A failure world = order.same world.files

  pub found-Keeps : {A : Type 0} (failure : Text) (value : Option A) → Keeps R (found failure value)
  unfolding Keeps
  found-Keeps failure none world = order.same world.files
  found-Keeps failure (some value) world = order.same world.files

  pub look-Keeps :
      {A : Type 0} (rest : Files → Io A)
      → ((files : Files) → Keeps R (rest files))
      → Keeps R (look >>= rest)
  unfolding Keeps ◌>>=◌
  look-Keeps rest h world = h world.files world

  show-Keeps : (line : Text) → Keeps R (show line)
  unfolding Keeps
  show-Keeps line world = order.same world.files

  pub print-Keeps : (host : Host) (line : Text) → Keeps R (print_line host line)
  unfolding print_line
  print-Keeps host line = bind-Keeps _ _ (attempt-Keeps host Call.print line) (λ _. show-Keeps line)

  pub read-Keeps : (host : Host) (path : Text) → Keeps R (read_contents host path)
  unfolding read_contents
  read-Keeps host path =
      bind-Keeps _ _ (attempt-Keeps host Call.read path)
        (λ _. look-Keeps _ (λ files. found-Keeps _ (contents_of path files)))

  -- A call that can fail, before the rest: the rest starts from the same files.
  pub attempt_then :
      {B : Type 0} (host : Host) (call : Call) (path : Text) (rest : Io B) (world : World)
      → R world.files (rest world).0.files
      → R world.files ((attempt host call path >> rest) world).0.files
  unfolding attempt ◌>>=◌
  attempt_then host call path rest world h = unless_then (host.fault call path world.files)
    where
      unless_then : (fault : Option Text) → R world.files ((unless fault >> rest) world).0.files
      unless_then none = h
      unless_then (some failure) = order.same world.files

  pub change-Keeps :
      (f : Files → Files) → ((files : Files) → R files (f files)) → Keeps R (change f)
  unfolding change Keeps
  change-Keeps f h world = h world.files

  pub if-Keeps :
      {A : Type 0} (test : Bool) (x y : Io A)
      → (test ≡ true → Keeps R x)
      → (test ≡ false → Keeps R y)
      → Keeps R (if test then x else y)
  unfolding Keeps
  if-Keeps {A} test x y h k world =
      if_rule {A = Io A} (λ action. R world.files (action world).0.files) test x y (λ e. h e world)
        (λ e. k e world)

  -- Directories are made where nothing is.
  module _
      (fresh : (path : Text) (files : Files)
        → contains_key path files ≡ false
        → R files (insert path directory files)) where
    make_directory-Keeps : (host : Host) (path : Text) → Keeps R (make_directory host path)
    unfolding make_directory make_missing change Keeps ◌>>=◌
    make_directory-Keeps host path world =
        if_rule {A = Io (Unit {0})} (λ action. R world.files (action world).0.files)
          (contains_key path world.files) _ _
          (λ there.
            if_rule {A = Io (Unit {0})} (λ action. R world.files (action world).0.files)
              (is_directory (followed most_links path world.files)) _ _
              (λ _. order.same world.files) (λ _. order.same world.files))
          (λ absent.
            attempt_then host Call.create_directory path (change (insert path directory)) world
              (fresh path world.files absent))

    make_directories-Keeps :
        (host : Host) (paths : List Text) → Keeps R (make_directories host paths)
    unfolding make_directories
    make_directories-Keeps host [] = done-Keeps tt
    make_directories-Keeps host (path ∷ paths) =
        bind-Keeps _ _ (make_directory-Keeps host path) (λ _. make_directories-Keeps host paths)

    pub create_dir_all-Keeps : (host : Host) (path : Text) → Keeps R (create_dir_all host path)
    unfolding create_dir_all
    create_dir_all-Keeps host path = look-Keeps _ (λ files.
        if-Keeps (is_directory (followed most_links path files)) _ _ (λ _. done-Keeps tt)
          (λ _. make_directories-Keeps host (paths_to [] path)))

-- A call that can fail either does nothing, or fails with the files as they are.
pub attempt_cases :
    (host : Host) (call : Call) (path : Text) (world : World)
    → (attempt host call path world ≡ (world, ok tt))
      ⊎ ((failure : Text) × (attempt host call path world ≡ (world, err failure)))
unfolding attempt
attempt_cases host call path world = unless_cases (host.fault call path world.files)
  where
    unless_cases :
        (fault : Option Text)
        → (unless fault world ≡ (world, ok tt))
          ⊎ ((failure : Text) × (unless fault world ≡ (world, err failure)))
    unless_cases none = inl refl
    unless_cases (some failure) = inr (failure, refl)

-- What an action does in which a call comes first.
pub after_attempt :
    {B : Type 0} (host : Host) (call : Call) (path : Text) (rest : Io B) (world : World)
    → host.fault call path world.files ≡ none
    → (attempt host call path >> rest) world ≡ rest world
unfolding attempt ◌>>=◌
after_attempt host call path rest world h =
    ap (λ fault. continue (λ _. rest) (unless fault world)) h

-- What follows a step that leaves the files alone starts from the same files, and so does a failure
-- of the step.
pub bind_rule :
    {A B : Type 0} (P : World × Result Text B → Type 0) (action : Io A) (rest : A → Io B)
    (world : World)
    → Keeps (λ before after. before ≡ after) action
    → ((value : A) (after : World) → world.files ≡ after.files → P (rest value after))
    → ((failure : Text) (after : World) → world.files ≡ after.files → P (after, err failure))
    → P ((action >>= rest) world)
unfolding Keeps ◌>>=◌
bind_rule {A = A} P action rest world still good bad = on_result (action world) (still world)
  where
    on_result :
        (result : World × Result Text A) → world.files ≡ result.0.files → P (continue rest result)
    on_result (after, ok value) same = good value after same
    on_result (after, err failure) same = bad failure after same

-- What follows a step of a kind starts after such a step, and so does a failure of the step.
pub step_rule :
    {A B : Type 0} (R : Files → Files → Type 0) (P : World × Result Text B → Type 0) (action : Io A)
    (rest : A → Io B) (world : World)
    → Keeps R action
    → ((value : A) (after : World) → R world.files after.files → P (rest value after))
    → ((failure : Text) (after : World) → R world.files after.files → P (after, err failure))
    → P ((action >>= rest) world)
unfolding Keeps ◌>>=◌
step_rule {A = A} R P action rest world kept good bad = on_result (action world) (kept world)
  where
    on_result :
        (result : World × Result Text A) → R world.files result.0.files → P (continue rest result)
    on_result (after, ok value) h = good value after h
    on_result (after, err failure) h = bad failure after h

-- Every path is as before, but for new directories where nothing was.
abbrev pub Grown : Files → Files → Type 0
Grown before after =
    (path : Text)
    → (get path after ≡ get path before)
      ⊎ ((get path before ≡ none) × (get path after ≡ some directory))

pub chain_at :
    {a b c : Option Node}
    → (b ≡ a) ⊎ ((a ≡ none) × (b ≡ some directory))
    → (c ≡ b) ⊎ ((b ≡ none) × (c ≡ some directory))
    → (c ≡ a) ⊎ ((a ≡ none) × (c ≡ some directory))
chain_at (inl h) (inl k) = inl (k ∙ h)
chain_at (inl h) (inr (k, l)) = inr (sym h ∙ k, l)
chain_at (inr (h, l)) (inl k) = inr (h, k ∙ l)
chain_at (inr (h, l)) (inr (k, m)) = inr (h, m)

pub Grown-Preorder : Preorder Grown
Grown-Preorder = record {
  same = λ files path. inl refl;
  chain = λ a b c h k path. chain_at (h path) (k path);
}

pub make_directory-Grown :
    (path : Text) (files : Files)
    → contains_key path files ≡ false
    → Grown files (insert path directory files)
make_directory-Grown path files absent at = elim (Bool-cases (text_eq path at)) [
  | inl here ↦
      inr (ground (arith, text_eq_iff path at), ground (arith, get-insert path at directory files))
  | inr away ↦ inl (ground (arith, get-insert path at directory files))
]

pub same-Preorder : Preorder (λ before after. before ≡ after)
same-Preorder = record { same = λ files. refl; chain = λ a b c h k. h ∙ k }

pub look-same : Keeps (λ before after. before ≡ after) look
unfolding Keeps
look-same world = refl

pub continue_rule :
    {A B : Type 0} (P : World × Result Text B → Type 0) (action : Io A) (rest : A → Io B)
    (world : World)
    → P (continue rest (action world))
    → P ((action >>= rest) world)
unfolding ◌>>=◌
continue_rule P action rest world h = h
