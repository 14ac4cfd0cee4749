-- ===== src/Persistence/Store/Atomic.antt =====
-- persistence.rs: a transaction is carried out whole, or not at all.
use salmon.Base.{Option, none, some, ◌++◌, ◌≡◌, refl, sym, ap, ◌∙◌, Text, codes, if_rule}
use salmon.Base.Results.{Result, ok, err}
use salmon.Base.Maps.{get, insert}
use salmon.Files.{
  is_directory, file, Files, create_temporary, set_permissions, write_temporary, read, persist,
  Host, World, Io, continue, ◌>>=◌, done, look, change, found, contents_of, exists,
}
use salmon.Files.Keeps.{
  Keeps, bind_rule, same-Preorder, bind-Keeps, attempt-Keeps, found-Keeps, done-Keeps, fail-Keeps,
  look-Keeps, if-Keeps, continue_rule,
}
use salmon.Setup.Install.{FileResult, parent_of, persist_over, put_file}
use salmon.Setup.Execute.{of_result}
use salmon.Persistence.Store.{Format, load_found, load, write_state, save, update}

-- A step that tells what it saw: the files stay, and the value satisfies the predicate.
abbrev pub Sees : {A : Type 0} → (A → Type 0) → Files → World × Result Text A → Type 0
Sees Q before (after, ok value) = (before ≡ after.files) × Q value
Sees Q before (after, err failure) = before ≡ after.files

module _ (host : Host) {State : Type 0} (format : Format State) (path : Text) where
  load-Same : Keeps (λ a b. a ≡ b) (load host format path)
  unfolding load load_found
  load-Same = bind-Keeps _ same-Preorder _ _ (attempt-Keeps _ same-Preorder host read path) (λ _.
      look-Keeps _ same-Preorder _ (λ files.
        if-Keeps _ same-Preorder (exists path files) _ _
          (λ _.
            bind-Keeps _ same-Preorder _ _ (found-Keeps _ same-Preorder _ (contents_of path files))
              (λ text. found-Keeps _ same-Preorder _ (format.parse text)))
          (λ _. done-Keeps _ same-Preorder format.initial)))

  result-Same : (result : Result Text State) → Keeps (λ a b. a ≡ b) (of_result result)
  result-Same (ok value) = done-Keeps _ same-Preorder value
  result-Same (err failure) = fail-Keeps _ same-Preorder State failure

  -- The file holds a state that prints as its text, with a line feed, or all is as before.
  abbrev pub Saved : State → Files → World × Result Text (Unit {0}) → Type 0
  Saved state before (after, err failure) = before ≡ after.files
  Saved state before (after, ok value) =
      (text : Text) × (format.print state ≡ some text)
      × (after.files ≡ insert path (file (text ++ codes "\n")) before)

Sees-bind :
    {A B : Type 0} (Q : A → Type 0) (P : World × Result Text B → Type 0) (before : Files)
    (action : Io A) (rest : A → Io B) (world : World)
    → Sees Q before (action world)
    → ((value : A) (after : World) → before ≡ after.files → Q value → P (rest value after))
    → ((failure : Text) (after : World) → before ≡ after.files → P (after, err failure))
    → P ((action >>= rest) world)
unfolding ◌>>=◌
Sees-bind {A = A} {B = B} Q P before action rest world seen good bad = on_result (action world) seen
  where
    on_result : (result : World × Result Text A) → Sees Q before result → P (continue rest result)
    on_result (after, ok value) s = good value after s.0 s.1
    on_result (after, err failure) s = bad failure after s

found-Sees :
    {A : Type 0} (failure : Text) (value : Option A) (before : Files) (world : World)
    → before ≡ world.files
    → Sees (λ v. value ≡ some v) before (found failure value world)
found-Sees failure none before world same = same
found-Sees failure (some v) before world same = (same, refl)

-- what an installation over a file comes to
abbrev pub PutOver : Text → Text → Files → World × Result Text FileResult → Type 0
PutOver path text before (after, ok result) = after.files ≡ insert path (file text) before
PutOver path text before (after, err failure) = before ≡ after.files

put-PutOver :
    (path text : Text) (before known : Files) (after : World)
    → before ≡ after.files
    → PutOver path text before (put_file path text known after)
unfolding put_file change ◌>>=◌
put-PutOver path text before known after e = ap (insert path (file text)) (sym e)

over-PutOver :
    (host : Host) (path text : Text) (before : Files) (world : World)
    → before ≡ world.files
    → PutOver path text before (persist_over host path text world)
unfolding persist_over
over-PutOver host path text before world same = continue_rule P look _ world (
    bind_rule P _ _ world (attempt-Keeps _ same-Preorder host persist path)
      (λ _ after e.
        if_rule {A = Io FileResult} (λ action. P (action after))
          (is_directory (get path world.files)) _ _ (λ _. same ∙ e) (λ _. put after (same ∙ e)))
      (λ failure after e. same ∙ e))
  where
    P : World × Result Text FileResult → Type 0
    P = PutOver path text before

    put : (after : World) → before ≡ after.files → P (put_file path text world.files after)
    put after e = put-PutOver path text before world.files after e

module _ (host : Host) {State : Type 0} (format : Format State) (path : Text) where
  write-Sees :
      (parent : Text) (state : State) (before : Files) (world : World)
      → before ≡ world.files
      → Sees
          (λ written.
            (text : Text) × (format.print state ≡ some text) × (written ≡ text ++ codes "\n"))
          before
          (write_state host format parent state world)
  unfolding write_state
  write-Sees parent state before world same =
      bind_rule P _ _ world (attempt-Keeps _ same-Preorder host create_temporary parent)
        (λ _ w1 e1.
          bind_rule P _ _ w1 (attempt-Keeps _ same-Preorder host set_permissions parent)
            (λ _ w2 e2.
              bind_rule P _ _ w2 (attempt-Keeps _ same-Preorder host write_temporary parent)
                (λ _ w3 e3.
                  Sees-bind (λ v. format.print state ≡ some v) P before
                    (found (codes "failed to encode state file") (format.print state)) _ w3
                    (found-Sees _ (format.print state) before w3 (same ∙ e1 ∙ e2 ∙ e3))
                    (λ text w4 e4 printed.
                      bind_rule P _ _ w4 (attempt-Keeps _ same-Preorder host write_temporary parent)
                        (λ _ w5 e5.
                          bind_rule P _ _ w5
                            (attempt-Keeps _ same-Preorder host write_temporary parent)
                            (λ _ w6 e6.
                              bind_rule P _ _ w6
                                (attempt-Keeps _ same-Preorder host write_temporary parent)
                                (λ _ w7 e7. (e4 ∙ e5 ∙ e6 ∙ e7, (text, printed, refl)))
                                (λ failure w7 e7. e4 ∙ e5 ∙ e6 ∙ e7))
                            (λ failure w6 e6. e4 ∙ e5 ∙ e6))
                        (λ failure w5 e5. e4 ∙ e5))
                    (λ failure w4 e4. e4))
                (λ failure w3 e3. same ∙ e1 ∙ e2 ∙ e3))
            (λ failure w2 e2. same ∙ e1 ∙ e2))
        (λ failure w1 e1. same ∙ e1)
    where
      P : World × Result Text Text → Type 0
      P =
          Sees
            (λ written.
              (text : Text) × (format.print state ≡ some text) × (written ≡ text ++ codes "\n"))
            before

  save-Saved :
      (state : State) (before : Files) (world : World)
      → before ≡ world.files
      → Saved host format path state before (save host format path state world)
  unfolding save
  save-Saved state before world same =
      bind_rule P _ _ world (found-Keeps _ same-Preorder _ (parent_of path))
        (λ parent w1 e1.
          Sees-bind Q P before (write_state host format parent state) _ w1
            (write-Sees parent state before w1 (same ∙ e1))
            (λ written w2 e2 q. continue_rule P (persist_over host path written) _ w2 (
              placed written q (persist_over host path written w2)
                (over-PutOver host path written before w2 e2)))
            (λ failure w2 e2. e2))
        (λ failure w1 e1. same ∙ e1)
    where
      P : World × Result Text (Unit {0}) → Type 0
      P = Saved host format path state before

      Q : Text → Type 0
      Q written = (text : Text) × (format.print state ≡ some text) × (written ≡ text ++ codes "\n")

      placed :
          (written : Text)
          → Q written
          → (result : World × Result Text FileResult) → PutOver path written before result
          → P (continue (λ _. done tt) result)
      placed written q (after, err failure) h = h
      placed written q (after, ok value) h =
          (q.0, q.1, h ∙ ap (λ t. insert path (file t) before) q.2)

  -- The state that was loaded, changed and saved, or the files as they were.
  abbrev pub Committed :
      (State → Result Text State) → World → World × Result Text (Unit {0}) → Type 0
  Committed change_ world (after, err failure) = world.files ≡ after.files
  Committed change_ world (after, ok value) =
      (old : State) × (new : State) × (text : Text) × ((load host format path world).1 ≡ ok old)
      × (change_ old ≡ ok new)
      × (format.print new ≡ some text)
      × (after.files ≡ insert path (file (text ++ codes "\n")) world.files)

  loaded-Sees :
      (world : World)
      → Sees
          (λ old. (load host format path world).1 ≡ ok old)
          world.files
          (load host format path world)
  unfolding Keeps
  loaded-Sees world = seen (load host format path world) (load-Same host format path world)
    where
      seen :
          (result : World × Result Text State)
          → world.files ≡ result.0.files
          → Sees (λ old. result.1 ≡ ok old) world.files result
      seen (after, ok old) same = (same, refl)
      seen (after, err failure) same = same

  result-Sees :
      (result : Result Text State) (before : Files) (world : World)
      → before ≡ world.files
      → Sees (λ new. result ≡ ok new) before (of_result result world)
  result-Sees (ok new) before world same = (same, refl)
  result-Sees (err failure) before world same = same

  -- A transaction either saves the change of the state that it loaded, as the whole contents of the
  -- file with no other path touched, or fails and leaves the files exactly as they were, whichever
  -- of its calls fails.
  pub update_atomic :
      (change_ : State → Result Text State) (world : World)
      → Committed change_ world (update host format path change_ world)
  unfolding update
  update_atomic change_ world =
      Sees-bind (λ old. (load host format path world).1 ≡ ok old) P world.files
        (load host format path) _ world (loaded-Sees world)
        (λ old w1 e1 loaded.
          Sees-bind (λ new. change_ old ≡ ok new) P world.files (of_result (change_ old)) _ w1
            (result-Sees (change_ old) world.files w1 e1)
            (λ new w2 e2 changed.
              committed old new loaded changed (save host format path new w2)
                (save-Saved new world.files w2 e2))
            (λ failure w2 e2. e2))
        (λ failure w1 e1. e1)
    where
      P : World × Result Text (Unit {0}) → Type 0
      P = Committed change_ world

      committed :
          (old new : State)
          → (load host format path world).1 ≡ ok old
          → change_ old ≡ ok new
          → (result : World × Result Text (Unit {0}))
          → Saved host format path new world.files result
          → P result
      committed old new loaded changed (after, err failure) h = h
      committed old new loaded changed (after, ok value) h =
          (old, new, h.0, loaded, changed, h.1, h.2)
