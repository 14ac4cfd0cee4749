-- ===== src/BearerToken/Guarded.antt =====
-- bearer_token.rs: what is on the disk after the token is written, or is not.
use salmon.Base.{
  some, ◌⊎◌, none, ◌≡◌, refl, sym, ap, ◌∙◌, arith, Text, text_eq_iff, Option-cases, inl, inr,
}
use salmon.Base.Results.{Result, ok, err}
use salmon.Base.Maps.{get, insert, remove, get-insert, get-remove}
use salmon.Files.{
  directory, file, Files, persist, write_destination, unlink, Host, World, continue, ◌>>=◌, look,
  attempt, change, remove_file,
}
use salmon.Files.Keeps.{
  step_rule, Grown, Grown-Preorder, make_directory-Grown, create_dir_all-Keeps, Keeps, bind_rule,
  same-Preorder, bind-Keeps, attempt-Keeps, found-Keeps, continue_rule,
}
use salmon.Setup.Install.{parent_of}
use salmon.BearerToken.{discarded, write_token, open_and_write, write_new_token_file}

-- The files after the call: but for new directories, all is as before; after a success there is the
-- token's file besides, which is new, with the whole token.
abbrev pub Written : Text → Text → Files → World × Result Text (Unit {0}) → Type 0
Written filename token before (after, ok value) =
    (ready : Files) × Grown before ready
    × (get filename before ≡ none)
    × (after.files ≡ insert filename (file token) ready)
Written filename token before (after, err failure) = Grown before after.files

write_token-Same :
    (host : Host) (filename : Text) → Keeps (λ a b. a ≡ b) (write_token host filename)
unfolding write_token
write_token-Same host filename =
    bind-Keeps _ same-Preorder _ _ (attempt-Keeps _ same-Preorder host write_destination filename)
      (λ _. attempt-Keeps _ same-Preorder host write_destination filename)

module _ (host : Host) (filename token : Text)
    (removable : (path : Text) (files : Files) → host.fault unlink path files ≡ none) where
  removed_again :
      (before : Files) (after : World)
      → get filename before ≡ none
      → after.files ≡ insert filename (file token) before
      → (at : Text) → get at (remove_file host filename after).0.files ≡ get at before
  unfolding remove_file attempt change ◌>>=◌
  removed_again before after free put at = rw (removable filename after.files) (
      ap (λ files. get at (remove filename files)) put
      ∙ ground (
        arith,
        get-remove filename at (insert filename (file token) before),
        get-insert filename at (file token) before,
        text_eq_iff filename at,
      ))

  discarded-Written :
      (before : Files)
      → get filename before ≡ none
      → (result : World × Result Text (Unit {0}))
      → insert filename (file token) before ≡ result.0.files
      → Written filename token before (discarded host filename result)
  discarded-Written before free (after, ok value) same =
      (before, Grown-Preorder.same before, free, sym same)
  discarded-Written before free (after, err failure) same =
      λ at. inl (removed_again before after free (sym same) at)

  changed-Written :
      (before : Files) (after : World)
      → before ≡ after.files
      → get filename before ≡ none
      → Written filename token before (
          continue
            (λ _ now. discarded host filename (write_token host filename now))
            (change (insert filename (file token)) after))
  unfolding change Keeps
  changed-Written before after same free =
      let now : World = record after { files = insert filename (file token) after.files } in
      discarded-Written before free (write_token host filename now)
        (ap (insert filename (file token)) same ∙ write_token-Same host filename now)

  opened-Written :
      (world : World)
      → Written filename token world.files (open_and_write host filename token world.files world)
  unfolding open_and_write
  opened-Written world = elim (Option-cases (get filename world.files)) [
    | inr (node, there) ↦ rw there (λ at. inl refl)
    | inl free ↦ rw free (
        bind_rule P (attempt host persist filename) _ world
          (attempt-Keeps _ same-Preorder host persist filename)
          (λ _ after same.
            continue_rule P (change (insert filename (file token))) _ after
              (changed-Written world.files after same free))
          (λ failure after same at. inl (ap (get at) (sym same))))
  ]
    where
      P : World × Result Text (Unit {0}) → Type 0
      P = Written filename token world.files

  -- What is written into grown files was not there before they grew.
  earlier-Written :
      (before ready : Files) (result : World × Result Text (Unit {0}))
      → Grown before ready
      → Written filename token ready result
      → Written filename token before result
  earlier-Written before ready (after, err failure) grown h =
      Grown-Preorder.chain before ready after.files grown h
  earlier-Written before ready (after, ok value) grown (last, later, free, put) =
      (last, Grown-Preorder.chain before ready last grown later, was_free (grown filename), put)
    where
      was_free :
          (get filename ready ≡ get filename before)
            ⊎ ((get filename before ≡ none) × (get filename ready ≡ some directory))
          → get filename before ≡ none
      was_free (inl same) = sym same ∙ free
      was_free (inr (absent, made)) = absent

  pub token_file_guarded :
      (world : World)
      → Written filename token world.files (write_new_token_file host filename token world)
  unfolding write_new_token_file
  token_file_guarded world =
      step_rule Grown P _ _ world (found-Keeps _ Grown-Preorder _ (parent_of filename))
        (λ parent w1 e1.
          step_rule Grown P _ _ w1
            (create_dir_all-Keeps _ Grown-Preorder make_directory-Grown host parent)
            (λ _ w2 e2. continue_rule P look _ w2 (
              earlier-Written world.files w2.files (open_and_write host filename token w2.files w2)
                (Grown-Preorder.chain world.files w1.files w2.files e1 e2) (opened-Written w2)))
            (λ failure w2 e2. Grown-Preorder.chain world.files w1.files w2.files e1 e2))
        (λ failure w1 e1. e1)
    where
      P : World × Result Text (Unit {0}) → Type 0
      P = Written filename token world.files
