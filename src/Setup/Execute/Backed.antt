-- ===== src/Setup/Execute/Backed.antt =====
-- setup.rs: the backup of what a reinstallation replaces.
use salmon.Base.{
  arith, true, false, not, Option, none, some, List, [], ◌∷◌, ◌≡◌, sym, ap, ◌∙◌, Text, is_empty,
  if◌then◌else◌, if_rule, inl, inr, All, is_some,
}
use salmon.Base.Results.{Result, ok, err}
use salmon.Base.Maps.{get, retain, contains_key}
use salmon.Files.{
  ◌>>◌, attempt, directory, file, Files, create_temporary, set_permissions, inspect, Host, World,
  Io, continue, ◌>>=◌, done, look, path_join,
}
use salmon.Files.Keeps.{
  create_dir_all-Keeps, change-Keeps, Keeps, bind_rule, continue_rule, same-Preorder, attempt-Keeps,
  done-Keeps,
}
use salmon.Setup.Install.{or_clean_up, back_up_all, below, cleaned, existing_targets}
use salmon.Setup.Install.Keeping.{existing-Keeps}
use salmon.Setup.Execute.{Setting, make_backup, backup_existing_files}
use salmon.Setup.Execute.Kept.{made-KeptBut, KeptBut-Preorder}
use salmon.Setup.Execute.Copies.{
  stays_rule, insert_apart-StaysAt, Holds, Apart, Saves, false_is_true, holds_then, all_saved,
}

module _ (host : Host) (saved : Text) where
  -- A success has a value with the property.
  abbrev Returned : {A : Type 0} → (A → Type 0) → World × Result Text A → Type 0
  Returned Q (after, ok value) = Q value
  Returned Q (after, err failure) = Unit

  pub Returned-rule :
      {A B : Type 0} (P : World × Result Text B → Type 0) (Q : A → Type 0) (action : Io A)
      (rest : A → Io B) (world : World)
      → Keeps (λ before after. before ≡ after) action
      → Returned Q (action world)
      → ((value : A) (after : World) → world.files ≡ after.files → Q value → P (rest value after))
      → ((failure : Text) (after : World) → world.files ≡ after.files → P (after, err failure))
      → P ((action >>= rest) world)
  unfolding Keeps ◌>>=◌
  Returned-rule {A} P Q action rest world still returned good bad =
      on_result (action world) (still world) returned
    where
      on_result :
          (result : World × Result Text A)
          → world.files ≡ result.0.files
          → Returned Q result
          → P (continue rest result)
      on_result (after, ok value) same q = good value after same q
      on_result (after, err failure) same q = bad failure after same

  existing_step :
      (Q Q' : List (Text × Text) → Type 0) (t : Text × Text) (ts : List (Text × Text))
      (world : World)
      → ((after : World)
          → world.files ≡ after.files
          → Returned Q (existing_targets host ts after)
            × ((rest : List (Text × Text))
                → Q rest
                → Q' (if contains_key t.0 after.files then t ∷ rest else rest)))
      → Returned Q' (existing_targets host (t ∷ ts) world)
  unfolding existing_targets
  existing_step Q Q' t ts world step =
      bind_rule (Returned Q') _ _ world (attempt-Keeps _ same-Preorder host inspect t.0)
        (λ _ after same. continue_rule (Returned Q') look _ after (
          Returned-rule (Returned Q') Q _ _ after (existing-Keeps _ same-Preorder host ts)
            (step after same).0 (λ rest last e k. (step after same).1 rest k)
            (λ failure last e. tt)))
        (λ failure after same. tt)

  -- A property of all targets holds of those that are there.
  pub existing-All :
      (Q : Text × Text → Type 0) (targets : List (Text × Text)) (world : World)
      → All Q targets
      → Returned (All Q) (existing_targets host targets world)
  unfolding existing_targets
  existing-All Q [] world h = tt
  existing-All Q (t ∷ ts) world h = existing_step (All Q) (All Q) t ts world (λ after same. (
    existing-All Q ts after h.1,
    λ rest k.
        if_rule (All Q) (contains_key t.0 after.files) (t ∷ rest) rest (λ _. (h.0, k)) (λ _. k),
  ))

  pub existing-Saves :
      (target : Text × Text) (targets : List (Text × Text)) (world : World)
      → contains_key target.0 world.files ≡ true
      → Saves saved target targets
      → Returned (Saves saved target) (existing_targets host targets world)
  existing-Saves target [] world present s = absurd s
  existing-Saves target (t ∷ ts) world present (inl (here, apart)) =
      existing_step (All (Apart saved target)) (Saves saved target) t ts world (λ after same. (
        existing-All _ ts after apart,
        λ rest k.
            if_rule (Saves saved target) (contains_key t.0 after.files) (t ∷ rest) rest
              (λ _. inl (here, k))
              (λ absent. absurd (
                false_is_true (
                  sym absent
                  ∙ ap (λ x. contains_key x.0 after.files) here
                  ∙ ap (contains_key target.0) (sym same)
                  ∙ present))),
      ))
  existing-Saves target (t ∷ ts) world present (inr s) =
      existing_step (Saves saved target) (Saves saved target) t ts world (λ after same. (
        existing-Saves target ts after (ap (contains_key target.0) (sym same) ∙ present) s,
        λ rest k.
            if_rule (Saves saved target) (contains_key t.0 after.files) (t ∷ rest) rest (λ _. inr k)
              (λ _. k),
      ))

module _ (host : Host) (setting : Setting) (target : Text × Text) (contents : Text)
    (outside : below setting.saved target.0 ≡ false) where
  abbrev pub saved_copy : Text
  saved_copy = path_join setting.saved target.1

  cleaned-Holds :
      {A : Type 0} (path : Text) (undo : Files → Files) (result : World × Result Text A)
      → Holds path contents result
      → Holds path contents (cleaned undo result)
  cleaned-Holds path undo (after, ok value) h = h
  cleaned-Holds path undo (after, err failure) h = h

  saved_by_make_backup :
      (existing : List (Text × Text)) (world : World)
      → Saves setting.saved target existing
      → get target.0 world.files ≡ some (file contents)
      → Holds saved_copy contents (make_backup host setting existing world)
  unfolding make_backup
  saved_by_make_backup existing world s there =
      stays_rule P target.0 (file contents) _ _ world
        (create_dir_all-Keeps _ (KeptBut-Preorder _) (made-KeptBut _) host setting.backup_parent)
        there
        (λ _ w1 h1.
          stays_rule P target.0 (file contents) _ _ w1
            (attempt-Keeps _ (KeptBut-Preorder _) host create_temporary setting.backup_parent) h1
            (λ _ w2 h2.
              stays_rule P target.0 (file contents) _ _ w2
                (change-Keeps _ (KeptBut-Preorder _) _ (λ files.
                  insert_apart-StaysAt target.0 setting.saved directory files
                    (ground (arith, outside))))
                h2 (λ _ w3 h3. kept w3 h3) (λ failure w3 h3. tt))
            (λ failure w2 h2. tt))
        (λ failure w1 h1. tt)
    where
      P : World × Result Text (Option Text) → Type 0
      P = Holds (path_join setting.saved target.1) contents

      kept :
          (now : World)
          → get target.0 now.files ≡ some (file contents)
          → P (
              (or_clean_up (retain (λ path node. not (below setting.saved path))) (
                    attempt host set_permissions setting.saved
                    >> back_up_all host setting.saved existing)
                  >>= (λ _. done (some setting.saved)))
                now)
      kept now h =
          holds_then (path_join setting.saved target.1) contents _ _ now
            (cleaned-Holds (path_join setting.saved target.1)
              (retain (λ path node. not (below setting.saved path))) _
              (stays_rule (Holds (path_join setting.saved target.1) contents) target.0
                (file contents) _ _ now
                (attempt-Keeps _ (KeptBut-Preorder _) host set_permissions setting.saved) h
                (λ _ after k.
                  all_saved host setting.saved target contents outside existing after s k)
                (λ failure after k. tt)))
            (λ _. done-Keeps _ (KeptBut-Preorder _) (some setting.saved))

  pub saved_by_backup :
      (targets : List (Text × Text)) (world : World)
      → Saves setting.saved target targets
      → get target.0 world.files ≡ some (file contents)
      → Holds saved_copy contents (backup_existing_files host setting targets world)
  unfolding backup_existing_files
  saved_by_backup targets world s there =
      Returned-rule host setting.saved (Holds saved_copy contents) (Saves setting.saved target) _ _
        world (existing-Keeps _ same-Preorder host targets)
        (existing-Saves host setting.saved target targets world (ap is_some there) s)
        (λ existing after same k.
          if_rule {A = Io (Option Text)} (λ action. Holds saved_copy contents (action after))
            (is_empty existing) (done none) (make_backup host setting existing)
            (λ empty. absurd (never_empty existing k empty))
            (λ _. saved_by_make_backup existing after k (ap (get target.0) (sym same) ∙ there)))
        (λ failure after same. tt)
    where
      never_empty :
          (existing : List (Text × Text))
          → Saves setting.saved target existing
          → is_empty existing ≡ true
          → ⊥
      never_empty [] s h = s
      never_empty (t ∷ ts) s h = false_is_true h
