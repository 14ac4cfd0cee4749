-- ===== src/Setup/Migrate/Config/Undone.antt =====
-- setup.rs: a migration of the configuration that fails leaves no trace.
use mathlib.Core.Path.{subst}
use salmon.Base.{
  true, ◌⊎◌, Bool, false, Option, none, some, [], ◌∷◌, ◌≡◌, refl, sym, ap, ◌∙◌, Text, codes,
  if◌then◌else◌, if_rule, Option-cases, inl, inr,
}
use salmon.Base.Results.{Result, ok, err}
use salmon.Base.Maps.{get, insert}
use salmon.Base.Strings.{replace}
use salmon.Files.{
  directory, link, file, Files, persist, unlink, Host, World, Io, continue, ◌>>=◌, done, fail, look,
  attempt, change, exists, followed,
}
use salmon.Files.Keeps.{
  step_rule, Grown, Grown-Preorder, make_directory-Grown, create_dir_all-Keeps, Keeps, bind_rule,
  same-Preorder, found-Keeps, done-Keeps, fail-Keeps, read-Keeps, if-Keeps, look-same,
  attempt_cases, continue_rule,
}
use salmon.Setup.Install.{
  FileResult, created, preserved, reinstalled, persist_noclobber, put_file, install_file, parent_of,
}
use salmon.Setup.Install.Keeping.{temporary-Keeps}
use salmon.Setup.Migrate.Copying.{Listing, Journaled, rollback_created_files}
use salmon.Setup.Migrate.Copying.Journal.{noted, Plain, Traced, IsTraced}
use salmon.Setup.Migrate.Copying.Rollback.{rollback_restores, copied-Traced}
use salmon.Setup.Migrate.Config.{
  copy_neighbours, after_config, copy_config, migrate_salmon_config, end_copy, finish_copy,
}

-- What an installation that replaces nothing can come to.
abbrev pub Outcome : Text → Text → Files → World × Result Text FileResult → Type 0
Outcome path contents before (after, err failure) = Grown before after.files
Outcome path contents before (after, ok created) =
    (ready : Files) × Grown before ready
    × (get path ready ≡ none)
    × (after.files ≡ insert path (file contents) ready)
Outcome path contents before (after, ok preserved) = Grown before after.files
Outcome path contents before (after, ok reinstalled) = ⊥

put_outcome :
    (path contents : Text) (world : World)
    → get path world.files ≡ none
    → put_file path contents world.files world
      ≡ (record world { files = insert path (file contents) world.files }, ok created)
unfolding put_file change ◌>>=◌ exists followed
put_outcome path contents world free = rw (exists, followed, free) refl

free_path :
    (host : Host) (path contents : Text) (world : World)
    → get path world.files ≡ none
    → persist_noclobber host path contents world
      ≡ continue (λ _. put_file path contents world.files) (attempt host persist path world)
unfolding persist_noclobber ◌>>=◌
free_path host path contents world free = rw free refl

noclobber-Outcome :
    (host : Host) (path contents : Text) (world : World)
    → Outcome path contents world.files (persist_noclobber host path contents world)
unfolding persist_noclobber ◌>>=◌
noclobber-Outcome host path contents world = elim (Option-cases (get path world.files)) [
  | inr (node, there) ↦ rw there (Grown-Preorder.same world.files)
  | inl free ↦
      subst (Outcome path contents world.files) (sym (free_path host path contents world free))
        (after_persist free)
]
  where
    after_persist :
        get path world.files ≡ none
        → Outcome path contents world.files
            (continue (λ _. put_file path contents world.files) (attempt host persist path world))
    after_persist free = elim (attempt_cases host persist path world) [
      | inl passed ↦
          subst
            (λ r.
              Outcome path contents world.files
                (continue (λ _. put_file path contents world.files) r))
            (sym passed)
            (subst (Outcome path contents world.files) (sym (put_outcome path contents world free))
              (world.files, Grown-Preorder.same world.files, free, refl))
      | inr (failure, stopped) ↦
          subst
            (λ r.
              Outcome path contents world.files
                (continue (λ _. put_file path contents world.files) r))
            (sym stopped) (Grown-Preorder.same world.files)
    ]

earlier-Outcome :
    (path contents : Text) (before ready : Files) (result : World × Result Text FileResult)
    → Grown before ready
    → Outcome path contents ready result
    → Outcome path contents before result
earlier-Outcome path contents before ready (after, err failure) grown h =
    Grown-Preorder.chain before ready after.files grown h
earlier-Outcome path contents before ready (after, ok created) grown (last, later, free, put) =
    (last, Grown-Preorder.chain before ready last grown later, free, put)
earlier-Outcome path contents before ready (after, ok preserved) grown h =
    Grown-Preorder.chain before ready after.files grown h
earlier-Outcome path contents before ready (after, ok reinstalled) grown h = absurd h

install-Outcome :
    (host : Host) (path contents : Text) (world : World)
    → Outcome path contents world.files (install_file host path contents false world)
unfolding install_file
install-Outcome host path contents world =
    step_rule Grown P _ _ world (found-Keeps _ Grown-Preorder _ (parent_of path))
      (λ parent w1 e1.
        step_rule Grown P _ _ w1
          (create_dir_all-Keeps _ Grown-Preorder make_directory-Grown host parent)
          (λ _ w2 e2. continue_rule P look _ w2 (
            if_rule {A = Io FileResult} (λ action. P (action w2)) (exists path w2.files) _ _
              (λ there. chain w1 w2 e1 e2)
              (λ absent.
                bind_rule P _ _ w2 (temporary-Keeps _ same-Preorder host parent)
                  (λ _ w4 e4.
                    earlier-Outcome path contents world.files w4.files
                      (persist_noclobber host path contents w4)
                      (subst (Grown world.files) e4 (chain w1 w2 e1 e2))
                      (noclobber-Outcome host path contents w4))
                  (λ failure w4 e4. subst (Grown world.files) e4 (chain w1 w2 e1 e2)))))
          (λ failure w2 e2. chain w1 w2 e1 e2))
      (λ failure w1 e1. e1)
  where
    P : World × Result Text FileResult → Type 0
    P = Outcome path contents world.files

    chain :
        (w1 w2 : World)
        → Grown world.files w1.files
        → Grown w1.files w2.files
        → Grown world.files w2.files
    chain w1 w2 = Grown-Preorder.chain world.files w1.files w2.files

-- A result that is a failure only with every path as it was, but for new directories.
abbrev pub Undone : Files → World × Result Text (Unit {0}) → Type 0
Undone before (after, ok value) = Unit
Undone before (after, err failure) = Grown before after.files

module _ (host : Host) (before : Files)
    (removable : (path : Text) (files : Files) → host.fault unlink path files ≡ none) where
  finished-Undone : (now : Journaled) → IsTraced before now → Undone before (finish_copy host now)
  unfolding rollback_created_files
  finished-Undone now traced = ended now.failure
    where
      restored :
          (failure : Text)
          → Undone before (rollback_created_files host now.created failure now.world)
      restored failure =
          rollback_restores before host now.created failure now.world removable traced

      ended : (failure : Option Text) → Undone before (end_copy host failure now)
      ended none = tt
      ended (some failure) = restored failure

  neighbours-Undone :
      (is_utf8 : Text → Bool) (listing : Listing)
      (source_directory destination_directory source destination : Text) (world : World)
      → Traced before (destination ∷ []) world.files
      → Undone before (
          copy_neighbours host is_utf8 listing source_directory destination_directory source
            destination world)
  unfolding copy_neighbours
  neighbours-Undone is_utf8 listing source_directory destination_directory source destination world
        traced =
      finished-Undone _ (
        copied-Traced before host source_directory destination_directory source listing
          (record { world = world; created = destination ∷ []; failure = none }) traced)

  created_alone :
      (path contents : Text) (ready files : Files)
      → Plain before
      → Grown before ready
      → get path ready ≡ none
      → files ≡ insert path (file contents) ready
      → Traced before (path ∷ []) files
  created_alone path contents ready files plain grown free put =
      noted before host path contents [] ready files free
        (record {
          untouched = λ at away. grown at;
          fresh = λ at there. absurd (none_there there);
          plain = λ at target e. no_link at target (grown at) e;
        })
        (inr put)
    where
      none_there : false ≡ true → ⊥
      none_there h = cc

      no_link :
          (at target : Text)
          → (get at ready ≡ get at before)
            ⊎ ((get at before ≡ none) × (get at ready ≡ some directory))
          → get at ready ≡ some (link target)
          → ⊥
      no_link at target (inl same) e = plain at target (sym same ∙ e)
      no_link at target (inr (absent, made)) e = cc

  after_config-Undone :
      (is_utf8 : Text → Bool) (listing : Listing)
      (source_directory destination_directory source destination contents : Text)
      → Plain before
      → (result : World × Result Text FileResult) → Outcome destination contents before result
      → Undone before (
          continue
            (after_config host is_utf8 listing source_directory destination_directory source
              destination)
            result)
  unfolding after_config
  after_config-Undone is_utf8 listing sd dd source destination contents plain (after, err failure)
        h =
      h
  after_config-Undone is_utf8 listing sd dd source destination contents plain (after, ok created)
        (ready, grown, free, put) =
      neighbours-Undone is_utf8 listing sd dd source destination after
        (created_alone destination contents ready after.files plain grown free put)
  after_config-Undone is_utf8 listing sd dd source destination contents plain (after, ok preserved)
        h =
      tt
  after_config-Undone is_utf8 listing sd dd source destination contents plain
        (after, ok reinstalled) h =
      absurd h

  config-Undone :
      (is_utf8 : Text → Bool) (listing : Listing) (source destination : Text) (world : World)
      → Plain before
      → before ≡ world.files
      → Undone before (copy_config host is_utf8 listing source destination world)
  unfolding copy_config
  config-Undone is_utf8 listing source destination world plain e =
      bind_rule P _ _ world (read-Keeps _ same-Preorder host source)
        (λ text w1 e1.
          bind_rule P _ _ w1 (check text)
            (λ _ w2 e2.
              bind_rule P _ _ w2 (found-Keeps _ same-Preorder _ (parent_of source))
                (λ sd w3 e3.
                  bind_rule P _ _ w3 (found-Keeps _ same-Preorder _ (parent_of destination))
                    (λ dd w4 e4. installed sd dd (replace sd dd text) w4 (e ∙ e1 ∙ e2 ∙ e3 ∙ e4))
                    (λ failure w4 e4. same (e ∙ e1 ∙ e2 ∙ e3 ∙ e4)))
                (λ failure w3 e3. same (e ∙ e1 ∙ e2 ∙ e3)))
            (λ failure w2 e2. same (e ∙ e1 ∙ e2)))
        (λ failure w1 e1. same (e ∙ e1))
    where
      P : World × Result Text (Unit {0}) → Type 0
      P = Undone before

      same : {files : Files} → before ≡ files → Grown before files
      same f at = inl (ap (get at) (sym f))

      check :
          (text : Text)
          → Keeps
              (λ a b. a ≡ b)
              (if is_utf8 text then done tt else fail (codes "Salmon Watch config is not UTF-8"))
      check text =
          if-Keeps _ same-Preorder (is_utf8 text) _ _ (λ _. done-Keeps _ same-Preorder tt)
            (λ _. fail-Keeps _ same-Preorder _ _)

      installed :
          (sd dd contents : Text) (now : World)
          → before ≡ now.files
          → Undone before (
              (install_file host destination contents false
                  >>= after_config host is_utf8 listing sd dd source destination)
                now)
      installed sd dd contents now f = continue_rule P _ _ now (
          after_config-Undone is_utf8 listing sd dd source destination contents plain
            (install_file host destination contents false now)
            (subst
              (λ files.
                Outcome destination contents files
                  (install_file host destination contents false now))
              (sym f) (install-Outcome host destination contents now)))

failure_of :
    (before : Files) (result : World × Result Text (Unit {0})) (after : World) (failure : Text)
    → Undone before result
    → result ≡ (after, err failure)
    → Grown before after.files
failure_of before (now, ok value) after failure h e = cc
failure_of before (now, err reason) after failure h e = subst (λ r. Grown before r.0.files) e h

-- When the migration of the configuration fails, at whatever call, every path is as it was before,
-- but for directories that were made where nothing was and stay: the files that were copied are
-- removed again, and nothing that was there before is. This is so if no removal fails and there is
-- no symbolic link among the files.
pub migration_rolls_back :
    (host : Host) (is_utf8 : Text → Bool) (listing : Listing) (source destination : Text)
    (world after : World) (failure : Text)
    → ((path : Text) (files : Files) → host.fault unlink path files ≡ none)
    → Plain world.files
    → migrate_salmon_config host is_utf8 listing source destination world ≡ (after, err failure)
    → Grown world.files after.files
unfolding migrate_salmon_config
migration_rolls_back host is_utf8 listing source destination world after failure removable plain =
    failure_of world.files (migrate_salmon_config host is_utf8 listing source destination world)
      after failure
      (bind_rule (Undone world.files) look _ world look-same
        (λ files w1 e1.
          if_rule {A = Io (Unit {0})} (λ action. Undone world.files (action w1))
            (exists destination files) _ _ (λ there. tt)
            (λ absent.
              config-Undone host world.files removable is_utf8 listing source destination w1 plain
                e1))
        (λ failure w1 e1 at. inl (ap (get at) (sym e1))))
