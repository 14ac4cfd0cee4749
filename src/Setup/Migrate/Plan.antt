-- ===== src/Setup/Migrate/Plan.antt =====
-- setup.rs: a dry run only looks.
use salmon.Base.{true, not, ◌&&◌, List, [], ◌∷◌, ◌≡◌, sym, Text, codes, text_eq, is_empty, any}
use salmon.Files.{inspect, Host, World, exists}
use salmon.Files.Keeps.{
  Keeps, bind-Keeps, attempt-Keeps, done-Keeps, fail-Keeps, look-Keeps, print-Keeps, if-Keeps,
  same-Preorder,
}
use salmon.Setup.Migrate.{
  MigrationContext, existing_paths, existing_salmon_paths, print_all, print_plan, start_migration,
  migrate_from_salmon_with, is_set_up,
}

existing-Same : (host : Host) (paths : List Text) → Keeps (λ a b. a ≡ b) (existing_paths host paths)
unfolding existing_paths
existing-Same host [] = done-Keeps _ same-Preorder []
existing-Same host (path ∷ paths) =
    bind-Keeps _ same-Preorder _ _ (attempt-Keeps _ same-Preorder host inspect path) (λ _.
      look-Keeps _ same-Preorder _ (λ files.
        bind-Keeps _ same-Preorder _ _ (existing-Same host paths)
          (λ rest. done-Keeps _ same-Preorder _)))

print_all-Same :
    (host : Host) (context : MigrationContext) (paths : List Text)
    → Keeps (λ a b. a ≡ b) (print_all host context paths)
unfolding print_all
print_all-Same host context [] = done-Keeps _ same-Preorder tt
print_all-Same host context (path ∷ paths) =
    bind-Keeps _ same-Preorder _ _ (print-Keeps _ same-Preorder host _)
      (λ _. print_all-Same host context paths)

plan-Same :
    (host : Host) (context : MigrationContext) (existing : List Text) (config_filename : Text)
    → Keeps (λ a b. a ≡ b) (print_plan host context existing config_filename)
unfolding print_plan
plan-Same host context existing config_filename =
    bind-Keeps _ same-Preorder _ _ (print-Keeps _ same-Preorder host _) (λ _.
      bind-Keeps _ same-Preorder _ _ (print_all-Same host context existing) (λ _.
        bind-Keeps _ same-Preorder _ _ (print-Keeps _ same-Preorder host _)
          (λ _. print-Keeps _ same-Preorder host _)))

-- `setup migrate-from-salmon --dry-run` changes no file, whatever is there and whatever fails.
pub dry_run_changes_nothing :
    (host : Host) (context : MigrationContext) (config_filename : Text) (world : World)
    → (migrate_from_salmon_with host context config_filename true world).0.files ≡ world.files
unfolding migrate_from_salmon_with existing_salmon_paths start_migration Keeps
dry_run_changes_nothing host context config_filename world = sym (
    bind-Keeps _ same-Preorder _ _ (existing-Same host _)
      (λ existing. look-Keeps _ same-Preorder _ (λ files.
        if-Keeps _ same-Preorder (is_empty existing) _ _
          (λ _.
            if-Keeps _ same-Preorder (exists config_filename files) _ _
              (λ _. print-Keeps _ same-Preorder host _)
              (λ _.
                fail-Keeps _ same-Preorder (Unit {0})
                  (codes "no Salmon Watch installation was found")))
          (λ _.
            if-Keeps _ same-Preorder
              (not (any (λ path. not (text_eq path context.salmon.config)) existing)
                && is_set_up host config_filename context.montray files)
              _ _ (λ _. print-Keeps _ same-Preorder host _)
              (λ _. plan-Same host context existing config_filename))))
      world)
