-- ===== src/Setup/Migrate/Copying/Rollback.antt =====
-- setup.rs: the rollback of a migration gives back what was there.
use salmon.Base.{
  Bool, true, false, ◌||◌, none, List, [], ◌∷◌, ◌≡◌, ◌⊎◌, refl, sym, ap, ◌∙◌, arith, Text, text_eq,
  text_eq_iff, text_eq_comm, if◌then◌else◌, Bool-cases, Option-cases, inl, inr,
}
use mathlib.Core.List.{reverse, reverse-cons}
use salmon.Base.Maps.{get, get-remove}
use salmon.Files.{Files, list_directory, unlink, Host, World, ◌>>=◌, attempt, change, remove_file}
use salmon.Files.Keeps.{Grown}
use salmon.Setup.Migrate.Copying.{
  Listing, Journaled, copy_directory_contents_noclobber, try_remove, remove_created,
  rollback_created_files,
}
use salmon.Setup.Migrate.Copying.Journal.{
  IsTraced, SameOrMade, Traced, among, among_end, attempt-Traced, copy_entries-Traced, make-Traced,
  moved, then_do-Traced,
}

try_remove_files :
    (host : Host) (path : Text) (world : World)
    → ((path : Text) (files : Files) → host.fault unlink path files ≡ none)
    → (at : Text)
    → get at (try_remove host path world).0.files
      ≡ (if text_eq at path then none else get at world.files)
unfolding try_remove remove_file attempt change ◌>>=◌
try_remove_files host path world h at = elim (Option-cases (get path world.files)) [
  | inl free ↦ rw free (ground (arith, text_eq_iff at path))
  | inr (node, there) ↦
      rw (there, h path world.files)
        (get-remove path at world.files
          ∙ ap (λ b. if b then none else get at world.files) (text_eq_comm path at))
]

-- Removing the journaled files, when no removal fails.
remove_created_files :
    (host : Host) (paths : List Text) (world : World)
    → ((path : Text) (files : Files) → host.fault unlink path files ≡ none)
    → (at : Text)
    → get at (remove_created host paths world).0.files
      ≡ (if among at paths then none else get at world.files)
unfolding remove_created
remove_created_files host [] world h at = refl
remove_created_files host (path ∷ paths) world h at =
    remove_created_files host paths (try_remove host path world).0 h at
    ∙ ap (λ o. if among at paths then none else o) (try_remove_files host path world h at)
    ∙ either (among at paths) (text_eq at path)
  where
    either :
        (a b : Bool)
        → (if a then none else if b then none else get at world.files)
          ≡ (if b || a then none else get at world.files)
    either true true = refl
    either true false = refl
    either false true = refl
    either false false = refl

among-reverse : (at : Text) (paths : List Text) → among at (reverse paths) ≡ among at paths
among-reverse at [] = refl
among-reverse at (path ∷ paths) =
    ap (among at) (reverse-cons path paths)
    ∙ among_end at path (reverse paths)
    ∙ ground (arith, among-reverse at paths)

-- A rollback whose removals succeed gives every path back what it had, but for new directories.
pub rollback_restores :
    (original : Files) (host : Host) (created : List Text) (failure : Text) (world : World)
    → ((path : Text) (files : Files) → host.fault unlink path files ≡ none)
    → Traced original created world.files
    → Grown original (rollback_created_files host created failure world).0.files
unfolding rollback_created_files
rollback_restores original host created failure world h traced at =
    back (Bool-cases (among at created)) (
      remove_created_files host (reverse created) world h at
      ∙ ap (λ b. if b then none else get at world.files) (among-reverse at created))
  where
    last : Files
    last = (remove_created host (reverse created) world).0.files

    back :
        (among at created ≡ true) ⊎ (among at created ≡ false)
        → get at last ≡ (if among at created then none else get at world.files)
        → SameOrMade original last at
    back (inl there) e = inl (e ∙ rw there (sym (traced.fresh at there)))
    back (inr away) e =
        moved original host at world.files last (e ∙ rw away refl) (traced.untouched at away)

pub copied-Traced :
    (original : Files) (host : Host) (source destination skipped : Text) (listing : Listing)
    (now : Journaled)
    → IsTraced original now
    → IsTraced original
        (copy_directory_contents_noclobber host source destination skipped listing now)
unfolding copy_directory_contents_noclobber
copied-Traced original host source destination skipped listing now h =
    then_do-Traced original host _ _ (make-Traced original host destination now h) (λ ready k.
      then_do-Traced original host _ _ (attempt-Traced original host list_directory source ready k)
        (copy_entries-Traced original host listing source destination skipped))
