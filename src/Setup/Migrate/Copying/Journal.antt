-- ===== src/Setup/Migrate/Copying/Journal.antt =====
-- setup.rs: the journal names all that a copy creates, but for directories, and nothing that was
-- there before.
use salmon.Base.{
  Bool, true, false, ◌||◌, Option, none, some, List, [], ◌∷◌, ◌++◌, ◌≡◌, ◌≢◌, ◌⊎◌, refl, sym, ap,
  ◌∙◌, arith, Text, text_eq, text_eq_iff, any, if_rule, if_no, Bool-cases, Option-cases, inl, inr,
}
use salmon.Base.Results.{Result, ok, err}
use salmon.Base.Maps.{get, insert, contains_key, get-insert}
use salmon.Files.{
  create_dir_all, Io, Node, file, link, directory, Files, Call, list_directory, copy,
  write_destination, Host, World, ◌>>=◌, attempt, change, exists, followed, path_join, most_links,
}
use salmon.Files.Keeps.{Keeps, chain_at, make_directory-Grown, create_dir_all-Keeps, attempt_cases}
use salmon.Setup.Migrate.Copying.{
  Listing, end, file_entry, directory_entry, link_entry, other_entry, Journaled, settled, step,
  go_on, then_do, end_of_links, copy_file, copy_one, copy_entries,
}

abbrev pub among : Text → List Text → Bool
among path paths = any (text_eq path) paths

-- Files without symbolic links.
abbrev pub Plain : Files → Type 0
Plain files = (path target : Text) → get path files ≢ some (link target)

-- a path is as it was, or it is a new directory
abbrev pub SameOrMade : Files → Files → Text → Type 0
SameOrMade before after path =
    (get path after ≡ get path before)
    ⊎ ((get path before ≡ none) × (get path after ≡ some directory))

-- The files differ from the original ones only in new directories and at journaled paths, where
-- nothing was.
pub record Traced (original : Files) (created : List Text) (files : Files) : Type 0 where
  pub untouched : (path : Text) → among path created ≡ false → SameOrMade original files path
  pub fresh : (path : Text) → among path created ≡ true → get path original ≡ none
  pub plain : Plain files

abbrev pub IsTraced : Files → Journaled → Type 0
IsTraced original now = Traced original now.created now.world.files

pub among_end :
    (path last : Text) (paths : List Text)
    → among path (paths ++ last ∷ []) ≡ (among path paths || text_eq path last)
among_end path last [] = ground arith
among_end path last (p ∷ paths) = ground (arith, among_end path last paths)

pub Plain-insert :
    (path : Text) (node : Node) (files : Files)
    → ((target : Text) → node ≢ link target)
    → Plain files
    → Plain (insert path node files)
Plain-insert path node files no_link h at target e = elim (Bool-cases (text_eq path at)) [
  | inl here ↦ no_link target (ground (arith, get-insert path at node files))
  | inr away ↦ h at target (ground (arith, get-insert path at node files))
]

pub file_no_link : (contents target : Text) → file contents ≢ link target
file_no_link contents target e = cc

directory_no_link : (target : Text) → directory ≢ link target
directory_no_link target e = cc

-- With no links, a path that does not exist is free, and a file is created at that path.
absent_plain :
    (path : Text) (files : Files)
    → Plain files
    → exists path files ≡ false
    → (get path files ≡ none) × (end_of_links most_links path files ≡ some path)
unfolding exists followed end_of_links
absent_plain path files h e = elim (Option-cases (get path files)) [
  | inl free ↦ (free, rw (end_of_links, free) refl)
  | inr (node, there) ↦ absurd (taken node there)
]
  where
    taken : (node : Node) → get path files ≡ some node → ⊥
    taken (file contents) there =
        let found_ : exists path files ≡ true = rw (exists, followed, there) refl in
        ground (arith, e, found_)
    taken (link target) there = h path target there
    taken directory there =
        let found_ : exists path files ≡ true = rw (exists, followed, there) refl in
        ground (arith, e, found_)

module _ (original : Files) (host : Host) where
  settled-Traced :
      (created : List Text) (result : World × Result Text (Unit {0}))
      → Traced original created result.0.files
      → IsTraced original (settled created result)
  settled-Traced created (world, ok value) h = h
  settled-Traced created (world, err failure) h = h

  pub then_do-Traced :
      (now : Journaled) (rest : Journaled → Journaled)
      → IsTraced original now
      → ((later : Journaled) → IsTraced original later → IsTraced original (rest later))
      → IsTraced original (then_do now rest)
  unfolding then_do
  then_do-Traced now rest h k = on_failure now.failure
    where
      on_failure : (failure : Option Text) → IsTraced original (go_on failure now rest)
      on_failure none = k now h
      on_failure (some failure) = h

  -- a step that leaves the files alone
  pub attempt-Traced :
      (call : Call) (path : Text) (now : Journaled)
      → IsTraced original now
      → IsTraced original (step (attempt host call path) now)
  attempt-Traced call path now h =
      settled-Traced now.created (attempt host call path now.world)
        (elim (attempt_cases host call path now.world) [
          | inl passed ↦ rw passed h
          | inr (failure, stopped) ↦ rw stopped h
        ])

  -- directories are made where nothing is
  made-Traced :
      (created : List Text) (path : Text) (files : Files)
      → contains_key path files ≡ false
      → Traced original created files
      → Traced original created (insert path directory files)
  made-Traced created path files absent h = record {
    untouched =
        λ at away. chain_at (h.untouched at away) (make_directory-Grown path files absent at);
    fresh = h.fresh;
    plain = Plain-insert path directory files directory_no_link h.plain;
  }

  step-Traced :
      (action : Io (Unit {0})) (now : Journaled)
      → Keeps
          (λ before after. Traced original now.created before → Traced original now.created after)
          action
      → IsTraced original now
      → IsTraced original (step action now)
  unfolding Keeps
  step-Traced action now kept h = settled-Traced now.created (action now.world) (kept now.world h)

  pub make-Traced :
      (path : Text) (now : Journaled)
      → IsTraced original now
      → IsTraced original (step (create_dir_all host path) now)
  make-Traced path now h =
      step-Traced (create_dir_all host path) now
        (create_dir_all-Keeps _ (record { same = λ files k. k; chain = λ a b c k l m. l (k m) })
          (λ at files absent k. made-Traced now.created at files absent k) host path)
        h

  -- the file is created, or nothing is
  copy_file_files :
      (path contents : Text) (world : World)
      → end_of_links most_links path world.files ≡ some path
      → ((copy_file host path contents world).0.files ≡ world.files)
        ⊎ ((copy_file host path contents world).0.files ≡ insert path (file contents) world.files)
  unfolding copy_file ◌>>=◌ change
  copy_file_files path contents world e = elim (attempt_cases host copy path world) [
    | inr (failure, stopped) ↦ inl (rw stopped refl)
    | inl passed ↦
        rw (passed, e)
          (elim (attempt_cases host write_destination path
            (record world { files = insert path (file contents) world.files })) [
              | inl written ↦ inr (rw written refl)
              | inr (failure, torn) ↦ inr (rw torn refl)
            ])
  ]

  was_free :
      (at : Text) (files : Files)
      → SameOrMade original files at
      → get at files ≡ none
      → get at original ≡ none
  was_free at files (inl same) free = sym same ∙ free
  was_free at files (inr (absent, made)) free = absent

  fresh_noted :
      (path : Text) (created : List Text) (files : Files)
      → get path files ≡ none
      → Traced original created files
      → (at : Text) → among at (created ++ path ∷ []) ≡ true
      → get at original ≡ none
  fresh_noted path created files free h at there = elim (Bool-cases (among at created)) [
    | inl before ↦ h.fresh at before
    | inr away ↦
        let here : at ≡ path = ground (arith, among_end at path created, text_eq_iff at path) in
        was_free at files (h.untouched at away) (ap (λ p. get p files) here ∙ free)
  ]

  pub moved :
      (at : Text) (files after : Files)
      → get at after ≡ get at files
      → SameOrMade original files at
      → SameOrMade original after at
  moved at files after e (inl same) = inl (e ∙ same)
  moved at files after e (inr (absent, made)) = inr (absent, e ∙ made)

  pub noted :
      (path contents : Text) (created : List Text) (files after : Files)
      → get path files ≡ none
      → Traced original created files
      → (after ≡ files) ⊎ (after ≡ insert path (file contents) files)
      → Traced original (created ++ path ∷ []) after
  noted path contents created files after free h (inl same) = record {
    untouched = λ at away.
        moved at files after (ap (get at) same)
          (h.untouched at (ground (arith, among_end at path created)));
    fresh = fresh_noted path created files free h;
    plain = λ at target e. h.plain at target (sym (ap (get at) same) ∙ e);
  }
  noted path contents created files after free h (inr put) = record {
    untouched = λ at away.
        moved at files after
          (ap (get at) put
            ∙ get-insert path at (file contents) files
            ∙ if_no (text_eq path at) (some (file contents)) (get at files) (
                ground
                  (arith, among_end at path created, text_eq_iff path at, text_eq_iff at path)))
          (h.untouched at (ground (arith, among_end at path created)));
    fresh = fresh_noted path created files free h;
    plain = λ at target e.
        Plain-insert path (file contents) files (file_no_link contents) h.plain at target
          (sym (ap (get at) put) ∙ e);
  }

  copy_one-Traced :
      (path contents : Text) (now : Journaled)
      → IsTraced original now
      → IsTraced original (copy_one host path contents now)
  unfolding copy_one
  copy_one-Traced path contents now h =
      if_rule (IsTraced original) (exists path now.world.files) _ _ (λ there. h)
        (λ absent.
          let (free, target) = absent_plain path now.world.files h.plain absent in
          settled-Traced (now.created ++ path ∷ []) (copy_file host path contents now.world) (
            noted path contents now.created now.world.files _ free h
              (copy_file_files path contents now.world target)))

  pub copy_entries-Traced :
      (listing : Listing) (source destination skipped : Text) (now : Journaled)
      → IsTraced original now
      → IsTraced original (copy_entries host source destination skipped listing now)
  unfolding copy_entries
  copy_entries-Traced end source destination skipped now h = h
  copy_entries-Traced (file_entry name contents rest) source destination skipped now h =
      then_do-Traced _ _
        (if_rule (IsTraced original) (text_eq (path_join source name) skipped) _ _ (λ _. h)
          (λ _. copy_one-Traced (path_join destination name) contents now h))
        (copy_entries-Traced rest source destination skipped)
  copy_entries-Traced (directory_entry name inner rest) source destination skipped now h =
      then_do-Traced _ _
        (if_rule (IsTraced original) (text_eq (path_join source name) skipped) _ _ (λ _. h)
          (λ _. then_do-Traced _ _ (make-Traced (path_join destination name) now h) (λ ready k.
            then_do-Traced _ _ (attempt-Traced list_directory (path_join source name) ready k) (
              copy_entries-Traced inner (path_join source name) (path_join destination name)
                skipped))))
        (copy_entries-Traced rest source destination skipped)
  copy_entries-Traced (link_entry name rest) source destination skipped now h =
      then_do-Traced _ _
        (if_rule (IsTraced original) (text_eq (path_join source name) skipped) _ _ (λ _. h)
          (λ _. h))
        (copy_entries-Traced rest source destination skipped)
  copy_entries-Traced (other_entry name rest) source destination skipped now h =
      copy_entries-Traced rest source destination skipped now h
