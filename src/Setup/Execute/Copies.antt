-- ===== src/Setup/Execute/Copies.antt =====
-- setup.rs: the copies that go into a backup.
use mathlib.Core.Path.{subst}
use salmon.Base.{
  true, false, not, Option, none, some, List, [], ◌∷◌, ◌++◌, ◌≡◌, ◌⊎◌, refl, sym, ap, ◌∙◌, arith,
  Text, codes, text_eq, text_eq_iff, text_eq_refl, inl, inr, All, Bool-cases,
}
use salmon.Base.Results.{Result, ok, err}
use salmon.Base.Maps.{get, insert, get-insert}
use salmon.Files.{
  Node, file, Files, write_destination, copy, Host, World, Io, continue, ◌>>=◌, ◌>>◌, look, attempt,
  change, found, unless, contents_of, followed, path_join,
}
use salmon.Files.Keeps.{
  create_dir_all-Keeps, found-Keeps, Keeps, bind-Keeps, continue_rule, attempt-Keeps, done-Keeps,
}
use salmon.Setup.Install.{parent_of, back_up, back_up_all, below}
use salmon.Setup.Install.Keeping.{back_up-Keeps}
use salmon.Setup.Execute.Kept.{made-KeptBut, KeptBut, KeptBut-Preorder, below_join}

-- A success that leaves a file with these contents.
abbrev pub Holds : {A : Type 0} → Text → Text → World × Result Text A → Type 0
Holds path contents (after, ok value) = get path after.files ≡ some (file contents)
Holds path contents (after, err failure) = Unit

-- the names of two targets in the backup differ
abbrev pub Apart : Text → Text × Text → Text × Text → Type 0
Apart saved target other = text_eq (path_join saved target.1) (path_join saved other.1) ≡ false

-- A target is among these, and none after it takes its place in the backup.
abbrev pub Saves : Text → Text × Text → List (Text × Text) → Type 0
Saves saved target [] = ⊥
Saves saved target (t ∷ ts) = ((t ≡ target) × All (Apart saved target) ts) ⊎ Saves saved target ts

pub file_is_read :
    (path contents : Text) (files : Files)
    → get path files ≡ some (file contents)
    → contents_of path files ≡ some contents
unfolding contents_of followed
file_is_read path contents files h = rw (contents_of, followed, h) refl

-- what is at a path stays there
abbrev pub StaysAt : Text → Files → Files → Type 0
StaysAt spot = KeptBut (λ path. not (text_eq path spot))

pub insert_apart-StaysAt :
    (spot path : Text) (new : Node) (files : Files)
    → text_eq spot path ≡ false
    → StaysAt spot files (insert path new files)
insert_apart-StaysAt spot path new files apart at node h e = ground (
  arith,
  get-insert path at new files,
  text_eq_iff path at,
  text_eq_iff at spot,
  text_eq_iff spot path,
)

get-insert_here :
    (path contents : Text) (files : Files)
    → get path (insert path (file contents) files) ≡ some (file contents)
get-insert_here path contents files =
    ground (arith, get-insert path path (file contents) files, text_eq_refl path)

pub false_is_true : false ≡ true → ⊥
false_is_true h = cc

pub outside_apart :
    (saved path name : Text)
    → below saved path ≡ false
    → text_eq path (path_join saved name) ≡ false
outside_apart saved path name outside = elim (Bool-cases (text_eq path (path_join saved name))) [
  | inl same ↦ absurd (
      false_is_true (
        sym outside
        ∙ ap (below saved) ((text_eq_iff path (path_join saved name)).0 same)
        ∙ below_join saved name))
  | inr apart ↦ apart
]

-- What follows a step that leaves a path alone finds there what was there before.
pub stays_rule :
    {A B : Type 0} (P : World × Result Text B → Type 0) (spot : Text) (node : Node) (action : Io A)
    (rest : A → Io B) (world : World)
    → Keeps (StaysAt spot) action
    → get spot world.files ≡ some node
    → ((value : A) (after : World) → get spot after.files ≡ some node → P (rest value after))
    → ((failure : Text) (after : World) → get spot after.files ≡ some node → P (after, err failure))
    → P ((action >>= rest) world)
unfolding Keeps ◌>>=◌
stays_rule {A = A} P spot node action rest world stays there good bad =
    on_result (action world) (stays world spot node (ground (arith, text_eq_refl spot)) there)
  where
    on_result :
        (result : World × Result Text A)
        → get spot result.0.files ≡ some node
        → P (continue rest result)
    on_result (after, ok value) h = good value after h
    on_result (after, err failure) h = bad failure after h

-- What holds after a step still holds after a second one that leaves the path alone.
pub holds_then :
    {A B : Type 0} (path contents : Text) (action : Io A) (rest : A → Io B) (world : World)
    → Holds path contents (action world)
    → ((value : A) → Keeps (StaysAt path) (rest value))
    → Holds path contents ((action >>= rest) world)
unfolding Keeps ◌>>=◌
holds_then {A} {B} path contents action rest world h stays = on_result (action world) h
  where
    kept :
        (before : World) (result : World × Result Text B)
        → get path before.files ≡ some (file contents)
        → StaysAt path before.files result.0.files
        → Holds path contents result
    kept before (after, ok value) there still =
        still path (file contents) (ground (arith, text_eq_refl path)) there
    kept before (after, err failure) there still = tt

    on_result :
        (result : World × Result Text A)
        → Holds path contents result
        → Holds path contents (continue rest result)
    on_result (after, ok value) there = kept after (rest value after) there (stays value after)
    on_result (after, err failure) there = tt

module _ (host : Host) (saved : Text) where
  written :
      (path contents : Text) (world : World)
      → Holds path contents
          ((change (insert path (file contents)) >> attempt host write_destination path) world)
  unfolding change attempt ◌>>=◌
  written path contents world =
      on_fault (host.fault write_destination path (insert path (file contents) world.files))
    where
      after : World
      after = record world { files = insert path (file contents) world.files }

      on_fault : (fault : Option Text) → Holds path contents (unless fault after)
      on_fault none = get-insert_here path contents world.files
      on_fault (some failure) = tt

  copied :
      (target : Text × Text) (contents : Text) (world : World)
      → get target.0 world.files ≡ some (file contents)
      → Holds (path_join saved target.1) contents (back_up host saved target world)
  unfolding back_up
  copied target contents world there =
      stays_rule P target.0 (file contents) _ _ world
        (found-Keeps _ (KeptBut-Preorder _) _ (parent_of (path_join saved target.1))) there
        (λ parent w1 h1.
          stays_rule P target.0 (file contents) _ _ w1
            (create_dir_all-Keeps _ (KeptBut-Preorder _) (made-KeptBut _) host parent) h1
            (λ _ w2 h2.
              stays_rule P target.0 (file contents) _ _ w2
                (attempt-Keeps _ (KeptBut-Preorder _) host copy target.0) h2 (λ _ w3 h3. read w3 h3)
                (λ failure w3 h3. tt))
            (λ failure w2 h2. tt))
        (λ failure w1 h1. tt)
    where
      P : World × Result Text (Unit {0}) → Type 0
      P = Holds (path_join saved target.1) contents

      keep_copy : Text → Io (Unit {0})
      keep_copy value =
          change (insert (path_join saved target.1) (file value))
          >> attempt host write_destination (path_join saved target.1)

      read :
          (now : World)
          → get target.0 now.files ≡ some (file contents)
          → P (
              (look >>= (λ files.
                  found (codes "back up " ++ target.0) (contents_of target.0 files) >>= keep_copy))
                now)
      read now h = continue_rule P look _ now (
          continue_rule P (found (codes "back up " ++ target.0) (contents_of target.0 now.files)) _
            now
            (subst
              (λ value. P (continue keep_copy (found (codes "back up " ++ target.0) value now)))
              (sym (file_is_read target.0 contents now.files h))
              (written (path_join saved target.1) contents now)))

  Apart-stays :
      (target : Text × Text) (others : List (Text × Text))
      → All (Apart saved target) others
      → Keeps (StaysAt (path_join saved target.1)) (back_up_all host saved others)
  unfolding back_up_all
  Apart-stays target [] h = done-Keeps _ (KeptBut-Preorder _) tt
  Apart-stays target (other ∷ others) h =
      bind-Keeps _ (KeptBut-Preorder _) _ _
        (back_up-Keeps _ (KeptBut-Preorder _) host (made-KeptBut _) saved other (λ contents files.
          insert_apart-StaysAt (path_join saved target.1) (path_join saved other.1) (file contents)
            files h.0))
        (λ _. Apart-stays target others h.1)

  module _ (target : Text × Text) (contents : Text) (outside : below saved target.0 ≡ false) where
    source_stays : (other : Text × Text) → Keeps (StaysAt target.0) (back_up host saved other)
    source_stays other =
        back_up-Keeps _ (KeptBut-Preorder _) host (made-KeptBut _) saved other (λ read files.
          insert_apart-StaysAt target.0 (path_join saved other.1) (file read) files
            (outside_apart saved target.0 other.1 outside))

    pub all_saved :
        (targets : List (Text × Text)) (world : World)
        → Saves saved target targets
        → get target.0 world.files ≡ some (file contents)
        → Holds (path_join saved target.1) contents (back_up_all host saved targets world)
    unfolding back_up_all
    all_saved [] world s there = absurd s
    all_saved (t ∷ ts) world (inl (same, apart)) there =
        holds_then _ contents _ _ world
          (subst (λ x. Holds (path_join saved target.1) contents (back_up host saved x world))
            (sym same) (copied target contents world there))
          (λ _. Apart-stays target ts apart)
    all_saved (t ∷ ts) world (inr s) there =
        stays_rule (Holds (path_join saved target.1) contents) target.0 (file contents) _ _ world
          (source_stays t) there (λ _ after there. all_saved ts after s there)
          (λ failure after there. tt)
