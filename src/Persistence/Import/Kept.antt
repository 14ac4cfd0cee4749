-- ===== src/Persistence/Import/Kept.antt =====
-- persistence.rs: the import changes no file that is there.
use salmon.Base.{Bool, false, Option, none, some, ◌≡◌, refl, Text, ltb}
use salmon.Base.Maps.{get}
use salmon.Files.{
  file, Node, Files, create_temporary, set_permissions, write_temporary, read, Host, World,
  contents_of, exists, path_join,
}
use salmon.Files.Keeps.{
  Preorder, Keeps, bind-Keeps, attempt-Keeps, found-Keeps, done-Keeps, fail-Keeps, look-Keeps,
  if-Keeps,
}
use salmon.Setup.Install.{parent_of}
use salmon.Setup.Install.Keeping.{noclobber-Keeps}
use salmon.Setup.Execute.Kept.{KeptBut, KeptBut-Preorder, insert_new-KeptBut}
use salmon.Persistence.Import.{
  Inspected, malformed, no_object, unversioned, bad_version, versioned, persist_copy_noclobber,
  read_if_present, copy_data, copy_renamed_state, copy_inspected, copy_legacy,
  preserve_legacy_state, import_state, default_state_path,
}

nothing : Text → Bool
nothing path = false

Kept : Files → Files → Type 0
Kept = KeptBut nothing

order : Preorder Kept
unfolding Kept
order = KeptBut-Preorder nothing

module _ (host : Host) where
  copy-Kept : (text destination : Text) → Keeps Kept (persist_copy_noclobber host text destination)
  unfolding persist_copy_noclobber Kept
  copy-Kept text destination =
      bind-Keeps _ order _ _ (found-Keeps _ order _ (parent_of destination)) (λ parent.
        bind-Keeps _ order _ _ (attempt-Keeps _ order host create_temporary parent) (λ _.
          bind-Keeps _ order _ _ (attempt-Keeps _ order host set_permissions parent) (λ _.
            bind-Keeps _ order _ _ (attempt-Keeps _ order host write_temporary parent) (λ _.
              bind-Keeps _ order _ _ (attempt-Keeps _ order host write_temporary parent) (λ _.
                bind-Keeps _ order _ _ (attempt-Keeps _ order host write_temporary parent) (λ _.
                  bind-Keeps _ order _ _
                    (noclobber-Keeps _ order host destination text
                      (insert_new-KeptBut nothing destination (file text)))
                    (λ result. done-Keeps _ order _)))))))

  read-Kept : (path : Text) → Keeps Kept (read_if_present host path)
  unfolding read_if_present
  read-Kept path = bind-Keeps _ order _ _ (attempt-Keeps _ order host read path) (λ _.
      look-Keeps _ order _ (λ files.
        if-Keeps _ order (exists path files) _ _
          (λ _.
            bind-Keeps _ order _ _ (found-Keeps _ order _ (contents_of path files))
              (λ text. done-Keeps _ order (some text)))
          (λ _. done-Keeps _ order {A = Option Text} none)))

  data-Kept :
      (destination : Text) (text : Option Text) → Keeps Kept (copy_data host destination text)
  data-Kept destination none = done-Keeps _ order false
  data-Kept destination (some text) = copy-Kept text destination

  renamed-Kept :
      (source destination : Text) → Keeps Kept (copy_renamed_state host source destination)
  unfolding copy_renamed_state
  renamed-Kept source destination = look-Keeps _ order _ (λ files.
      if-Keeps _ order (exists destination files) _ _ (λ _. done-Keeps _ order false)
        (λ _. bind-Keeps _ order _ _ (read-Kept source) (data-Kept destination)))

  module _ (inspected : Text → Inspected) where
    inspected-Kept :
        (source legacy text : Text) (what : Inspected)
        → Keeps Kept (copy_inspected host inspected source legacy text what)
    inspected-Kept source legacy text malformed = fail-Keeps _ order Bool _
    inspected-Kept source legacy text no_object = fail-Keeps _ order Bool _
    inspected-Kept source legacy text unversioned = copy-Kept text legacy
    inspected-Kept source legacy text bad_version = fail-Keeps _ order Bool _
    inspected-Kept source legacy text (versioned version) =
        if-Keeps _ order (ltb version 1) _ _ (λ _. copy-Kept text legacy)
          (λ _. done-Keeps _ order false)

    legacy-Kept :
        (source legacy : Text) (text : Option Text)
        → Keeps Kept (copy_legacy host inspected source legacy text)
    legacy-Kept source legacy none = done-Keeps _ order false
    legacy-Kept source legacy (some text) = inspected-Kept source legacy text (inspected text)

    preserve-Kept :
        (source legacy : Text) → Keeps Kept (preserve_legacy_state host inspected source legacy)
    unfolding preserve_legacy_state
    preserve-Kept source legacy = look-Keeps _ order _ (λ files.
        if-Keeps _ order (exists legacy files) _ _ (λ _. done-Keeps _ order false)
          (λ _. bind-Keeps _ order _ _ (read-Kept source) (legacy-Kept source legacy)))

    import-Kept :
        (state former legacy : Text) → Keeps Kept (import_state host inspected state former legacy)
    unfolding import_state
    import-Kept state former legacy =
        bind-Keeps _ order _ _ (preserve-Kept former legacy)
          (λ _. bind-Keeps _ order _ _ (renamed-Kept former state) (λ _. done-Keeps _ order state))

-- Finding the state file, with the import of a former one and the copy for the former application,
-- changes and removes nothing that was there, whatever fails.
pub import_keeps_files :
    (host : Host) (inspected : Text → Inspected) (home : Option Text) (state former legacy : Text)
    (world : World) (path : Text) (node : Node)
    → get path world.files ≡ some node
    → get path (default_state_path host inspected home state former legacy world).0.files
      ≡ some node
unfolding default_state_path Keeps Kept nothing
import_keeps_files host inspected home state former legacy world path node =
    bind-Keeps _ order _ _ (found-Keeps _ order _ home)
      (λ base. look-Keeps _ order _ (λ files.
        if-Keeps _ order (exists (path_join base state) files) _ _
          (λ _. done-Keeps _ order (path_join base state))
          (λ _.
            import-Kept host inspected (path_join base state) (path_join base former)
              (path_join base legacy))))
      world path node refl
