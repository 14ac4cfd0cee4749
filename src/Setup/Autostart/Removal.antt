-- ===== src/Setup/Autostart/Removal.antt =====
-- setup.rs: turning autostart off.
use salmon.Base.{true, false, none, some, ◌≡◌, refl, ap, ◌∙◌, Text, inl, inr}
use salmon.Base.Maps.{get}
use salmon.Files.{
  file, Files, Call, read, Host, World, ◌>>=◌, look, contents_of, exists, followed, continue,
}
use salmon.Files.Keeps.{Keeps, attempt_cases}
use salmon.Setup.Autostart.{is_ours, remove_ours, remove_found, remove_entry, set_autostart_file}

exists_file :
    (path contents : Text) (files : Files)
    → get path files ≡ some (file contents)
    → (exists path files ≡ true) × (contents_of path files ≡ some contents)
unfolding exists contents_of followed
exists_file path contents files there =
    (rw (exists, followed, there) refl, rw (contents_of, followed, there) refl)

found_ours :
    (host : Host) (path contents : Text) (world : World)
    → get path world.files ≡ some (file contents)
    → remove_found host path world.files world ≡ remove_ours host path contents world
unfolding remove_found ◌>>=◌
found_ours host path contents world there =
    let (is_there, readable) = exists_file path contents world.files there in
    rw (is_there, readable) refl

-- A file with contents that setup does not recognize as its own stays, and so does everything
-- else, when autostart is turned off: whatever fails, the call changes nothing.
pub foreign_autostart_kept :
    (host : Host) (path entry contents : Text) (world : World)
    → get path world.files ≡ some (file contents)
    → is_ours contents ≡ false
    → (set_autostart_file host path entry false world).0 ≡ world
unfolding set_autostart_file remove_entry remove_ours ◌>>=◌
foreign_autostart_kept host path entry contents world there foreign =
    elim (attempt_cases host read path world) [
      | inl passed ↦
          ap (λ r. (continue (λ _. look >>= remove_found host path) r).0) passed
          ∙ ap (λ r. r.0) (found_ours host path contents world there)
          ∙ stays
      | inr (failure, stopped) ↦
          ap (λ r. (continue (λ _. look >>= remove_found host path) r).0) stopped
    ]
  where
    stays : (remove_ours host path contents world).0 ≡ world
    stays = rw foreign refl

-- a host on which every call succeeds
abbrev pub Healthy : Host → Type 0
Healthy host = (call : Call) (path : Text) (files : Files) → host.fault call path files ≡ none
