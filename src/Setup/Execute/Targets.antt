-- ===== src/Setup/Execute/Targets.antt =====
-- setup.rs: the files that a reinstallation replaces, and their names in the backup.
use mathlib.Core.Path.{subst}
use salmon.Base.{
  text_eq_refl, Bool, true, false, ◌||◌, List, [], ◌∷◌, ◌++◌, ◌≡◌, ◌⊎◌, refl, sym, ap, ◌∙◌, arith,
  Text, codes, text_eq, text_eq_iff, text_eq_comm, append_cancel_left, inl, inr, All, Bool-cases,
}
use salmon.Files.{path_join}
use salmon.Setup.Install.{below}
use salmon.Setup.Execute.{
  InstallPaths, SetupOperation, complete, create_config, install_autostart, install_launcher,
  backup_targets,
}
use salmon.Setup.Execute.Preserved.{Replaces}
use salmon.Setup.Execute.Copies.{Apart, Saves, false_is_true, outside_apart}

abbrev pub Member : Text × Text → List (Text × Text) → Type 0
Member target [] = ⊥
Member target (t ∷ ts) = (t ≡ target) ⊎ Member target ts

names-Apart :
    (saved : Text) (target other : Text × Text)
    → text_eq target.1 other.1 ≡ false
    → Apart saved target other
names-Apart saved target other apart =
    elim (Bool-cases (text_eq (path_join saved target.1) (path_join saved other.1))) [
      | inl same ↦ absurd (
          false_is_true (
            sym apart
            ∙ (text_eq_iff target.1 other.1).1 (
                append_cancel_left (saved ++ codes "/") target.1 other.1
                  ((text_eq_iff (path_join saved target.1) (path_join saved other.1)).0 same))))
      | inr differ ↦ differ
    ]

other_name :
    (saved : Text) (t target other : Text × Text)
    → t ≡ target
    → text_eq t.1 other.1 ≡ false
    → Apart saved target other
other_name saved t target other same apart =
    names-Apart saved target other (ap (λ x. text_eq x.1 other.1) (sym same) ∙ apart)

abbrev launcher_target : InstallPaths → Text × Text
launcher_target paths = (paths.launcher, codes "applications/montray-ui.desktop")

abbrev icon_target : InstallPaths → Text × Text
icon_target paths = (paths.icon, codes "icons/montray-ui.svg")

pub targets_Saves :
    (reinstall : Bool) (operation : SetupOperation) (paths : InstallPaths) (saved : Text)
    (target : Text × Text)
    → Member target (backup_targets reinstall operation paths)
    → Saves saved target (backup_targets reinstall operation paths)
unfolding backup_targets text_eq
targets_Saves false operation paths saved target m = absurd m
targets_Saves true complete paths saved target (inl same) = inl (
  same,
  (
    other_name saved _ target (launcher_target paths) same refl,
    (other_name saved _ target (icon_target paths) same refl, tt),
  ),
)
targets_Saves true complete paths saved target (inr (inl same)) =
    inr (inl (same, (other_name saved _ target (icon_target paths) same refl, tt)))
targets_Saves true complete paths saved target (inr (inr (inl same))) = inr (inr (inl (same, tt)))
targets_Saves true complete paths saved target (inr (inr (inr m))) = absurd m
targets_Saves true create_config paths saved target m = absurd m
targets_Saves true install_autostart paths saved target (inl same) = inl (same, tt)
targets_Saves true install_autostart paths saved target (inr m) = absurd m
targets_Saves true install_launcher paths saved target (inl same) =
    inl (same, (other_name saved _ target (icon_target paths) same refl, tt))
targets_Saves true install_launcher paths saved target (inr (inl same)) = inr (inl (same, tt))
targets_Saves true install_launcher paths saved target (inr (inr m)) = absurd m

-- one of the three desktop files
abbrev pub is_desktop_file : InstallPaths → Text → Bool
is_desktop_file paths path =
    text_eq path paths.autostart || text_eq path paths.launcher || text_eq path paths.icon

abbrev pub Outside : Text → InstallPaths → Type 0
Outside saved paths =
    (below saved paths.autostart ≡ false)
    × (below saved paths.launcher ≡ false)
    × (below saved paths.icon ≡ false)

pub copy_is_no_desktop_file :
    (saved name : Text) (paths : InstallPaths)
    → Outside saved paths
    → is_desktop_file paths (path_join saved name) ≡ false
copy_is_no_desktop_file saved name paths (a, l, i) = ground (
  arith,
  outside_apart saved paths.autostart name a,
  outside_apart saved paths.launcher name l,
  outside_apart saved paths.icon name i,
  text_eq_comm (path_join saved name) paths.autostart,
  text_eq_comm (path_join saved name) paths.launcher,
  text_eq_comm (path_join saved name) paths.icon,
)

pub All-Member :
    (P : Text × Text → Type 0) (target : Text × Text) (targets : List (Text × Text))
    → All P targets
    → Member target targets
    → P target
All-Member P target [] h m = absurd m
All-Member P target (t ∷ ts) h (inl same) = subst P same h.0
All-Member P target (t ∷ ts) h (inr m) = All-Member P target ts h.1 m

pub targets-Outside :
    (reinstall : Bool) (operation : SetupOperation) (paths : InstallPaths) (saved : Text)
    → Outside saved paths
    → All (λ target. below saved target.0 ≡ false) (backup_targets reinstall operation paths)
unfolding backup_targets
targets-Outside false operation paths saved outside = tt
targets-Outside true complete paths saved (a, l, i) = (a, (l, (i, tt)))
targets-Outside true create_config paths saved (a, l, i) = tt
targets-Outside true install_autostart paths saved (a, l, i) = (a, tt)
targets-Outside true install_launcher paths saved (a, l, i) = (l, (i, tt))

-- the path of one of these
abbrev pub is_listed : List (Text × Text) → Text → Bool
is_listed [] path = false
is_listed (t ∷ ts) path = text_eq path t.0 || is_listed ts path

pub listed-Member :
    (path : Text) (targets : List (Text × Text))
    → ((name : Text) × Member (path, name) targets) ⊎ (is_listed targets path ≡ false)
listed-Member path [] = inr refl
listed-Member path (t ∷ ts) = elim (Bool-cases (text_eq path t.0)) [
  | inl here ↦ inl (t.1, inl (ap (λ p. (p, t.1)) (sym ((text_eq_iff path t.0).0 here))))
  | inr away ↦ elim (listed-Member path ts) [
    | inl (name, m) ↦ inl (name, inr m)
    | inr absent ↦ inr (ground arith)
  ]
]

-- All that a reinstallation may write over is listed for the backup.
pub listed-Replaces :
    (reinstall : Bool) (operation : SetupOperation) (paths : InstallPaths) (saved : Text)
    → Replaces
        (λ path. below saved path || is_listed (backup_targets reinstall operation paths) path)
        operation
        reinstall
        paths
unfolding backup_targets
listed-Replaces false operation paths saved =
    (λ h. absurd (false_is_true h), λ h. absurd (false_is_true h))
listed-Replaces true complete paths saved = (
  λ h t. ground (arith, text_eq_refl paths.autostart),
  λ h t. (ground (arith, text_eq_refl paths.launcher), ground (arith, text_eq_refl paths.icon)),
)
listed-Replaces true create_config paths saved =
    (λ h t. absurd (false_is_true t), λ h t. absurd (false_is_true t))
listed-Replaces true install_autostart paths saved =
    (λ h t. ground (arith, text_eq_refl paths.autostart), λ h t. absurd (false_is_true t))
listed-Replaces true install_launcher paths saved = (
  λ h t. absurd (false_is_true t),
  λ h t. (ground (arith, text_eq_refl paths.launcher), ground (arith, text_eq_refl paths.icon)),
)
