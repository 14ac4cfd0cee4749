-- ===== src/Setup/Entry.antt =====
-- setup.rs: the text of a desktop entry, and how the entries that setup wrote are recognized.
pub mod Recognized
use mathlib.Core.List.{reverse}
use salmon.Base.{
  ℕ, Bool, true, false, not, ◌&&◌, ◌||◌, Option, none, some, List, [], ◌∷◌, ◌++◌, map, Text, codes,
  text_eq, starts_with, ◌==◌, is_empty, is_some, if◌then◌else◌, any,
}
use salmon.Base.Results.{Result, ok, err, ◌>>=◌}
use salmon.Base.Strings.{lines, split_once, strip_prefix, contains, trim}
use salmon.Setup.Quoting.{desktop_exec_argument}

abbrev pub desktop_exec_placeholder : Text
desktop_exec_placeholder = codes "{{EXEC}}"

abbrev pub desktop_entry_version_key : Text
desktop_entry_version_key = codes "X-Montray-Desktop-Entry-Version"

abbrev pub line_of : Text → Text → Text
line_of line rest = line ++ 10 ∷ rest

-- assets/setup/montray-ui.desktop.tpl
abbrev pub desktop_entry_template : Text
desktop_entry_template = line_of (codes "[Desktop Entry]") (
    line_of (codes "Type=Application") (
      line_of (codes "Name=Montray") (
        line_of (codes "Comment=Show Montray status in the desktop tray") (
          line_of (codes "Categories=System;Monitor;") (
            line_of (codes "Icon=montray-ui") (
              line_of (codes "X-Montray-Desktop-Entry-Version=2")
                (line_of (codes "Exec={{EXEC}}") (line_of (codes "Terminal=false") []))))))))

abbrev pub rendered : Text → Text → Option (Text × Text) → Result Text Text
rendered before command none = err (codes "desktop entry template is missing {{EXEC}}")
rendered before command (some parts) =
    if contains parts.1 desktop_exec_placeholder
    then err (codes "desktop entry template contains {{EXEC}} more than once")
    else ok (parts.0 ++ command ++ parts.1)

unfoldable pub render_desktop_entry_template : Text → Text → Result Text Text
render_desktop_entry_template template command =
    rendered template command (split_once template desktop_exec_placeholder)

unfoldable pub exec_command : Text → Text → Bool → Text
exec_command executable config_filename start_hidden =
    desktop_exec_argument executable
    ++ codes " --config "
    ++ desktop_exec_argument config_filename
    ++ (if start_hidden then codes " --start-hidden" else [])

-- a path is a text, so that its two conversions cannot fail
unfoldable pub desktop_entry : Text → Text → Bool → Result Text Text
unfolding exec_command
desktop_entry executable config_filename start_hidden =
    render_desktop_entry_template desktop_entry_template
      (exec_command executable config_filename start_hidden)

abbrev pub has_key : Text → Option (Text × Text) → Bool
has_key key none = false
has_key key (some parts) = text_eq (trim parts.0) key

unfoldable pub has_desktop_entry_version : Text → Bool
has_desktop_entry_version contents =
    any (λ line. has_key desktop_entry_version_key (split_once line (codes "="))) (lines contents)

-- the flags of `is_legacy_desktop_entry`; `versioned` is its early return
pub record Signature : Type 0 where
  pub in_desktop_entry : Bool
  pub application : Bool
  pub name : Bool
  pub comment : Bool
  pub icon : Bool
  pub exec : Bool
  pub versioned : Bool

abbrev pub no_signature : Signature
no_signature = record {
  in_desktop_entry = false;
  application = false;
  name = false;
  comment = false;
  icon = false;
  exec = false;
  versioned = false;
}

abbrev pub ends_with : Text → Text → Bool
ends_with text suffix = starts_with (reverse text) (reverse suffix)

-- `trim_matches('"')`
abbrev pub strip_quotes : Text → Text
strip_quotes [] = []
strip_quotes (c ∷ cs) = let rest = strip_quotes cs in if c == b'"' then rest else c ∷ cs

abbrev pub trim_quotes : Text → Text
trim_quotes text = reverse (strip_quotes (reverse (strip_quotes text)))

-- `rsplit('/').next()`
abbrev pub after_last_slash : Text → Text
after_last_slash [] = []
after_last_slash (c ∷ cs) =
    let rest = after_last_slash cs in
    if contains cs (codes "/") then rest else if c == b'/' then cs else c ∷ cs

abbrev pub runs_montray : Option (Text × Text) → Bool
runs_montray none = false
runs_montray (some parts) = text_eq (after_last_slash (trim_quotes parts.0)) (codes "montray-ui")

abbrev pub with_key : Text → Text → Signature → Signature
with_key key value seen =
    if text_eq key desktop_entry_version_key
    then record seen { versioned = true }
    else if text_eq key (codes "Type")
    then record seen { application = text_eq value (codes "Application") }
    else if text_eq key (codes "Name")
    then record seen { name = text_eq value (codes "Montray") }
    else if text_eq key (codes "Comment")
    then record seen { comment = text_eq value (codes "Show Montray status in the desktop tray") }
    else if text_eq key (codes "Icon")
    then record seen { icon = text_eq value (codes "montray-ui") }
    else if text_eq key (codes "Exec")
    then record seen { exec = runs_montray (split_once value (codes " --config ")) }
    else seen

abbrev pub with_pair : Option (Text × Text) → Signature → Signature
with_pair none seen = seen
with_pair (some parts) seen = with_key (trim parts.0) (trim parts.1) seen

unfoldable pub with_line : Text → Signature → Signature
with_line line seen =
    if starts_with line (codes "[") && ends_with line (codes "]")
    then record seen { in_desktop_entry = text_eq line (codes "[Desktop Entry]") }
    else if not seen.in_desktop_entry || is_empty line || starts_with line (codes "#")
    then seen
    else with_pair (split_once line (codes "=")) seen

unfoldable pub signature_of : List Text → Signature → Signature
signature_of [] seen = seen
signature_of (line ∷ rest) seen = elim seen.versioned [
  | true ↦ seen
  | false ↦ signature_of rest (with_line (trim line) seen)
]

abbrev pub is_complete : Signature → Bool
is_complete seen =
    not seen.versioned && (seen.application && seen.name && seen.comment && seen.icon && seen.exec)

unfoldable pub is_legacy_desktop_entry : Text → Bool
is_legacy_desktop_entry contents = is_complete (signature_of (lines contents) no_signature)
