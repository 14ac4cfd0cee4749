-- ===== src/Setup/Entry/Recognized.antt =====
-- setup.rs: setup recognizes the entries that it writes.
use salmon.Base.{Bool, true, ◌≡◌, refl, Text, text_eq}
use salmon.Base.Results.{ok}
use salmon.Base.Strings.{lines, split_once, strip_prefix, contains, trim}
use salmon.Setup.Entry.{desktop_entry, render_desktop_entry_template, has_desktop_entry_version}

-- Whatever the two paths are, setup writes an entry, and recognizes what it wrote: the entry has
-- the version marker, so that turning autostart off may remove it.
pub desktop_entry_recognized :
    (executable config_filename : Text) (start_hidden : Bool)
    → (entry : Text) × (desktop_entry executable config_filename start_hidden ≡ ok entry)
      × (has_desktop_entry_version entry ≡ true)
unfolding desktop_entry render_desktop_entry_template split_once strip_prefix contains
    has_desktop_entry_version lines trim text_eq
desktop_entry_recognized executable config_filename start_hidden = (_, refl, refl)
