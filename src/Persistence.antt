-- ===== src/Persistence.antt =====
-- cmd/montray-ui/src/persistence.rs: the state file and the snoozes in it. A field that this version
-- does not know keeps its JSON value, which is a parameter.
pub mod Replaced
pub mod Restored
pub mod Store
pub mod Import
use mathlib.Core.Option
use salmon.Base.{
  ℕ, Bool, true, false, Option, none, some, List, [], ◌∷◌, Text, Instant, is_some, if◌then◌else◌,
}
use salmon.Base.Int.{ℤ}
use salmon.Base.Results.{Result, ok, err, ◌>>=◌}
use salmon.Base.Maps.{Map, get, contains_key, insert, modify, retain}

pub record SnoozeEntry (Value : Type 0) : Type 0 where
  pub snoozed_until : Text
  pub extra : Map Value

pub data Theme : Type 0 where
  dark light : Theme

pub record SectionPreferences (Value : Type 0) : Type 0 where
  pub servers_expanded : Bool
  pub active_incidents_expanded : Bool
  pub snoozed_incidents_expanded : Bool
  pub extra : Map Value

pub record WindowGeometry : Type 0 where
  pub x : ℤ
  pub y : ℤ
  pub width : ℕ
  pub height : ℕ
  pub maximized : Bool

unfoldable pub as_normal : WindowGeometry → WindowGeometry
as_normal geometry = record geometry { maximized = false }

pub record Preferences (Value : Type 0) : Type 0 where
  pub theme : Theme
  pub sections : SectionPreferences Value
  pub window_geometry : Option WindowGeometry
  pub extra : Map Value

pub record StateFile (Value : Type 0) : Type 0 where
  pub schema_version : ℕ
  pub snoozed : Map (SnoozeEntry Value)
  pub preferences : Preferences Value
  pub extra : Map Value

pub data StateError : Type 0 where
  unreadable unwritable unformatted : StateError
  bad_deadline : Text → StateError

abbrev pub with_entry :
    Text → Instant → Result StateError (Map Instant) → Result StateError (Map Instant)
with_entry key until (ok rest) = ok ((key, until) ∷ rest)
with_entry key until (err error) = err error

module _ {Value : Type 0} where
  abbrev pub default_sections : SectionPreferences Value
  default_sections = record {
    servers_expanded = true;
    active_incidents_expanded = true;
    snoozed_incidents_expanded = false;
    extra = [];
  }

  abbrev pub default_preferences : Preferences Value
  default_preferences = record {
    theme = Theme.dark;
    sections = default_sections;
    window_geometry = none;
    extra = [];
  }

  abbrev pub default_state : StateFile Value
  default_state = record {
    schema_version = 1;
    snoozed = [];
    preferences = default_preferences;
    extra = [];
  }

  -- the match on the entry of a key
  unfoldable pub put : Text → Text → Map (SnoozeEntry Value) → Map (SnoozeEntry Value)
  put key formatted entries =
      if contains_key key entries
      then modify key (λ entry. record entry { snoozed_until = formatted }) entries
      else insert key (record { snoozed_until = formatted; extra = [] }) entries

  -- RFC 3339, to and from an instant, is the crate `time`'s.
  module _ (format : Instant → Option Text) where
    -- the loop of `replace_snoozes`
    unfoldable pub put_all :
        Map Instant → Map (SnoozeEntry Value) → Result StateError (Map (SnoozeEntry Value))
    put_all [] entries = ok entries
    put_all ((key, until) ∷ snoozes) entries = elim (format until) [
      | none ↦ err unformatted
      | some formatted ↦ put_all snoozes (put key formatted entries)
    ]

    abbrev pub survivors : Map Instant → Map (SnoozeEntry Value) → Map (SnoozeEntry Value)
    survivors snoozes entries = retain (λ key entry. contains_key key snoozes) entries

    abbrev pub with_snoozes :
        StateFile Value → Map (SnoozeEntry Value) → Result StateError (StateFile Value)
    with_snoozes file entries = ok (record file { snoozed = entries })

    unfoldable pub replace_snoozes :
        StateFile Value → Map Instant → Result StateError (StateFile Value)
    replace_snoozes file snoozes =
        put_all snoozes (survivors snoozes file.snoozed) >>= with_snoozes file

  module _ (parse : Text → Option Instant) where
    -- An instant in UTC is the same instant.
    unfoldable pub decode_entries : Map (SnoozeEntry Value) → Result StateError (Map Instant)
    decode_entries [] = ok []
    decode_entries ((key, entry) ∷ entries) =
        let rest = decode_entries entries in
        elim (parse entry.snoozed_until) [
          | none ↦ err (bad_deadline key)
          | some until ↦ with_entry key until rest
        ]

    unfoldable pub decoded_snoozes : StateFile Value → Result StateError (Map Instant)
    decoded_snoozes file = decode_entries file.snoozed

  -- `Store::update`: the load, the change and the save of one transaction, and what is on the disk
  -- afterwards
  unfoldable pub update :
      Result StateError (StateFile Value)
      → (StateFile Value → Result StateError (StateFile Value))
      → (StateFile Value → Bool)
      → Result StateError (StateFile Value)
  update loaded change save = do
    state ← loaded
    changed ← change state
    if save changed then ok changed else err unwritable
