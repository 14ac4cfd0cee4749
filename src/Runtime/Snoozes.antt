-- ===== src/Runtime/Snoozes.antt =====
-- runtime.rs: what follows the attempt to store a new snooze map.
use salmon.Base.{
  ℕ, ◌/◌, Bool, true, false, ◌||◌, not, Option, none, some, List, [], ◌∷◌, ◌++◌, map, filter_map,
  Text, Instant, codes, text_eq, leb, find,
}
use salmon.Base.Decimal.{decimal}
use salmon.Domain.Model.{Incident, AppState}
use salmon.Domain.Event.{SnoozeAction}
use salmon.Domain.Snapshot.{snapshot}
use salmon.Runtime.Log.{EventLogLine, info_line}

-- `unix_timestamp`: whole seconds
abbrev pub unix_timestamp : Instant → ℕ
unix_timestamp at = at / 1000000000

unfoldable pub snooze_success_lines : SnoozeAction → List EventLogLine
snooze_success_lines (SnoozeAction.set key until) =
    info_line
      (codes "snoozed incident " ++ (key ++ (codes " until " ++ decimal (unix_timestamp until))))
    ∷ []
snooze_success_lines (SnoozeAction.remove key) = info_line (codes "unsnoozed incident " ++ key) ∷ []
snooze_success_lines (SnoozeAction.expire keys) =
    map (λ key. info_line (codes "snooze expired for incident " ++ key)) keys

abbrev pub failure_body : Text → Text
failure_body details = codes "The snooze state was not changed." ++ (10 ∷ 10 ∷ details)

unfoldable pub snooze_failure_notification : SnoozeAction → Text → Option (Text × Text)
snooze_failure_notification (SnoozeAction.set key until) details =
    some (codes "Failed to snooze incident " ++ key, failure_body details)
snooze_failure_notification (SnoozeAction.remove key) details =
    some (codes "Failed to unsnooze incident " ++ key, failure_body details)
snooze_failure_notification (SnoozeAction.expire keys) details = none

abbrev pub reminder : Incident → Text × Text
reminder incident = (codes "Snooze ended: " ++ incident.key, incident.details)

abbrev pub remind : List Incident → Text → Option (Text × Text)
remind active key = elim (find (λ incident. text_eq incident.key key) active) [
  | none ↦ none
  | some incident ↦ some (reminder incident)
]

unfoldable pub snooze_expiry_notifications : SnoozeAction → AppState → Instant → List (Text × Text)
snooze_expiry_notifications (SnoozeAction.expire keys) s now =
    filter_map (remind (snapshot s now).active) keys
snooze_expiry_notifications action s now = []

abbrev pub is_expiry : SnoozeAction → Bool
is_expiry (SnoozeAction.expire keys) = true
is_expiry action = false

-- Instants here are those of the monotonic clock, in nanoseconds.
unfoldable pub snooze_persistence_is_due : SnoozeAction → Option ℕ → ℕ → Bool
snooze_persistence_is_due action not_before now =
    not (is_expiry action) || (elim not_before [ none ↦ true | some deadline ↦ leb deadline now ])
