-- ===== src/Domain/Reducer/Silence.antt =====
-- domain/reducer.rs: snoozed incidents raise no desktop notification.
use salmon.Base.{true, List, [], ◌∷◌, ◌++◌, ◌≡◌, refl, arith, Text, Instant, map, All}
use salmon.Domain.Model.{Incident, AppState}
use salmon.Domain.Event.{Event}
use salmon.Domain.Reducer.Outage.{notify_count}
use salmon.Domain.Reducer.{
  connection_key, tunnel_key, prefixed, is_snoozed, resolved, raise_internal, connection_failure,
  connected, disconnected, tunnel_ready, tunnel_failed, heartbeat, announce_added, announce_removed,
  notification, snooze, unsnooze, snoozes_persisted, forget_stale, tick, reduce,
}

-- the incident keys that an event may notify about, and its instant
abbrev pub keys_of : Event → List Text
keys_of (Event.connected id at) = connection_key id ∷ []
keys_of (Event.disconnected id at error) = connection_key id ∷ []
keys_of (Event.tunnel_ready id at) = tunnel_key id ∷ []
keys_of (Event.tunnel_failed id at error) = tunnel_key id ∷ []
keys_of (Event.notification id received at) =
    map (λ item. (prefixed item id).key) received.added
    ++ map (λ item. (prefixed item id).key) received.removed
keys_of _ = []

abbrev pub time_of : Event → Instant
time_of (Event.connected id at) = at
time_of (Event.disconnected id at error) = at
time_of (Event.tunnel_ready id at) = at
time_of (Event.tunnel_failed id at error) = at
time_of (Event.notification id received at) = at
time_of _ = 0

abbrev pub AllSnoozed : AppState → Instant → List Text → Type 0
AllSnoozed s at = All (λ key. is_snoozed s key at ≡ true)

announce_added_silent :
    (s : AppState) (id : Text) (at : Instant) (items : List Incident) (rest : List Text)
    → AllSnoozed s at (map (λ item. (prefixed item id).key) items ++ rest)
    → (announce_added s id at items ≡ []) × AllSnoozed s at rest
unfolding announce_added
announce_added_silent s id at [] rest h = (refl, h)
announce_added_silent s id at (item ∷ items) rest h =
    rw h.0 (announce_added_silent s id at items rest h.1)

announce_removed_silent :
    (s : AppState) (id : Text) (at : Instant) (items : List Incident)
    → AllSnoozed s at (map (λ item. (prefixed item id).key) items)
    → announce_removed s id at items ≡ []
unfolding announce_removed
announce_removed_silent s id at [] h = refl
announce_removed_silent s id at (item ∷ items) h =
    rw h.0 (announce_removed_silent s id at items h.1)

-- Snoozed incidents are silent: an event all of whose incident keys have a deadline after its
-- instant raises no desktop notification.
pub snoozed_silent :
    (rfc3339 : Instant → Text) (s : AppState) (e : Event)
    → AllSnoozed s (time_of e) (keys_of e)
    → notify_count (reduce rfc3339 s e).1.effects ≡ 0
unfolding reduce
snoozed_silent rfc3339 s (Event.connected id at) h = unfold connected resolved in ground arith
snoozed_silent rfc3339 s (Event.disconnected id at error) h =
    unfold disconnected connection_failure raise_internal in ground arith
snoozed_silent rfc3339 s (Event.tunnel_ready id at) h = unfold tunnel_ready resolved in ground arith
snoozed_silent rfc3339 s (Event.tunnel_failed id at error) h =
    unfold tunnel_failed raise_internal in ground arith
snoozed_silent rfc3339 s (Event.heartbeat id at) h = unfold heartbeat in ground arith
snoozed_silent rfc3339 s (Event.notification id received at) h =
    let (added, rest) = announce_added_silent s id at received.added _ h in
    let removed = announce_removed_silent s id at received.removed rest in
    unfold notification in ground arith
snoozed_silent rfc3339 s (Event.snooze key until) h = unfold snooze in ground arith
snoozed_silent rfc3339 s (Event.unsnooze key) h = unfold unsnooze in ground arith
snoozed_silent rfc3339 s (Event.snoozes_persisted m) h = unfold snoozes_persisted in ground arith
snoozed_silent rfc3339 s (Event.forget_stale key) h = unfold forget_stale in ground arith
snoozed_silent rfc3339 s (Event.tick at) h = unfold tick in ground arith
