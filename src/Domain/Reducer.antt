-- ===== src/Domain/Reducer.antt =====
-- domain/reducer.rs: the serial state machine. A handler returns the state that it leaves and the
-- transition. `time`'s RFC 3339 formatter is a parameter.
pub mod Changed
pub mod Snoozing
pub mod Outage
pub mod RootCause
pub mod Silence
pub mod WellFormed
pub mod Isolation
pub mod Staleness
mod Internal
unfoldable pub use Internal.{
  connection_key, tunnel_key, ok_title, error_title, state_name, added_title, prefixed, is_snoozed,
  resolved, mark_stale, mark_server_stale, raise_internal, connection_failure,
}
pub use Internal.{changed_at}
use salmon.Base.{
  Bool, true, false, not, ◌&&◌, ◌||◌, Option, none, some, List, [], ◌∷◌, ◌++◌, map, Text, Instant,
  codes, text_eq, ltb, leb, if◌then◌else◌, is_some, or_else, is_empty, keep, length, ◌==◌,
}
use salmon.Base.Maps.{Map, get, contains_key, insert, remove, modify, retain, keys}
use salmon.Domain.Model.{IncidentState, Incident, NotificationData, ServerStatus, AppState}
use salmon.Domain.Event.{Event, SnoozeAction, Effect, notify, persist_snoozes, Transition, nothing}
use salmon.Domain.Snapshot.{deadline}

online : ServerStatus → Instant → ServerStatus
online server at =
    let changed = not server.initialized || not server.connected in
    record server {
      initialized = true;
      connected = true;
      connection_changed_at = changed_at changed at server.connection_changed_at;
      last_heartbeat_at = if changed then none else server.last_heartbeat_at;
    }

unfoldable pub connected : AppState → Text → Instant → AppState × Transition
unfolding online resolved
connected s id at = elim (get id s.servers) [
  | none ↦ (s, nothing)
  | some server ↦
      let key = connection_key id in
      let changed = not server.initialized || not server.connected in
      let removed = contains_key key s.internal_incidents in
      (
        record s {
          servers = modify id (λ _. online server at) s.servers;
          internal_incidents = remove key s.internal_incidents;
        },
        record {
          changed = changed || removed;
          effects = resolved removed (is_snoozed s key at) key;
        },
      )
]

offline : ServerStatus → Instant → ServerStatus
offline server at =
    let changed = not server.initialized || server.connected in
    record server {
      initialized = true;
      connected = false;
      connection_changed_at = changed_at changed at server.connection_changed_at;
    }

module _ (rfc3339 : Instant → Text) where
  unfoldable pub disconnected : AppState → Text → Instant → Text → AppState × Transition
  unfolding offline
  disconnected s id at error = elim (get id s.servers) [
    | none ↦ (s, nothing)
    | some server ↦
        let key = connection_key id in
        let status_changed = not server.initialized || server.connected in
        let (incidents, stale_changed) = mark_server_stale s.incidents id in
        let (internal, effects, internal_changed) =
          connection_failure rfc3339 s.internal_incidents key (is_snoozed s key at) at error in
        (
          record s {
            servers = modify id (λ _. offline server at) s.servers;
            incidents = incidents;
            internal_incidents = internal;
          },
          record {
            changed = status_changed || stale_changed || internal_changed;
            effects = effects;
          },
        )
  ]

  unfoldable pub tunnel_failed : AppState → Text → Instant → Text → AppState × Transition
  unfolding offline
  tunnel_failed s id at error = elim (get id s.servers) [
    | none ↦ (s, nothing)
    | some server ↦
        let key = tunnel_key id in
        let status_changed = not server.initialized || server.connected in
        let (incidents, stale_changed) = mark_server_stale s.incidents id in
        let connection_removed = contains_key (connection_key id) s.internal_incidents in
        let (internal, effects, internal_changed) =
          raise_internal rfc3339 (remove (connection_key id) s.internal_incidents) key
            (is_snoozed s key at) at error in
        (
          record s {
            servers = modify id (λ _. offline server at) s.servers;
            incidents = incidents;
            internal_incidents = internal;
          },
          record {
            changed = status_changed || stale_changed || connection_removed || internal_changed;
            effects = effects;
          },
        )
  ]

unfoldable pub tunnel_ready : AppState → Text → Instant → AppState × Transition
unfolding resolved
tunnel_ready s id at =
    if not (contains_key id s.servers)
    then (s, nothing)
    else (let key = tunnel_key id in
        let removed = contains_key key s.internal_incidents in
        (
          record s { internal_incidents = remove key s.internal_incidents },
          record { changed = removed; effects = resolved removed (is_snoozed s key at) key },
        ))

abbrev pub same_instant : Option Instant → Instant → Bool
same_instant none at = false
same_instant (some t) at = t == at

unfoldable pub heartbeat : AppState → Text → Instant → AppState × Transition
heartbeat s id at = elim (get id s.servers) [
  | none ↦ (s, nothing)
  | some server ↦ (
    record s { servers = modify id (λ _. record server { last_heartbeat_at = some at }) s.servers },
    record { changed = not (same_instant server.last_heartbeat_at at); effects = [] },
  )
]

-- the two loops that announce added and removed incidents
unfoldable pub announce_added : AppState → Text → Instant → List Incident → List Effect
announce_added s id at [] = []
announce_added s id at (raw ∷ items) =
    let item = prefixed raw id in
    let rest = announce_added s id at items in
    if is_snoozed s item.key at
    then rest
    else notify (added_title item.state item.key) item.details ∷ rest

unfoldable pub announce_removed : AppState → Text → Instant → List Incident → List Effect
announce_removed s id at [] = []
announce_removed s id at (raw ∷ items) =
    let item = prefixed raw id in
    let rest = announce_removed s id at items in
    if is_snoozed s item.key at then rest else notify (ok_title item.key) [] ∷ rest

unfoldable pub notification : AppState → Text → NotificationData → Instant → AppState × Transition
notification s id received at = if not (contains_key id s.servers) then (s, nothing) else (
  record s { incidents = insert id (map (λ item. prefixed item id) received.total) s.incidents },
  record {
    changed = true;
    effects = announce_added s id at received.added ++ announce_removed s id at received.removed;
  },
)

unfoldable pub snooze : AppState → Text → Instant → AppState × Transition
snooze s key until = if same_instant (get key s.snoozed) until then (s, nothing) else (
  s,
  record {
    changed = false;
    effects = persist_snoozes (insert key until s.snoozed) (SnoozeAction.set key until) ∷ [];
  },
)

unfoldable pub unsnooze : AppState → Text → AppState × Transition
unsnooze s key = if not (contains_key key s.snoozed) then (s, nothing) else (
  s,
  record {
    changed = false;
    effects = persist_snoozes (remove key s.snoozed) (SnoozeAction.remove key) ∷ [];
  },
)

-- `PartialEq` of two maps: the same entries in the same order
unfoldable pub same_snoozes : Map Instant → Map Instant → Bool
same_snoozes [] [] = true
same_snoozes [] (e ∷ m) = false
same_snoozes (e ∷ m) [] = false
same_snoozes ((j, t) ∷ m) ((k, u) ∷ n) = text_eq j k && (t == u && same_snoozes m n)

unfoldable pub snoozes_persisted : AppState → Map Instant → AppState × Transition
snoozes_persisted s snoozes =
    let changed = not (same_snoozes s.snoozed snoozes) in
    (
      if changed then record s { snoozed = snoozes } else s,
      record { changed = changed; effects = [] },
    )

abbrev pub kept : Text → Incident → Bool
kept key item = not (text_eq item.key key) || not item.stale

-- the loop over `values_mut`, and whether it dropped an incident
unfoldable pub forget_in : Text → Map (List Incident) → Map (List Incident) × Bool
forget_in key [] = ([], false)
forget_in key ((id, items) ∷ m) =
    let (rest, changed) = forget_in key m in
    (
      (id, keep (kept key) items) ∷ rest,
      changed || not (length (keep (kept key) items) == length items),
    )

unfoldable pub forget_stale : AppState → Text → AppState × Transition
forget_stale s key =
    let (incidents, changed) = forget_in key s.incidents in
    (record s { incidents = incidents }, record { changed = changed; effects = [] })

unfoldable pub tick : AppState → Instant → AppState × Transition
tick s at =
    let expired = keys (retain (λ _ until. leb until at) s.snoozed) in
    if is_empty expired then (s, nothing) else (
      s,
      record {
        changed = false;
        effects =
            persist_snoozes (retain (λ _ until. ltb at until) s.snoozed)
              (SnoozeAction.expire expired)
            ∷ [];
      },
    )

-- `Reducer::reduce`
unfoldable pub reduce : (Instant → Text) → AppState → Event → AppState × Transition
reduce rfc3339 s (Event.connected id at) = connected s id at
reduce rfc3339 s (Event.disconnected id at error) = disconnected rfc3339 s id at error
reduce rfc3339 s (Event.tunnel_ready id at) = tunnel_ready s id at
reduce rfc3339 s (Event.tunnel_failed id at error) = tunnel_failed rfc3339 s id at error
reduce rfc3339 s (Event.heartbeat id at) = heartbeat s id at
reduce rfc3339 s (Event.notification id received at) = notification s id received at
reduce rfc3339 s (Event.snooze key until) = snooze s key until
reduce rfc3339 s (Event.unsnooze key) = unsnooze s key
reduce rfc3339 s (Event.snoozes_persisted snoozes) = snoozes_persisted s snoozes
reduce rfc3339 s (Event.forget_stale key) = forget_stale s key
reduce rfc3339 s (Event.tick at) = tick s at
