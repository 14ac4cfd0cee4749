-- ===== src/Domain/Reducer/WellFormed.antt =====
-- domain/reducer.rs: what holds of the state between two events.
use salmon.Base.{
  Bool, true, false, Option, none, some, List, [], ◌∷◌, ◌++◌, map, ◌≡◌, refl, arith, Text, Instant,
  All, refl, codes, text_eq, text_eq_iff, Option-cases, Bool-cases, inl, inr, if◌then◌else◌, All,
  All-keep, starts_with, starts_with-append, append_assoc,
}
use salmon.Base.Maps.{Map, get, contains_key, insert, remove, modify, retain, keys}
use salmon.Base.Maps.Entries.{Entries, insert-Entries, remove-Entries, modify-Entries, entry_of_get}
use salmon.Base.Maps.Sorted.{
  Above, IsSorted, insert-IsSorted, remove-IsSorted, modify-IsSorted, retain-IsSorted,
}
use salmon.Domain.Model.{
  new, new_status, collect_statuses, IncidentState, Incident, NotificationData, ServerStatus,
  AppState, new, collect_statuses,
}
use salmon.Domain.Event.{Event}
use salmon.Domain.Snapshot.{is_internal}
mod Parts
use Parts.{
  IsInternalEntry, IsQualified, connection_key-is_internal, tunnel_key-is_internal,
  remove-IsInternalMap, raise_internal-IsInternalMap, connection_failure-IsInternalMap,
  mark_stale-IsQualified, mark_server_stale-IsCache, set_status-IsStatusMap, qualify-IsQualified,
  forget_in-Above, forget_in-IsCache, IsInternalMap, IsCache, IsStatusMap,
}
use salmon.Domain.Reducer.Snoozing
use salmon.Domain.Reducer.{
  kept, prefixed, mark_stale, connection_key, tunnel_key, raise_internal, connection_failure,
  mark_server_stale, connected, disconnected, tunnel_ready, tunnel_failed, heartbeat, notification,
  snooze, unsnooze, same_snoozes, snoozes_persisted, forget_in, forget_stale, tick, reduce,
}

pub record IsValid (s : AppState) : Type 0 where
  pub servers_sorted : IsSorted s.servers
  pub incidents_sorted : IsSorted s.incidents
  pub internal_sorted : IsSorted s.internal_incidents
  pub snoozed_sorted : IsSorted s.snoozed
  pub servers_named : Entries (λ id status. status.id ≡ id) s.servers
  pub internal_made : Entries IsInternalEntry s.internal_incidents
  pub incidents_qualified : Entries IsQualified s.incidents

-- a `BTreeMap` that an event carries is ordered
abbrev pub EventIsSorted : Event → Type 0
EventIsSorted (Event.snoozes_persisted snoozes) = IsSorted snoozes
EventIsSorted _ = Unit

module _ (rfc3339 : Instant → Text) (s : AppState) (v : IsValid s) where
  statuses : IsStatusMap s.servers
  statuses = (v.servers_sorted, v.servers_named)

  caches : IsCache s.incidents
  caches = (v.incidents_sorted, v.incidents_qualified)

  internals : IsInternalMap s.internal_incidents
  internals = (v.internal_sorted, v.internal_made)

  named : (id : Text) (status : ServerStatus) → get id s.servers ≡ some status → status.id ≡ id
  named id status e = entry_of_get _ id status s.servers e v.servers_named

  -- the parts that a handler may have changed, put back together
  assemble :
      (servers : Map ServerStatus) (incidents : Map (List Incident)) (internal : Map Incident)
      → IsStatusMap servers
      → IsCache incidents
      → IsInternalMap internal
      → IsValid
          (record s { servers = servers; incidents = incidents; internal_incidents = internal })
  assemble servers incidents internal a b c = record {
    servers_sorted = a.0;
    incidents_sorted = b.0;
    internal_sorted = c.0;
    snoozed_sorted = v.snoozed_sorted;
    servers_named = a.1;
    internal_made = c.1;
    incidents_qualified = b.1;
  }

  connected-IsValid : (id : Text) (at : Instant) → IsValid (connected s id at).0
  unfolding connected
  connected-IsValid id at = elim (Option-cases (get id s.servers)) [
    | inl absent ↦ rw (absent, connected) v
    | inr (server, found) ↦
        rw (found, connected)
          (assemble _ _ _ (set_status-IsStatusMap id _ s.servers (named id server found) statuses)
            caches (remove-IsInternalMap (connection_key id) s.internal_incidents internals))
  ]

  disconnected-IsValid :
      (id : Text) (at : Instant) (error : Text) → IsValid (disconnected rfc3339 s id at error).0
  unfolding disconnected
  disconnected-IsValid id at error = elim (Option-cases (get id s.servers)) [
    | inl absent ↦ rw (absent, disconnected) v
    | inr (server, found) ↦
        rw (found, disconnected)
          (assemble _ _ _ (set_status-IsStatusMap id _ s.servers (named id server found) statuses)
            (mark_server_stale-IsCache s.incidents id caches)
            (connection_failure-IsInternalMap rfc3339 s.internal_incidents (connection_key id) _ at
              error (connection_key-is_internal id) internals))
  ]

  tunnel_failed-IsValid :
      (id : Text) (at : Instant) (error : Text) → IsValid (tunnel_failed rfc3339 s id at error).0
  unfolding tunnel_failed
  tunnel_failed-IsValid id at error = elim (Option-cases (get id s.servers)) [
    | inl absent ↦ rw (absent, tunnel_failed) v
    | inr (server, found) ↦
        rw (found, tunnel_failed)
          (assemble _ _ _ (set_status-IsStatusMap id _ s.servers (named id server found) statuses)
            (mark_server_stale-IsCache s.incidents id caches)
            (raise_internal-IsInternalMap rfc3339 _ (tunnel_key id) _ at error
              (tunnel_key-is_internal id)
              (remove-IsInternalMap (connection_key id) s.internal_incidents internals)))
  ]

  tunnel_ready-IsValid : (id : Text) (at : Instant) → IsValid (tunnel_ready s id at).0
  unfolding tunnel_ready
  tunnel_ready-IsValid id at = elim (Bool-cases (contains_key id s.servers)) [
    | inl known ↦
        rw (known, tunnel_ready)
          (assemble _ _ _ statuses caches
            (remove-IsInternalMap (tunnel_key id) s.internal_incidents internals))
    | inr absent ↦ rw (absent, tunnel_ready) v
  ]

  heartbeat-IsValid : (id : Text) (at : Instant) → IsValid (heartbeat s id at).0
  unfolding heartbeat
  heartbeat-IsValid id at = elim (Option-cases (get id s.servers)) [
    | inl absent ↦ rw (absent, heartbeat) v
    | inr (server, found) ↦
        rw (found, heartbeat)
          (assemble _ _ _ (set_status-IsStatusMap id _ s.servers (named id server found) statuses)
            caches internals)
  ]

  notification-IsValid :
      (id : Text) (received : NotificationData) (at : Instant)
      → IsValid (notification s id received at).0
  unfolding notification
  notification-IsValid id received at = elim (Bool-cases (contains_key id s.servers)) [
    | inl known ↦
        rw (known, notification)
          (assemble _ _ _ statuses
            (
              insert-IsSorted id _ s.incidents v.incidents_sorted,
              insert-Entries IsQualified id _ s.incidents (qualify-IsQualified id received.total)
                  v.incidents_qualified,
            )
            internals)
    | inr absent ↦ rw (absent, notification) v
  ]

  persisted-IsValid :
      (snoozes : Map Instant) → IsSorted snoozes → IsValid (snoozes_persisted s snoozes).0
  unfolding snoozes_persisted
  persisted-IsValid snoozes h = elim (Bool-cases (same_snoozes s.snoozed snoozes)) [
    | inl same ↦ rw (same, snoozes_persisted) v
    | inr other ↦
        rw (other, snoozes_persisted)
          (record {
            servers_sorted = v.servers_sorted;
            incidents_sorted = v.incidents_sorted;
            internal_sorted = v.internal_sorted;
            snoozed_sorted = h;
            servers_named = v.servers_named;
            internal_made = v.internal_made;
            incidents_qualified = v.incidents_qualified;
          })
  ]

  reduce-IsValid : (e : Event) → EventIsSorted e → IsValid (reduce rfc3339 s e).0
  unfolding reduce forget_stale
  reduce-IsValid (Event.connected id at) h = connected-IsValid id at
  reduce-IsValid (Event.disconnected id at error) h = disconnected-IsValid id at error
  reduce-IsValid (Event.tunnel_ready id at) h = tunnel_ready-IsValid id at
  reduce-IsValid (Event.tunnel_failed id at error) h = tunnel_failed-IsValid id at error
  reduce-IsValid (Event.heartbeat id at) h = heartbeat-IsValid id at
  reduce-IsValid (Event.notification id received at) h = notification-IsValid id received at
  reduce-IsValid (Event.snooze key until) h = rw (Snoozing.snooze_commit s key until).0 v
  reduce-IsValid (Event.unsnooze key) h = rw (Snoozing.unsnooze_commit s key).0 v
  reduce-IsValid (Event.snoozes_persisted snoozes) h = persisted-IsValid snoozes h
  reduce-IsValid (Event.forget_stale key) h =
      assemble _ _ _ statuses (forget_in-IsCache key s.incidents caches) internals
  reduce-IsValid (Event.tick at) h = rw (Snoozing.tick_commit s at v.snoozed_sorted).0 v

collect_statuses-IsStatusMap :
    (ids : List Text) (m : Map ServerStatus) → IsStatusMap m → IsStatusMap (collect_statuses ids m)
unfolding collect_statuses
collect_statuses-IsStatusMap [] m h = h
collect_statuses-IsStatusMap (id ∷ ids) m h =
    collect_statuses-IsStatusMap ids (insert id (new_status id) m)
      (insert-IsSorted id _ m h.0, insert-Entries _ id _ m refl h.1)

new-IsValid :
    (ids : List Text) (snoozes : Map Instant) → IsSorted snoozes → IsValid (new ids snoozes)
unfolding new
new-IsValid ids snoozes h =
    let statuses = collect_statuses-IsStatusMap ids [] (tt, tt) in
    record {
      servers_sorted = statuses.0;
      incidents_sorted = tt;
      internal_sorted = tt;
      snoozed_sorted = h;
      servers_named = statuses.1;
      internal_made = tt;
      incidents_qualified = tt;
    }

-- the states that `reduce` passes through, from the first event to the last
unfoldable pub reduce_all : (Instant → Text) → AppState → List Event → AppState
reduce_all rfc3339 s [] = s
reduce_all rfc3339 s (e ∷ events) = reduce_all rfc3339 (reduce rfc3339 s e).0 events

reduce_all-IsValid :
    (rfc3339 : Instant → Text) (s : AppState) (events : List Event)
    → IsValid s
    → All EventIsSorted events
    → IsValid (reduce_all rfc3339 s events)
unfolding reduce_all
reduce_all-IsValid rfc3339 s [] v h = v
reduce_all-IsValid rfc3339 s (e ∷ events) v h =
    reduce_all-IsValid rfc3339 (reduce rfc3339 s e).0 events (reduce-IsValid rfc3339 s v e h.0) h.1

-- Whatever events follow the start, the state is well formed, if the loaded snoozes and every
-- acknowledged snooze map are ordered: the maps are ordered, a status is stored under its own id,
-- every internal incident has an `internal.` key, its own, severity `error` and is not stale, and
-- every cached incident carries the name of the server that it is stored for.
pub reachable-IsValid :
    (rfc3339 : Instant → Text) (ids : List Text) (snoozes : Map Instant) (events : List Event)
    → IsSorted snoozes
    → All EventIsSorted events
    → IsValid (reduce_all rfc3339 (new ids snoozes) events)
reachable-IsValid rfc3339 ids snoozes events h hs =
    reduce_all-IsValid rfc3339 (new ids snoozes) events (new-IsValid ids snoozes h) hs
