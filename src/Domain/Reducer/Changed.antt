-- ===== src/Domain/Reducer/Changed.antt =====
-- domain/reducer.rs: what `changed: false` promises to the publisher of snapshots.
use salmon.Base.{
  Bool, true, false, List, [], ◌∷◌, ◌≡◌, refl, arith, Text, Instant, text_eq_iff, keep_of_length,
  Option-cases, inl, inr,
}
use salmon.Base.Maps.{Map, get, remove}
use salmon.Base.Maps.Laws.{modify_same, remove_absent}
use salmon.Domain.Model.{Incident, AppState}
use salmon.Domain.Event.{Event}
use salmon.Domain.Reducer.{
  mark_stale, mark_server_stale, raise_internal, connection_failure, connected, disconnected,
  tunnel_ready, tunnel_failed, heartbeat, notification, snooze, unsnooze, same_snoozes,
  snoozes_persisted, kept, forget_in, forget_stale, tick, reduce, is_snoozed, connection_key,
  tunnel_key,
}

pub same_snoozes_sound : (m n : Map Instant) → same_snoozes m n ≡ true → m ≡ n
unfolding same_snoozes
same_snoozes_sound [] [] h = refl
same_snoozes_sound [] (e ∷ n) h = cc
same_snoozes_sound (e ∷ m) [] h = cc
same_snoozes_sound ((j, t) ∷ m) ((k, u) ∷ n) h =
    ground (arith, text_eq_iff j k, same_snoozes_sound m n)

mark_stale_same :
    (items : List Incident) → (mark_stale items).1 ≡ false → (mark_stale items).0 ≡ items
unfolding mark_stale
mark_stale_same [] h = refl
mark_stale_same (item ∷ items) h = ground (arith, mark_stale_same items)

mark_server_stale_same :
    (m : Map (List Incident)) (id : Text)
    → (mark_server_stale m id).1 ≡ false
    → (mark_server_stale m id).0 ≡ m
unfolding mark_server_stale
mark_server_stale_same m id h = elim (Option-cases (get id m)) [
  | inl e ↦ ground arith
  | inr (items, e) ↦ ground (arith, mark_stale_same items, modify_same id items m)
]

forget_in_same :
    (key : Text) (m : Map (List Incident)) → (forget_in key m).1 ≡ false → (forget_in key m).0 ≡ m
unfolding forget_in
forget_in_same key [] h = refl
forget_in_same key ((id, items) ∷ m) h =
    ground (arith, forget_in_same key m, keep_of_length (kept key) items)

raise_internal_same :
    (rfc3339 : Instant → Text) (m : Map Incident) (key : Text) (snoozed : Bool) (at : Instant)
    (error : Text)
    → (raise_internal rfc3339 m key snoozed at error).2 ≡ false
    → (raise_internal rfc3339 m key snoozed at error).0 ≡ m
unfolding raise_internal
raise_internal_same rfc3339 m key snoozed at error h = ground arith

connection_failure_same :
    (rfc3339 : Instant → Text) (m : Map Incident) (key : Text) (snoozed : Bool) (at : Instant)
    (error : Text)
    → (connection_failure rfc3339 m key snoozed at error).2 ≡ false
    → (connection_failure rfc3339 m key snoozed at error).0 ≡ m
unfolding connection_failure
connection_failure_same rfc3339 m key snoozed at error h =
    ground (arith, raise_internal_same rfc3339 m key snoozed at error, remove_absent key m)

connected_same :
    (s : AppState) (id : Text) (at : Instant)
    → (connected s id at).1.changed ≡ false
    → (connected s id at).0 ≡ s
unfolding connected
connected_same s id at h = elim (Option-cases (get id s.servers)) [
  | inl e ↦ ground arith
  | inr (server, e) ↦ ground (
    arith,
    modify_same id server s.servers,
    remove_absent (connection_key id) s.internal_incidents,
  )
]

disconnected_same :
    (rfc3339 : Instant → Text) (s : AppState) (id : Text) (at : Instant) (error : Text)
    → (disconnected rfc3339 s id at error).1.changed ≡ false
    → (disconnected rfc3339 s id at error).0 ≡ s
unfolding disconnected
disconnected_same rfc3339 s id at error h = elim (Option-cases (get id s.servers)) [
  | inl e ↦ ground arith
  | inr (server, e) ↦ ground (
    arith,
    modify_same id server s.servers,
    mark_server_stale_same s.incidents id,
    connection_failure_same rfc3339 s.internal_incidents (connection_key id)
        (is_snoozed s (connection_key id) at) at error,
  )
]

tunnel_failed_same :
    (rfc3339 : Instant → Text) (s : AppState) (id : Text) (at : Instant) (error : Text)
    → (tunnel_failed rfc3339 s id at error).1.changed ≡ false
    → (tunnel_failed rfc3339 s id at error).0 ≡ s
unfolding tunnel_failed
tunnel_failed_same rfc3339 s id at error h = elim (Option-cases (get id s.servers)) [
  | inl e ↦ ground arith
  | inr (server, e) ↦ ground (
    arith,
    modify_same id server s.servers,
    mark_server_stale_same s.incidents id,
    remove_absent (connection_key id) s.internal_incidents,
    raise_internal_same rfc3339 (remove (connection_key id) s.internal_incidents) (tunnel_key id)
        (is_snoozed s (tunnel_key id) at) at error,
  )
]

heartbeat_same :
    (s : AppState) (id : Text) (at : Instant)
    → (heartbeat s id at).1.changed ≡ false
    → (heartbeat s id at).0 ≡ s
unfolding heartbeat
heartbeat_same s id at h = elim (Option-cases (get id s.servers)) [
  | inl e ↦ ground arith
  | inr (server, e) ↦ ground (arith, modify_same id server s.servers)
]

-- When the transition of an event says `changed: false`, the event left the whole state as it
-- was, so a view that is not published again is not out of date.
pub unchanged_same :
    (rfc3339 : Instant → Text) (s : AppState) (e : Event)
    → (reduce rfc3339 s e).1.changed ≡ false
    → (reduce rfc3339 s e).0 ≡ s
unfolding reduce
unchanged_same rfc3339 s (Event.connected id at) h = connected_same s id at h
unchanged_same rfc3339 s (Event.disconnected id at error) h =
    disconnected_same rfc3339 s id at error h
unchanged_same rfc3339 s (Event.tunnel_ready id at) h =
    unfold tunnel_ready in ground (arith, remove_absent (tunnel_key id) s.internal_incidents)
unchanged_same rfc3339 s (Event.tunnel_failed id at error) h =
    tunnel_failed_same rfc3339 s id at error h
unchanged_same rfc3339 s (Event.heartbeat id at) h = heartbeat_same s id at h
unchanged_same rfc3339 s (Event.notification id received at) h = unfold notification in ground arith
unchanged_same rfc3339 s (Event.snooze key until) h = unfold snooze in ground arith
unchanged_same rfc3339 s (Event.unsnooze key) h = unfold unsnooze in ground arith
unchanged_same rfc3339 s (Event.snoozes_persisted snoozes) h =
    unfold snoozes_persisted in ground arith
unchanged_same rfc3339 s (Event.forget_stale key) h =
    unfold forget_stale in ground (arith, forget_in_same key s.incidents)
unchanged_same rfc3339 s (Event.tick at) h = unfold tick in ground arith
