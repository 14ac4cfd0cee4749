-- ===== src/Domain/Reducer/Staleness/Handlers.antt =====
-- domain/reducer.rs: what each handler keeps of a server that it knows.
use mathlib.Core.Option
use salmon.Base.{
  Bool, true, false, Option, none, some, List, [], ◌∷◌, ◌≡◌, refl, arith, Text, Instant,
  text_eq_refl, Bool-cases, inl, inr, All-keep, keep, leb, is_empty,
}
use salmon.Base.Maps.{Map, get, contains_key, keys, retain, get-modify}
use salmon.Domain.Model.{Incident, NotificationData, ServerStatus, AppState}
use salmon.Domain.Reducer.RootCause.{IsStale, mark_server_stale-IsStale}
use salmon.Domain.Reducer.{
  kept, forget_in, forget_stale, same_instant, same_snoozes, snooze, unsnooze, snoozes_persisted,
  tick, online, offline, connected, disconnected, tunnel_ready, tunnel_failed, heartbeat,
  notification,
}

-- The state agrees with what the events say of a server, and an offline server has no incident
-- that looks current.
abbrev pub Agrees : Text → Bool → AppState → Type 0
Agrees id up s =
    ((server : ServerStatus) × (get id s.servers ≡ some server) × (server.connected ≡ up))
    × (up ≡ false → IsStale (get id s.incidents))

get-forget_in :
    (key id : Text) (m : Map (List Incident))
    → get id (forget_in key m).0 ≡ Option.map (keep (kept key)) (get id m)
unfolding forget_in get
get-forget_in key id [] = refl
get-forget_in key id ((j, items) ∷ m) = ground (arith, get-forget_in key id m)

IsStale-keep :
    (p : Incident → Bool) (o : Option (List Incident)) → IsStale o → IsStale (Option.map (keep p) o)
IsStale-keep p none h = tt
IsStale-keep p (some items) h = All-keep _ p items h

module _ (rfc3339 : Instant → Text) (s : AppState) (id : Text) (server : ServerStatus)
    (found : get id s.servers ≡ some server) where
  pub connected-Agrees : (at : Instant) → Agrees id true (connected s id at).0
  unfolding connected
  connected-Agrees at =
      rw (found, connected)
        ((online server at, rw get-modify (rw (text_eq_refl id, found) refl), refl), λ h. cc)

  pub disconnected-Agrees :
      (at : Instant) (error : Text) → Agrees id false (disconnected rfc3339 s id at error).0
  unfolding disconnected
  disconnected-Agrees at error =
      rw (found, disconnected)
        (
          (offline server at, rw get-modify (rw (text_eq_refl id, found) refl), refl),
          λ h. mark_server_stale-IsStale s.incidents id,
        )

  pub tunnel_failed-Agrees :
      (at : Instant) (error : Text) → Agrees id false (tunnel_failed rfc3339 s id at error).0
  unfolding tunnel_failed
  tunnel_failed-Agrees at error =
      rw (found, tunnel_failed)
        (
          (offline server at, rw get-modify (rw (text_eq_refl id, found) refl), refl),
          λ h. mark_server_stale-IsStale s.incidents id,
        )

  module _ (up : Bool) (same : server.connected ≡ up)
      (stale : up ≡ false → IsStale (get id s.incidents)) where
    pub tunnel_ready-Agrees : (at : Instant) → Agrees id up (tunnel_ready s id at).0
    unfolding tunnel_ready
    tunnel_ready-Agrees at = elim (Bool-cases (contains_key id s.servers)) [
      | inl known ↦ rw (known, tunnel_ready) ((server, found, same), stale)
      | inr absent ↦ rw (absent, tunnel_ready) ((server, found, same), stale)
    ]

    pub heartbeat-Agrees : (at : Instant) → Agrees id up (heartbeat s id at).0
    unfolding heartbeat
    heartbeat-Agrees at =
        rw (found, heartbeat)
          (
            (
              record server { last_heartbeat_at = some at },
              rw get-modify (rw (text_eq_refl id, found) refl),
              same,
            ),
            stale,
          )

    pub notification-Agrees :
        (received : NotificationData) (at : Instant)
        → up ≡ true
        → Agrees id up (notification s id received at).0
    unfolding notification
    notification-Agrees received at h = elim (Bool-cases (contains_key id s.servers)) [
      | inl known ↦ rw (known, notification) ((server, found, same), λ k. absurd (ground arith))
      | inr absent ↦ rw (absent, notification) ((server, found, same), stale)
    ]

    pub forget_stale-Agrees : (key : Text) → Agrees id up (forget_stale s key).0
    unfolding forget_stale
    forget_stale-Agrees key = (
      (server, found, same),
      λ h. rw (get-forget_in key id s.incidents) (IsStale-keep (kept key) _ (stale h)),
    )

    pub snooze-Agrees : (key : Text) (until : Instant) → Agrees id up (snooze s key until).0
    unfolding snooze
    snooze-Agrees key until = elim (Bool-cases (same_instant (get key s.snoozed) until)) [
      | inl e ↦ rw (e, snooze) ((server, found, same), stale)
      | inr e ↦ rw (e, snooze) ((server, found, same), stale)
    ]

    pub unsnooze-Agrees : (key : Text) → Agrees id up (unsnooze s key).0
    unfolding unsnooze
    unsnooze-Agrees key = elim (Bool-cases (contains_key key s.snoozed)) [
      | inl e ↦ rw (e, unsnooze) ((server, found, same), stale)
      | inr e ↦ rw (e, unsnooze) ((server, found, same), stale)
    ]

    pub persisted-Agrees : (snoozes : Map Instant) → Agrees id up (snoozes_persisted s snoozes).0
    unfolding snoozes_persisted
    persisted-Agrees snoozes = elim (Bool-cases (same_snoozes s.snoozed snoozes)) [
      | inl e ↦ rw (e, snoozes_persisted) ((server, found, same), stale)
      | inr e ↦ rw (e, snoozes_persisted) ((server, found, same), stale)
    ]

    pub tick-Agrees : (at : Instant) → Agrees id up (tick s at).0
    unfolding tick
    tick-Agrees at =
        elim (Bool-cases (is_empty (keys (retain (λ _ until. leb until at) s.snoozed)))) [
          | inl e ↦ rw (e, tick) ((server, found, same), stale)
          | inr e ↦ rw (e, tick) ((server, found, same), stale)
        ]
