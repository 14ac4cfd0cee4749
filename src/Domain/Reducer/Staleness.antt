-- ===== src/Domain/Reducer/Staleness.antt =====
-- domain/reducer.rs: what the reducer keeps of a server whose events come in order.
mod Handlers
pub use Handlers.{Agrees}
use Handlers.{
  connected-Agrees, disconnected-Agrees, tunnel_failed-Agrees, tunnel_ready-Agrees,
  heartbeat-Agrees, notification-Agrees, forget_stale-Agrees, snooze-Agrees, unsnooze-Agrees,
  persisted-Agrees, tick-Agrees,
}
use mathlib.Core.Option
use salmon.Base.{
  Bool, true, false, Option, none, some, List, [], ◌∷◌, ◌≡◌, ◌∙◌, ◌⊎◌, refl, arith, Text, Instant,
  text_eq, text_eq_refl, text_eq_iff, Option-cases, Bool-cases, inl, inr, All-keep, keep, leb,
  is_empty,
}
use salmon.Base.Maps.{Map, get, contains_key, insert, keys, retain, get-insert, get-modify}
use salmon.Domain.Model.{
  Incident, NotificationData, ServerStatus, AppState, new, new_status, collect_statuses,
}
use salmon.Domain.Event.{Event}
use salmon.Domain.Lifecycle.{advance, track, is_about, server_of}
use salmon.Domain.Reducer.Isolation.{other_servers_same}
use salmon.Domain.Reducer.RootCause.{IsStale, mark_server_stale-IsStale}
use salmon.Domain.Reducer.WellFormed.{reduce_all}
use salmon.Domain.Reducer.{
  kept, forget_in, forget_stale, same_instant, same_snoozes, snooze, unsnooze, snoozes_persisted,
  tick, online, offline, connected, disconnected, tunnel_ready, tunnel_failed, heartbeat,
  notification, reduce,
}

module _ (rfc3339 : Instant → Text) (s : AppState) (id : Text) (server : ServerStatus)
    (found : get id s.servers ≡ some server) (up : Bool) (same : server.connected ≡ up)
    (stale : up ≡ false → IsStale (get id s.incidents)) where
  -- an event of the server that is in order
  own-Agrees :
      (event : Event) (later : Bool)
      → is_about id event ≡ true
      → advance id true up event ≡ some later
      → Agrees id later (reduce rfc3339 s event).0
  unfolding reduce
  own-Agrees (Event.connected i at) later h k =
      let e : later ≡ true = ground arith in
      rw ((text_eq_iff i id).0 h, e) (connected-Agrees rfc3339 s id server found at)
  own-Agrees (Event.disconnected i at error) later h k =
      let e : later ≡ false = ground arith in
      rw ((text_eq_iff i id).0 h, e) (disconnected-Agrees rfc3339 s id server found at error)
  own-Agrees (Event.tunnel_ready i at) later h k =
      let e : later ≡ up = ground arith in
      rw ((text_eq_iff i id).0 h, e)
        (tunnel_ready-Agrees rfc3339 s id server found up same stale at)
  own-Agrees (Event.tunnel_failed i at error) later h k =
      let e : later ≡ false = ground arith in
      rw ((text_eq_iff i id).0 h, e) (tunnel_failed-Agrees rfc3339 s id server found at error)
  own-Agrees (Event.heartbeat i at) later h k =
      let e : later ≡ up = ground arith in
      rw ((text_eq_iff i id).0 h, e) (heartbeat-Agrees rfc3339 s id server found up same stale at)
  own-Agrees (Event.notification i received at) later h k =
      let e : later ≡ up = ground arith in
      rw ((text_eq_iff i id).0 h, e)
        (notification-Agrees rfc3339 s id server found up same stale received at (ground arith))
  own-Agrees (Event.snooze key until) later h k = cc
  own-Agrees (Event.unsnooze key) later h k = cc
  own-Agrees (Event.snoozes_persisted snoozes) later h k = cc
  own-Agrees (Event.forget_stale key) later h k = cc
  own-Agrees (Event.tick at) later h k = cc

  other-Agrees :
      (event : Event) (j : Text)
      → server_of event ≡ some j
      → text_eq j id ≡ false
      → Agrees id up (reduce rfc3339 s event).0
  other-Agrees event j about differs =
      let kept_parts = other_servers_same rfc3339 s event j id about differs in
      ((server, kept_parts.0 ∙ found, same), λ h. rw (kept_parts.1) (stale h))

  -- an event of the user, of the store or of the clock
  local-Agrees : (event : Event) → server_of event ≡ none → Agrees id up (reduce rfc3339 s event).0
  unfolding reduce
  local-Agrees (Event.snooze key until) h =
      snooze-Agrees rfc3339 s id server found up same stale key until
  local-Agrees (Event.unsnooze key) h = unsnooze-Agrees rfc3339 s id server found up same stale key
  local-Agrees (Event.snoozes_persisted snoozes) h =
      persisted-Agrees rfc3339 s id server found up same stale snoozes
  local-Agrees (Event.forget_stale key) h =
      forget_stale-Agrees rfc3339 s id server found up same stale key
  local-Agrees (Event.tick at) h = tick-Agrees rfc3339 s id server found up same stale at
  local-Agrees (Event.connected i at) h = cc
  local-Agrees (Event.disconnected i at error) h = cc
  local-Agrees (Event.tunnel_ready i at) h = cc
  local-Agrees (Event.tunnel_failed i at error) h = cc
  local-Agrees (Event.heartbeat i at) h = cc
  local-Agrees (Event.notification i received at) h = cc

  foreign-Agrees :
      (event : Event) → is_about id event ≡ false → Agrees id up (reduce rfc3339 s event).0
  foreign-Agrees event h = elim (Option-cases (server_of event)) [
    | inl e ↦ local-Agrees event e
    | inr (j, e) ↦ other-Agrees event j e (ground arith)
  ]

-- the events of one server among all
abbrev pub own : Text → List Event → List Event
own id events = keep (is_about id) events

reduce_all-Agrees :
    (rfc3339 : Instant → Text) (events : List Event) (s : AppState) (id : Text) (up later : Bool)
    → Agrees id up s
    → track id true up (own id events) ≡ some later
    → Agrees id later (reduce_all rfc3339 s events)
unfolding reduce_all
reduce_all-Agrees rfc3339 [] s id up later h k = (let e : later ≡ up = ground arith in rw e h)
reduce_all-Agrees rfc3339 (event ∷ events) s id up later ((server, found, same), stale) k =
    elim (Bool-cases (is_about id event)) [
      | inr other ↦
          reduce_all-Agrees rfc3339 events (reduce rfc3339 s event).0 id up later
            (foreign-Agrees rfc3339 s id server found up same stale event other) (ground arith)
      | inl mine ↦ elim (Option-cases (advance id true up event)) [
        | inl refused ↦ absurd (ground arith)
        | inr (next, e) ↦
            reduce_all-Agrees rfc3339 events (reduce rfc3339 s event).0 id next later
              (own-Agrees rfc3339 s id server found up same stale event next mine e) (ground arith)
      ]
    ]

collect-some :
    (ids : List Text) (m : Map ServerStatus) (id : Text) (server : ServerStatus)
    → get id (collect_statuses ids m) ≡ some server
    → (get id m ≡ some server) ⊎ (server.connected ≡ false)
unfolding collect_statuses new_status
collect-some [] m id server h = inl h
collect-some (j ∷ ids) m id server h =
    elim (collect-some ids (insert j (new_status j) m) id server h) [
      | inr off ↦ inr off
      | inl found ↦ elim (Bool-cases (text_eq j id)) [
        | inl e ↦ inr (ground (arith, get-insert j id (new_status j) m))
        | inr e ↦ inl (ground (arith, get-insert j id (new_status j) m))
      ]
    ]

starts_offline :
    (ids : List Text) (id : Text) (server : ServerStatus)
    → get id (collect_statuses ids []) ≡ some server
    → server.connected ≡ false
unfolding get
starts_offline ids id server h = elim (collect-some ids [] id server h) [
  | inl e ↦ cc
  | inr off ↦ off
]

-- From the start on, whatever other events come between them: when the events of a configured
-- server are in order, the state shows it as online exactly when they say so, and while they say
-- that it is offline, every incident that is cached for it is marked stale.
pub offline_is_stale :
    (rfc3339 : Instant → Text) (ids : List Text) (snoozes : Map Instant) (events : List Event)
    (id : Text) (server : ServerStatus) (up : Bool)
    → get id (new ids snoozes).servers ≡ some server
    → track id true false (own id events) ≡ some up
    → Agrees id up (reduce_all rfc3339 (new ids snoozes) events)
unfolding new get
offline_is_stale rfc3339 ids snoozes events id server up known ordered =
    reduce_all-Agrees rfc3339 events (new ids snoozes) id false up
      ((server, known, starts_offline ids id server known), λ h. tt) ordered
