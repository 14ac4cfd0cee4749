-- ===== src/Domain/Reducer/Isolation.antt =====
-- domain/reducer.rs: an event of one server leaves the others alone.
use mathlib.Core.Option.{some-injective}
use salmon.Base.{
  ℕ, sym, ◌∙◌, Bool, false, Option, none, some, List, [], ◌∷◌, ◌++◌, ◌≡◌, refl, ap, arith, Text,
  Instant, codes, text_eq, text_eq_iff, Option-cases, Bool-cases, inl, inr, append_cancel_left,
}
use salmon.Base.Maps.{Map, get, contains_key, get-insert, get-remove, get-modify}
use salmon.Domain.Model.{Incident, NotificationData, AppState}
use salmon.Domain.Lifecycle.{server_of}
use salmon.Domain.Event.{Event, nothing}
use salmon.Domain.Reducer.{
  connection_key, tunnel_key, raise_internal, connection_failure, mark_server_stale, connected,
  disconnected, tunnel_ready, tunnel_failed, heartbeat, notification, reduce,
}

connection_key-injective : (a b : Text) → connection_key a ≡ connection_key b → a ≡ b
unfolding connection_key
connection_key-injective a b h = append_cancel_left (codes "internal.connection.") a b h

tunnel_key-injective : (a b : Text) → tunnel_key a ≡ tunnel_key b → a ≡ b
unfolding tunnel_key
tunnel_key-injective a b h = append_cancel_left (codes "internal.tunnel.") a b h

abbrev first_byte : Text → ℕ
first_byte [] = 0
first_byte (c ∷ cs) = c

pub tunnel_key-ne-connection_key : (a b : Text) → tunnel_key a ≡ connection_key b → ⊥
unfolding tunnel_key connection_key
tunnel_key-ne-connection_key a b h = absurd (
    omega (
      arith,
      ap first_byte (
          append_cancel_left (codes "internal.") (codes "tunnel." ++ a) (codes "connection." ++ b)
            h),
    ))

-- what the state says of one server
abbrev pub SameServer : Text → AppState → AppState → Type 0
SameServer j s t =
    (get j t.servers ≡ get j s.servers)
    × (get j t.incidents ≡ get j s.incidents)
    × (get (connection_key j) t.internal_incidents ≡ get (connection_key j) s.internal_incidents)
    × (get (tunnel_key j) t.internal_incidents ≡ get (tunnel_key j) s.internal_incidents)

pub raise_internal_other :
    (rfc3339 : Instant → Text) (m : Map Incident) (key k : Text) (snoozed : Bool) (at : Instant)
    (error : Text)
    → text_eq key k ≡ false
    → get k (raise_internal rfc3339 m key snoozed at error).0 ≡ get k m
unfolding raise_internal
raise_internal_other rfc3339 m key k snoozed at error h = elim (Option-cases (get key m)) [
  | inl absent ↦ rw (absent, raise_internal) (rw get-insert (rw h))
  | inr (item, found) ↦
      rw (found, raise_internal)
        (elim (Bool-cases (text_eq item.details error)) [
          | inl same ↦ rw same
          | inr other ↦ rw other (rw get-modify (rw h))
        ])
]

connection_failure_other :
    (rfc3339 : Instant → Text) (m : Map Incident) (key k : Text) (snoozed : Bool) (at : Instant)
    (error : Text)
    → text_eq key k ≡ false
    → get k (connection_failure rfc3339 m key snoozed at error).0 ≡ get k m
unfolding connection_failure
connection_failure_other rfc3339 m key k snoozed at [] h = rw get-remove (rw h)
connection_failure_other rfc3339 m key k snoozed at (c ∷ error) h =
    raise_internal_other rfc3339 m key k snoozed at (c ∷ error) h

mark_server_stale_other :
    (m : Map (List Incident)) (id j : Text)
    → text_eq id j ≡ false
    → get j (mark_server_stale m id).0 ≡ get j m
unfolding mark_server_stale
mark_server_stale_other m id j h = elim (Option-cases (get id m)) [
  | inl absent ↦ rw (absent, mark_server_stale)
  | inr (items, found) ↦ rw (found, mark_server_stale) (rw get-modify (rw h))
]

pub eq_false : (a b : Text) → ¬ (a ≡ b) → text_eq a b ≡ false
eq_false a b h = elim (Bool-cases (text_eq a b)) [
  | inl e ↦ absurd (h ((text_eq_iff a b).0 e))
  | inr e ↦ e
]

module _ (rfc3339 : Instant → Text) (s : AppState) (id j : Text)
    (other : text_eq id j ≡ false) where
  ids_differ : ¬ (id ≡ j)
  ids_differ e = ground (arith, text_eq_iff id j)

  connection_keys : text_eq (connection_key id) (connection_key j) ≡ false
  connection_keys = eq_false _ _ (λ e. ids_differ (connection_key-injective id j e))

  tunnel_keys : text_eq (tunnel_key id) (tunnel_key j) ≡ false
  tunnel_keys = eq_false _ _ (λ e. ids_differ (tunnel_key-injective id j e))

  tunnel_connection : text_eq (tunnel_key id) (connection_key j) ≡ false
  tunnel_connection = eq_false _ _ (tunnel_key-ne-connection_key id j)

  connection_tunnel : text_eq (connection_key id) (tunnel_key j) ≡ false
  connection_tunnel = eq_false _ _ (λ e. tunnel_key-ne-connection_key j id (sym e))

  connected_other : (at : Instant) → SameServer j s (connected s id at).0
  unfolding connected
  connected_other at = elim (Option-cases (get id s.servers)) [
    | inl absent ↦ rw (absent, connected) (refl, refl, refl, refl)
    | inr (server, found) ↦
        rw (found, connected)
          (
            rw get-modify (rw other),
            refl,
            rw get-remove (rw connection_keys),
            rw get-remove (rw connection_tunnel),
          )
  ]

  disconnected_other :
      (at : Instant) (error : Text) → SameServer j s (disconnected rfc3339 s id at error).0
  unfolding disconnected
  disconnected_other at error = elim (Option-cases (get id s.servers)) [
    | inl absent ↦ rw (absent, disconnected) (refl, refl, refl, refl)
    | inr (server, found) ↦
        rw (found, disconnected)
          (
            rw get-modify (rw other),
            mark_server_stale_other s.incidents id j other,
            connection_failure_other rfc3339 s.internal_incidents _ _ _ at error connection_keys,
            connection_failure_other rfc3339 s.internal_incidents _ _ _ at error connection_tunnel,
          )
  ]

  tunnel_failed_other :
      (at : Instant) (error : Text) → SameServer j s (tunnel_failed rfc3339 s id at error).0
  unfolding tunnel_failed
  tunnel_failed_other at error = elim (Option-cases (get id s.servers)) [
    | inl absent ↦ rw (absent, tunnel_failed) (refl, refl, refl, refl)
    | inr (server, found) ↦
        rw (found, tunnel_failed)
          (
            rw get-modify (rw other),
            mark_server_stale_other s.incidents id j other,
            raise_internal_other rfc3339 _ _ _ _ at error tunnel_connection
                ∙ rw get-remove (rw connection_keys),
            raise_internal_other rfc3339 _ _ _ _ at error tunnel_keys
                ∙ rw get-remove (rw connection_tunnel),
          )
  ]

  tunnel_ready_other : (at : Instant) → SameServer j s (tunnel_ready s id at).0
  unfolding tunnel_ready
  tunnel_ready_other at = elim (Bool-cases (contains_key id s.servers)) [
    | inl known ↦
        rw (known, tunnel_ready)
          (refl, refl, rw get-remove (rw tunnel_connection), rw get-remove (rw tunnel_keys))
    | inr absent ↦ rw (absent, tunnel_ready) (refl, refl, refl, refl)
  ]

  heartbeat_other : (at : Instant) → SameServer j s (heartbeat s id at).0
  unfolding heartbeat
  heartbeat_other at = elim (Option-cases (get id s.servers)) [
    | inl absent ↦ rw (absent, heartbeat) (refl, refl, refl, refl)
    | inr (server, found) ↦ rw (found, heartbeat) (rw get-modify (rw other), refl, refl, refl)
  ]

  notification_other :
      (received : NotificationData) (at : Instant)
      → SameServer j s (notification s id received at).0
  unfolding notification
  notification_other received at = elim (Bool-cases (contains_key id s.servers)) [
    | inl known ↦ rw (known, notification) (refl, rw get-insert (rw other), refl, refl)
    | inr absent ↦ rw (absent, notification) (refl, refl, refl, refl)
  ]

not_some : {id : Text} → ◌≡◌ {A = Option Text} none (some id) → ⊥
not_some h = cc

-- A network event of one server leaves the status, the cached incidents and both internal
-- incidents of every other server as they were.
pub other_servers_same :
    (rfc3339 : Instant → Text) (s : AppState) (e : Event) (id j : Text)
    → server_of e ≡ some id
    → text_eq id j ≡ false
    → SameServer j s (reduce rfc3339 s e).0
unfolding reduce
other_servers_same rfc3339 s (Event.connected i at) id j h o =
    connected_other rfc3339 s i j (rw (some-injective i id h) o) at
other_servers_same rfc3339 s (Event.disconnected i at error) id j h o =
    disconnected_other rfc3339 s i j (rw (some-injective i id h) o) at error
other_servers_same rfc3339 s (Event.tunnel_ready i at) id j h o =
    tunnel_ready_other rfc3339 s i j (rw (some-injective i id h) o) at
other_servers_same rfc3339 s (Event.tunnel_failed i at error) id j h o =
    tunnel_failed_other rfc3339 s i j (rw (some-injective i id h) o) at error
other_servers_same rfc3339 s (Event.heartbeat i at) id j h o =
    heartbeat_other rfc3339 s i j (rw (some-injective i id h) o) at
other_servers_same rfc3339 s (Event.notification i received at) id j h o =
    notification_other rfc3339 s i j (rw (some-injective i id h) o) received at
other_servers_same rfc3339 s _ id j h o = absurd (not_some h)

-- A network event of a server that is not configured changes nothing and asks for nothing.
pub unknown_server_ignored :
    (rfc3339 : Instant → Text) (s : AppState) (e : Event) (id : Text)
    → server_of e ≡ some id
    → get id s.servers ≡ none
    → reduce rfc3339 s e ≡ (s, nothing)
unfolding reduce connected disconnected tunnel_ready tunnel_failed heartbeat notification
unknown_server_ignored rfc3339 s (Event.connected i at) id h o = ground arith
unknown_server_ignored rfc3339 s _ id h o = ground arith
