-- ===== src/Domain/Reducer/RootCause.antt =====
-- domain/reducer.rs: what a failure leaves on record for its server.
use salmon.Base.{
  Bool, true, Option, none, some, List, [], ◌∷◌, ◌≡◌, ◌∙◌, refl, arith, Text, Instant, text_eq,
  text_eq_refl, text_eq_iff, Option-cases, Bool-cases, inl, inr, All,
}
use salmon.Base.Maps.{Map, get, contains_key, remove, get-insert, get-remove, get-modify}
use salmon.Domain.Model.{Incident, AppState}
use salmon.Domain.Reducer.Isolation.{raise_internal_other, eq_false, tunnel_key-ne-connection_key}
use salmon.Domain.Reducer.{
  connection_key, tunnel_key, mark_stale, mark_server_stale, raise_internal, connection_failure,
  disconnected, tunnel_failed,
}

mark_stale-stale : (items : List Incident) → All (λ item. item.stale ≡ true) (mark_stale items).0
unfolding mark_stale
mark_stale-stale [] = tt
mark_stale-stale (item ∷ items) = ground (arith, mark_stale-stale items)

-- what is left of a server's cached incidents: each one is stale
abbrev pub IsStale : Option (List Incident) → Type 0
IsStale none = Unit
IsStale (some items) = All (λ item. item.stale ≡ true) items

pub mark_server_stale-IsStale :
    (m : Map (List Incident)) (id : Text) → IsStale (get id (mark_server_stale m id).0)
unfolding mark_server_stale
mark_server_stale-IsStale m id = elim (Option-cases (get id m)) [
  | inl absent ↦ rw (absent, mark_server_stale) (rw absent tt)
  | inr (items, found) ↦
      rw (found, mark_server_stale)
        (rw get-modify (rw (text_eq_refl id, found) (mark_stale-stale items)))
]

-- the text of an internal incident
abbrev pub details_of : Option Incident → Option Text
details_of none = none
details_of (some item) = some item.details

raise_internal_details :
    (rfc3339 : Instant → Text) (m : Map Incident) (key : Text) (snoozed : Bool) (at : Instant)
    (error : Text)
    → details_of (get key (raise_internal rfc3339 m key snoozed at error).0) ≡ some error
unfolding raise_internal
raise_internal_details rfc3339 m key snoozed at error = elim (Option-cases (get key m)) [
  | inl absent ↦ rw (absent, raise_internal) (rw get-insert (rw (text_eq_refl key)))
  | inr (item, found) ↦
      rw (found, raise_internal)
        (elim (Bool-cases (text_eq item.details error)) [
          | inl same ↦ rw same (rw found (ground (arith, text_eq_iff item.details error)))
          | inr other ↦ rw other (rw get-modify (rw (text_eq_refl key, found)))
        ])
]

-- A tunnel failure of a configured server is the only internal failure that it leaves on record
-- for that server: the tunnel's incident has the given text, there is no incident of its
-- connection, and all its cached incidents are stale.
pub tunnel_failed_root_cause :
    (rfc3339 : Instant → Text) (s : AppState) (id : Text) (at : Instant) (error : Text)
    → contains_key id s.servers ≡ true
    → let t = (tunnel_failed rfc3339 s id at error).0 in
      (details_of (get (tunnel_key id) t.internal_incidents) ≡ some error)
      × (get (connection_key id) t.internal_incidents ≡ none)
      × IsStale (get id t.incidents)
unfolding tunnel_failed
tunnel_failed_root_cause rfc3339 s id at error known = elim (Option-cases (get id s.servers)) [
  | inl absent ↦ absurd (ground arith)
  | inr (server, found) ↦
      rw (found, tunnel_failed)
        (
          raise_internal_details rfc3339 _ (tunnel_key id) _ at error,
          raise_internal_other rfc3339 _ (tunnel_key id) (connection_key id) _ at error
                (eq_false _ _ (tunnel_key-ne-connection_key id id))
              ∙ rw get-remove (rw (text_eq_refl (connection_key id))),
          mark_server_stale-IsStale s.incidents id,
        )
]

-- A socket that fails without an error text, as it does below a failed tunnel, leaves no incident
-- of its connection, adds none and notifies nobody.
pub disconnected_empty :
    (rfc3339 : Instant → Text) (s : AppState) (id : Text) (at : Instant)
    → contains_key id s.servers ≡ true
    → let (t, transition) = disconnected rfc3339 s id at [] in
      (t.internal_incidents ≡ remove (connection_key id) s.internal_incidents)
      × (transition.effects ≡ [])
      × IsStale (get id t.incidents)
unfolding disconnected connection_failure
disconnected_empty rfc3339 s id at known = elim (Option-cases (get id s.servers)) [
  | inl absent ↦ absurd (ground arith)
  | inr (server, found) ↦
      rw (found, disconnected) (refl, refl, mark_server_stale-IsStale s.incidents id)
]
