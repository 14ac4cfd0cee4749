-- ===== src/Domain/Reducer/Internal.antt =====
-- domain/reducer.rs: the incidents that the client raises itself, and the texts and marks that the
-- handlers share.
use salmon.Base.{
  Bool, true, false, not, ◌&&◌, Option, none, some, List, [], ◌∷◌, ◌++◌, Text, Instant, codes,
  text_eq, if◌then◌else◌, is_some, or_else, is_empty,
}
use salmon.Base.Maps.{Map, get, contains_key, insert, remove, modify}
use salmon.Domain.Model.{IncidentState, Incident, AppState}
use salmon.Domain.Event.{Effect, notify}
use salmon.Domain.Snapshot.{deadline}

-- format!("internal.connection.{id}")
unfoldable pub connection_key : Text → Text
connection_key id = codes "internal.connection." ++ id

-- format!("internal.tunnel.{id}")
unfoldable pub tunnel_key : Text → Text
tunnel_key id = codes "internal.tunnel." ++ id

unfoldable pub ok_title : Text → Text
ok_title key = codes "OK: " ++ key

unfoldable pub error_title : Text → Text
error_title key = codes "error: " ++ key

unfoldable pub state_name : IncidentState → Text
state_name IncidentState.ok = codes "ok"
state_name IncidentState.warning = codes "warning"
state_name IncidentState.error = codes "error"

unfoldable pub added_title : IncidentState → Text → Text
added_title state key = state_name state ++ (codes ": " ++ key)

unfoldable pub prefixed : Incident → Text → Incident
prefixed item id = record item { key = id ++ (codes "." ++ item.key) }

unfoldable pub is_snoozed : AppState → Text → Instant → Bool
unfolding deadline
is_snoozed s key now = is_some (deadline s.snoozed key now)

-- a new instant when the status changed, else the one that is stored
abbrev pub changed_at : Bool → Instant → Option Instant → Option Instant
changed_at changed at old = or_else (if changed then some at else none) old

-- the notification that an internal incident is over
unfoldable pub resolved : Bool → Bool → Text → List Effect
resolved removed snoozed key = if removed && not snoozed then notify (ok_title key) [] ∷ [] else []

-- the loop that marks cached incidents, and whether it marked one
unfoldable pub mark_stale : List Incident → List Incident × Bool
mark_stale [] = ([], false)
mark_stale (item ∷ items) =
    let (rest, changed) = mark_stale items in
    if item.stale then (item ∷ rest, changed) else (record item { stale = true } ∷ rest, true)

unfoldable pub mark_server_stale : Map (List Incident) → Text → Map (List Incident) × Bool
mark_server_stale incidents id = elim (get id incidents) [
  | none ↦ (incidents, false)
  | some items ↦ (modify id (λ _. (mark_stale items).0) incidents, (mark_stale items).1)
]

module _ (rfc3339 : Instant → Text) where
  internal_error : Text → Text → Instant → Incident
  internal_error key error at = record {
    key = key;
    state = IncidentState.error;
    details = error;
    incident_started_at = rfc3339 at;
    stale = false;
  }

  -- the `match` on the internal incident: its map, the notifications, and whether it changed
  unfoldable pub raise_internal :
      Map Incident → Text → Bool → Instant → Text → Map Incident × List Effect × Bool
  unfolding internal_error
  raise_internal internal key snoozed at error = elim (get key internal) [
    | some incident ↦
        if text_eq incident.details error
        then (internal, [], false)
        else (modify key (λ _. record incident { details = error }) internal, [], true)
    | none ↦ (
      insert key (internal_error key error at) internal,
      if snoozed then [] else notify (error_title key) error ∷ [],
      true,
    )
  ]

  -- the `if error.is_empty()` of `disconnected`
  unfoldable pub connection_failure :
      Map Incident → Text → Bool → Instant → Text → Map Incident × List Effect × Bool
  connection_failure internal key snoozed at error =
      if is_empty error
      then (remove key internal, [], contains_key key internal)
      else raise_internal internal key snoozed at error
