-- ===== src/Domain/Model.antt =====
-- domain/model.rs: incidents, servers and the reducer's canonical state.
use salmon.Base.{ℕ, Bool, false, Option, none, List, [], ◌∷◌, Text, Instant}
use salmon.Base.Maps.{Map, insert}

pub data IncidentState : Type 0 where
  ok warning error : IncidentState

pub record Incident : Type 0 where
  pub key : Text
  pub state : IncidentState
  pub details : Text
  pub incident_started_at : Text
  pub stale : Bool

pub record NotificationData : Type 0 where
  pub total : List Incident
  pub added : List Incident
  pub removed : List Incident
  pub updated : List Incident
  pub num_items_ok : ℕ

pub record ServerStatus : Type 0 where
  pub id : Text
  pub connected : Bool
  pub initialized : Bool
  pub connection_changed_at : Option Instant
  pub last_heartbeat_at : Option Instant

pub data OverallState : Type 0 where
  unknown ok internal_error warning error : OverallState

pub record SnoozedIncident : Type 0 where
  pub incident : Incident
  pub until : Instant

pub record UiSnapshot : Type 0 where
  pub servers : List ServerStatus
  pub active : List Incident
  pub snoozed : List SnoozedIncident
  pub alerting_state : OverallState
  pub snoozed_state : Option OverallState
  pub unknown_server_count : ℕ

pub record AppState : Type 0 where
  pub server_order : List Text
  pub servers : Map ServerStatus
  pub incidents : Map (List Incident)
  pub internal_incidents : Map Incident
  pub snoozed : Map Instant

unfoldable pub new_status : Text → ServerStatus
new_status id = record {
  id = id;
  connected = false;
  initialized = false;
  connection_changed_at = none;
  last_heartbeat_at = none;
}

-- `collect` into a map: a later pair replaces an earlier one with its key.
unfoldable pub collect_statuses : List Text → Map ServerStatus → Map ServerStatus
unfolding new_status
collect_statuses [] m = m
collect_statuses (id ∷ ids) m = collect_statuses ids (insert id (new_status id) m)

-- `AppState::new`
unfoldable pub new : List Text → Map Instant → AppState
unfolding collect_statuses
new server_ids snoozed = record {
  server_order = server_ids;
  servers = collect_statuses server_ids [];
  incidents = [];
  internal_incidents = [];
  snoozed = snoozed;
}
