-- ===== src/Domain/Snapshot.antt =====
-- domain/model.rs: `AppState::snapshot` and the severity that it shows.
pub mod Severity
pub mod Partition
use salmon.Base.{
  ℕ, ◌+◌, Bool, true, false, not, ◌&&◌, Option, none, some, List, [], ◌∷◌, ◌++◌, map, Text, Instant,
  codes, starts_with, ltb, leb, if◌then◌else◌, length, keep, is_empty,
}
use salmon.Base.Maps.{Map, get, values}
use salmon.Domain.Model.{
  IncidentState, Incident, ServerStatus, OverallState, SnoozedIncident, UiSnapshot, AppState,
}

unfoldable pub rank : OverallState → ℕ
rank OverallState.unknown = 0
rank OverallState.ok = 1
rank OverallState.internal_error = 2
rank OverallState.warning = 3
rank OverallState.error = 4

abbrev pub is_ok : IncidentState → Bool
is_ok IncidentState.ok = true
is_ok _ = false

unfoldable pub is_internal : Text → Bool
is_internal key = starts_with key (codes "internal.")

abbrev pub state_severity : IncidentState → OverallState
state_severity IncidentState.ok = OverallState.ok
state_severity IncidentState.warning = OverallState.warning
state_severity IncidentState.error = OverallState.error

-- `current` of the fold in `overall_state`
unfoldable pub severity : Incident → OverallState
severity item =
    if is_internal item.key && not (is_ok item.state)
    then OverallState.internal_error
    else state_severity item.state

unfoldable pub worse : OverallState → OverallState → OverallState
unfolding rank
worse overall current = if ltb (rank overall) (rank current) then current else overall

unfoldable pub overall_from : OverallState → List Incident → OverallState
overall_from overall [] = overall
overall_from overall (item ∷ items) = overall_from (worse overall (severity item)) items

unfoldable pub overall_state : List Incident → OverallState
overall_state items = overall_from OverallState.ok items

-- `get(key).copied().filter(|until| *until > now)`
unfoldable pub deadline : Map Instant → Text → Instant → Option Instant
deadline snoozed key now = elim (get key snoozed) [
  | none ↦ none
  | some until ↦ if ltb now until then some until else none
]

-- the `push` of one round of the loop of `snapshot`
abbrev pub place :
    Option Instant
    → Incident
    → List Incident × List SnoozedIncident
    → List Incident × List SnoozedIncident
place none item lists = (item ∷ lists.0, lists.1)
place (some until) item lists = (lists.0, record { incident = item; until = until } ∷ lists.1)

-- the two lists that the loop of `snapshot` fills
unfoldable pub split_snoozed :
    Map Instant → Instant → List Incident → List Incident × List SnoozedIncident
split_snoozed snoozed now [] = ([], [])
split_snoozed snoozed now (item ∷ items) =
    place (deadline snoozed item.key now) item (split_snoozed snoozed now items)

unfoldable pub server_incidents : Map (List Incident) → List Text → List Incident
server_incidents incidents [] = []
server_incidents incidents (id ∷ ids) =
    let rest = server_incidents incidents ids in
    elim (get id incidents) [ none ↦ rest | some items ↦ items ++ rest ]

-- every incident, internal ones first, then by server in configuration order
unfoldable pub all_incidents : AppState → List Incident
all_incidents s = values s.internal_incidents ++ server_incidents s.incidents s.server_order

unfoldable pub listed_servers : Map ServerStatus → List Text → List ServerStatus
listed_servers servers [] = []
listed_servers servers (id ∷ ids) =
    let rest = listed_servers servers ids in
    elim (get id servers) [ none ↦ rest | some server ↦ server ∷ rest ]

unfoldable pub count_unknown : List ServerStatus → ℕ
count_unknown servers = length (keep (λ server. not server.initialized) servers)

abbrev is_overall_ok : OverallState → Bool
is_overall_ok OverallState.ok = true
is_overall_ok _ = false

unfoldable pub alerting : OverallState → ℕ → OverallState
alerting overall unknown_count =
    if is_overall_ok overall && ltb 0 unknown_count then OverallState.unknown else overall

unfoldable pub hidden_state : List SnoozedIncident → Option OverallState
hidden_state [] = none
hidden_state (item ∷ items) = some (overall_state (map (λ x. x.incident) (item ∷ items)))

unfoldable pub snapshot : AppState → Instant → UiSnapshot
snapshot s now =
    let (active, hidden) = split_snoozed s.snoozed now (all_incidents s) in
    let servers = listed_servers s.servers s.server_order in
    record {
      servers = servers;
      active = active;
      snoozed = hidden;
      alerting_state = alerting (overall_state active) (count_unknown servers);
      snoozed_state = hidden_state hidden;
      unknown_server_count = count_unknown servers;
    }
