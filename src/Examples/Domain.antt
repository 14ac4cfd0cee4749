-- ===== src/Examples/Domain.antt =====
-- cmd/montray-ui/src/domain at concrete states and events.
use mathlib.Core.List.{Perm}
use salmon.Base.{
  ◌≤◌, true, false, some, none, List, [], ◌∷◌, ◌++◌, ◌≡◌, refl, arith, Text, Instant, codes,
  text_eq, text_lt, starts_with, All,
}
use salmon.Base.Maps.{get, insert, remove, modify}
use salmon.Base.Maps.Sorted.{IsSorted}
use salmon.Domain.Model.{IncidentState, Incident, NotificationData, OverallState, AppState, new}
use salmon.Domain.Event.{Event}
use salmon.Domain.Snapshot.{
  split_snoozed, overall_from, worse, is_internal, server_incidents, count_unknown, listed_servers,
  alerting, hidden_state, severity, overall_state, deadline, all_incidents, snapshot,
}
use salmon.Domain.Snapshot.Partition.{stored, incidents_of, snapshot_partition}
use salmon.Domain.Reducer.{
  connected, notification, snoozes_persisted, mark_server_stale, connection_failure, raise_internal,
  same_snoozes, prefixed, heartbeat, connection_key, tunnel_key, is_snoozed, disconnected,
  tunnel_failed, tick, reduce, is_snoozed,
}
use salmon.Domain.Reducer.Changed.{unchanged_same}
use salmon.Domain.Reducer.Snoozing.{acknowledge, snapshot-tick}
use salmon.Domain.Reducer.Isolation.{SameServer, other_servers_same}
use salmon.Domain.Reducer.Outage.{notify_count, fail_all, outage_notifies_once}
use salmon.Domain.Reducer.RootCause.{IsStale, details_of, tunnel_failed_root_cause}
use salmon.Domain.Reducer.Silence.{snoozed_silent}
use salmon.Domain.Reducer.WellFormed.{IsValid, reduce_all, reachable-IsValid}

abbrev clock_text : Instant → Text
clock_text at = codes "t"

abbrev alpha : Text
alpha = codes "alpha"

abbrev beta : Text
beta = codes "beta"

abbrev start : AppState
start = new (alpha ∷ beta ∷ []) []

abbrev disk : Incident
disk = record {
  key = codes "disk";
  state = IncidentState.error;
  details = codes "full";
  incident_started_at = codes "t0";
  stale = false;
}

abbrev cpu : Incident
cpu = record disk { key = codes "cpu"; state = IncidentState.warning }

abbrev two_incidents : NotificationData
two_incidents = record {
  total = disk ∷ cpu ∷ [];
  added = disk ∷ [];
  removed = [];
  updated = [];
  num_items_ok = 3;
}

abbrev history : List Event
history =
    Event.connected alpha 1
    ∷ Event.notification alpha two_incidents 2
    ∷ Event.disconnected beta 3 (codes "refused")
    ∷ Event.snoozes_persisted ((codes "alpha.disk", 10) ∷ [])
    ∷ []

abbrev running : AppState
running = reduce_all clock_text start history

running_view :
    ((snapshot running 5).alerting_state ≡ OverallState.warning)
    × ((snapshot running 5).snoozed_state ≡ some OverallState.error)
    × ((snapshot running 5).unknown_server_count ≡ 0)
    × ((snapshot running 20).alerting_state ≡ OverallState.error)
unfolding reduce_all reduce new snapshot connected notification disconnected snoozes_persisted get
    insert remove modify text_eq text_lt starts_with connection_key overall_state split_snoozed
    all_incidents overall_from worse severity is_internal deadline server_incidents count_unknown
    listed_servers alerting hidden_state mark_server_stale connection_failure raise_internal
    same_snoozes prefixed
running_view = (refl, refl, refl, refl)

reachable-IsValid_example : IsValid (reduce_all clock_text (new (alpha ∷ beta ∷ []) []) history)
reachable-IsValid_example =
    reachable-IsValid clock_text (alpha ∷ beta ∷ []) [] history tt (tt, (tt, (tt, ((tt, tt), tt))))

-- `alpha` is online with one cached incident, `beta` is offline on record, and two snoozes are set.
abbrev small : AppState
small = record {
  server_order = alpha ∷ beta ∷ [];
  servers =
      (
        alpha,
        record {
          id = alpha;
          connected = true;
          initialized = true;
          connection_changed_at = some 1;
          last_heartbeat_at = some 2;
        },
      )
      ∷ (
        beta,
        record {
          id = beta;
          connected = false;
          initialized = false;
          connection_changed_at = none;
          last_heartbeat_at = none;
        },
      )
      ∷ [];
  incidents = (alpha, record disk { key = codes "alpha.disk" } ∷ []) ∷ [];
  internal_incidents = [];
  snoozed = (codes "alpha.disk", 10) ∷ (codes "internal.connection.beta", 4) ∷ [];
}

small-IsSorted : IsSorted small.snoozed
unfolding text_lt
small-IsSorted = ((refl, tt), (tt, tt))

unchanged_same_example : (reduce clock_text small (Event.heartbeat alpha 2)).0 ≡ small
unchanged_same_example =
    unchanged_same clock_text small (Event.heartbeat alpha 2)
      (unfold reduce heartbeat get text_eq in refl)

snapshot-tick_example : snapshot (acknowledge small (tick small 6).1.effects) 8 ≡ snapshot small 8
snapshot-tick_example = snapshot-tick small 6 8 small-IsSorted (omega arith)

snapshot_partition_example :
    Perm ((snapshot small 5).active ++ incidents_of (snapshot small 5).snoozed) (stored small)
    × All (λ item. deadline small.snoozed item.key 5 ≡ none) (snapshot small 5).active
    × All (λ x. deadline small.snoozed x.incident.key 5 ≡ some x.until) (snapshot small 5).snoozed
snapshot_partition_example = snapshot_partition small 5

other_servers_same_example :
    SameServer alpha small (reduce clock_text small (Event.tunnel_failed beta 3 (codes "exit"))).0
other_servers_same_example =
    other_servers_same clock_text small (Event.tunnel_failed beta 3 (codes "exit")) beta alpha refl
      (unfold text_eq in refl)

outage_notifies_once_example :
    notify_count
      (fail_all clock_text small alpha ((3, codes "reset") ∷ (4, codes "refused") ∷ [])).1
    ≤ 1
outage_notifies_once_example =
    outage_notifies_once clock_text small alpha ((3, codes "reset") ∷ (4, codes "refused") ∷ [])
      (unfold get text_eq in refl) (refl, (refl, tt))

tunnel_failed_root_cause_example :
    let t = (tunnel_failed clock_text small alpha 3 (codes "exit")).0 in
    (details_of (get (tunnel_key alpha) t.internal_incidents) ≡ some (codes "exit"))
    × (get (connection_key alpha) t.internal_incidents ≡ none)
    × IsStale (get alpha t.incidents)
tunnel_failed_root_cause_example =
    tunnel_failed_root_cause clock_text small alpha 3 (codes "exit") (unfold get text_eq in refl)

snoozed_silent_example :
    notify_count (reduce clock_text small (Event.disconnected beta 3 (codes "refused"))).1.effects
    ≡ 0
snoozed_silent_example =
    snoozed_silent clock_text small (Event.disconnected beta 3 (codes "refused"))
      (unfold is_snoozed deadline get text_eq connection_key in (refl, tt))
