-- ===== src/Runtime/Log.antt =====
-- runtime.rs: `EventLogState`, the log lines of an event.
pub mod Bounded
use salmon.Base.{
  ℕ, ◌+◌, ◌/◌, Bool, true, false, ◌&&◌, ◌||◌, not, Option, none, some, List, [], ◌∷◌, ◌++◌, map,
  Text, Instant, codes, length, text_eq, ltb, leb, ◌==◌, is_empty, any, keep, take, drop,
  if◌then◌else◌,
}
use salmon.Base.Decimal.{decimal}
use salmon.Domain.Model.{Incident, NotificationData}
use salmon.Domain.Event.{Event}
use salmon.Domain.Reducer.{state_name}

pub data Level : Type 0 where
  debug info error : Level

pub record EventLogLine : Type 0 where
  pub level : Level
  pub message : Text

-- The two `HashSet`s, as lists without order.
pub record EventLogState : Type 0 where
  pub awaiting_snapshot : List Text
  pub synchronized : List Text

abbrev pub has : Text → List Text → Bool
has id = any (λ seen. text_eq seen id)

abbrev pub info_line : Text → EventLogLine
info_line message = record { level = Level.info; message = message }

-- MAX_LOG_DETAILS_CHARS
abbrev pub max_log_details_chars : ℕ
max_log_details_chars = 1000

-- `char::is_control`, and the two separators
unfoldable pub breaks_line : ℕ → Bool
breaks_line c = ltb c 32 || ((leb 127 c && ltb c 160) || (c == 8232 || c == 8233))

-- `log_details` on the characters of a text: 8230 is the ellipsis
unfoldable pub log_details : List ℕ → List ℕ
log_details details =
    let flattened = map (λ c. if breaks_line c then 32 else c) details in
    let limited = take max_log_details_chars flattened in
    if is_empty (drop max_log_details_chars flattened) then limited else limited ++ (8230 ∷ [])

-- `chars` and `collect` take a text of UTF-8 to its characters and back.
module _ (chars : Text → List ℕ) (collect : List ℕ → Text) where
  unfoldable pub incident_line : Text → Text → Incident → Text
  incident_line server_id action incident =
      codes "server "
      ++ (server_id
          ++ (codes " "
              ++ (action
                  ++ (codes " incident "
                      ++ (incident.key
                          ++ (codes " ("
                              ++ (state_name incident.state
                                  ++ (codes ")"
                                      ++ (if is_empty incident.details
                                          then []
                                          else codes ": "
                                            ++ collect
                                                (log_details (chars incident.details)))))))))))

  abbrev pub incident_lines : Text → Text → List Incident → List EventLogLine
  incident_lines server_id action =
      map (λ incident. info_line (incident_line server_id action incident))

  abbrev pub resolved_line : Text → Incident → EventLogLine
  resolved_line server_id incident =
      info_line (codes "server " ++ (server_id ++ (codes " resolved incident " ++ incident.key)))

  unfoldable pub initial_lines : Text → NotificationData → List EventLogLine
  initial_lines id received =
      info_line (
        codes "server "
        ++ (id
            ++ (codes " synchronized: "
                ++ (decimal (length received.total) ++ codes " ongoing incidents"))))
      ∷ incident_lines id (codes "ongoing") received.total

  unfoldable pub update_lines : Text → NotificationData → List EventLogLine
  update_lines id received =
      info_line (
        codes "server "
        ++ (id
            ++ (codes " incident update: "
                ++ (decimal (length received.added)
                    ++ (codes " added, "
                        ++ (decimal (length received.updated)
                            ++ (codes " updated, "
                                ++ (decimal (length received.removed)
                                    ++ (codes " resolved; "
                                        ++ (decimal (length received.total)
                                            ++ codes " ongoing incidents"))))))))))
      ∷ (incident_lines id (codes "added") received.added
          ++ (incident_lines id (codes "updated") received.updated
              ++ map (resolved_line id) received.removed))

  unfoldable pub lines : EventLogState → Event → EventLogState × List EventLogLine
  lines log (Event.connected id at) = (
    if has id log.awaiting_snapshot
        then log
        else record log { awaiting_snapshot = id ∷ log.awaiting_snapshot },
    [],
  )
  lines log (Event.notification id received at) =
      let initial = has id log.awaiting_snapshot || not (has id log.synchronized) in
      (
        record {
          awaiting_snapshot = keep (λ seen. not (text_eq seen id)) log.awaiting_snapshot;
          synchronized =
              if has id log.synchronized then log.synchronized else id ∷ log.synchronized;
        },
        if initial then initial_lines id received else update_lines id received,
      )
  lines log (Event.heartbeat id at) = (
    log,
    record { level = Level.debug; message = codes "server " ++ (id ++ codes " received heartbeat") }
        ∷ [],
  )
  lines log (Event.forget_stale key) = (log, info_line (codes "forgot stale incident " ++ key) ∷ [])
  lines log event = (log, [])
