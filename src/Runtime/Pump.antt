-- ===== src/Runtime/Pump.antt =====
-- runtime.rs: `run_async`, the loop that owns the reducer, and the commands of the window.
pub mod Durable
pub mod Cooldown
use salmon.Base.{
  ℕ, ◌+◌, Bool, true, false, ◌&&◌, ◌||◌, Option, none, some, List, [], ◌∷◌, ◌++◌, Text, Instant,
  codes, if◌then◌else◌,
}
use salmon.Base.Maps.{Map}
use salmon.Domain.Model.{AppState, UiSnapshot, new}
use salmon.Domain.Event.{Event, Effect, notify, persist_snoozes, SnoozeAction}
use salmon.Domain.Snapshot.{snapshot}
use salmon.Domain.Reducer.{reduce}
use salmon.Runtime.Log.{Level, EventLogLine, EventLogState, lines}
use salmon.Runtime.Snoozes.{
  snooze_success_lines, snooze_failure_notification, snooze_expiry_notifications, is_expiry,
  snooze_persistence_is_due,
}

-- A duration is in nanoseconds; the deadline saturates at the end of time, which no clock reaches.
pub data Command : Type 0 where
  snooze : Text → ℕ → Command
  unsnooze : Text → Command
  forget_stale : Text → Command

unfoldable pub command_event : Instant → Command → Event
command_event now (Command.snooze key duration) = Event.snooze key (now + duration)
command_event now (Command.unsnooze key) = Event.unsnooze key
command_event now (Command.forget_stale key) = Event.forget_stale key

-- EXPIRY_PERSISTENCE_RETRY_DELAY in nanoseconds
abbrev pub expiry_persistence_retry_delay : ℕ
expiry_persistence_retry_delay = 10000000000

-- how a write ends: done, an error, or a worker that failed
pub data Written : Type 0 where
  saved : Written
  failed : Text → Written
  panicked : Text → Written

-- What the world gives for one effect: the monotonic clock in front of the write and after it, the
-- end of the write, and the time of day.
pub record Attempt : Type 0 where
  pub now : ℕ
  pub written : Written
  pub failed_at : ℕ
  pub wall : Instant

-- The variables of the loop, and beside them `stored`, the map that is on the disk, which only a
-- write changes.
pub record Pump : Type 0 where
  pub state : AppState
  pub log : EventLogState
  pub expiry_retry_not_before : Option ℕ
  pub stored : Map Instant

-- what one pass shows: log lines, notifications, and the snapshot that it publishes
pub record Shown : Type 0 where
  pub lines : List EventLogLine
  pub notifications : List (Text × Text)
  pub published : Option UiSnapshot

-- the state after some effects, whether they changed it, and what they show
pub record Done : Type 0 where
  pub pump : Pump
  pub changed : Bool
  pub lines : List EventLogLine
  pub notifications : List (Text × Text)

abbrev pub optional : Option (Text × Text) → List (Text × Text)
optional none = []
optional (some notification) = notification ∷ []

unfoldable pub write_failed : Pump → SnoozeAction → Attempt → Text → Text → Done
write_failed pump action attempt logged details = record {
  pump =
      (if is_expiry action
        then record pump {
          expiry_retry_not_before = some (attempt.failed_at + expiry_persistence_retry_delay);
        }
        else pump);
  changed = false;
  lines = record { level = Level.error; message = logged } ∷ [];
  notifications = optional (snooze_failure_notification action details);
}

-- the disk after a write, which is done as a whole or not at all
unfoldable pub on_disk : Written → Map Instant → Map Instant → Map Instant
on_disk saved snoozes stored = snoozes
on_disk (failed details) snoozes stored = stored
on_disk (panicked error) snoozes stored = stored

abbrev pub persisted : Pump → Map Instant → Written → Pump
persisted pump snoozes written = record pump { stored = on_disk written snoozes pump.stored }

module _ (rfc3339 : Instant → Text) where
  unfoldable pub write_saved : Pump → Map Instant → SnoozeAction → Attempt → Done
  write_saved pump snoozes action attempt =
      let (state, committed) = reduce rfc3339 pump.state (Event.snoozes_persisted snoozes) in
      record {
        pump = record pump { state = state; expiry_retry_not_before = none };
        changed = committed.changed;
        lines = snooze_success_lines action;
        notifications = snooze_expiry_notifications action state attempt.wall;
      }

  unfoldable pub write : Pump → Map Instant → SnoozeAction → Attempt → Written → Done
  write pump snoozes action attempt saved = write_saved pump snoozes action attempt
  write pump snoozes action attempt (failed details) =
      write_failed pump action attempt (codes "failed to persist snoozes: " ++ details) details
  write pump snoozes action attempt (panicked error) =
      let details = codes "snooze persistence worker failed: " ++ error in
      write_failed pump action attempt details details

  abbrev pub idle : Pump → Done
  idle pump = record { pump = pump; changed = false; lines = []; notifications = [] }

  unfoldable pub run_effect : Pump → Effect → Attempt → Done
  run_effect pump (notify title body) attempt = record {
    pump = pump;
    changed = false;
    lines = [];
    notifications = (title, body) ∷ [];
  }
  run_effect pump (persist_snoozes snoozes action) attempt =
      if snooze_persistence_is_due action pump.expiry_retry_not_before attempt.now
      then write (persisted pump snoozes attempt.written) snoozes action attempt attempt.written
      else idle pump

  abbrev pub both : Done → Done → Done
  both first second = record {
    pump = second.pump;
    changed = first.changed || second.changed;
    lines = first.lines ++ second.lines;
    notifications = first.notifications ++ second.notifications;
  }

  -- the loop over the effects; `attempts` gives the world for each by its place
  unfoldable pub run_effects : Pump → (ℕ → Attempt) → ℕ → List Effect → Done
  run_effects pump attempts index [] = idle pump
  run_effects pump attempts index (effect ∷ effects) =
      let first = run_effect pump effect (attempts index) in
      both first (run_effects first.pump attempts (index + 1) effects)

  abbrev pub is_tick : Event → Bool
  is_tick (Event.tick at) = true
  is_tick event = false

  module _ (chars : Text → List ℕ) (collect : List ℕ → Text) where
    -- one pass of the loop, from an event on
    unfoldable pub pass : Pump → Event → (ℕ → Attempt) → Instant → Pump × Shown
    pass pump event attempts now =
        let (log, logged) = lines chars collect pump.log event in
        let (state, transition) = reduce rfc3339 pump.state event in
        let done =
          run_effects (record pump { state = state; log = log }) attempts 0 transition.effects in
        let changed = transition.changed || done.changed in
        (
          done.pump,
          record {
            lines = logged ++ done.lines;
            notifications = done.notifications;
            published =
                (if changed || is_tick event then some (snapshot done.pump.state now) else none);
          },
        )
