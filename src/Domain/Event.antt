-- ===== src/Domain/Event.antt =====
-- domain/event.rs and domain/effect.rs: the inputs of the reducer and what it asks for.
use salmon.Base.{Bool, false, List, [], Text, Instant}
use salmon.Base.Maps.{Map}
use salmon.Domain.Model.{NotificationData}

pub data Event : Type 0 where
  connected : Text → Instant → Event
  disconnected : Text → Instant → Text → Event
  tunnel_ready : Text → Instant → Event
  tunnel_failed : Text → Instant → Text → Event
  heartbeat : Text → Instant → Event
  notification : Text → NotificationData → Instant → Event
  snooze : Text → Instant → Event
  unsnooze : Text → Event
  snoozes_persisted : Map Instant → Event
  forget_stale : Text → Event
  tick : Instant → Event

pub data SnoozeAction : Type 0 where
  set : Text → Instant → SnoozeAction
  remove : Text → SnoozeAction
  expire : List Text → SnoozeAction

pub data Effect : Type 0 where
  notify : Text → Text → Effect
  persist_snoozes : Map Instant → SnoozeAction → Effect

pub record Transition : Type 0 where
  pub changed : Bool
  pub effects : List Effect

-- `Transition::default()`
abbrev pub nothing : Transition
nothing = record { changed = false; effects = [] }
