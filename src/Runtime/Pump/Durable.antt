-- ===== src/Runtime/Pump/Durable.antt =====
-- runtime.rs: the snoozes that the client goes by are those that it has stored.
use salmon.Base.{
  ℕ, ◌+◌, ◌≡◌, ◌∙◌, refl, Bool, true, false, List, [], ◌∷◌, Text, Instant, All, Bool-cases, inl,
  inr,
}
use salmon.Base.Maps.{Map}
use salmon.Domain.Event.{Event, Effect, notify, persist_snoozes, SnoozeAction}
use salmon.Domain.Reducer.{reduce}
use salmon.Domain.Reducer.Snoozing.{committed, snoozed-reduce}
use salmon.Runtime.Snoozes.{is_expiry, snooze_persistence_is_due}
use salmon.Runtime.Pump.{
  Attempt, Written, saved, failed, panicked, Pump, write_failed, write_saved, write, on_disk,
  persisted, run_effect, run_effects, pass,
}

-- the reducer's snoozes are the last ones that were written
abbrev pub InSync : Pump → Type 0
InSync pump = pump.state.snoozed ≡ pump.stored

-- Clients, the window and the clock send no acknowledgement; only the loop itself makes one.
abbrev pub is_acknowledgement : Event → Bool
is_acknowledgement (Event.snoozes_persisted snoozes) = true
is_acknowledgement event = false

write_failed-InSync :
    (pump : Pump) (action : SnoozeAction) (attempt : Attempt) (logged details : Text)
    → InSync pump
    → InSync (write_failed pump action attempt logged details).pump
unfolding write_failed
write_failed-InSync pump action attempt logged details h = elim (Bool-cases (is_expiry action)) [
  | inl e ↦ rw (e, write_failed) h
  | inr e ↦ rw (e, write_failed) h
]

committed_same :
    (event : Event) (m : Map Instant) → is_acknowledgement event ≡ false → committed event m ≡ m
committed_same (Event.snoozes_persisted snoozes) m h = cc
committed_same event m h = refl

-- what one pass is given
pub record Given : Type 0 where
  pub event : Event
  pub attempts : ℕ → Attempt
  pub now : Instant

module _ (rfc3339 : Instant → Text) where
  write-InSync :
      (pump : Pump) (snoozes : Map Instant) (action : SnoozeAction) (attempt : Attempt)
      (written : Written)
      → InSync pump
      → InSync (write rfc3339 (persisted pump snoozes written) snoozes action attempt written).pump
  unfolding write write_saved on_disk
  write-InSync pump snoozes action attempt saved h =
      snoozed-reduce rfc3339 pump.state (Event.snoozes_persisted snoozes)
  write-InSync pump snoozes action attempt (failed details) h =
      write_failed-InSync pump action attempt _ _ h
  write-InSync pump snoozes action attempt (panicked error) h =
      write_failed-InSync pump action attempt _ _ h

  run_effect-InSync :
      (pump : Pump) (effect : Effect) (attempt : Attempt)
      → InSync pump
      → InSync (run_effect rfc3339 pump effect attempt).pump
  unfolding run_effect
  run_effect-InSync pump (notify title body) attempt h = h
  run_effect-InSync pump (persist_snoozes snoozes action) attempt h =
      elim (Bool-cases
        (snooze_persistence_is_due action pump.expiry_retry_not_before attempt.now)) [
          | inl e ↦ rw (e, run_effect) (write-InSync pump snoozes action attempt attempt.written h)
          | inr e ↦ rw (e, run_effect) h
        ]

  run_effects-InSync :
      (pump : Pump) (attempts : ℕ → Attempt) (index : ℕ) (effects : List Effect)
      → InSync pump
      → InSync (run_effects rfc3339 pump attempts index effects).pump
  unfolding run_effects
  run_effects-InSync pump attempts index [] h = h
  run_effects-InSync pump attempts index (effect ∷ effects) h =
      run_effects-InSync (run_effect rfc3339 pump effect (attempts index)).pump attempts (index + 1)
        effects (run_effect-InSync pump effect (attempts index) h)

  module _ (chars : Text → List ℕ) (collect : List ℕ → Text) where
    pass-InSync :
        (pump : Pump) (event : Event) (attempts : ℕ → Attempt) (now : Instant)
        → is_acknowledgement event ≡ false
        → InSync pump
        → InSync (pass rfc3339 chars collect pump event attempts now).0
    unfolding pass
    pass-InSync pump event attempts now h k =
        run_effects-InSync _ attempts 0 (reduce rfc3339 pump.state event).1.effects
          (snoozed-reduce rfc3339 pump.state event ∙ committed_same event pump.state.snoozed h ∙ k)

    unfoldable pub passes : Pump → List Given → Pump
    passes pump [] = pump
    passes pump (g ∷ given) =
        passes (pass rfc3339 chars collect pump g.event g.attempts g.now).0 given

    -- Whatever writes fail and whatever events come, as long as nobody but the loop acknowledges a
    -- write: from a start with the snoozes on the disk on, the snoozes that the client goes by are
    -- always those on the disk, which only a write that is done changes.
    pub snoozes_are_stored :
        (pump : Pump) (given : List Given)
        → All (λ g. is_acknowledgement g.event ≡ false) given
        → InSync pump
        → InSync (passes pump given)
    unfolding passes
    snoozes_are_stored pump [] h k = k
    snoozes_are_stored pump (g ∷ given) h k =
        snoozes_are_stored (pass rfc3339 chars collect pump g.event g.attempts g.now).0 given h.1
          (pass-InSync pump g.event g.attempts g.now h.0 k)
