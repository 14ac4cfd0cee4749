-- ===== src/Runtime/Pump/Cooldown.antt =====
-- runtime.rs: when a snooze map is written.
use salmon.Base.{
  ℕ, ◌<◌, ◌≡◌, ◌∙◌, refl, true, false, Option, none, some, List, [], Text, Instant, text_eq_refl,
  Bool-cases, inl, inr, arith, is_empty, leb,
}
use salmon.Base.Maps.{Map, get, insert, keys, retain, get-insert}
use salmon.Domain.Model.{AppState}
use salmon.Domain.Event.{Event, SnoozeAction}
use salmon.Domain.Snapshot.{snapshot}
use salmon.Domain.Reducer.{reduce, tick, snooze, same_instant}
use salmon.Domain.Reducer.Snoozing.{snoozed-reduce}
use salmon.Runtime.Log.{lines}
use salmon.Runtime.Snoozes.{snooze_persistence_is_due}
use salmon.Runtime.Pump.{Attempt, saved, Pump, write_saved, write, run_effect, run_effects, pass}

not_due :
    (expired : List Text) (not_before : Option ℕ) (now deadline : ℕ)
    → not_before ≡ some deadline
    → now < deadline
    → snooze_persistence_is_due (SnoozeAction.expire expired) not_before now ≡ false
unfolding snooze_persistence_is_due
not_due expired not_before now deadline h early = rw h (ground arith)

explicit_due :
    (key : Text) (until : Instant) (not_before : Option ℕ) (now : ℕ)
    → snooze_persistence_is_due (SnoozeAction.set key until) not_before now ≡ true
unfolding snooze_persistence_is_due
explicit_due key until not_before now = refl

same_instant-eq : (o : Option Instant) (at : Instant) → same_instant o at ≡ true → o ≡ some at
same_instant-eq none at h = cc
same_instant-eq (some t) at h = ground arith

snoozed_persisted :
    (rfc3339 : Instant → Text) (s : AppState) (m : Map Instant) (key : Text) (until : Instant)
    → m ≡ insert key until s.snoozed
    → get key (reduce rfc3339 s (Event.snoozes_persisted m)).0.snoozed ≡ some until
snoozed_persisted rfc3339 s m key until h =
    rw (snoozed-reduce rfc3339 s (Event.snoozes_persisted m))
      (rw h (get-insert key key until s.snoozed ∙ rw (text_eq_refl key) refl))

module _ (rfc3339 : Instant → Text) (chars : Text → List ℕ) (collect : List ℕ → Text) (pump : Pump)
    (attempts : ℕ → Attempt) (now : Instant) where
  -- While the delay after a failed automatic write runs, a tick changes nothing, writes nothing and
  -- notifies nobody, and still publishes a snapshot.
  pub tick_in_cooldown :
      (at : Instant) (deadline : ℕ)
      → pump.expiry_retry_not_before ≡ some deadline
      → (attempts 0).now < deadline
      → pass rfc3339 chars collect pump (Event.tick at) attempts now ≡ (
        pump,
        record { lines = []; notifications = []; published = some (snapshot pump.state now) },
      )
  unfolding pass lines reduce tick run_effects run_effect
  tick_in_cooldown at deadline h early =
      elim (Bool-cases (is_empty (keys (retain (λ _ until. leb until at) pump.state.snoozed)))) [
        | inl e ↦ rw (e, pass, reduce, tick) refl
        | inr e ↦
            rw (e, pass, reduce, tick)
              (rw (not_due _ pump.expiry_retry_not_before (attempts 0).now deadline h early) refl)
      ]

  -- A snooze request whose write is done takes effect at once, even while automatic writes wait.
  pub snooze_takes_effect :
      (key : Text) (until : Instant)
      → (attempts 0).written ≡ saved
      → get key
          (pass rfc3339 chars collect pump (Event.snooze key until) attempts now).0.state.snoozed
        ≡ some until
  unfolding pass lines reduce snooze run_effects run_effect write write_saved
  snooze_takes_effect key until done =
      elim (Bool-cases (same_instant (get key pump.state.snoozed) until)) [
        | inl e ↦ rw (e, pass, reduce, snooze) (same_instant-eq _ until e)
        | inr e ↦
            rw (e, pass, reduce, snooze)
              (rw (done, explicit_due key until pump.expiry_retry_not_before (attempts 0).now)
                (snoozed_persisted rfc3339 pump.state _ key until refl))
      ]
