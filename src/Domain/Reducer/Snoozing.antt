-- ===== src/Domain/Reducer/Snoozing.antt =====
-- domain/reducer.rs: the two-phase commit of snoozes. Runtime writes a proposed map and then
-- acknowledges it; `acknowledge` is that second phase for all proposals of a transition.
use salmon.Base.{
  true, none, some, List, [], ◌∷◌, ◌≡◌, refl, ◌≤◌, arith, Text, Instant, text_eq, text_eq_iff,
  Option-cases, inl, inr, ltb, if◌then◌else◌, is_empty, leb,
}
use salmon.Base.Maps.{Map, get, insert, remove, retain, keys, get-insert, get-remove}
use salmon.Base.Maps.Sorted.{IsSorted, get-retain}
use salmon.Domain.Model.{AppState}
use salmon.Domain.Event.{Event, Effect, notify, persist_snoozes}
use salmon.Domain.Snapshot.{deadline, snapshot, all_incidents}
use salmon.Domain.Snapshot.Partition.{split_snoozed_of_deadlines}
use salmon.Domain.Reducer.Changed.{same_snoozes_sound}
use salmon.Domain.Reducer.{
  connected, disconnected, tunnel_ready, tunnel_failed, heartbeat, notification, snooze, unsnooze,
  snoozes_persisted, forget_stale, tick, reduce,
}

abbrev pub acknowledge : AppState → List Effect → AppState
acknowledge s [] = s
acknowledge s (notify title body ∷ effects) = acknowledge s effects
acknowledge s (persist_snoozes snoozes action ∷ effects) =
    acknowledge (snoozes_persisted s snoozes).0 effects

-- the snooze map that an event commits by itself
abbrev pub committed : Event → Map Instant → Map Instant
committed (Event.snoozes_persisted snoozes) old = snoozes
committed _ old = old

snoozed-persisted : (s : AppState) (m : Map Instant) → (snoozes_persisted s m).0.snoozed ≡ m
unfolding snoozes_persisted
snoozed-persisted s m = ground (arith, same_snoozes_sound s.snoozed m)

-- Only the acknowledgement of a written map changes the stored snoozes, and it stores exactly
-- that map; every other event leaves them as they were.
pub snoozed-reduce :
    (rfc3339 : Instant → Text) (s : AppState) (e : Event)
    → (reduce rfc3339 s e).0.snoozed ≡ committed e s.snoozed
unfolding reduce
snoozed-reduce rfc3339 s (Event.connected id at) = unfold connected in ground arith
snoozed-reduce rfc3339 s (Event.disconnected id at error) = unfold disconnected in ground arith
snoozed-reduce rfc3339 s (Event.tunnel_ready id at) = unfold tunnel_ready in ground arith
snoozed-reduce rfc3339 s (Event.tunnel_failed id at error) = unfold tunnel_failed in ground arith
snoozed-reduce rfc3339 s (Event.heartbeat id at) = unfold heartbeat in ground arith
snoozed-reduce rfc3339 s (Event.notification id received at) = unfold notification in ground arith
snoozed-reduce rfc3339 s (Event.snooze key until) = unfold snooze in ground arith
snoozed-reduce rfc3339 s (Event.unsnooze key) = unfold unsnooze in ground arith
snoozed-reduce rfc3339 s (Event.snoozes_persisted m) = snoozed-persisted s m
snoozed-reduce rfc3339 s (Event.forget_stale key) = unfold forget_stale in ground arith
snoozed-reduce rfc3339 s (Event.tick at) = unfold tick in ground arith

-- A snooze request alone changes nothing; once its proposal is acknowledged, its key has exactly
-- the requested deadline and every other key the one it had.
pub snooze_commit :
    (s : AppState) (key : Text) (until : Instant)
    → ((snooze s key until).0 ≡ s)
      × ((j : Text)
          → get j (acknowledge s (snooze s key until).1.effects).snoozed
            ≡ (if text_eq key j then some until else get j s.snoozed))
unfolding snooze
snooze_commit s key until = (
  ground arith,
  λ j. ground (
    arith,
    snoozed-persisted s (insert key until s.snoozed),
    text_eq_iff key j,
    get-insert key j until s.snoozed,
  ),
)

-- An unsnooze request alone changes nothing; once its proposal is acknowledged, its key has no
-- deadline and every other key the one it had.
pub unsnooze_commit :
    (s : AppState) (key : Text)
    → ((unsnooze s key).0 ≡ s)
      × ((j : Text)
          → get j (acknowledge s (unsnooze s key).1.effects).snoozed
            ≡ (if text_eq key j then none else get j s.snoozed))
unfolding unsnooze
unsnooze_commit s key = (
  ground arith,
  λ j. ground (
    arith,
    snoozed-persisted s (remove key s.snoozed),
    text_eq_iff key j,
    get-remove key j s.snoozed,
  ),
)

expired_split :
    (at : Instant) (m : Map Instant)
    → is_empty (keys (retain (λ _ until. leb until at) m)) ≡ true
    → retain (λ _ until. ltb at until) m ≡ m
unfolding retain
expired_split at [] h = refl
expired_split at ((k, t) ∷ m) h = ground (arith, expired_split at m)

snoozed-tick :
    (s : AppState) (at : Instant)
    → (acknowledge s (tick s at).1.effects).snoozed ≡ retain (λ _ until. ltb at until) s.snoozed
unfolding tick
snoozed-tick s at = ground (
  arith,
  expired_split at s.snoozed,
  snoozed-persisted s (retain (λ _ until. ltb at until) s.snoozed),
)

-- A tick alone changes nothing; once its proposal is acknowledged, each key has the deadline that
-- it had, if that lies after the tick, and none else.
pub tick_commit :
    (s : AppState) (at : Instant)
    → IsSorted s.snoozed
    → ((tick s at).0 ≡ s)
      × ((j : Text) → get j (acknowledge s (tick s at).1.effects).snoozed ≡ deadline s.snoozed j at)
unfolding deadline
tick_commit s at h = (
  unfold tick in ground arith,
  λ j. rw snoozed-tick (get-retain j (λ _ until. ltb at until) s.snoozed h),
)

deadline_later :
    (m n : Map Instant) (at now : Instant) (j : Text)
    → at ≤ now
    → get j n ≡ deadline m j at
    → deadline n j now ≡ deadline m j now
unfolding deadline
deadline_later m n at now j h e = elim (Option-cases (get j m)) [
  | inl none_at ↦ ground arith
  | inr (t, some_at) ↦ ground arith
]

acknowledge-tick_rest :
    (s : AppState) (at : Instant)
    → let t = acknowledge s (tick s at).1.effects in
      (t.server_order ≡ s.server_order)
      × (t.servers ≡ s.servers)
      × (all_incidents t ≡ all_incidents s)
unfolding tick snoozes_persisted all_incidents
acknowledge-tick_rest s at = ground arith

-- Cleaning up expired snoozes is invisible: from the tick on, the view of the state with the
-- acknowledged cleanup is the view of the state without it.
pub snapshot-tick :
    (s : AppState) (at now : Instant)
    → IsSorted s.snoozed
    → at ≤ now
    → snapshot (acknowledge s (tick s at).1.effects) now ≡ snapshot s now
unfolding snapshot
snapshot-tick s at now h le =
    let t = acknowledge s (tick s at).1.effects in
    let rest = acknowledge-tick_rest s at in
    rw (rest.0, rest.1, rest.2)
      (rw (
        split_snoozed_of_deadlines t.snoozed s.snoozed now (all_incidents s)
          (λ j. deadline_later s.snoozed t.snoozed at now j le ((tick_commit s at h).1 j))))
