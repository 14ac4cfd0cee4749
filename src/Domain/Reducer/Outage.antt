-- ===== src/Domain/Reducer/Outage.antt =====
-- domain/reducer.rs: when a failing socket raises a desktop notification.
use salmon.Base.{
  ℕ, ◌+◌, ◌≤◌, Bool, true, false, not, ◌&&◌, List, [], ◌∷◌, ◌++◌, ◌≡◌, refl, arith, Text, Instant,
  text_eq, text_eq_refl, Option-cases, Bool-cases, inl, inr, if◌then◌else◌, is_empty, All,
}
use salmon.Base.Maps.{Map, get, contains_key, get-insert, get-modify}
use salmon.Domain.Model.{Incident, AppState}
use salmon.Domain.Event.{Effect, notify, persist_snoozes}
use salmon.Domain.Reducer.{
  connection_key, error_title, is_snoozed, raise_internal, connection_failure, disconnected,
}

-- the desktop notifications among the effects
abbrev pub notify_count : List Effect → ℕ
notify_count [] = 0
notify_count (notify title body ∷ effects) = notify_count effects + 1
notify_count (persist_snoozes snoozes action ∷ effects) = notify_count effects

-- A socket failure of a configured server notifies exactly when it has an error text, no failure
-- of its connection is on record and the failure's key is not snoozed; then it is one
-- notification, with that text as its body.
pub disconnected_notifies :
    (rfc3339 : Instant → Text) (s : AppState) (id : Text) (at : Instant) (error : Text)
    → contains_key id s.servers ≡ true
    → (disconnected rfc3339 s id at error).1.effects ≡ (
        if not (is_empty error)
          && (not (contains_key (connection_key id) s.internal_incidents)
              && not (is_snoozed s (connection_key id) at))
        then notify (error_title (connection_key id)) error ∷ []
        else [])
unfolding disconnected connection_failure raise_internal
disconnected_notifies rfc3339 s id at error known = ground arith

-- events of one server's socket: failures, each with an instant and a text
abbrev pub fail_all :
    (Instant → Text) → AppState → Text → List (Instant × Text) → AppState × List Effect
fail_all rfc3339 s id [] = (s, [])
fail_all rfc3339 s id ((at, error) ∷ more) =
    let (t, transition) = disconnected rfc3339 s id at error in
    let (u, effects) = fail_all rfc3339 t id more in (u, transition.effects ++ effects)

abbrev pub HasText : Instant × Text → Type 0
HasText failure = is_empty failure.1 ≡ false

known-disconnected :
    (rfc3339 : Instant → Text) (s : AppState) (id : Text) (at : Instant) (error : Text)
    → contains_key id s.servers ≡ true
    → contains_key id (disconnected rfc3339 s id at error).0.servers ≡ true
unfolding disconnected
known-disconnected rfc3339 s id at error known = elim (Option-cases (get id s.servers)) [
  | inl absent ↦ rw (absent, disconnected) known
  | inr (server, found) ↦ rw (found, disconnected) (rw get-modify (rw (text_eq_refl id, found)))
]

raise_internal_on_record :
    (rfc3339 : Instant → Text) (m : Map Incident) (key : Text) (snoozed : Bool) (at : Instant)
    (error : Text)
    → contains_key key (raise_internal rfc3339 m key snoozed at error).0 ≡ true
unfolding raise_internal
raise_internal_on_record rfc3339 m key snoozed at error = elim (Option-cases (get key m)) [
  | inl absent ↦ rw (absent, raise_internal) (rw get-insert (rw (text_eq_refl key)))
  | inr (item, found) ↦
      rw (found, raise_internal)
        (elim (Bool-cases (text_eq item.details error)) [
          | inl same ↦ rw same (rw found)
          | inr other ↦ rw other (rw get-modify (rw (text_eq_refl key, found)))
        ])
]

on_record-disconnected :
    (rfc3339 : Instant → Text) (s : AppState) (id : Text) (at : Instant) (error : Text)
    → contains_key id s.servers ≡ true
    → is_empty error ≡ false
    → contains_key (connection_key id) (disconnected rfc3339 s id at error).0.internal_incidents
      ≡ true
unfolding disconnected connection_failure
on_record-disconnected rfc3339 s id at error known text = elim (Option-cases (get id s.servers)) [
  | inl absent ↦ absurd (ground arith)
  | inr (server, found) ↦
      rw (found, disconnected)
        (rw text
          (raise_internal_on_record rfc3339 s.internal_incidents (connection_key id) _ at error))
]

notify_count-append :
    (xs ys : List Effect) → notify_count (xs ++ ys) ≡ notify_count xs + notify_count ys
notify_count-append [] ys = omega arith
notify_count-append (notify title body ∷ xs) ys = omega (arith, notify_count-append xs ys)
notify_count-append (persist_snoozes m a ∷ xs) ys = notify_count-append xs ys

silent_on_record :
    (rfc3339 : Instant → Text) (s : AppState) (id : Text) (failures : List (Instant × Text))
    → contains_key id s.servers ≡ true
    → contains_key (connection_key id) s.internal_incidents ≡ true
    → All HasText failures
    → notify_count (fail_all rfc3339 s id failures).1 ≡ 0
silent_on_record rfc3339 s id [] known recorded texts = refl
silent_on_record rfc3339 s id ((at, error) ∷ more) known recorded texts =
    rw (disconnected_notifies rfc3339 s id at error known) (
      rw (texts.0, recorded)
        (silent_on_record rfc3339 (disconnected rfc3339 s id at error).0 id more
          (known-disconnected rfc3339 s id at error known)
          (on_record-disconnected rfc3339 s id at error known texts.0) texts.1))

one_notification :
    (b : Bool) (title body : Text) → notify_count (if b then notify title body ∷ [] else []) ≤ 1
one_notification true title body = omega arith
one_notification false title body = omega arith

-- An outage notifies at most once: however often the socket of a configured server fails in a row,
-- each time with an error text, the failures raise at most one desktop notification together.
pub outage_notifies_once :
    (rfc3339 : Instant → Text) (s : AppState) (id : Text) (failures : List (Instant × Text))
    → contains_key id s.servers ≡ true
    → All HasText failures
    → notify_count (fail_all rfc3339 s id failures).1 ≤ 1
outage_notifies_once rfc3339 s id [] known texts = omega arith
outage_notifies_once rfc3339 s id ((at, error) ∷ more) known texts =
    rw (notify_count-append (disconnected rfc3339 s id at error).1.effects _) (
      rw
        (silent_on_record rfc3339 (disconnected rfc3339 s id at error).0 id more
          (known-disconnected rfc3339 s id at error known)
          (on_record-disconnected rfc3339 s id at error known texts.0) texts.1)
        (rw (disconnected_notifies rfc3339 s id at error known)
          (omega (arith, one_notification _ (error_title (connection_key id)) error))))
