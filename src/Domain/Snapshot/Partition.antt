-- ===== src/Domain/Snapshot/Partition.antt =====
-- domain/model.rs: the loop of `snapshot` that sorts incidents into active and snoozed ones.
use mathlib.Core.List.{Perm, perm_middle}
use mathlib.Core.List.Perm
use salmon.Base.{
  ap, Option, none, some, List, [], ◌∷◌, ◌++◌, map, ◌≡◌, refl, Text, Instant, All, Option-cases,
  inl, inr,
}
use mathlib.Core.Path.{subst}
use salmon.Base.Maps.{Map, get, values}
use salmon.Domain.Model.{Incident, SnoozedIncident, AppState}
use salmon.Domain.Snapshot.{deadline, split_snoozed, all_incidents, server_incidents, snapshot}

abbrev pub incidents_of : List SnoozedIncident → List Incident
incidents_of = map (λ x. x.incident)

split_snoozed-perm :
    (snoozed : Map Instant) (now : Instant) (items : List Incident)
    → Perm
        ((split_snoozed snoozed now items).0 ++ incidents_of (split_snoozed snoozed now items).1)
        items
unfolding split_snoozed
split_snoozed-perm snoozed now [] = Perm.refl []
split_snoozed-perm snoozed now (item ∷ items) =
    elim (Option-cases (deadline snoozed item.key now)) [
      | inl e ↦ rw e (Perm.cons item (split_snoozed-perm snoozed now items))
      | inr (until, e) ↦
          rw e
            (Perm.trans (perm_middle _ _) (Perm.cons item (split_snoozed-perm snoozed now items)))
    ]

split_snoozed-active :
    (snoozed : Map Instant) (now : Instant) (items : List Incident)
    → All (λ item. deadline snoozed item.key now ≡ none) (split_snoozed snoozed now items).0
unfolding split_snoozed
split_snoozed-active snoozed now [] = tt
split_snoozed-active snoozed now (item ∷ items) =
    elim (Option-cases (deadline snoozed item.key now)) [
      | inl e ↦ rw e (e, split_snoozed-active snoozed now items)
      | inr (until, e) ↦ rw e (split_snoozed-active snoozed now items)
    ]

split_snoozed-hidden :
    (snoozed : Map Instant) (now : Instant) (items : List Incident)
    → All
        (λ x. deadline snoozed x.incident.key now ≡ some x.until)
        (split_snoozed snoozed now items).1
unfolding split_snoozed
split_snoozed-hidden snoozed now [] = tt
split_snoozed-hidden snoozed now (item ∷ items) =
    elim (Option-cases (deadline snoozed item.key now)) [
      | inl e ↦ rw e (split_snoozed-hidden snoozed now items)
      | inr (until, e) ↦ rw e (e, split_snoozed-hidden snoozed now items)
    ]

abbrev or_none : Option (List Incident) → List Incident
or_none none = []
or_none (some items) = items

-- the lists of these servers
abbrev pub cached : Map (List Incident) → List Text → List Incident
cached incidents [] = []
cached incidents (id ∷ ids) = or_none (get id incidents) ++ cached incidents ids

-- All that the state stores: what the client raised itself, and what each configured server sent.
abbrev pub stored : AppState → List Incident
stored s = map (λ entry. entry.1) s.internal_incidents ++ cached s.incidents s.server_order

server_incidents-cached :
    (incidents : Map (List Incident)) (ids : List Text)
    → server_incidents incidents ids ≡ cached incidents ids
unfolding server_incidents
server_incidents-cached incidents [] = refl
server_incidents-cached incidents (id ∷ ids) = elim (Option-cases (get id incidents)) [
  | inl e ↦ rw (server_incidents, e, cached) (server_incidents-cached incidents ids)
  | inr (items, e) ↦
      rw (server_incidents, e, cached)
        (ap (λ l. items ++ l) (server_incidents-cached incidents ids))
]

all_incidents-stored : (s : AppState) → all_incidents s ≡ stored s
unfolding all_incidents
all_incidents-stored s =
    ap (λ l. values s.internal_incidents ++ l) (server_incidents-cached s.incidents s.server_order)

-- Nothing is lost or shown twice: the active and the snoozed incidents together are the stored
-- ones, those that the client raised itself and those that each configured server sent, each as
-- often; an incident is listed as snoozed, with its deadline, exactly when its key has a deadline
-- after `now`.
pub snapshot_partition :
    (s : AppState) (now : Instant)
    → Perm ((snapshot s now).active ++ incidents_of (snapshot s now).snoozed) (stored s)
      × All (λ item. deadline s.snoozed item.key now ≡ none) (snapshot s now).active
      × All (λ x. deadline s.snoozed x.incident.key now ≡ some x.until) (snapshot s now).snoozed
unfolding snapshot
snapshot_partition s now = (
  subst
      (Perm (
        (split_snoozed s.snoozed now (all_incidents s)).0
        ++ incidents_of (split_snoozed s.snoozed now (all_incidents s)).1))
      (all_incidents-stored s) (split_snoozed-perm s.snoozed now (all_incidents s)),
  split_snoozed-active s.snoozed now (all_incidents s),
  split_snoozed-hidden s.snoozed now (all_incidents s),
)

-- Two snooze maps with the same live deadlines sort the incidents alike.
pub split_snoozed_of_deadlines :
    (m n : Map Instant) (now : Instant) (items : List Incident)
    → ((key : Text) → deadline m key now ≡ deadline n key now)
    → split_snoozed m now items ≡ split_snoozed n now items
unfolding split_snoozed
split_snoozed_of_deadlines m n now [] h = refl
split_snoozed_of_deadlines m n now (item ∷ items) h =
    rw (h item.key, split_snoozed_of_deadlines m n now items h)
