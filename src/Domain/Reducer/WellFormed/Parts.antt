-- ===== src/Domain/Reducer/WellFormed/Parts.antt =====
-- domain/reducer.rs: the invariant of each map of the state, and the steps that keep it.
use salmon.Base.{
  Bool, true, false, List, [], ◌∷◌, ◌++◌, map, ◌≡◌, refl, arith, Text, Instant, codes, text_eq,
  Option-cases, Bool-cases, inl, inr, All, All-keep, starts_with, starts_with-append, append_assoc,
}
use salmon.Base.Maps.{Map, get, remove, modify}
use salmon.Base.Maps.Entries.{Entries, insert-Entries, remove-Entries, modify-Entries, entry_of_get}
use salmon.Base.Maps.Sorted.{Above, IsSorted, insert-IsSorted, remove-IsSorted, modify-IsSorted}
use salmon.Domain.Model.{IncidentState, Incident, ServerStatus}
use salmon.Domain.Snapshot.{is_internal}
use salmon.Domain.Reducer.{
  kept, prefixed, mark_stale, connection_key, tunnel_key, raise_internal, connection_failure,
  mark_server_stale, forget_in,
}

-- an internal incident, as the reducer makes it
abbrev pub IsInternalEntry : Text → Incident → Type 0
IsInternalEntry key item =
    (item.key ≡ key)
    × (is_internal key ≡ true)
    × (item.state ≡ IncidentState.error)
    × (item.stale ≡ false)

-- the cached incidents of a server carry its name
abbrev pub IsQualified : Text → List Incident → Type 0
IsQualified id = All (λ item. starts_with item.key (id ++ codes ".") ≡ true)

pub connection_key-is_internal : (id : Text) → is_internal (connection_key id) ≡ true
unfolding connection_key is_internal starts_with
connection_key-is_internal id = refl

pub tunnel_key-is_internal : (id : Text) → is_internal (tunnel_key id) ≡ true
unfolding tunnel_key is_internal starts_with
tunnel_key-is_internal id = refl

-- the two maps of internal incidents are good in the same way
abbrev pub IsInternalMap : Map Incident → Type 0
IsInternalMap m = IsSorted m × Entries IsInternalEntry m

pub remove-IsInternalMap :
    (key : Text) (m : Map Incident) → IsInternalMap m → IsInternalMap (remove key m)
remove-IsInternalMap key m h = (remove-IsSorted key m h.0, remove-Entries IsInternalEntry key m h.1)

pub raise_internal-IsInternalMap :
    (rfc3339 : Instant → Text) (m : Map Incident) (key : Text) (snoozed : Bool) (at : Instant)
    (error : Text)
    → is_internal key ≡ true
    → IsInternalMap m
    → IsInternalMap (raise_internal rfc3339 m key snoozed at error).0
unfolding raise_internal
raise_internal-IsInternalMap rfc3339 m key snoozed at error k h = elim (Option-cases (get key m)) [
  | inl absent ↦
      rw (absent, raise_internal)
        (
          insert-IsSorted key _ m h.0,
          insert-Entries IsInternalEntry key _ m (refl, k, refl, refl) h.1,
        )
  | inr (item, found) ↦
      rw (found, raise_internal)
        (elim (Bool-cases (text_eq item.details error)) [
          | inl same ↦ rw same h
          | inr other ↦ rw other (
            modify-IsSorted key _ m h.0,
            modify-Entries IsInternalEntry key _ m
                (λ _ _. entry_of_get IsInternalEntry key item m found h.1) h.1,
          )
        ])
]

pub connection_failure-IsInternalMap :
    (rfc3339 : Instant → Text) (m : Map Incident) (key : Text) (snoozed : Bool) (at : Instant)
    (error : Text)
    → is_internal key ≡ true
    → IsInternalMap m
    → IsInternalMap (connection_failure rfc3339 m key snoozed at error).0
unfolding connection_failure
connection_failure-IsInternalMap rfc3339 m key snoozed at [] k h = remove-IsInternalMap key m h
connection_failure-IsInternalMap rfc3339 m key snoozed at (c ∷ error) k h =
    raise_internal-IsInternalMap rfc3339 m key snoozed at (c ∷ error) k h

-- the incidents that a server's map holds, and the status map
abbrev pub IsCache : Map (List Incident) → Type 0
IsCache m = IsSorted m × Entries IsQualified m

abbrev pub IsStatusMap : Map ServerStatus → Type 0
IsStatusMap m = IsSorted m × Entries (λ id status. status.id ≡ id) m

pub mark_stale-IsQualified :
    (id : Text) (items : List Incident) → IsQualified id items → IsQualified id (mark_stale items).0
unfolding mark_stale
mark_stale-IsQualified id [] h = tt
mark_stale-IsQualified id (item ∷ items) h = ground (arith, mark_stale-IsQualified id items h.1)

pub mark_server_stale-IsCache :
    (m : Map (List Incident)) (id : Text) → IsCache m → IsCache (mark_server_stale m id).0
unfolding mark_server_stale
mark_server_stale-IsCache m id h = elim (Option-cases (get id m)) [
  | inl absent ↦ rw (absent, mark_server_stale) h
  | inr (items, found) ↦
      rw (found, mark_server_stale)
        (
          modify-IsSorted id _ m h.0,
          modify-Entries IsQualified id _ m
              (λ _ _.
                mark_stale-IsQualified id items (entry_of_get IsQualified id items m found h.1))
              h.1,
        )
]

pub set_status-IsStatusMap :
    (id : Text) (status : ServerStatus) (m : Map ServerStatus)
    → status.id ≡ id
    → IsStatusMap m
    → IsStatusMap (modify id (λ _. status) m)
set_status-IsStatusMap id status m e h =
    (modify-IsSorted id _ m h.0, modify-Entries _ id _ m (λ _ _. e) h.1)

pub qualify-IsQualified :
    (id : Text) (items : List Incident) → IsQualified id (map (λ item. prefixed item id) items)
unfolding prefixed
qualify-IsQualified id [] = tt
qualify-IsQualified id (item ∷ items) = (
  rw (← append_assoc) (starts_with-append (id ++ codes ".") item.key),
  qualify-IsQualified id items,
)

pub forget_in-Above :
    (b key : Text) (m : Map (List Incident)) → Above b m → Above b (forget_in key m).0
unfolding forget_in
forget_in-Above b key [] h = tt
forget_in-Above b key ((id, items) ∷ m) h = (h.0, forget_in-Above b key m h.1)

pub forget_in-IsCache :
    (key : Text) (m : Map (List Incident)) → IsCache m → IsCache (forget_in key m).0
unfolding forget_in
forget_in-IsCache key [] h = (tt, tt)
forget_in-IsCache key ((id, items) ∷ m) (sorted, entries) =
    let rest = forget_in-IsCache key m (sorted.1, entries.1) in
    (
      (forget_in-Above id key m sorted.0, rest.0),
      (
        All-keep (λ item. starts_with item.key (id ++ codes ".") ≡ true) (kept key) items entries.0,
        rest.1,
      ),
    )
