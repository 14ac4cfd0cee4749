-- ===== src/Persistence/Replaced.antt =====
-- persistence.rs: what `replace_snoozes` leaves under each key.
use salmon.Base.{
  ◌≡◌, ◌∙◌, sym, refl, true, Option, none, some, [], ◌∷◌, Text, Instant, is_some, text_eq,
  text_eq_iff, if◌then◌else◌, Bool-cases, Option-cases, inl, inr, arith,
}
use salmon.Base.Results.{ok}
use salmon.Base.Maps.{Map, get, contains_key, get-insert, get-modify}
use salmon.Base.Maps.Sorted.{Above, IsSorted, insert-IsSorted, modify-IsSorted, get_of_Above}
use salmon.Base.Maps.Entries.{Entries}
use salmon.Persistence.{SnoozeEntry, put, put_all}

-- the deadline under a key: the new one, or else the old one
abbrev pub deadline_after : (Instant → Option Text) → Option Instant → Option Text → Option Text
deadline_after format none old = old
deadline_after format (some until) old = format until

module _ {Value : Type 0} where
  abbrev pub deadline_of : Option (SnoozeEntry Value) → Option Text
  deadline_of none = none
  deadline_of (some entry) = some entry.snoozed_until

  deadline-put :
      (key formatted : Text) (entries : Map (SnoozeEntry Value)) (j : Text)
      → deadline_of (get j (put key formatted entries))
        ≡ (if text_eq key j then some formatted else deadline_of (get j entries))
  unfolding put
  deadline-put key formatted entries j = elim (Option-cases (get key entries)) [
    | inl e ↦
        rw (e, put)
          (ground
            (arith, get-insert key j (record { snoozed_until = formatted; extra = [] }) entries))
    | inr (entry, e) ↦
        rw (e, put)
          (ground (
            arith,
            get-modify key j (λ old. record old { snoozed_until = formatted }) entries,
            text_eq_iff key j,
          ))
  ]

  put-IsSorted :
      (key formatted : Text) (entries : Map (SnoozeEntry Value))
      → IsSorted entries
      → IsSorted (put key formatted entries)
  unfolding put
  put-IsSorted key formatted entries h = elim (Bool-cases (contains_key key entries)) [
    | inl e ↦ rw (e, put) (modify-IsSorted key _ entries h)
    | inr e ↦ rw (e, put) (insert-IsSorted key _ entries h)
  ]

  -- a map that `put_all` may give
  abbrev pub IsPut :
      (Instant → Option Text)
      → Map Instant
      → Map (SnoozeEntry Value)
      → Map (SnoozeEntry Value)
      → Type 0
  IsPut format snoozes entries result =
      IsSorted result
      × ((j : Text)
          → deadline_of (get j result)
            ≡ deadline_after format (get j snoozes) (deadline_of (get j entries)))

  put_view :
      (format : Instant → Option Text) (key : Text) (until : Instant) (snoozes : Map Instant)
      (entries : Map (SnoozeEntry Value)) (formatted j : Text)
      → format until ≡ some formatted
      → Above key snoozes
      → deadline_after format (get j snoozes) (deadline_of (get j (put key formatted entries)))
        ≡ deadline_after format (get j ((key, until) ∷ snoozes)) (deadline_of (get j entries))
  unfolding get
  put_view format key until snoozes entries formatted j e above =
      elim (Bool-cases (text_eq key j)) [
        | inl same ↦
            rw (deadline-put key formatted entries j, same)
              (rw (get_of_Above j snoozes (rw ((text_eq_iff key j).0 same) at above)) (sym e))
        | inr other ↦ rw (deadline-put key formatted entries j, other) refl
      ]

  pub put_all-IsPut :
      (format : Instant → Option Text) (snoozes : Map Instant) (entries : Map (SnoozeEntry Value))
      → Entries (λ key until. is_some (format until) ≡ true) snoozes
      → IsSorted snoozes
      → IsSorted entries
      → (result : Map (SnoozeEntry Value)) × (put_all format snoozes entries ≡ ok result)
        × IsPut format snoozes entries result
  unfolding put_all get
  put_all-IsPut format [] entries f h k = (entries, refl, (k, λ j. refl))
  put_all-IsPut format ((key, until) ∷ snoozes) entries f h k = elim (Option-cases (format until)) [
    | inl e ↦ absurd (ground arith)
    | inr (formatted, e) ↦
        let (result, done, (sorted, view)) =
          put_all-IsPut format snoozes (put key formatted entries) f.1 h.1
            (put-IsSorted key formatted entries k) in
        (
          result,
          rw (e, put_all) done,
          (sorted, λ j. view j ∙ put_view format key until snoozes entries formatted j e h.0),
        )
  ]
