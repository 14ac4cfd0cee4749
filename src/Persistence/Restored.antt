-- ===== src/Persistence/Restored.antt =====
-- persistence.rs: the snoozes that are stored are those that the next start reads.
use salmon.Base.{
  ◌≡◌, ◌∙◌, refl, true, Option, none, some, [], ◌∷◌, Text, Instant, is_some, text_eq, text_lt,
  text_eq_iff, text_eq_refl, text_lt_total, Bool-cases, Option-cases, inl, inr, arith,
}
use salmon.Base.Results.{ok}
use salmon.Base.Maps.{Map, get, contains_key}
use salmon.Base.Maps.Entries.{Entries}
use salmon.Base.Maps.Sorted.{
  Above, Above-trans, IsSorted, get_of_Above, get-retain, retain-IsSorted,
}
use salmon.Persistence.{
  SnoozeEntry, StateFile, survivors, replace_snoozes, decode_entries, decoded_snoozes,
}
use salmon.Persistence.Replaced.{deadline_of, deadline_after, IsPut, put_all-IsPut}

-- The formatter has a text for each deadline, and the parser reads it back.
abbrev pub IsInverse : (Instant → Option Text) → (Text → Option Instant) → Type 0
IsInverse format parse =
    (until : Instant) (shown : Text) → format until ≡ some shown → parse shown ≡ some until

module _ {Value : Type 0} (format : Instant → Option Text) (parse : Text → Option Instant)
    (back : IsInverse format parse) where
  -- the file and the snoozes have the same deadlines
  abbrev Aligned : Map (SnoozeEntry Value) → Map Instant → Type 0
  Aligned entries snoozes =
      (j : Text) → deadline_of (get j entries) ≡ deadline_after format (get j snoozes) none

  -- Two ordered maps with the same deadlines begin with the same key.
  same_key :
      (k l : Text) (entry : SnoozeEntry Value) (until : Instant) (entries : Map (SnoozeEntry Value))
      (snoozes : Map Instant)
      → Above k entries
      → Above l snoozes
      → is_some (format until) ≡ true
      → Aligned ((k, entry) ∷ entries) ((l, until) ∷ snoozes)
      → k ≡ l
  unfolding get
  same_key k l entry until entries snoozes ha hb f same = elim (Bool-cases (text_eq k l)) [
    | inl e ↦ (text_eq_iff k l).0 e
    | inr differ ↦ elim (Bool-cases (text_lt k l)) [
      | inl less ↦
          let absent = get_of_Above k snoozes (Above-trans k l snoozes less hb) in
          absurd (ground (arith, same k, absent, text_eq_refl k, text_eq_iff l k, text_eq_iff k l))
      | inr more ↦
          let absent =
            get_of_Above l entries (Above-trans l k entries (text_lt_total k l differ more) ha) in
          absurd (ground (arith, same l, absent, text_eq_refl l, text_eq_iff l k, text_eq_iff k l))
    ]
  ]

  -- what is behind the common first key has the same deadlines
  same_rest :
      (k : Text) (entry : SnoozeEntry Value) (until : Instant) (entries : Map (SnoozeEntry Value))
      (snoozes : Map Instant)
      → Above k entries
      → Above k snoozes
      → Aligned ((k, entry) ∷ entries) ((k, until) ∷ snoozes)
      → Aligned entries snoozes
  unfolding get
  same_rest k entry until entries snoozes ha hb same j = elim (Bool-cases (text_eq k j)) [
    | inl e ↦
        let absent_entry = get_of_Above j entries (rw ((text_eq_iff k j).0 e) at ha) in
        let absent_snooze = get_of_Above j snoozes (rw ((text_eq_iff k j).0 e) at hb) in
        rw (absent_entry, absent_snooze) refl
    | inr other ↦ ground (arith, same j)
  ]

  first_deadline :
      (k : Text) (entry : SnoozeEntry Value) (until : Instant) (entries : Map (SnoozeEntry Value))
      (snoozes : Map Instant)
      → Aligned ((k, entry) ∷ entries) ((k, until) ∷ snoozes)
      → parse entry.snoozed_until ≡ some until
  unfolding get
  first_deadline k entry until entries snoozes same =
      back until entry.snoozed_until (ground (arith, same k, text_eq_refl k))

  no_entries :
      (entries : Map (SnoozeEntry Value))
      → Aligned entries []
      → decode_entries parse entries ≡ ok []
  unfolding get decode_entries
  no_entries [] same = refl
  no_entries ((k, entry) ∷ entries) same = absurd (ground (arith, same k, text_eq_refl k))

  decode_step :
      (k : Text) (entry : SnoozeEntry Value) (until : Instant) (entries : Map (SnoozeEntry Value))
      (snoozes : Map Instant)
      → parse entry.snoozed_until ≡ some until
      → decode_entries parse entries ≡ ok snoozes
      → decode_entries parse ((k, entry) ∷ entries) ≡ ok ((k, until) ∷ snoozes)
  unfolding decode_entries
  decode_step k entry until entries snoozes h rest = rw (h, decode_entries) (rw rest refl)

  decoded_same :
      (entries : Map (SnoozeEntry Value)) (snoozes : Map Instant)
      → IsSorted entries
      → IsSorted snoozes
      → Entries (λ key until. is_some (format until) ≡ true) snoozes
      → Aligned entries snoozes
      → decode_entries parse entries ≡ ok snoozes
  unfolding get decode_entries
  decoded_same entries [] ha hb f same = no_entries entries same
  decoded_same [] ((l, until) ∷ snoozes) ha hb f same =
      absurd (ground (arith, same l, text_eq_refl l, f.0))
  decoded_same ((k, entry) ∷ entries) ((l, until) ∷ snoozes) ha hb f same =
      let e = same_key k l entry until entries snoozes ha.0 hb.0 f.0 same in
      rw e (
        decode_step l entry until entries snoozes
          (first_deadline l entry until entries snoozes (rw e at same))
          (decoded_same entries snoozes ha.1 hb.1 f.1
            (same_rest l entry until entries snoozes (rw e at ha.0) hb.0 (rw e at same))))

  survivors-Aligned :
      (entries : Map (SnoozeEntry Value)) (snoozes : Map Instant) (result : Map (SnoozeEntry Value))
      → IsSorted entries
      → IsPut format snoozes (survivors format snoozes entries) result
      → Aligned result snoozes
  survivors-Aligned entries snoozes result h (sorted, view) j =
      view j ∙ elim (Option-cases (get j snoozes)) [
        | inl absent ↦
            rw absent (
              ground
                (arith, get-retain j (λ key entry. contains_key key snoozes) entries h, absent))
        | inr (until, found) ↦ rw found refl
      ]

  -- What is stored is what the next start reads: when the file's entries and the snoozes are ordered
  -- by key, and the formatter has a text for each deadline that the parser reads back, replacing the
  -- snoozes of the file succeeds, and decoding the new file gives exactly those snoozes.
  pub restored_snoozes :
      (file : StateFile Value) (snoozes : Map Instant)
      → IsSorted file.snoozed
      → IsSorted snoozes
      → Entries (λ key until. is_some (format until) ≡ true) snoozes
      → (replaced : StateFile Value) × (replace_snoozes format file snoozes ≡ ok replaced)
        × (decoded_snoozes parse replaced ≡ ok snoozes)
  unfolding replace_snoozes decoded_snoozes
  restored_snoozes file snoozes h k f =
      let (result, done, put) =
        put_all-IsPut format snoozes (survivors format snoozes file.snoozed) f k
          (retain-IsSorted _ file.snoozed h) in
      (
        record file { snoozed = result },
        rw done refl,
        decoded_same result snoozes put.0 k f (survivors-Aligned file.snoozed snoozes result h put),
      )
