-- ===== src/Base/Maps/Sorted.antt =====
-- The order of a `BTreeMap`: strictly ascending keys, which every operation keeps.
use salmon.Base.{
  Bool, true, none, some, [], ◌∷◌, ◌≡◌, refl, arith, Text, text_eq, text_eq_iff, text_lt,
  text_lt_trans, text_lt_total, text_lt_irrefl, text_eq_comm, text_eq_refl, if◌then◌else◌,
  Bool-cases, inl, inr,
}
use salmon.Base.Maps.{Map, get, insert, remove, modify, retain}

abbrev pub Above {ℓ} : {V : Type ℓ} → Text → Map V → Type 0
Above k [] = Unit
Above k ((j, v) ∷ m) = (text_lt k j ≡ true) × Above k m

abbrev pub IsSorted {ℓ} : {V : Type ℓ} → Map V → Type 0
IsSorted [] = Unit
IsSorted ((k, v) ∷ m) = Above k m × IsSorted m

module _ {ℓ} {V : Type ℓ} where
  pub Above-trans : (k j : Text) (m : Map V) → text_lt k j ≡ true → Above j m → Above k m
  Above-trans k j [] h a = tt
  Above-trans k j ((i, v) ∷ m) h a = (text_lt_trans k j i h a.0, Above-trans k j m h a.1)

  insert-Above :
      (b k : Text) (v : V) (m : Map V) → text_lt b k ≡ true → Above b m → Above b (insert k v m)
  unfolding insert
  insert-Above b k v [] h a = (h, tt)
  insert-Above b k v ((j, w) ∷ m) h a = ground (arith, insert-Above b k v m h a.1)

  pub insert-IsSorted : (k : Text) (v : V) (m : Map V) → IsSorted m → IsSorted (insert k v m)
  unfolding insert
  insert-IsSorted k v [] h = (tt, tt)
  insert-IsSorted k v ((j, w) ∷ m) h = elim (Bool-cases (text_eq j k)) [
    | inl same ↦ rw same ((rw ((text_eq_iff j k).0 same) at h.0), h.1)
    | inr other ↦ rw other (elim (Bool-cases (text_lt k j)) [
      | inl below ↦ rw below ((below, Above-trans k j m below h.0), h)
      | inr above ↦ rw above (
        insert-Above j k v m (text_lt_total k j (rw text_eq_comm other) above) h.0,
        insert-IsSorted k v m h.1,
      )
    ])
  ]

  remove-Above : (b k : Text) (m : Map V) → Above b m → Above b (remove k m)
  unfolding remove
  remove-Above b k [] a = tt
  remove-Above b k ((j, v) ∷ m) a = ground (arith, remove-Above b k m a.1)

  pub remove-IsSorted : (k : Text) (m : Map V) → IsSorted m → IsSorted (remove k m)
  unfolding remove
  remove-IsSorted k [] h = tt
  remove-IsSorted k ((j, v) ∷ m) h = ground (arith, remove-Above j k m h.0, remove-IsSorted k m h.1)

  modify-Above : (b k : Text) (f : V → V) (m : Map V) → Above b m → Above b (modify k f m)
  unfolding modify
  modify-Above b k f [] a = tt
  modify-Above b k f ((j, v) ∷ m) a = ground (arith, modify-Above b k f m a.1)

  pub modify-IsSorted : (k : Text) (f : V → V) (m : Map V) → IsSorted m → IsSorted (modify k f m)
  unfolding modify
  modify-IsSorted k f [] h = tt
  modify-IsSorted k f ((j, v) ∷ m) h =
      ground (arith, modify-Above j k f m h.0, modify-IsSorted k f m h.1)

  retain-Above : (b : Text) (p : Text → V → Bool) (m : Map V) → Above b m → Above b (retain p m)
  unfolding retain
  retain-Above b p [] a = tt
  retain-Above b p ((j, v) ∷ m) a = ground (arith, retain-Above b p m a.1)

  pub retain-IsSorted : (p : Text → V → Bool) (m : Map V) → IsSorted m → IsSorted (retain p m)
  unfolding retain
  retain-IsSorted p [] h = tt
  retain-IsSorted p ((j, v) ∷ m) h = ground (arith, retain-Above j p m h.0, retain-IsSorted p m h.1)

  pub get_of_Above : (k : Text) (m : Map V) → Above k m → get k m ≡ none
  unfolding get
  get_of_Above k [] a = refl
  get_of_Above k ((j, v) ∷ m) a =
      ground (arith, get_of_Above k m a.1, text_eq_iff j k, text_lt_irrefl k)

  -- Only in an ordered map is a `retain` seen at one key by that key's entry alone.
  pub get-retain :
      (k : Text) (p : Text → V → Bool) (m : Map V)
      → IsSorted m
      → get k (retain p m)
        ≡ elim (get k m) [ none ↦ none | some v ↦ if p k v then some v else none ]
  unfolding get retain
  get-retain k p [] h = refl
  get-retain k p ((j, v) ∷ m) h = elim (Bool-cases (text_eq j k)) [
    | inl same ↦
        let e = (text_eq_iff j k).0 same in
        let above : Above k m = rw e at h.0 in
        rw same (
          rw e (
            ground (arith, text_eq_refl k, get_of_Above k (retain p m) (retain-Above k p m above))))
    | inr other ↦ rw other (ground (arith, get-retain k p m h.1))
  ]
