-- ===== src/Base/Maps/Entries.antt =====
-- A property of every entry of a map, and the operations that keep it.
use mathlib.Core.Path.{subst}
use salmon.Base.{
  some, [], ◌∷◌, ◌≡◌, sym, arith, Text, text_eq, text_eq_iff, text_lt, Bool-cases, inl, inr,
}
use salmon.Base.Maps.{Map, get, insert, remove, modify}

module _ {ℓ κ} {V : Type ℓ} where
  abbrev pub Entries : (Text → V → Type κ) → Map V → Type κ
  Entries P [] = Unit
  Entries P ((k, v) ∷ m) = P k v × Entries P m

module _ {ℓ κ} {V : Type ℓ} (P : Text → V → Type κ) where
  pub insert-Entries :
      (k : Text) (v : V) (m : Map V) → P k v → Entries P m → Entries P (insert k v m)
  unfolding insert
  insert-Entries k v [] p h = (p, tt)
  insert-Entries k v ((j, w) ∷ m) p h = elim (Bool-cases (text_eq j k)) [
    | inl same ↦ rw same (p, h.1)
    | inr other ↦ rw other (elim (Bool-cases (text_lt k j)) [
      | inl below ↦ rw below (p, h)
      | inr above ↦ rw above (h.0, insert-Entries k v m p h.1)
    ])
  ]

  pub remove-Entries : (k : Text) (m : Map V) → Entries P m → Entries P (remove k m)
  unfolding remove
  remove-Entries k [] h = tt
  remove-Entries k ((j, v) ∷ m) h = elim (Bool-cases (text_eq j k)) [
    | inl same ↦ rw same (remove-Entries k m h.1)
    | inr other ↦ rw other (h.0, remove-Entries k m h.1)
  ]

  pub modify-Entries :
      (k : Text) (f : V → V) (m : Map V)
      → ((v : V) → P k v → P k (f v))
      → Entries P m
      → Entries P (modify k f m)
  unfolding modify
  modify-Entries k f [] step h = tt
  modify-Entries k f ((j, v) ∷ m) step h = elim (Bool-cases (text_eq j k)) [
    | inl same ↦
        let e = (text_eq_iff j k).0 same in
        rw same (subst (λ i. P i (f v)) (sym e) (step v (subst (λ i. P i v) e h.0)), h.1)
    | inr other ↦ rw other (h.0, modify-Entries k f m step h.1)
  ]

  pub entry_of_get : (k : Text) (v : V) (m : Map V) → get k m ≡ some v → Entries P m → P k v
  unfolding get
  entry_of_get k v [] e h = cc
  entry_of_get k v ((j, w) ∷ m) e h = elim (Bool-cases (text_eq j k)) [
    | inl same ↦
        let p : P k w = subst (λ i. P i w) ((text_eq_iff j k).0 same) h.0 in
        subst (λ u. P k u) (ground arith) p
    | inr other ↦ entry_of_get k v m (ground arith) h.1
  ]
