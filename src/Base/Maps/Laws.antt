-- ===== src/Base/Maps/Laws.antt =====
-- What leaves a map as it was.
use salmon.Base.{Bool, true, false, some, [], ◌∷◌, ◌≡◌, refl, arith, Text, text_eq_iff}
use salmon.Base.Maps.{Map, get, contains_key, remove, modify, retain}

module _ {ℓ} {V : Type ℓ} where
  pub modify_same : (k : Text) (v : V) (m : Map V) → get k m ≡ some v → modify k (λ _. v) m ≡ m
  unfolding get modify
  modify_same k v [] h = refl
  modify_same k v ((j, w) ∷ m) h = ground (arith, modify_same k v m)

  pub remove_absent : (k : Text) (m : Map V) → contains_key k m ≡ false → remove k m ≡ m
  unfolding get remove
  remove_absent k [] h = refl
  remove_absent k ((j, v) ∷ m) h = ground (arith, remove_absent k m)

  -- a `retain` by the key
  pub get-retain_key :
      (keep : Text → Bool) (k : Text) (m : Map V)
      → keep k ≡ true
      → get k (retain (λ j v. keep j) m) ≡ get k m
  unfolding get retain
  get-retain_key keep k [] h = refl
  get-retain_key keep k ((j, v) ∷ m) h = ground (arith, get-retain_key keep k m, text_eq_iff j k)
