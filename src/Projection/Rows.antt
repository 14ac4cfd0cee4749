-- ===== src/Projection/Rows.antt =====
-- ui/projection.rs: `update_rows_in_place`. A model is the list of its rows, and the changes that its
-- views are told about are the rows that are set.
use salmon.Base.{
  ◌↔◌, ℕ, suc, ◌+◌, ◌≡◌, ◌∙◌, ap, refl, Bool, true, false, not, ◌&&◌, List, [], ◌∷◌, ◌++◌,
  append_assoc, length, ◌==◌, if◌then◌else◌, Bool-cases, inl, inr, arith,
}

module _ {Row : Type 0} (same_identity equal : Row → Row → Bool) where
  -- every row keeps its identity
  unfoldable pub keeps_identity : List Row → List Row → Bool
  keeps_identity [] rows = true
  keeps_identity (old ∷ current) [] = true
  keeps_identity (old ∷ current) (row ∷ rows) = same_identity old row && keeps_identity current rows

  -- `set_row_data` for the rows that differ, from an index on
  unfoldable pub set_rows : ℕ → List Row → List Row → List (ℕ × Row)
  set_rows index [] rows = []
  set_rows index (old ∷ current) [] = []
  set_rows index (old ∷ current) (row ∷ rows) =
      let rest = set_rows (index + 1) current rows in
      if equal old row then rest else (index, row) ∷ rest

  -- the changes, and whether the rows were updated in place
  unfoldable pub update_rows_in_place : List Row → List Row → List (ℕ × Row) × Bool
  update_rows_in_place current rows =
      if not (length current == length rows)
      then ([], false)
      else if not (keeps_identity current rows)
      then ([], false)
      else (set_rows 0 current rows, true)

-- the same identity at each place
abbrev pub SameRows : {Row : Type 0} → (Row → Row → Bool) → List Row → List Row → Type 0
SameRows same_identity [] [] = Unit
SameRows same_identity [] (row ∷ rows) = ⊥
SameRows same_identity (old ∷ current) [] = ⊥
SameRows same_identity (old ∷ current) (row ∷ rows) =
    (same_identity old row ≡ true) × SameRows same_identity current rows

-- a model after one change
abbrev pub set_row : {Row : Type 0} → List Row → ℕ → ℕ → Row → List Row
set_row [] at index row = []
set_row (old ∷ current) at index row =
    let rest = set_row current (at + 1) index row in
    if at == index then row ∷ current else old ∷ rest

abbrev pub after_changes : {Row : Type 0} → List Row → List (ℕ × Row) → List Row
after_changes current [] = current
after_changes current ((index, row) ∷ changes) = after_changes (set_row current 0 index row) changes

length-snoc :
    {Row : Type 0} (rows : List Row) (row : Row) → length (rows ++ (row ∷ [])) ≡ length rows + 1
length-snoc [] row = refl
length-snoc (first ∷ rows) row = ground (arith, length-snoc rows row)

set_row-append :
    {Row : Type 0} (front current : List Row) (old row : Row) (at : ℕ)
    → set_row (front ++ (old ∷ current)) at (at + length front) row ≡ front ++ (row ∷ current)
set_row-append [] current old row at = ground arith
set_row-append (first ∷ front) current old row at =
    let e : at + suc (length front) ≡ at + 1 + length front = omega arith in
    rw e (ground (arith, set_row-append front current old row (at + 1)))

set_row_front :
    {Row : Type 0} (front current : List Row) (old row : Row)
    → set_row (front ++ (old ∷ current)) 0 (length front) row ≡ front ++ (row ∷ current)
set_row_front front current old row =
    let e : length front ≡ 0 + length front = omega arith in
    ap (λ k. set_row (front ++ (old ∷ current)) 0 k row) e ∙ set_row-append front current old row 0

module _ {Row : Type 0} (same_identity equal : Row → Row → Bool)
    (lawful : (a b : Row) → equal a b ≡ true → a ≡ b) where
  after_one :
      (old row : Row) (current rows front : List Row)
      → after_changes
          ((front ++ (row ∷ [])) ++ current)
          (set_rows same_identity equal (length (front ++ (row ∷ []))) current rows)
        ≡ (front ++ (row ∷ [])) ++ rows
      → after_changes
          (front ++ (old ∷ current))
          (set_rows same_identity equal (length front) (old ∷ current) (row ∷ rows))
        ≡ front ++ (row ∷ rows)
  unfolding set_rows
  after_one old row current rows front h =
      let next =
        (rw
          (
            append_assoc front (row ∷ []) current,
            append_assoc front (row ∷ []) rows,
            length-snoc front row,
          )
          at h) in
      elim (Bool-cases (equal old row)) [
        | inl e ↦ rw (e, set_rows) (rw (lawful old row e) next)
        | inr e ↦ rw (e, set_rows) (rw (set_row_front front current old row, after_changes) next)
      ]

  after-set_rows :
      (current rows front : List Row)
      → length current ≡ length rows
      → after_changes (front ++ current) (set_rows same_identity equal (length front) current rows)
        ≡ front ++ rows
  unfolding set_rows
  after-set_rows [] [] front h = refl
  after-set_rows [] (row ∷ rows) front h = absurd (omega arith)
  after-set_rows (old ∷ current) [] front h = absurd (omega arith)
  after-set_rows (old ∷ current) (row ∷ rows) front h =
      after_one old row current rows front
        (after-set_rows current rows (front ++ (row ∷ [])) (omega arith))

  keeps_identity-SameRows :
      (current rows : List Row)
      → length current ≡ length rows
      → (keeps_identity same_identity equal current rows ≡ true)
        ↔ SameRows same_identity current rows
  unfolding keeps_identity
  keeps_identity-SameRows [] [] h = (λ k. tt, λ k. refl)
  keeps_identity-SameRows [] (row ∷ rows) h = absurd (omega arith)
  keeps_identity-SameRows (old ∷ current) [] h = absurd (omega arith)
  keeps_identity-SameRows (old ∷ current) (row ∷ rows) h =
      let (there, back) = keeps_identity-SameRows current rows (omega arith) in
      (λ k. (ground arith, there (ground arith)), λ k. ground (arith, k.0, back k.1))

  length-SameRows :
      (current rows : List Row) → SameRows same_identity current rows → length current ≡ length rows
  length-SameRows [] [] h = refl
  length-SameRows [] (row ∷ rows) h = absurd h
  length-SameRows (old ∷ current) [] h = absurd h
  length-SameRows (old ∷ current) (row ∷ rows) h = ap suc (length-SameRows current rows h.1)

  -- Exactly where the new rows are as many as the shown ones, with the same identity at each place,
  -- they are shown by changes of single rows, which leave exactly the new rows; otherwise nothing is
  -- changed and the caller is told to replace the model. Rows that are tested as equal must be equal.
  pub rows_updated :
      (current rows : List Row)
      → let (changes, updated) = update_rows_in_place same_identity equal current rows in
        ((updated ≡ true) ↔ SameRows same_identity current rows)
        × (after_changes current changes ≡ (if updated then rows else current))
  unfolding update_rows_in_place
  rows_updated current rows = elim (Bool-cases (length current == length rows)) [
    | inr e ↦
        rw (e, update_rows_in_place)
          ((λ h. cc, λ h. absurd (other_length e (length-SameRows current rows h))), refl)
    | inl e ↦
        let same : length current ≡ length rows = ground arith in
        let (there, back) = keeps_identity-SameRows current rows same in
        elim (Bool-cases (keeps_identity same_identity equal current rows)) [
          | inr f ↦ rw (e, f, update_rows_in_place) ((λ h. cc, λ h. cc (back h, f)), refl)
          | inl f ↦
              rw (e, f, update_rows_in_place)
                ((λ h. there f, λ h. refl), after-set_rows current rows [] same)
        ]
  ]
    where
      other_length : (length current == length rows) ≡ false → length current ≡ length rows → ⊥
      other_length e h = ground arith
