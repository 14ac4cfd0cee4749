-- ===== src/Examples/Views.antt =====
-- cmd/montray-ui/src/ui/projection.rs at concrete rows and ages.
use salmon.Base.{
  ◌↔◌, ℕ, ◌≡◌, ◌%◌, refl, arith, Bool, true, List, [], ◌∷◌, codes, ◌==◌, if◌then◌else◌,
}
use salmon.Base.Decimal.{decimal}
use salmon.Base.Int.{pos, ◌-ℤ◌}
use salmon.Projection.Rows.{SameRows, update_rows_in_place, after_changes, rows_updated}
use salmon.Projection.Ages.{duration, format_relative, rounded_seconds}

-- rows whose identity is their last digit
abbrev same_digit : ℕ → ℕ → Bool
same_digit a b = a % 10 == b % 10

abbrev equal : ℕ → ℕ → Bool
equal a b = a == b

equal_is_equal : (a b : ℕ) → equal a b ≡ true → a ≡ b
equal_is_equal a b h = ground arith

abbrev shown : List ℕ
shown = 1 ∷ 2 ∷ 3 ∷ []

abbrev wanted : List ℕ
wanted = 1 ∷ 12 ∷ 3 ∷ []

rows_updated_example :
    let (changes, updated) = update_rows_in_place same_digit equal shown wanted in
    ((updated ≡ true) ↔ SameRows same_digit shown wanted)
    × (after_changes shown changes ≡ (if updated then wanted else shown))
rows_updated_example = rows_updated same_digit equal equal_is_equal shown wanted

-- a past age is rounded down and a future one up
past_age : format_relative (pos 1000) (pos 92000) ≡ codes "1m ago"
unfolding format_relative rounded_seconds duration decimal ◌-ℤ◌
past_age = refl

future_age : format_relative (pos 92001) (pos 2000) ≡ codes "in 1m"
unfolding format_relative rounded_seconds duration decimal ◌-ℤ◌
future_age = refl
