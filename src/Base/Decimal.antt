-- ===== src/Base/Decimal.antt =====
-- Numbers in decimal: `to_string` of an unsigned number, and `str::parse` for one with a bound.
use salmon.Base.{
  ◌≢◌, Bool-cases, inl, inr, ltb→lt, ltb→ge, ℕ, zero, suc, ◌+◌, ◌*◌, ◌-◌, ◌/◌, ◌%◌, ◌≤◌, ◌<◌, Bool,
  true, ◌&&◌, Option, none, some, [], ◌∷◌, ◌≡◌, refl, ap, ◌∙◌, arith, Text, leb, ltb, ◌==◌,
  if◌then◌else◌, is_empty,
}

is_digit : ℕ → Bool
is_digit c = leb b'0' c && leb c b'9'

-- Each round takes one digit off, so `n` rounds are enough for a number below `n`.
digits : ℕ → ℕ → Text → Text
digits zero n rest = rest
digits (suc fuel) n rest =
    let more = digits fuel (n / 10) ((b'0' + n % 10) ∷ rest) in
    if ltb n 10 then (b'0' + n) ∷ rest else more

unfoldable pub decimal : ℕ → Text
unfolding digits
decimal n = digits (suc n) n []

parse_digits : ℕ → Text → Option ℕ
unfolding is_digit
parse_digits acc [] = some acc
parse_digits acc (c ∷ cs) =
    let rest = parse_digits (acc * 10 + (c - b'0')) cs in if is_digit c then rest else none

-- a number above the bound is an error, wherever it overflows
up_to : ℕ → Option ℕ → Option ℕ
up_to bound none = none
up_to bound (some n) = if leb n bound then some n else none

strip_plus : Text → Text
strip_plus [] = []
strip_plus (c ∷ cs) = if c == b'+' then cs else c ∷ cs

-- `parse::<u16>()` and its like: digits, with one `+` allowed in front
unfoldable pub parse_unsigned : ℕ → Text → Option ℕ
unfolding parse_digits up_to strip_plus
parse_unsigned bound text =
    if is_empty (strip_plus text) then none else up_to bound (parse_digits 0 (strip_plus text))

digit_of_byte : (n : ℕ) → n < 10 → is_digit (b'0' + n) ≡ true
unfolding is_digit
digit_of_byte n h = ground arith

parse_digits_step :
    (acc n : ℕ) (rest : Text)
    → n < 10
    → parse_digits acc ((b'0' + n) ∷ rest) ≡ parse_digits (acc * 10 + n) rest
unfolding parse_digits
parse_digits_step acc n rest h =
    rw (digit_of_byte n h) (ap (λ k. parse_digits (acc * 10 + k) rest) (omega arith))

parse_digits-digits :
    (fuel n : ℕ) (rest : Text)
    → n < fuel
    → parse_digits 0 (digits fuel n rest) ≡ parse_digits n rest
unfolding digits
parse_digits-digits zero n rest h = absurd (omega arith)
parse_digits-digits (suc fuel) n rest h = elim (Bool-cases (ltb n 10)) [
  | inl small ↦
      rw small (
        parse_digits_step 0 n rest (ltb→lt n 10 small)
        ∙ ap (λ k. parse_digits k rest) (omega arith))
  | inr large ↦ rw large (
      parse_digits-digits fuel (n / 10) ((b'0' + n % 10) ∷ rest) (omega (arith, ltb→ge n 10 large))
      ∙ parse_digits_step (n / 10) (n % 10) rest (omega arith)
      ∙ ap (λ k. parse_digits k rest) (omega arith))
]

-- the text of a number: its first byte is a digit
digits_head :
    (fuel n : ℕ) (rest : Text)
    → n < fuel
    → (c : ℕ) × (cs : Text) × (digits fuel n rest ≡ c ∷ cs) × (c ≢ b'+')
unfolding digits
digits_head zero n rest h = absurd (omega arith)
digits_head (suc fuel) n rest h = elim (Bool-cases (ltb n 10)) [
  | inl small ↦ rw small (b'0' + n, rest, refl, omega (arith, ltb→lt n 10 small))
  | inr large ↦
      rw large
        (digits_head fuel (n / 10) ((b'0' + n % 10) ∷ rest) (omega (arith, ltb→ge n 10 large)))
]

-- Parsing undoes printing, up to the bound.
pub parse_unsigned-decimal : (bound n : ℕ) → n ≤ bound → parse_unsigned bound (decimal n) ≡ some n
unfolding decimal parse_unsigned
parse_unsigned-decimal bound n h =
    let (c, cs, e, ne) = digits_head (suc n) n [] (omega arith) in
    let stripped : strip_plus (digits (suc n) n []) ≡ digits (suc n) n [] = rw e (ground arith) in
    rw (stripped, parse_digits-digits (suc n) n [] (omega arith)) (rw e (ground arith))
