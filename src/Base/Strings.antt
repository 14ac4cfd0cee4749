-- ===== src/Base/Strings.antt =====
-- More of Rust's `str`: `lines`, `split_once`, `contains`, `replace`, `trim`, on UTF-8 bytes.
pub mod Words
use mathlib.Core.Option
use mathlib.Core.List.{reverse}
use salmon.Base.{
  ℕ, zero, suc, ◌-◌, Bool, true, false, ◌&&◌, ◌||◌, Option, none, some, List, [], ◌∷◌, ◌++◌, Text,
  leb, ◌==◌, if◌then◌else◌, starts_with, length, drop, is_some, or_else,
}

-- `strip_prefix`
unfoldable pub strip_prefix : Text → Text → Option Text
strip_prefix text [] = some text
strip_prefix [] (p ∷ ps) = none
strip_prefix (t ∷ ts) (p ∷ ps) = let rest = strip_prefix ts ps in if t == p then rest else none

-- `split_once`, for a pattern that is not empty
unfoldable pub split_once : Text → Text → Option (Text × Text)
split_once [] pattern_ = none
split_once (c ∷ cs) pattern_ =
    let later = split_once cs pattern_ in
    elim (strip_prefix (c ∷ cs) pattern_) [
      | some rest ↦ some ([], rest)
      | none ↦ Option.map (λ parts. (c ∷ parts.0, parts.1)) later
    ]

unfoldable pub contains : Text → Text → Bool
contains text pattern_ = is_some (split_once text pattern_)

abbrev pub onto_first : ℕ → List Text → List Text
onto_first c [] = (c ∷ []) ∷ []
onto_first c (line ∷ rest) = (c ∷ line) ∷ rest

-- up to each line feed, without the carriage return before it
unfoldable pub lines : Text → List Text
lines [] = []
lines (c ∷ cs) =
    let rest = lines cs in
    if c == 10
    then [] ∷ rest
    else if c == 13 && starts_with cs (10 ∷ [])
    then rest
    else onto_first c rest

-- The White_Space of Unicode, in UTF-8.
abbrev pub is_ascii_space : ℕ → Bool
is_ascii_space c = leb 9 c && leb c 13 || c == 32

abbrev pub is_space_2 : ℕ → ℕ → Bool
is_space_2 a b = a == 194 && (b == 133 || b == 160)

abbrev pub is_space_3 : ℕ → ℕ → ℕ → Bool
is_space_3 a b c =
    a == 225 && b == 154 && c == 128
    || a == 226 && b == 128 && (leb 128 c && leb c 138 || c == 168 || c == 169 || c == 175)
    || a == 226 && b == 129 && c == 159
    || a == 227 && b == 128 && c == 128

-- the length of the space that a text begins with, with its bytes in this order or turned round
abbrev pub space_length : Text → ℕ
space_length [] = 0
space_length (a ∷ []) = if is_ascii_space a then 1 else 0
space_length (a ∷ b ∷ []) = if is_ascii_space a then 1 else if is_space_2 a b then 2 else 0
space_length (a ∷ b ∷ c ∷ rest) =
    if is_ascii_space a then 1 else if is_space_2 a b then 2 else if is_space_3 a b c then 3 else 0

abbrev pub space_length_back : Text → ℕ
space_length_back [] = 0
space_length_back (a ∷ []) = if is_ascii_space a then 1 else 0
space_length_back (a ∷ b ∷ []) = if is_ascii_space a then 1 else if is_space_2 b a then 2 else 0
space_length_back (a ∷ b ∷ c ∷ rest) =
    if is_ascii_space a then 1 else if is_space_2 b a then 2 else if is_space_3 c b a then 3 else 0

-- Each round takes a character off: as many rounds as bytes are enough.
abbrev pub trim_rounds : (Text → ℕ) → ℕ → Text → Text
trim_rounds space zero text = text
trim_rounds space (suc fuel) text =
    let n = space text in
    let rest = trim_rounds space fuel (drop n text) in if n == 0 then text else rest

unfoldable pub trim_start : Text → Text
trim_start text = trim_rounds space_length (length text) text

unfoldable pub trim_end : Text → Text
trim_end text = reverse (trim_rounds space_length_back (length text) (reverse text))

unfoldable pub trim : Text → Text
unfolding trim_start trim_end
trim text = trim_end (trim_start text)

-- `replace`, for a pattern that is not empty; the number counts bytes of a match that is behind
unfoldable pub replace_from : ℕ → Text → Text → Text → Text
replace_from skip old new [] = []
replace_from (suc skip) old new (c ∷ cs) = replace_from skip old new cs
replace_from zero old new (c ∷ cs) =
    let hit = starts_with (c ∷ cs) old in
    let rest = replace_from (if hit then length old - 1 else 0) old new cs in
    if hit then new ++ rest else c ∷ rest

abbrev pub replace : Text → Text → Text → Text
replace old new text = replace_from 0 old new text
