-- ===== src/Base/Strings/Words.antt =====
-- `trim` on a text that has no space in it.
use mathlib.Core.List.{reverse, reverse-cons, reverse-reverse}
use salmon.Base.{
  ℕ, zero, suc, Bool, true, not, ◌&&◌, [], ◌∷◌, ◌++◌, ◌≡◌, refl, ap, ◌∙◌, arith, Text, ltb, all,
  length,
}
use salmon.Base.Strings.{
  is_ascii_space, space_length, space_length_back, trim_rounds, trim_end, trim,
}

-- ASCII, and no space
abbrev pub is_word_byte : ℕ → Bool
is_word_byte c = ltb c 128 && not (is_ascii_space c)

word_space : (text : Text) → all is_word_byte text ≡ true → space_length text ≡ 0
word_space [] h = refl
word_space (a ∷ []) h = ground arith
word_space (a ∷ b ∷ []) h = ground arith
word_space (a ∷ b ∷ c ∷ rest) h = ground arith

word_space_back : (text : Text) → all is_word_byte text ≡ true → space_length_back text ≡ 0
word_space_back [] h = refl
word_space_back (a ∷ []) h = ground arith
word_space_back (a ∷ b ∷ []) h = ground arith
word_space_back (a ∷ b ∷ c ∷ rest) h = ground arith

no_round :
    (space : Text → ℕ) (fuel : ℕ) (text : Text)
    → space text ≡ 0
    → trim_rounds space fuel text ≡ text
no_round space zero text h = refl
no_round space (suc fuel) text h = rw h refl

all_end : (p : ℕ → Bool) (xs : Text) (x : ℕ) → all p (xs ++ x ∷ []) ≡ (all p xs && p x)
all_end p [] x = ground arith
all_end p (y ∷ xs) x = ground (arith, all_end p xs x)

all-reverse : (p : ℕ → Bool) (xs : Text) → all p (reverse xs) ≡ all p xs
all-reverse p [] = refl
all-reverse p (x ∷ xs) =
    ap (all p) (reverse-cons x xs) ∙ all_end p (reverse xs) x ∙ ground (arith, all-reverse p xs)

pub trim_word : (text : Text) → all is_word_byte text ≡ true → trim text ≡ text
unfolding trim
trim_word text h =
    let start = no_round space_length (length text) text (word_space text h) in
    let back =
      no_round space_length_back (length text) (reverse text)
        (word_space_back (reverse text) (all-reverse is_word_byte text ∙ h)) in
    ap trim_end start ∙ ap reverse back ∙ reverse-reverse text
