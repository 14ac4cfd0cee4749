-- ===== src/Base/Results.antt =====
-- Rust's `Result`, with `?` as the bind of a `do` block.
use mathlib.Core.Path.{◌≡◌, refl}
use mathlib.Core.Bool.{Bool, true, false}

pub data Result (E A : Type 0) : Type 0 where
  ok : A → Result E A
  err : E → Result E A

infixl 5 ◌>>=◌ ◌>>◌
-- the operator `?`, with the rest of the function behind it
abbrev pub ◌>>=◌ : {E A B : Type 0} → Result E A → (A → Result E B) → Result E B
attempt >>= rest = elim attempt [ err failure ↦ err failure | ok value ↦ rest value ]

abbrev pub ◌>>◌ : {E B : Type 0} → Result E (Unit {0}) → Result E B → Result E B
check >> rest = check >>= (λ _. rest)

-- `if !test { bail!(failure) }`
abbrev pub ensure : {E : Type 0} → Bool → E → Result E (Unit {0})
ensure test failure = elim test [ false ↦ err failure | true ↦ ok tt ]

-- What a chain that succeeds says of its first step.
pub ok_of_bind :
    {E A B : Type 0} (attempt : Result E A) (rest : A → Result E B) (b : B)
    → (attempt >>= rest) ≡ ok b
    → (value : A) × (rest value ≡ ok b) × (attempt ≡ ok value)
ok_of_bind (err failure) rest b h = cc
ok_of_bind (ok value) rest b h = (value, h, refl)

pub ok_of_ensure :
    {E B : Type 0} (test : Bool) (failure : E) (rest : Result E B) (b : B)
    → (ensure test failure >> rest) ≡ ok b
    → (rest ≡ ok b) × (test ≡ true)
ok_of_ensure false failure rest b h = cc
ok_of_ensure true failure rest b h = (h, refl)
