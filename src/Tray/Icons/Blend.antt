-- ===== src/Tray/Icons/Blend.antt =====
-- tray.rs: `alpha_over` on one pixel.
use native.Mathlib.Nat.{mul-div_cancel}
use salmon.Base.{
  ℕ, zero, suc, ◌+◌, ◌-◌, ◌*◌, ◌/◌, ◌≤◌, ◌<◌, min, max, ◌≡◌, refl, sym, ap, ◌∙◌, arith, leb, leb→le,
  leb→gt, Bool-cases, inl, inr,
}
use salmon.Tray.Icons.{Pixel, alpha_over, alpha_of, blended, mix}

mul_le : (a b k : ℕ) → a ≤ b → a * k ≤ b * k
mul_le a b zero h = omega arith
mul_le a b (suc k) h = omega (arith, mul_le a b k h)

weights_add : (a k u n : ℕ) → k + u ≡ n → a * n ≡ a * k + a * u
weights_add a k u n h = ap (λ m. a * m) (sym h) ∙ omega arith

-- A mean of two numbers with weights lies between them.
mean_between :
    (a b k u n : ℕ) → k + u ≡ n → (min a b * n ≤ a * k + b * u) × (a * k + b * u ≤ max a b * n)
mean_between a b k u n h = elim (Bool-cases (leb a b)) [
  | inl le ↦
      let e : (min a b ≡ a) × (max a b ≡ b) = ground arith in
      rw (e.0, e.1)
        (omega (
          arith,
          weights_add a k u n h,
          weights_add b k u n h,
          mul_le a b u (leb→le a b le),
          mul_le a b k (leb→le a b le),
        ))
  | inr gt ↦
      let e : (min a b ≡ b) × (max a b ≡ a) = ground arith in
      let le : b ≤ a = omega (arith, leb→gt a b gt) in
      rw (e.0, e.1)
        (omega
          (arith, weights_add a k u n h, weights_add b k u n h, mul_le b a u le, mul_le b a k le))
]

-- a pixel of bytes
pub record Bytes (pixel : Pixel) : Type 0 where
  pub red : pixel.red < 256
  pub green : pixel.green < 256
  pub blue : pixel.blue < 256
  pub alpha : pixel.alpha < 256

abbrev pub Between : ℕ → ℕ → ℕ → Type 0
Between a b c = (min a b ≤ c) × (c ≤ max a b)

blended_under :
    (fore back ba : ℕ) → back < 256 → 0 < ba → blended fore back 0 ba (alpha_of 0 ba) ≡ back
unfolding blended alpha_of
blended_under fore back ba small pos =
    let alpha : 0 + ba * (255 - 0) / 255 ≡ ba = omega arith in
    let top : fore * 0 + back * ba * (255 - 0) / 255 ≡ back * ba = omega arith in
    let whole : back * ba / ba ≡ back = mul-div_cancel back pos in
    rw (alpha, top, whole) (omega arith)

blended_opaque : (fore back ba : ℕ) → fore < 256 → blended fore back 255 ba (alpha_of 255 ba) ≡ fore
unfolding blended alpha_of
blended_opaque fore back ba small =
    let alpha : 255 + ba * (255 - 255) / 255 ≡ 255 = omega arith in
    let top : fore * 255 + back * ba * (255 - 255) / 255 ≡ fore * 255 = omega arith in
    rw (alpha, top) (omega arith)

cancel_255 : (a r : ℕ) → a * 255 * r / 255 ≡ a * r
cancel_255 a r = omega arith

blended_onto :
    (fore back fa : ℕ)
    → fore < 256
    → back < 256
    → fa < 256
    → Between fore back (blended fore back fa 255 255)
unfolding blended
blended_onto fore back fa f b a =
    let rest : fa + (255 - fa) ≡ 255 = omega arith in
    let top : back * 255 * (255 - fa) / 255 ≡ back * (255 - fa) = cancel_255 back (255 - fa) in
    let bounds = mean_between fore back fa (255 - fa) 255 rest in
    rw top (omega (arith, bounds.0, bounds.1))

alpha_under : (ba : ℕ) → alpha_of 0 ba ≡ ba
unfolding alpha_of
alpha_under ba = omega arith

alpha_opaque : (ba : ℕ) → alpha_of 255 ba ≡ 255
unfolding alpha_of
alpha_opaque ba = omega arith

alpha_onto : (fa : ℕ) → fa < 256 → alpha_of fa 255 ≡ 255
unfolding alpha_of
alpha_onto fa h = omega arith

-- A pixel whose channels lie between those of two others.
abbrev pub Mixed : Pixel → Pixel → Pixel → Type 0
Mixed fore back pixel =
    Between fore.red back.red pixel.red
    × Between fore.green back.green pixel.green
    × Between fore.blue back.blue pixel.blue

pub under :
    (fore back : Pixel) → Bytes back → fore.alpha ≡ 0 → 0 < back.alpha → alpha_over fore back ≡ back
unfolding alpha_over
under fore back b clear visible = ground (
  arith,
  alpha_under back.alpha,
  blended_under fore.red back.red back.alpha b.red visible,
  blended_under fore.green back.green back.alpha b.green visible,
  blended_under fore.blue back.blue back.alpha b.blue visible,
)

pub opaque : (fore back : Pixel) → Bytes fore → fore.alpha ≡ 255 → alpha_over fore back ≡ fore
unfolding alpha_over
opaque fore back f solid = ground (
  arith,
  alpha_opaque back.alpha,
  blended_opaque fore.red back.red back.alpha f.red,
  blended_opaque fore.green back.green back.alpha f.green,
  blended_opaque fore.blue back.blue back.alpha f.blue,
)

pub onto :
    (fore back : Pixel)
    → Bytes fore
    → Bytes back
    → back.alpha ≡ 255
    → ((alpha_over fore back).alpha ≡ 255) × Mixed fore back (alpha_over fore back)
unfolding alpha_over
onto fore back f b solid =
    rw (solid, alpha_onto fore.alpha f.alpha)
      (
        refl,
        (
          blended_onto fore.red back.red fore.alpha f.red b.red f.alpha,
          blended_onto fore.green back.green fore.alpha f.green b.green f.alpha,
          blended_onto fore.blue back.blue fore.alpha f.blue b.blue f.alpha,
        ),
      )

pub mix-Between : (a b u : ℕ) → a < 256 → b < 256 → u ≤ 16 → Between a b (mix u a b)
unfolding mix
mix-Between a b u ha hb h =
    let bounds = mean_between a b (16 - u) u 16 (omega arith) in omega (arith, bounds.0, bounds.1)
