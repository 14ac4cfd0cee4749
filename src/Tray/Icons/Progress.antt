-- ===== src/Tray/Icons/Progress.antt =====
-- tray.rs: `compose_initialization_icon` on a whole picture.
use salmon.Base.{
  ℕ, zero, suc, ◌+◌, ◌≤◌, ◌<◌, Bool, false, ◌&&◌, ◌||◌, ◌*◌, ◌≡◌, refl, ap, ◌∙◌, arith, ltb, leb,
  ◌==◌, if◌then◌else◌, ==_iff,
}
use salmon.Base.Results.{ok}
use salmon.Tray.Icons.{
  Pixel, RgbaImage, for_range, put_pixel, mixed_pixel, unknown_samples, mix_at, blank,
  ensure_matching_dimensions, compose_initialization_icon,
}
use salmon.Tray.Icons.Blend.{Bytes, Mixed, mix-Between}

-- A picture painted pixel by pixel.
painted_row :
    (p : ℕ → Pixel) (n y u v : ℕ) (image : RgbaImage)
    → (for_range n (λ x image. put_pixel image x y (p x)) image).get_pixel u v
      ≡ (if v == y && ltb u n then p u else image.get_pixel u v)
unfolding for_range put_pixel
painted_row p zero y u v image = ground arith
painted_row p (suc n) y u v image = ground (arith, painted_row p n y u v image)

painted :
    (p : ℕ → ℕ → Pixel) (w n u v : ℕ) (image : RgbaImage)
    → u < w
    → v < n
    → (for_range n (λ y. for_range w (λ x image. put_pixel image x y (p x y))) image).get_pixel u v
      ≡ p u v
unfolding for_range
painted p w zero u v image hu hv = absurd (omega arith)
painted p w (suc n) u v image hu hv = ground (
  arith,
  painted p w n u v image hu,
  painted_row (λ x. p x n) w n u v
      (for_range n (λ y. for_range w (λ x image. put_pixel image x y (p x y))) image),
)

count_bound :
    (n k : ℕ) (body : ℕ → ℕ → ℕ) (count : ℕ)
    → ((i c : ℕ) → body i c ≤ c + k)
    → for_range n body count ≤ count + n * k
unfolding for_range
count_bound zero k body count h = omega arith
count_bound (suc n) k body count h =
    omega (arith, count_bound n k body count h, h n (for_range n body count))

step_bound : (b : Bool) (c : ℕ) → (if b then c + 1 else c) ≤ c + 1
step_bound b c = ground arith

module _ (beyond : ℕ → ℕ → ℕ → ℕ → Bool) where
  samples_bound : (x y : ℕ) → unknown_samples beyond x y ≤ 16
  unfolding unknown_samples
  samples_bound x y =
      count_bound 4 4
        (λ sample_y.
          for_range 4 (λ sample_x count. if beyond x y sample_y sample_x then count + 1 else count))
        0
        (λ sample_y count.
          count_bound 4 1 (λ sample_x c. if beyond x y sample_y sample_x then c + 1 else c) count
            (λ sample_x c. step_bound (beyond x y sample_y sample_x) c))

module _ (beyond : ℕ → ℕ → ℕ → ℕ → Bool) (known unknown : RgbaImage) where
  pixel_at : ℕ → ℕ → Pixel
  pixel_at x y =
      mixed_pixel (unknown_samples beyond x y) (known.get_pixel x y) (unknown.get_pixel x y)

  alpha_kept : (x y : ℕ) → (pixel_at x y).alpha ≡ (known.get_pixel x y).alpha
  unfolding pixel_at mixed_pixel
  alpha_kept x y = refl

  mix_ok :
      (x y : ℕ) (image : RgbaImage)
      → (known.get_pixel x y).alpha ≡ (unknown.get_pixel x y).alpha
      → mix_at beyond known unknown y x (ok image) ≡ ok (put_pixel image x y (pixel_at x y))
  unfolding mix_at pixel_at
  mix_ok x y image h =
      rw ((==_iff (known.get_pixel x y).alpha (unknown.get_pixel x y).alpha).1 h) refl

  row_ok :
      (n y : ℕ) (image : RgbaImage)
      → ((x : ℕ) → x < n → (known.get_pixel x y).alpha ≡ (unknown.get_pixel x y).alpha)
      → for_range n (mix_at beyond known unknown y) (ok image)
        ≡ ok (for_range n (λ x image. put_pixel image x y (pixel_at x y)) image)
  unfolding for_range
  row_ok zero y image h = refl
  row_ok (suc n) y image h =
      ap (mix_at beyond known unknown y n) (row_ok n y image (λ x l. h x (omega arith)))
      ∙ mix_ok n y (for_range n (λ x image. put_pixel image x y (pixel_at x y)) image)
          (h n (omega arith))

  rows_ok :
      (w n : ℕ) (image : RgbaImage)
      → ((x y : ℕ) → x < w → y < n → (known.get_pixel x y).alpha ≡ (unknown.get_pixel x y).alpha)
      → for_range n (λ y. for_range w (mix_at beyond known unknown y)) (ok image)
        ≡ ok (for_range n (λ y. for_range w (λ x image. put_pixel image x y (pixel_at x y))) image)
  unfolding for_range
  rows_ok w zero image h = refl
  rows_ok w (suc n) image h =
      ap (for_range w (mix_at beyond known unknown n))
        (rows_ok w n image (λ x y lx ly. h x y lx (omega arith)))
      ∙ row_ok w n
          (for_range n (λ y. for_range w (λ x image. put_pixel image x y (pixel_at x y))) image)
          (λ x l. h x n l (omega arith))

  pixel-Mixed :
      (x y : ℕ)
      → Bytes (known.get_pixel x y)
      → Bytes (unknown.get_pixel x y)
      → Mixed (known.get_pixel x y) (unknown.get_pixel x y) (pixel_at x y)
  unfolding pixel_at mixed_pixel
  pixel-Mixed x y k b =
      let some = samples_bound beyond x y in
      (
        mix-Between (known.get_pixel x y).red (unknown.get_pixel x y).red
            (unknown_samples beyond x y) k.red b.red some,
        mix-Between (known.get_pixel x y).green (unknown.get_pixel x y).green
            (unknown_samples beyond x y) k.green b.green some,
        mix-Between (known.get_pixel x y).blue (unknown.get_pixel x y).blue
            (unknown_samples beyond x y) k.blue b.blue some,
      )

composed :
    (beyond : ℕ → ℕ → ℕ → ℕ → ℕ → ℕ → Bool) (known unknown : RgbaImage) (count total : ℕ)
    → 0 < count
    → count < total
    → known.width ≡ unknown.width
    → known.height ≡ unknown.height
    → compose_initialization_icon beyond known unknown count total
      ≡ for_range known.height
          (λ y. for_range known.width (mix_at (beyond count total) known unknown y))
          (ok (blank known.width known.height))
unfolding compose_initialization_icon ensure_matching_dimensions
composed beyond known unknown count total some not_all w h =
    rw
      (
        tests.0,
        tests.1,
        (==_iff known.width unknown.width).1 w,
        (==_iff known.height unknown.height).1 h,
      )
      refl
  where
    tests : ((count == 0 && ltb 0 total) ≡ false) × ((total == 0 || leb total count) ≡ false)
    tests = (ground arith, ground arith)

-- While some of the servers are unknown, the icon of two pictures of one size and with the same
-- transparency is made, and at each pixel it has that transparency, and a colour between those of
-- the two pictures, whatever the floating-point test of the sixteen samples says.
pub progress_pixels :
    (beyond : ℕ → ℕ → ℕ → ℕ → ℕ → ℕ → Bool) (known unknown : RgbaImage) (count total u v : ℕ)
    → 0 < count
    → count < total
    → known.width ≡ unknown.width
    → known.height ≡ unknown.height
    → ((x y : ℕ)
        → x < known.width
        → y < known.height
        → (known.get_pixel x y).alpha ≡ (unknown.get_pixel x y).alpha)
    → u < known.width
    → v < known.height
    → Bytes (known.get_pixel u v)
    → Bytes (unknown.get_pixel u v)
    → (result : RgbaImage) × (compose_initialization_icon beyond known unknown count total
        ≡ ok result)
      × ((result.get_pixel u v).alpha ≡ (known.get_pixel u v).alpha)
      × Mixed (known.get_pixel u v) (unknown.get_pixel u v) (result.get_pixel u v)
progress_pixels beyond known unknown count total u v some not_all w h same hu hv k b =
    let pixels = pixel_at (beyond count total) known unknown in
    let result =
      for_range known.height
        (λ y. for_range known.width (λ x image. put_pixel image x y (pixels x y)))
        (blank known.width known.height) in
    let e = painted pixels known.width known.height u v (blank known.width known.height) hu hv in
    (
      result,
      composed beyond known unknown count total some not_all w h
          ∙ rows_ok (beyond count total) known unknown known.width known.height
              (blank known.width known.height) same,
      ap (λ p. p.alpha) e ∙ alpha_kept (beyond count total) known unknown u v,
      rw e (pixel-Mixed (beyond count total) known unknown u v k b),
    )
