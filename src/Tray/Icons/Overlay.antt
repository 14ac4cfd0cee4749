-- ===== src/Tray/Icons/Overlay.antt =====
-- tray.rs: `compose_overlay` on a whole picture.
use native.Mathlib.Nat.{mul-lt-mul_of_pos_right, div-lt_iff_lt-mul, mul_comm}
use salmon.Base.{
  ℕ, zero, suc, ◌+◌, ◌-◌, ◌*◌, ◌≤◌, ◌<◌, Bool, true, false, ◌&&◌, ◌≡◌, refl, sym, ap, ◌∙◌, arith,
  ltb, leb, ◌==◌, if◌then◌else◌, Bool-cases, inl, inr,
}
use salmon.Base.Results.{ok}
use salmon.Tray.Icons.{
  Pixel, RgbaImage, for_range, put_pixel, alpha_over, blend_at, overlay_size, source_of,
  compose_overlay,
}

-- within the columns (or rows) that start at `start`
abbrev pub inside : ℕ → ℕ → ℕ → Bool
inside start n at = leb start at && ltb at (start + n)

sub_start : (a n : ℕ) → a + n - a ≡ n
sub_start a n = omega arith

both_eq : (a b c d : ℕ) → (a == b && c == d) ≡ true → (a ≡ b) × (c ≡ d)
both_eq a b c d h = (ground arith, ground arith)

not_yet : (s n w : ℕ) → (w == w && inside s n (s + n)) ≡ false
not_yet s n w = ground arith

just_now : (s n w u v : ℕ) → (u == s + n && v == w) ≡ true → (v == w && inside s (suc n) u) ≡ true
just_now s n w u v h = ground arith

as_before :
    (s n w u v : ℕ)
    → (u == s + n && v == w) ≡ false
    → (v == w && inside s (suc n) u) ≡ (v == w && inside s n u)
as_before s n w u v h = ground arith

empty : (s v : ℕ) (w : Bool) → (inside s 0 v && w) ≡ false
empty s v w = ground arith

row_new : (s n v : ℕ) (w : Bool) → (v == s + n && w) ≡ true → (inside s n v && w) ≡ false
row_new s n v w h = ground arith

row_now : (s n v : ℕ) (w : Bool) → (v == s + n && w) ≡ true → (inside s (suc n) v && w) ≡ true
row_now s n v w h = ground arith

row_before :
    (s n v : ℕ) (w : Bool)
    → (v == s + n && w) ≡ false
    → (inside s (suc n) v && w) ≡ (inside s n v && w)
row_before s n v w h = ground arith

module _ {A : Type 0} {b : Bool} where
  if_yes : (x y : A) → b ≡ true → (if b then x else y) ≡ x
  if_yes x y h = rw h refl

  if_no : (x y : A) → b ≡ false → (if b then x else y) ≡ y
  if_no x y h = rw h refl

module _ (overlay : RgbaImage) (size start_x start_y : ℕ) where
  -- what the overlay makes of a pixel of the base
  abbrev pub covered : RgbaImage → ℕ → ℕ → Pixel
  covered base u v =
      alpha_over
        (overlay.get_pixel (source_of size overlay.width (u - start_x))
          (source_of size overlay.height (v - start_y)))
        (base.get_pixel u v)

  covered_at :
      (base : RgbaImage) (x y u v : ℕ)
      → u ≡ start_x + x
      → v ≡ start_y + y
      → covered base u v
        ≡ alpha_over
            (overlay.get_pixel (source_of size overlay.width x) (source_of size overlay.height y))
            (base.get_pixel (start_x + x) (start_y + y))
  covered_at base x y u v hu hv = rw (hu, hv, sub_start start_x x, sub_start start_y y) refl

  columns :
      (n y u v : ℕ) (base : RgbaImage)
      → (for_range n (blend_at overlay size start_x start_y y) base).get_pixel u v
        ≡ (if v == start_y + y && inside start_x n u then covered base u v else base.get_pixel u v)
  unfolding for_range blend_at put_pixel
  columns zero y u v base = ground arith
  columns (suc n) y u v base = elim (Bool-cases (u == start_x + n && v == start_y + y)) [
    | inl hit ↦
        let at = both_eq u (start_x + n) v (start_y + y) hit in
        let untouched =
          columns n y (start_x + n) (start_y + y) base
          ∙ if_no (covered base (start_x + n) (start_y + y))
              (base.get_pixel (start_x + n) (start_y + y)) (not_yet start_x n (start_y + y)) in
        rw hit (
          ap
            (λ p.
              alpha_over
                (overlay.get_pixel (source_of size overlay.width n)
                  (source_of size overlay.height y))
                p)
            untouched
          ∙ sym (covered_at base n y u v at.0 at.1)
          ∙ sym (
              if_yes (covered base u v) (base.get_pixel u v)
                (just_now start_x n (start_y + y) u v hit)))
    | inr miss ↦ rw miss (
        columns n y u v base
        ∙ ap (λ b. if b then covered base u v else base.get_pixel u v)
            (sym (as_before start_x n (start_y + y) u v miss)))
  ]

  rows :
      (n u v : ℕ) (base : RgbaImage)
      → (for_range n (λ y. for_range size (blend_at overlay size start_x start_y y)) base).get_pixel
          u v
        ≡ (if inside start_y n v && inside start_x size u
            then covered base u v
            else base.get_pixel u v)
  unfolding for_range
  rows zero u v base =
      sym (if_no (covered base u v) (base.get_pixel u v) (empty start_y v (inside start_x size u)))
  rows (suc n) u v base =
      let before =
        for_range n (λ y. for_range size (blend_at overlay size start_x start_y y)) base in
      let now = columns size n u v before in
      elim (Bool-cases (v == start_y + n && inside start_x size u)) [
        | inl hit ↦
            let untouched =
              rows n u v base
              ∙ if_no (covered base u v) (base.get_pixel u v)
                  (row_new start_y n v (inside start_x size u) hit) in
            now
            ∙ if_yes (covered before u v) (before.get_pixel u v) hit
            ∙ ap
                (λ p.
                  alpha_over
                    (overlay.get_pixel (source_of size overlay.width (u - start_x))
                      (source_of size overlay.height (v - start_y)))
                    p)
                untouched
            ∙ sym (
                if_yes (covered base u v) (base.get_pixel u v)
                  (row_now start_y n v (inside start_x size u) hit))
        | inr miss ↦
            now
            ∙ if_no (covered before u v) (before.get_pixel u v) miss
            ∙ rows n u v base
            ∙ ap (λ b. if b then covered base u v else base.get_pixel u v)
                (sym (row_before start_y n v (inside start_x size u) miss))
      ]

-- The two divisions stay inside the overlay, with the products wrapped around too.
source_inside : (size extent at : ℕ) → at < size → 0 < extent → source_of size extent at < extent
unfolding source_of
source_inside size extent at h pos =
    let below : at * extent < size * extent = mul-lt-mul_of_pos_right h pos in
    (div-lt_iff_lt-mul (omega arith)).1 (omega (arith, below, mul_comm extent size))

shape :
    (n : ℕ) (body : ℕ → RgbaImage → RgbaImage) (base : RgbaImage)
    → ((i : ℕ) (image : RgbaImage)
        → ((body i image).width ≡ image.width) × ((body i image).height ≡ image.height))
    → ((for_range n body base).width ≡ base.width) × ((for_range n body base).height ≡ base.height)
unfolding for_range
shape zero body base h = (refl, refl)
shape (suc n) body base h =
    let now = h n (for_range n body base) in
    let before = shape n body base h in (now.0 ∙ before.0, now.1 ∙ before.1)

shape_overlay :
    (overlay : RgbaImage) (n size start_x start_y : ℕ) (base : RgbaImage)
    → let result =
        for_range n (λ y. for_range size (blend_at overlay size start_x start_y y)) base in
      (result.width ≡ base.width) × (result.height ≡ base.height)
unfolding blend_at put_pixel
shape_overlay overlay n size start_x start_y base =
    shape n (λ y. for_range size (blend_at overlay size start_x start_y y)) base
      (λ y image.
        shape size (blend_at overlay size start_x start_y y) image (λ x before. (refl, refl)))

in_corner : (a b s x y : ℕ) → x < s → y < s → (inside b s (b + y) && inside a s (a + x)) ≡ true
in_corner a b s x y hx hy = ground arith

composed :
    (base overlay : RgbaImage)
    → 0 < base.width
    → 0 < overlay.width
    → 0 < overlay.height
    → overlay_size base.width ≤ base.height
    → 0 < overlay_size base.width
    → compose_overlay base overlay
      ≡ ok (
          for_range
            (overlay_size base.width)
            (λ y. for_range (overlay_size base.width) (
              blend_at overlay
                (overlay_size base.width)
                (base.width - overlay_size base.width)
                (base.height - overlay_size base.width)
                y))
            base)
unfolding compose_overlay
composed base overlay wide ow oh fits some = ground arith

-- An overlay keeps the size of the base and every pixel outside the lower-right corner. In the
-- corner it blends each pixel of the base with one of the overlay's, whose coordinates are inside
-- the overlay. This holds for two pictures that are not empty, if the corner is not empty and not
-- higher than the base.
pub overlay_pixels :
    (base overlay : RgbaImage) (x y u v : ℕ)
    → 0 < base.width
    → 0 < overlay.width
    → 0 < overlay.height
    → overlay_size base.width ≤ base.height
    → x < overlay_size base.width
    → y < overlay_size base.width
    → (inside (base.height - overlay_size base.width) (overlay_size base.width) v
        && inside (base.width - overlay_size base.width) (overlay_size base.width) u)
      ≡ false
    → let size = overlay_size base.width in
      let start_x = base.width - size in
      let start_y = base.height - size in
      (result : RgbaImage) × (compose_overlay base overlay ≡ ok result)
      × (result.width ≡ base.width)
      × (result.height ≡ base.height)
      × (result.get_pixel (start_x + x) (start_y + y)
          ≡ alpha_over
              (overlay.get_pixel (source_of size overlay.width x) (source_of size overlay.height y))
              (base.get_pixel (start_x + x) (start_y + y)))
      × (source_of size overlay.width x < overlay.width)
      × (source_of size overlay.height y < overlay.height)
      × (result.get_pixel u v ≡ base.get_pixel u v)
overlay_pixels base overlay x y u v wide ow oh fits hx hy out =
    let size = overlay_size base.width in
    let start_x = base.width - size in
    let start_y = base.height - size in
    let result =
      for_range size (λ y. for_range size (blend_at overlay size start_x start_y y)) base in
    let corner = rows overlay size start_x start_y size (start_x + x) (start_y + y) base in
    let kept = shape_overlay overlay size size start_x start_y base in
    (
      result,
      composed base overlay wide ow oh fits (omega arith),
      kept.0,
      kept.1,
      corner
          ∙ if_yes (covered overlay size start_x start_y base (start_x + x) (start_y + y))
              (base.get_pixel (start_x + x) (start_y + y))
              (in_corner start_x start_y size x y hx hy)
          ∙ covered_at overlay size start_x start_y base x y (start_x + x) (start_y + y) refl refl,
      source_inside size overlay.width x hx ow,
      source_inside size overlay.height y hy oh,
      rows overlay size start_x start_y size u v base
          ∙ if_no (covered overlay size start_x start_y base u v) (base.get_pixel u v) out,
    )
