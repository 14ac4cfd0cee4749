-- ===== src/Tray/Icons.antt =====
-- tray.rs: the pictures of the tray. Rust's `for i in 0..n` is `for_range n`; a picture is its
-- size and its pixels, read in range only.
pub mod Blend
pub mod Overlay
pub mod Progress
use salmon.Base.{
  ℕ, zero, suc, ◌+◌, ◌-◌, ◌*◌, ◌/◌, ◌%◌, ◌^◌, Bool, true, false, not, ◌&&◌, ◌||◌, ◌++◌, Option,
  none, some, Text, codes, ltb, leb, ◌==◌, if◌then◌else◌,
}
use salmon.Base.Decimal.{decimal}
use salmon.Base.Results.{Result, ok, err, ◌>>=◌, ◌>>◌, ensure}
use salmon.Tray.{OverallState, TrayState}

pub record Pixel : Type 0 where
  pub red : ℕ
  pub green : ℕ
  pub blue : ℕ
  pub alpha : ℕ

pub record RgbaImage : Type 0 where
  pub width : ℕ
  pub height : ℕ
  pub get_pixel : ℕ → ℕ → Pixel

unfoldable pub put_pixel : RgbaImage → ℕ → ℕ → Pixel → RgbaImage
put_pixel image x y pixel = record image {
  get_pixel = λ u v. if u == x && v == y then pixel else image.get_pixel u v;
}

-- a failure with its text, or a panic
pub data IconError : Type 0 where
  bail : Text → IconError
  panics : IconError

-- the rounds of a loop over 0, 1, …, n - 1, in that order
unfoldable pub for_range {ℓ} : {A : Type ℓ} → ℕ → (ℕ → A → A) → A → A
for_range zero body state = state
for_range (suc n) body state = body n (for_range n body state)

-- `as u8`
abbrev pub as_u8 : ℕ → ℕ
as_u8 n = n % 256

unfoldable pub blended : ℕ → ℕ → ℕ → ℕ → ℕ → ℕ
blended fore back fore_alpha back_alpha output_alpha =
    as_u8 ((fore * fore_alpha + back * back_alpha * (255 - fore_alpha) / 255) / output_alpha)

-- `foreground_alpha + background_alpha * (255 - foreground_alpha) / 255`
unfoldable pub alpha_of : ℕ → ℕ → ℕ
alpha_of fore_alpha back_alpha = fore_alpha + back_alpha * (255 - fore_alpha) / 255

unfoldable pub alpha_over : Pixel → Pixel → Pixel
alpha_over fore back =
    let output_alpha = alpha_of fore.alpha back.alpha in
    if output_alpha == 0 then record { red = 0; green = 0; blue = 0; alpha = 0 } else record {
      red = blended fore.red back.red fore.alpha back.alpha output_alpha;
      green = blended fore.green back.green fore.alpha back.alpha output_alpha;
      blue = blended fore.blue back.blue fore.alpha back.alpha output_alpha;
      alpha = as_u8 output_alpha;
    }

-- The products are of 32 bits: a picture of a hundred million columns wraps them around.
abbrev pub wrap32 : ℕ → ℕ
wrap32 n = n % 2 ^ 32

unfoldable pub overlay_size : ℕ → ℕ
overlay_size width = wrap32 (width * 30) / 100

unfoldable pub source_of : ℕ → ℕ → ℕ → ℕ
source_of size extent at = wrap32 (at * extent) / size

unfoldable pub blend_at : RgbaImage → ℕ → ℕ → ℕ → ℕ → ℕ → RgbaImage → RgbaImage
blend_at overlay size start_x start_y y x result = put_pixel result (start_x + x) (start_y + y) (
    alpha_over
      (overlay.get_pixel (source_of size overlay.width x) (source_of size overlay.height y))
      (result.get_pixel (start_x + x) (start_y + y)))

-- A base that is lower than the overlay's size makes the subtraction, or the first access, panic.
unfoldable pub compose_overlay : RgbaImage → RgbaImage → Result IconError RgbaImage
compose_overlay base overlay =
    let size = overlay_size base.width in
    if base.width == 0 || base.height == 0 || overlay.width == 0 || overlay.height == 0
    then err (bail (codes "tray icons must not be empty"))
    else if size == 0
    then ok base
    else if ltb base.height size
    then err panics
    else ok (
        for_range size
          (λ y. for_range size (blend_at overlay size (base.width - size) (base.height - size) y))
          base)

unfoldable pub mix : ℕ → ℕ → ℕ → ℕ
mix unknown_samples ok_value unknown_value =
    as_u8 ((ok_value * (16 - unknown_samples) + unknown_value * unknown_samples) / 16)

unfoldable pub mixed_pixel : ℕ → Pixel → Pixel → Pixel
mixed_pixel samples fore back = record {
  red = mix samples fore.red back.red;
  green = mix samples fore.green back.green;
  blue = mix samples fore.blue back.blue;
  alpha = fore.alpha;
}

-- The test `angle >= known_angle` on floating-point numbers, for a sample of a pixel: `x`, `y`,
-- `sample_y` and `sample_x` give the point, the two counts the angle.
module _ (beyond : ℕ → ℕ → ℕ → ℕ → Bool) where
  unfoldable pub unknown_samples : ℕ → ℕ → ℕ
  unknown_samples x y =
      for_range 4
        (λ sample_y.
          for_range 4 (λ sample_x count. if beyond x y sample_y sample_x then count + 1 else count))
        0

  unfoldable pub mix_at :
      RgbaImage → RgbaImage → ℕ → ℕ → Result IconError RgbaImage → Result IconError RgbaImage
  mix_at known unknown y x attempt = do
    result ← attempt
    let fore = known.get_pixel x y
    let back = unknown.get_pixel x y
    ensure (fore.alpha == back.alpha) (
        bail (
          codes "initialization tray icon alpha channels differ at ("
          ++ decimal x
          ++ codes ", "
          ++ decimal y
          ++ codes ")"))
    ok (put_pixel result x y (mixed_pixel (unknown_samples x y) fore back))

-- `RgbaImage::new`: every byte is zero.
abbrev pub blank : ℕ → ℕ → RgbaImage
blank width height = record {
  width = width;
  height = height;
  get_pixel = λ x y. record { red = 0; green = 0; blue = 0; alpha = 0 };
}

unfoldable pub ensure_matching_dimensions : RgbaImage → RgbaImage → Result IconError (Unit {0})
ensure_matching_dimensions first second =
    ensure (first.width == second.width && first.height == second.height) (
      bail (
        codes "tray icon dimensions differ: ("
        ++ decimal first.width
        ++ codes ", "
        ++ decimal first.height
        ++ codes ") and ("
        ++ decimal second.width
        ++ codes ", "
        ++ decimal second.height
        ++ codes ")"))

-- `beyond unknown_server_count server_count` is the test for these counts.
unfoldable pub compose_initialization_icon :
    (ℕ → ℕ → ℕ → ℕ → ℕ → ℕ → Bool) → RgbaImage → RgbaImage → ℕ → ℕ → Result IconError RgbaImage
compose_initialization_icon beyond known unknown unknown_server_count server_count =
    if unknown_server_count == 0 && ltb 0 server_count
    then ok known
    else if server_count == 0 || leb server_count unknown_server_count
    then ok unknown
    else (ensure_matching_dimensions known unknown
        >> for_range known.height
            (λ y.
              for_range known.width
                (mix_at (beyond unknown_server_count server_count) known unknown y))
            (ok (blank known.width known.height)))

pub record TrayIcons : Type 0 where
  pub unknown : RgbaImage
  pub ok : RgbaImage
  pub internal_error : RgbaImage
  pub warning : RgbaImage
  pub error : RgbaImage

unfoldable pub for_state : TrayIcons → OverallState → RgbaImage
for_state icons OverallState.unknown = icons.unknown
for_state icons OverallState.ok = icons.ok
for_state icons OverallState.internal_error = icons.internal_error
for_state icons OverallState.warning = icons.warning
for_state icons OverallState.error = icons.error

abbrev pub is_unknown : OverallState → Bool
is_unknown OverallState.unknown = true
is_unknown state = false

abbrev pub with_overlay : TrayIcons → Option OverallState → RgbaImage → Result IconError RgbaImage
with_overlay icons none icon = ok icon
with_overlay icons (some snoozed) icon = compose_overlay icon (for_state icons snoozed)

unfoldable pub rgba_icon :
    (ℕ → ℕ → ℕ → ℕ → ℕ → ℕ → Bool) → TrayIcons → TrayState → Result IconError RgbaImage
rgba_icon beyond icons state = do
  icon ←
      if is_unknown state.alerting
      then compose_initialization_icon beyond icons.ok icons.unknown state.unknown_server_count
          state.server_count
      else ok (for_state icons state.alerting)
  with_overlay icons state.snoozed icon
