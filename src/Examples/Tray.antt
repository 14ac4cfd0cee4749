-- ===== src/Examples/Tray.antt =====
-- cmd/montray-ui/src/tray.rs with one alerting server, and with pictures of ten by ten pixels.
use salmon.Base.{
  ℕ, ◌<◌, ◌-◌, ◌+◌, ◌≡◌, refl, arith, Bool, true, false, none, some, List, [], ◌∷◌, codes, All, leb,
  ◌&&◌, if◌then◌else◌,
}
use salmon.Base.Results.{ok}
use salmon.Base.Decimal.{decimal}
use salmon.Tray.{OverallState, TrayState, warning, error, icon_identity, is_flashing, status_title}
use salmon.Tray.Flash.{
  FlashState, default, apply, tick, is_active, next_generation, shows, same_identity, code_of,
}
use salmon.Tray.Flash.Cycles.{Call, applied, ticked, called, run, starts, started, obsolete_cycle}
use salmon.Tray.Flash.Cadence.{frames, alternating, Keeps, steady_cadence}
use salmon.Tray.Icons.{
  Pixel, RgbaImage, alpha_over, alpha_of, blended, overlay_size, source_of, compose_overlay,
  compose_initialization_icon,
}
use salmon.Tray.Icons.Blend.{Bytes, Mixed}
use salmon.Tray.Icons.Overlay.{inside, overlay_pixels}
use salmon.Tray.Icons.Progress.{progress_pixels}

abbrev alerting : ℕ → TrayState
alerting count = record {
  alerting = error;
  unknown_server_count = 0;
  server_count = 2;
  alerting_count = count;
  snoozed = some warning;
  snoozed_count = 1;
}

abbrev quiet : TrayState
quiet = record {
  alerting = OverallState.ok;
  unknown_server_count = 0;
  server_count = 2;
  alerting_count = 0;
  snoozed = none;
  snoozed_count = 0;
}

menu_title : status_title (alerting 2) ≡ codes "Status: 2 incidents + 1 snoozed"
unfolding status_title decimal
menu_title = refl

abbrev flashing : FlashState
flashing = record {
  icon = some (icon_identity (alerting 1));
  flashing = true;
  showing_solid = true;
  generation = 7;
}

abbrev own_timer : Call
own_timer = ticked (record { generation = 7 })

abbrev replaced : List Call
replaced = own_timer ∷ applied (alerting 2) ∷ applied quiet ∷ []

one_cycle : started flashing replaced ≡ 1
unfolding started starts called apply tick shows same_identity code_of icon_identity
one_cycle = refl

obsolete_cycle_example :
    (tick (run flashing replaced) (record { generation = 7 }) ≡ (run flashing replaced, none))
    × (is_active (run flashing replaced) (record { generation = 7 }) ≡ false)
obsolete_cycle_example =
    obsolete_cycle flashing replaced (omega arith) (omega (arith, one_cycle))
      (omega (arith, one_cycle))

abbrev first_timer : Call
first_timer = ticked (record { generation = 1 })

abbrev rendered : List Call
rendered = first_timer ∷ applied (alerting 2) ∷ first_timer ∷ first_timer ∷ []

nothing_shown : shows default (icon_identity (alerting 1)) ≡ false
unfolding shows
nothing_shown = refl

rendered_keep : All (Keeps (alerting 1) (next_generation default.generation)) rendered
unfolding icon_identity
rendered_keep = (refl, (refl, (refl, (refl, tt))))

steady_cadence_example :
    ((apply default (alerting 1)).1 ≡ some (record { generation = next_generation 0 }))
    × (frames (apply default (alerting 1)).0 rendered
        ≡ (if is_flashing (alerting 1) then alternating false rendered else []))
steady_cadence_example = steady_cadence default (alerting 1) rendered nothing_shown rendered_keep

abbrev green : Pixel
green = record { red = 0; green = 200; blue = 0; alpha = 255 }

abbrev gray : Pixel
gray = record { red = 100; green = 100; blue = 100; alpha = 255 }

abbrev flat : ℕ → Pixel → RgbaImage
flat size pixel = record { width = size; height = size; get_pixel = λ x y. pixel }

-- A faint white over a faint white is not white: the quotient does not fit a byte.
abbrev faint : Pixel
faint = record { red = 255; green = 255; blue = 2; alpha = 1 }

abbrev faint_white : Pixel
faint_white = record { red = 255; green = 255; blue = 255; alpha = 1 }

faint_overflow :
    alpha_over faint faint_white ≡ record { red = 253; green = 253; blue = 0; alpha = 1 }
unfolding alpha_over alpha_of blended
faint_overflow = refl

three : overlay_size 10 ≡ 3
unfolding overlay_size
three = refl

corner_apart :
    (inside (10 - overlay_size 10) (overlay_size 10) 0
      && inside (10 - overlay_size 10) (overlay_size 10) 0)
    ≡ false
unfolding overlay_size
corner_apart = refl

overlay_pixels_example :
    let size = overlay_size 10 in
    let start = 10 - size in
    (result : RgbaImage) × (compose_overlay (flat 10 green) (flat 10 gray) ≡ ok result)
    × (result.width ≡ 10)
    × (result.height ≡ 10)
    × (result.get_pixel (start + 1) (start + 2) ≡ alpha_over gray green)
    × (source_of size 10 1 < 10)
    × (source_of size 10 2 < 10)
    × (result.get_pixel 0 0 ≡ green)
overlay_pixels_example =
    overlay_pixels (flat 10 green) (flat 10 gray) 1 2 0 0 (omega arith) (omega arith) (omega arith)
      (omega (arith, three)) (omega (arith, three)) (omega (arith, three)) corner_apart

green-Bytes : Bytes green
green-Bytes = record {
  red = omega arith;
  green = omega arith;
  blue = omega arith;
  alpha = omega arith;
}

gray-Bytes : Bytes gray
gray-Bytes = record {
  red = omega arith;
  green = omega arith;
  blue = omega arith;
  alpha = omega arith;
}

-- half of the picture is that of the unknown servers
abbrev right_half : ℕ → ℕ → ℕ → ℕ → ℕ → ℕ → Bool
right_half count total x y sample_y sample_x = leb 5 x

progress_pixels_example :
    (result : RgbaImage) × (compose_initialization_icon right_half
        (flat 10 green)
        (flat 10 gray)
        1
        2
      ≡ ok result)
    × ((result.get_pixel 6 3).alpha ≡ 255)
    × Mixed green gray (result.get_pixel 6 3)
progress_pixels_example =
    progress_pixels right_half (flat 10 green) (flat 10 gray) 1 2 6 3 (omega arith) (omega arith)
      refl refl (λ x y hx hy. refl) (omega arith) (omega arith) green-Bytes gray-Bytes
