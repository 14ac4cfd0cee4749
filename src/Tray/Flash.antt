-- ===== src/Tray/Flash.antt =====
-- tray.rs: `TrayFlashController`. The lock makes each call one step on its state.
pub mod Cycles
pub mod Cadence
use salmon.Base.{
  ℕ, ◌+◌, ◌%◌, ◌^◌, Bool, true, false, not, ◌&&◌, ◌||◌, Option, none, some, List, [], ◌∷◌, ◌==◌,
  if◌then◌else◌,
}
use salmon.Tray.{
  OverallState, unknown, ok, internal_error, warning, error, TrayState, TrayIconIdentity,
  unknown_icon, known_icon, icon_identity, is_flashing,
}

-- The derived equalities.
unfoldable pub code_of : OverallState → ℕ
code_of unknown = 0
code_of ok = 1
code_of internal_error = 2
code_of warning = 3
code_of error = 4

abbrev pub same_overlay : Option OverallState → Option OverallState → Bool
same_overlay none none = true
same_overlay (some a) (some b) = code_of a == code_of b
same_overlay a b = false

unfoldable pub same_identity : TrayIconIdentity → TrayIconIdentity → Bool
same_identity (unknown_icon n k a) (unknown_icon m l b) = n == m && k == l && same_overlay a b
same_identity (known_icon s a) (known_icon t b) = code_of s == code_of t && same_overlay a b
same_identity a b = false

-- `FlashCycle`: the generation that a timer was started for
pub record FlashCycle : Type 0 where
  pub generation : ℕ

pub record FlashState : Type 0 where
  pub icon : Option TrayIconIdentity
  pub flashing : Bool
  pub showing_solid : Bool
  pub generation : ℕ

abbrev pub default : FlashState
default = record { icon = none; flashing = false; showing_solid = false; generation = 0 }

unfoldable pub shows : FlashState → TrayIconIdentity → Bool
shows current icon = elim current.icon [ none ↦ false | some shown ↦ same_identity shown icon ]

-- `u64::wrapping_add(1)`
abbrev pub next_generation : ℕ → ℕ
next_generation generation = (generation + 1) % 2 ^ 64

unfoldable pub apply : FlashState → TrayState → FlashState × Option FlashCycle
apply current state = if shows current (icon_identity state) then (current, none) else (
  record {
    icon = some (icon_identity state);
    flashing = is_flashing state;
    showing_solid = true;
    generation = next_generation current.generation;
  },
  some (record { generation = next_generation current.generation }),
)

unfoldable pub is_active : FlashState → FlashCycle → Bool
is_active current cycle = current.generation == cycle.generation && current.flashing

unfoldable pub tick : FlashState → FlashCycle → FlashState × Option Bool
tick current cycle =
    if not (current.generation == cycle.generation) || not current.flashing
    then (current, none)
    else (
      record current { showing_solid = not current.showing_solid },
      some (not current.showing_solid),
    )
