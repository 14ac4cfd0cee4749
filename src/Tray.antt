-- ===== src/Tray.antt =====
-- tray.rs: the state of the tray, the flash controller with its cycles, and the menu's title.
pub mod Flash
pub mod Icons
use salmon.Base.{ℕ, Bool, true, false, Option, ◌++◌, Text, codes, ltb, ◌==◌, if◌then◌else◌}
use salmon.Base.Decimal.{decimal}

pub data OverallState : Type 0 where
  unknown : OverallState
  ok : OverallState
  internal_error : OverallState
  warning : OverallState
  error : OverallState

pub record TrayState : Type 0 where
  pub alerting : OverallState
  pub unknown_server_count : ℕ
  pub server_count : ℕ
  pub alerting_count : ℕ
  pub snoozed : Option OverallState
  pub snoozed_count : ℕ

-- What the pixels depend on.
pub data TrayIconIdentity : Type 0 where
  unknown_icon : ℕ → ℕ → Option OverallState → TrayIconIdentity
  known_icon : OverallState → Option OverallState → TrayIconIdentity

unfoldable pub flashes : OverallState → Bool
flashes unknown = false
flashes ok = false
flashes internal_error = true
flashes warning = true
flashes error = true

abbrev pub is_flashing : TrayState → Bool
is_flashing state = flashes state.alerting

unfoldable pub icon_identity : TrayState → TrayIconIdentity
icon_identity state = elim state.alerting [
  | unknown ↦ unknown_icon state.unknown_server_count state.server_count state.snoozed
  | ok ↦ known_icon ok state.snoozed
  | internal_error ↦ known_icon internal_error state.snoozed
  | warning ↦ known_icon warning state.snoozed
  | error ↦ known_icon error state.snoozed
]

unfoldable pub status_title : TrayState → Text
status_title state =
    let noun = if state.alerting_count == 1 then codes "incident" else codes "incidents" in
    let title = codes "Status: " ++ decimal state.alerting_count ++ codes " " ++ noun in
    if ltb 0 state.snoozed_count
    then title ++ codes " + " ++ decimal state.snoozed_count ++ codes " snoozed"
    else title
