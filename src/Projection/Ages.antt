-- ===== src/Projection/Ages.antt =====
-- ui/projection.rs: the freshness of a heartbeat and the texts of ages. Times are milliseconds.
use salmon.Base.{
  ℕ, ◌+◌, ◌*◌, ◌/◌, ◌%◌, Bool, true, Option, none, some, ◌++◌, Text, codes, ltb, ◌==◌,
  if◌then◌else◌,
}
use salmon.Base.Decimal.{decimal}
use salmon.Base.Int.{ℤ, pos, negsuc, is_negative, magnitude, ◌-ℤ◌}

pub data HeartbeatStatus : Type 0 where
  normal warning overdue : HeartbeatStatus

-- `age < bound`, for a bound that is not negative
abbrev pub below : ℤ → ℕ → Bool
below (pos age) bound = ltb age bound
below (negsuc age) bound = true

unfoldable pub heartbeat_status : Option ℤ → ℤ → HeartbeatStatus
heartbeat_status none now_millis = HeartbeatStatus.normal
heartbeat_status (some value_millis) now_millis =
    let age = now_millis -ℤ value_millis in
    if below age 15000
    then HeartbeatStatus.normal
    else if below age 30000
    then HeartbeatStatus.warning
    else HeartbeatStatus.overdue

-- a number with a unit, and a smaller one unless it is 0
abbrev pub with_rest : ℕ → Text → ℕ → Text → Text
with_rest count unit rest small =
    if rest == 0
    then decimal count ++ unit
    else decimal count ++ (unit ++ (codes " " ++ (decimal rest ++ small)))

-- The seconds are not negative where the program calls this.
unfoldable pub duration : ℕ → Text
duration seconds =
    if ltb seconds 15
    then codes "<15s"
    else if ltb seconds 60
    then decimal (seconds / 15 * 15) ++ codes "s"
    else if ltb seconds 3600
    then decimal (seconds / 60) ++ codes "m"
    else if ltb seconds 86400
    then with_rest (seconds / 60 / 60) (codes "h") (seconds / 60 % 60) (codes "m")
    else with_rest (seconds / 3600 / 24) (codes "d") (seconds / 3600 % 24) (codes "h")

-- `div_ceil(1_000)` for a future time, `/ 1_000` for a past one
unfoldable pub rounded_seconds : Bool → ℕ → ℕ
rounded_seconds future millis = if future then (millis + 999) / 1000 else millis / 1000

unfoldable pub format_relative : ℤ → ℤ → Text
format_relative value_millis now_millis =
    let elapsed_millis = now_millis -ℤ value_millis in
    let future = is_negative elapsed_millis in
    let shown = duration (rounded_seconds future (magnitude elapsed_millis)) in
    if future then codes "in " ++ shown else shown ++ codes " ago"
