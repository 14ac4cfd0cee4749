-- ===== src/Network/Probe.antt =====
-- network/tunnel.rs: `ProbeMatcher`, which looks for the readiness text in output that arrives in
-- pieces.
pub mod Streaming
use salmon.Base.{
  ℕ, ◌-◌, min, Bool, true, false, ◌||◌, List, [], ◌∷◌, ◌++◌, Text, text_eq, leb, if◌then◌else◌,
  length, any, take, drop, is_empty,
}

pub record ProbeMatcher : Type 0 where
  pub probe : Text
  pub tail : Text
  pub complete : Bool

unfoldable pub new : Text → ProbeMatcher
new probe = record { probe = probe; tail = []; complete = is_empty probe }

-- `slice::windows(size)`, for a size above 0
unfoldable pub windows : ℕ → Text → List Text
windows size [] = []
windows size (c ∷ cs) =
    let rest = windows size cs in
    if leb size (length (c ∷ cs)) then take size (c ∷ cs) ∷ rest else rest

unfoldable pub push : ProbeMatcher → Text → ProbeMatcher × Bool
push m bytes =
    if m.complete
    then (m, false)
    else (let combined = m.tail ++ bytes in
        if any (λ window. text_eq window m.probe) (windows (length m.probe) combined)
        then (record m { complete = true; tail = [] }, true)
        else (let keep = min (length m.probe - 1) (length combined) in
            (record m { tail = drop (length combined - keep) combined }, false)))
