-- ===== src/Network/Capture.antt =====
-- network/tunnel.rs: `capture_output`, which drains one pipe of the tunnel process.
pub mod Signals
use salmon.Base.{
  ℕ, ◌+◌, Bool, true, false, Option, none, some, List, [], ◌∷◌, ◌++◌, Text, codes, if◌then◌else◌,
}
use salmon.Network.Probe
use salmon.Network.Probe.{ProbeMatcher}
use salmon.Network.Tail
use salmon.Network.Tail.{TailBuffer}

-- What one `read` gives; the end of the output is the end of the list.
pub data Read : Type 0 where
  chunk : Text → Read
  failed : Text → Read

-- `matcher.as_mut().is_some_and(|matcher| matcher.push(chunk))`
unfoldable pub match_chunk : Option ProbeMatcher → Text → Option ProbeMatcher × Bool
match_chunk none bytes = (none, false)
match_chunk (some m) bytes = let (m', hit) = Probe.push m bytes in (some m', hit)

unfoldable pub read_failure : Text → Text
read_failure error = 10 ∷ (codes "reading tunnel output failed: " ++ error)

-- the loop: what it captures, and how often it sends the ready signal
unfoldable pub capture_loop : Option ProbeMatcher → TailBuffer → List Read → TailBuffer × ℕ
capture_loop matcher output [] = (output, 0)
capture_loop matcher output (chunk bytes ∷ reads) =
    let (matcher', hit) = match_chunk matcher bytes in
    let (captured, signals) = capture_loop matcher' (Tail.push output bytes) reads in
    (captured, if hit then signals + 1 else signals)
capture_loop matcher output (failed error ∷ reads) = (Tail.push output (read_failure error), 0)

abbrev new_matcher : Option Text → Option ProbeMatcher
new_matcher none = none
new_matcher (some probe) = some (Probe.new probe)

unfoldable pub capture_output : Option Text → List Read → TailBuffer × ℕ
capture_output probe reads = capture_loop (new_matcher probe) Tail.empty reads
