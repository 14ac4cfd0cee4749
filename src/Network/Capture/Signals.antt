-- ===== src/Network/Capture/Signals.antt =====
-- network/tunnel.rs: what the reader of a pipe keeps and what it signals.
use salmon.Base.{ℕ, Option, some, List, [], ◌∷◌, ◌≡◌, refl, Text, joined_pieces}
use salmon.Network.Probe
use salmon.Network.Probe.{ProbeMatcher}
use salmon.Network.Probe.Streaming
use salmon.Network.Probe.Streaming.{contains, count_true, indicator, probe_found_once}
use salmon.Network.Tail
use salmon.Network.Tail.{TailBuffer}
use salmon.Network.Tail.Bounded
use salmon.Network.Tail.Bounded.{newest, tail_newest}
use salmon.Network.Capture.{
  Read, chunk, failed, match_chunk, read_failure, capture_loop, capture_output,
}

-- the output before a read fails, and all that is pushed
abbrev pub chunks : List Read → List Text
chunks [] = []
chunks (chunk bytes ∷ reads) = bytes ∷ chunks reads
chunks (failed error ∷ reads) = []

abbrev pub pushed : List Read → List Text
pushed [] = []
pushed (chunk bytes ∷ reads) = bytes ∷ pushed reads
pushed (failed error ∷ reads) = read_failure error ∷ []

capture_loop-signals :
    (m : ProbeMatcher) (output : TailBuffer) (reads : List Read)
    → (capture_loop (some m) output reads).1 ≡ count_true (Streaming.push_all m (chunks reads)).1
unfolding capture_loop match_chunk Streaming.push_all
capture_loop-signals m output [] = refl
capture_loop-signals m output (chunk bytes ∷ reads) =
    rw (capture_loop-signals (Probe.push m bytes).0 (Tail.push output bytes) reads)
capture_loop-signals m output (failed error ∷ reads) = refl

capture_loop-output :
    (m : Option ProbeMatcher) (output : TailBuffer) (reads : List Read)
    → (capture_loop m output reads).0 ≡ Bounded.push_all output (pushed reads)
unfolding capture_loop Bounded.push_all
capture_loop-output m output [] = refl
capture_loop-output m output (chunk bytes ∷ reads) =
    capture_loop-output (match_chunk m bytes).0 (Tail.push output bytes) reads
capture_loop-output m output (failed error ∷ reads) = refl

-- One pipe of the tunnel process signals readiness at most once: once if the probe, which is not
-- empty, occurs in its output before a read fails, and never otherwise. What it keeps is the
-- newest 1024 bytes of that output and of the message about the failed read.
pub capture_ready :
    (p : ℕ) (ps : Text) (reads : List Read)
    → ((capture_output (some (p ∷ ps)) reads).1
        ≡ indicator (contains (joined_pieces (chunks reads)) (p ∷ ps)))
      × ((capture_output (some (p ∷ ps)) reads).0.bytes ≡ newest (joined_pieces (pushed reads)))
unfolding capture_output
capture_ready p ps reads = (
  rw (capture_loop-signals (Probe.new (p ∷ ps)) Tail.empty reads)
      ((probe_found_once p ps (chunks reads)).1),
  rw (capture_loop-output (some (Probe.new (p ∷ ps))) Tail.empty reads)
      (tail_newest (pushed reads)),
)
