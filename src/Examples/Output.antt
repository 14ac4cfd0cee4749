-- ===== src/Examples/Output.antt =====
-- The readers of a tunnel's output at concrete pieces.
use salmon.Base.{
  true, false, ℕ, zero, suc, ◌-◌, List, [], ◌∷◌, ◌≡◌, refl, Text, codes, joined_pieces, length,
  drop, text_eq,
}
use salmon.Network.Probe
use salmon.Network.Probe.{windows}
use salmon.Network.Probe.Streaming
use salmon.Network.Probe.Streaming.{contains, count_true, indicator, probe_found_once}
use salmon.Network.Tail
use salmon.Network.Tail.{max_failure_output_bytes}
use salmon.Network.Tail.Bounded
use salmon.Network.Tail.Bounded.{newest, tail_newest, tail_truncated}
use salmon.Network.Capture.{Read, chunk, failed}

abbrev split_ready : List Text
split_ready = codes "xRE" ∷ codes "AD" ∷ codes "Y READY" ∷ []

-- The probe is split over three pieces, and the second copy of it is not reported again.
split_ready_hits :
    (Streaming.push_all (Probe.new (codes "READY")) split_ready).1 ≡ false ∷ false ∷ true ∷ []
unfolding Streaming.push_all Probe.new Probe.push windows text_eq
split_ready_hits = refl

probe_found_once_example :
    ((Streaming.push_all (Probe.new (codes "READY")) split_ready).0.complete
      ≡ contains (joined_pieces split_ready) (codes "READY"))
    × (count_true (Streaming.push_all (Probe.new (codes "READY")) split_ready).1
        ≡ indicator (contains (joined_pieces split_ready) (codes "READY")))
probe_found_once_example = probe_found_once b'R' (codes "EADY") split_ready

tail_newest_example :
    (Bounded.push_all Tail.empty split_ready).bytes
    ≡ drop
        (length (joined_pieces split_ready) - max_failure_output_bytes)
        (joined_pieces split_ready)
tail_newest_example = tail_newest split_ready

-- A single piece of exactly 1024 bytes is kept whole, and still counts as truncated.
replicate : ℕ → ℕ → Text
replicate zero c = []
replicate (suc n) c = c ∷ replicate n c

full_piece_truncated :
    ((Tail.push Tail.empty (replicate 1024 b'x')).truncated ≡ true)
    × ((Tail.push Tail.empty (replicate 1024 b'x')).bytes ≡ replicate 1024 b'x')
unfolding Tail.push replicate
full_piece_truncated = (refl, refl)

abbrev reads : List Read
reads =
    chunk (codes "RE") ∷ chunk (codes "ADY") ∷ failed (codes "gone") ∷ chunk (codes "READY") ∷ []
