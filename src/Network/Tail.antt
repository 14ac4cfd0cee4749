-- ===== src/Network/Tail.antt =====
-- network/tunnel.rs: `TailBuffer`, the bounded end of a tunnel's output.
pub mod Bounded
use salmon.Base.{
  ℕ, ◌+◌, ◌-◌, ◌<◌, Bool, true, false, List, [], ◌∷◌, ◌++◌, Text, ltb, leb, if◌then◌else◌, length,
  drop,
}

-- MAX_FAILURE_OUTPUT_BYTES
abbrev pub max_failure_output_bytes : ℕ
max_failure_output_bytes = 1024

pub record TailBuffer : Type 0 where
  pub bytes : Text
  pub truncated : Bool

-- `TailBuffer::default()`
abbrev pub empty : TailBuffer
empty = record { bytes = []; truncated = false }

unfoldable pub push : TailBuffer → Text → TailBuffer
push buffer bytes =
    if leb max_failure_output_bytes (length bytes)
    then record { bytes = drop (length bytes - max_failure_output_bytes) bytes; truncated = true }
    else (let overflow = length buffer.bytes + length bytes - max_failure_output_bytes in
        if ltb 0 overflow
        then record { bytes = drop overflow buffer.bytes ++ bytes; truncated = true }
        else record buffer { bytes = buffer.bytes ++ bytes })
