-- ===== src/Config/Address.antt =====
-- `host:port` texts: config.rs `validate_host_port` and network/client.rs `split_host_port`.
pub mod Agreement
pub mod Shape
use salmon.Base.{
  ℕ, Bool, true, false, not, ◌&&◌, ◌||◌, Option, none, some, List, [], ◌∷◌, ◌++◌, Text, codes,
  text_eq, ◌==◌, leb, if◌then◌else◌, is_empty, any, starts_with, drop,
}
use salmon.Base.Decimal.{parse_unsigned}
use salmon.Base.Results.{Result, ok, err, ◌>>=◌, ◌>>◌, ensure}

pub data AddressError : Type 0 where
  not_host_port unbracketed_ipv6 empty_host bad_port : AddressError

-- `str::contains` of one byte
abbrev pub has_byte : ℕ → Text → Bool
has_byte b = any (λ c. c == b)

-- `split_once("]:")`
unfoldable pub split_bracket : Text → Option (Text × Text)
split_bracket [] = none
split_bracket (c ∷ []) = none
split_bracket (c ∷ d ∷ cs) =
    let rest = split_bracket (d ∷ cs) in
    if c == b']' && d == b':'
    then some ([], cs)
    else elim rest [ none ↦ none | some (host, port) ↦ some (c ∷ host, port) ]

-- `rsplit_once(':')`: the last colon
unfoldable pub rsplit_colon : Text → Option (Text × Text)
rsplit_colon [] = none
rsplit_colon (c ∷ cs) = elim (rsplit_colon cs) [
  | some (host, port) ↦ some (c ∷ host, port)
  | none ↦ if c == b':' then some ([], cs) else none
]

abbrev pub context : {A : Type 0} → AddressError → Option A → Result AddressError A
context failure none = err failure
context failure (some a) = ok a

-- `strip_prefix('[')`
abbrev pub strip_bracket : Text → Option Text
strip_bracket [] = none
strip_bracket (c ∷ cs) = if c == b'[' then some cs else none

-- the two ways to split an address, with the test for bare IPv6
unfoldable pub split_checked : Text → Result AddressError (Text × Text)
split_checked address = elim (strip_bracket address) [
  | some rest ↦ context not_host_port (split_bracket rest)
  | none ↦ do
    parts ← context not_host_port (rsplit_colon address)
    ensure (not (has_byte b':' parts.0)) unbracketed_ipv6
    ok parts
]

-- `parse::<u16>().ok().filter(|port| *port != 0)`
unfoldable pub parse_port : Text → Option ℕ
parse_port text = elim (parse_unsigned 65535 text) [
  | none ↦ none
  | some port ↦ if port == 0 then none else some port
]

unfoldable pub validate_host_port : Text → Result AddressError (Text × ℕ)
unfolding split_checked parse_port
validate_host_port address = do
  parts ← split_checked address
  ensure (not (is_empty parts.0)) empty_host
  port ← context bad_port (parse_port parts.1)
  ok (parts.0, port)

split_parts : Text → Option (Text × Text)
split_parts address = elim (strip_bracket address) [
  | some rest ↦ split_bracket rest
  | none ↦ rsplit_colon address
]

-- network/client.rs
unfoldable pub split_host_port : Text → Result AddressError (Text × ℕ)
unfolding split_parts
split_host_port address = do
  parts ← context not_host_port (split_parts address)
  port ← context bad_port (parse_unsigned 65535 parts.1)
  ok (parts.0, port)
