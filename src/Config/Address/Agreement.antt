-- ===== src/Config/Address/Agreement.antt =====
-- What passes the validation of the configuration is split again at connection time.
use salmon.Base.{ℕ, ◌<◌, false, not, Option, none, some, ◌≡◌, arith, Text, is_empty}
use salmon.Base.Decimal.{parse_unsigned}
use salmon.Base.Results.{Result, ok, ◌>>=◌, ◌>>◌, ensure, ok_of_bind, ok_of_ensure}
use salmon.Config.Address.{
  AddressError, bad_port, empty_host, context, split_checked, split_parts, parse_port,
  validate_host_port, split_host_port,
}

split_checked-eq-ok :
    (address : Text) (parts : Text × Text)
    → split_checked address ≡ ok parts
    → split_parts address ≡ some parts
unfolding split_checked split_parts
split_checked-eq-ok address parts h = ground arith

pub parse_port-eq-some :
    (text : Text) (port : ℕ)
    → parse_port text ≡ some port
    → (parse_unsigned 65535 text ≡ some port) × (0 < port)
unfolding parse_port
parse_port-eq-some text port h = ground arith

pub eq_of_context :
    {A : Type 0} (failure : AddressError) (o : Option A) (a : A)
    → context failure o ≡ ok a
    → o ≡ some a
eq_of_context failure none a h = cc
eq_of_context failure (some b) a h = cc

-- the steps behind the split, as `validate_host_port` goes through them
abbrev pub finish : Text × Text → Result AddressError (Text × ℕ)
finish parts = do port ← context bad_port (parse_port parts.1); ok (parts.0, port)

abbrev pub rest_of : Text × Text → Result AddressError (Text × ℕ)
rest_of parts = ensure (not (is_empty parts.0)) empty_host >> finish parts

-- An address that the configuration accepts is split at connection time into the same host and
-- port; the host is not empty and the port not 0.
pub validated_address :
    (address host : Text) (port : ℕ)
    → validate_host_port address ≡ ok (host, port)
    → (split_host_port address ≡ ok (host, port)) × (is_empty host ≡ false) × (0 < port)
unfolding validate_host_port split_host_port
validated_address address host port h =
    let (parts, h1, checked) = ok_of_bind (split_checked address) rest_of (host, port) h in
    let (h2, filled) =
      ok_of_ensure (not (is_empty parts.0)) empty_host (finish parts) (host, port) h1 in
    let (p, done, parsed) =
      ok_of_bind (context bad_port (parse_port parts.1)) (λ q. ok (parts.0, q)) (host, port) h2 in
    let (number, positive) = parse_port-eq-some parts.1 p (eq_of_context bad_port _ p parsed) in
    let e = split_checked-eq-ok address parts checked in
    (rw (e, number) done, ground arith, ground arith)
