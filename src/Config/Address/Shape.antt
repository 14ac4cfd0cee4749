-- ===== src/Config/Address/Shape.antt =====
-- config.rs: what an address looks like that `validate_host_port` accepts.
use salmon.Base.{
  ℕ, ◌<◌, false, not, ◌&&◌, Option, none, some, [], ◌∷◌, ◌++◌, ◌≡◌, ◌⊎◌, ap, ◌∙◌, arith, Text, ◌==◌,
  is_empty, Bool-cases, Option-cases, inl, inr,
}
use salmon.Base.Decimal.{parse_unsigned}
use salmon.Base.Results.{ok, ok_of_bind, ok_of_ensure}
use salmon.Config.Address.{
  has_byte, split_bracket, rsplit_colon, context, strip_bracket, not_host_port, split_checked,
  parse_port, validate_host_port, unbracketed_ipv6, empty_host, bad_port,
}
use salmon.Config.Address.Agreement.{parse_port-eq-some, eq_of_context, finish, rest_of}
use mathlib.Core.Path.{subst}

-- `host:port` with a host without colons, or `[host]:port`; the host is not empty, and the port is
-- a decimal number between 1 and 65535.
pub record IsHostPort (address : Text) : Type 0 where
  pub host : Text
  pub digits : Text
  pub port : ℕ
  pub shape :
      ((address ≡ host ++ (b':' ∷ digits)) × (has_byte b':' host ≡ false))
      ⊎ (address ≡ b'[' ∷ (host ++ (b']' ∷ b':' ∷ digits)))
  pub host_given : is_empty host ≡ false
  pub number : parse_unsigned 65535 digits ≡ some port
  pub positive : 0 < port

rsplit_colon_sound :
    (address host digits : Text)
    → rsplit_colon address ≡ some (host, digits)
    → address ≡ host ++ (b':' ∷ digits)
unfolding rsplit_colon
rsplit_colon_sound [] host digits h = cc
rsplit_colon_sound (c ∷ cs) host digits h = elim (Option-cases (rsplit_colon cs)) [
  | inr ((front, rest), e) ↦ let same = rsplit_colon_sound cs front rest e in ground arith
  | inl e ↦ ground arith
]

split_bracket_sound :
    (text host digits : Text)
    → split_bracket text ≡ some (host, digits)
    → text ≡ host ++ (b']' ∷ b':' ∷ digits)
unfolding split_bracket
split_bracket_sound [] host digits h = cc
split_bracket_sound (c ∷ []) host digits h = cc
split_bracket_sound (c ∷ d ∷ cs) host digits h = elim (Bool-cases (c == b']' && d == b':')) [
  | inl e ↦ ground arith
  | inr e ↦ elim (Option-cases (split_bracket (d ∷ cs))) [
    | inl f ↦ absurd (ground arith)
    | inr ((front, rest), f) ↦ let same = split_bracket_sound (d ∷ cs) front rest f in ground arith
  ]
]

strip_bracket_sound :
    (address rest : Text) → strip_bracket address ≡ some rest → address ≡ b'[' ∷ rest
strip_bracket_sound [] rest h = cc
strip_bracket_sound (c ∷ cs) rest h = ground arith

context_sound : {A : Type 0} (o : Option A) (a : A) → context not_host_port o ≡ ok a → o ≡ some a
context_sound none a h = cc
context_sound (some b) a h = cc

abbrev pub Shape : Text → Text × Text → Type 0
Shape address parts =
    ((address ≡ parts.0 ++ (b':' ∷ parts.1)) × (has_byte b':' parts.0 ≡ false))
    ⊎ (address ≡ b'[' ∷ (parts.0 ++ (b']' ∷ b':' ∷ parts.1)))

split-Shape :
    (address : Text) (parts : Text × Text) → split_checked address ≡ ok parts → Shape address parts
unfolding split_checked
split-Shape address parts h = elim (Option-cases (strip_bracket address)) [
  | inr (rest, e) ↦
      let k : context not_host_port (split_bracket rest) ≡ ok parts =
        (rw (split_checked, e) at h) in
      inr (
        strip_bracket_sound address rest e
        ∙ ap (λ t. b'[' ∷ t)
            (split_bracket_sound rest parts.0 parts.1 (context_sound (split_bracket rest) parts k)))
  | inl e ↦
      let k = (rw (split_checked, e) at h) in
      let (seen, after, split) =
        ok_of_bind (context not_host_port (rsplit_colon address)) _ parts k in
      let (last, bare) =
        ok_of_ensure (not (has_byte b':' seen.0)) unbracketed_ipv6 (ok seen) parts after in
      let same : seen ≡ parts = ground arith in
      subst (Shape address) same (
        inl (
          rsplit_colon_sound address seen.0 seen.1
              (context_sound (rsplit_colon address) seen split),
          ground arith,
        ))
]

pub accepted-IsHostPort :
    (address : Text) (parts : Text × ℕ) → validate_host_port address ≡ ok parts → IsHostPort address
unfolding validate_host_port
accepted-IsHostPort address parts h =
    let (split, h1, checked) = ok_of_bind (split_checked address) rest_of parts h in
    let (h2, filled) = ok_of_ensure (not (is_empty split.0)) empty_host (finish split) parts h1 in
    let (p, done, parsed) =
      ok_of_bind (context bad_port (parse_port split.1)) (λ q. ok (split.0, q)) parts h2 in
    let (number, positive) = parse_port-eq-some split.1 p (eq_of_context bad_port _ p parsed) in
    record {
      host = split.0;
      digits = split.1;
      port = p;
      shape = split-Shape address split checked;
      host_given = ground arith;
      number = number;
      positive = positive;
    }
