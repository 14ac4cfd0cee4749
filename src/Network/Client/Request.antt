-- ===== src/Network/Client/Request.antt =====
-- network/client.rs: `ConnectionSetup` and the handshake request that it builds.
use salmon.Base.{
  ℕ, Bool, not, ◌&&◌, Option, none, some, ◌∷◌, ◌++◌, Text, codes, starts_with, if◌then◌else◌,
}
use salmon.Base.Decimal.{decimal}
use salmon.Base.Results.{Result, ok, err, ◌>>=◌, ◌>>◌, ensure}
use salmon.Config.{ServerConfig}
use salmon.Config.Address.{AddressError, has_byte, split_host_port}

-- The connector is opaque: what rustls made of the TLS settings.
pub record ConnectionSetup (Connector : Type 0) : Type 0 where
  pub scheme : Text
  pub connector : Connector
  pub bearer : Option Text
  pub tls_server_name : Option Text

pub record Request : Type 0 where
  pub uri : Text
  pub host : Text
  pub authorization : Option Text

pub data RequestError : Type 0 where
  bad_address : AddressError → RequestError
  bad_url : Text → RequestError
  bad_host : RequestError

unfoldable pub uri_host : Text → Text
uri_host host =
    if has_byte b':' host && not (starts_with host (codes "["))
    then b'[' ∷ (host ++ codes "]")
    else host

abbrev pub lift_address : Result AddressError (Text × ℕ) → Result RequestError (Text × ℕ)
lift_address (ok parts) = ok parts
lift_address (err error) = err (bad_address error)

-- the authority of the URI: the name that TLS verifies, with the port of the address
unfoldable pub authority_of : Option Text → Text → Result RequestError Text
authority_of none addr = ok addr
authority_of (some server_name) addr = do
  parts ← lift_address (split_host_port addr)
  ok (uri_host server_name ++ (codes ":" ++ decimal parts.1))

-- The crate `http` says whether a text is a URL, and whether it is the value of a header.
module _ (into_client_request : Text → Result Text Text) (is_header : Text → Bool) where
  abbrev pub parse_url : Text → Result RequestError Text
  parse_url url = elim (into_client_request url) [
    | ok uri ↦ ok uri
    | err error ↦ err (bad_url error)
  ]

  unfoldable pub request :
      {C : Type 0} → ConnectionSetup C → ServerConfig → Result RequestError Request
  request setup server = do
    authority ← authority_of setup.tls_server_name server.addr
    uri ← parse_url (setup.scheme ++ (codes "://" ++ (authority ++ codes "/api/v1/wsconnect")))
    ensure (is_header server.addr) bad_host
    ok (record { uri = uri; host = server.addr; authorization = setup.bearer })
