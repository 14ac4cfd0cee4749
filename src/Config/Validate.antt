-- ===== src/Config/Validate.antt =====
-- config.rs: `Config::validate`, `validate_server_id` and the checks of the tunnels. Whether a
-- host is a loopback IP address, which `std::net` decides, is a parameter.
pub mod Server
pub mod Accepted
pub mod Namespaces
use salmon.Base.{
  ℕ, ◌+◌, Bool, true, false, not, ◌&&◌, ◌||◌, Option, none, some, List, [], ◌∷◌, ◌++◌, Text, codes,
  text_eq, ◌==◌, leb, if◌then◌else◌, is_empty, is_some, any, all, starts_with,
}
use salmon.Base.Results.{Result, ok, err, ◌>>=◌, ◌>>◌, ensure}
use salmon.Config.{
  TlsConfig, AuthConfig, TunnelReadinessProbeConfig, CustomTunnelCommandConfig, SshTunnelConfig,
  TunnelConfig, ServerConfig, Config,
}
use salmon.Config.Address.{AddressError, has_byte, validate_host_port}

pub data IdError : Type 0 where
  required bad_character reserved : IdError

pub data SshError : Type 0 where
  host_required host_hyphen user_required user_hyphen not_loopback : SshError
  bad_remote bad_local : AddressError → SshError

pub data TunnelError : Type 0 where
  no_executable empty_probe not_exactly_one : TunnelError
  bad_ssh : SshError → TunnelError

-- with the index of the server
pub data ConfigError : Type 0 where
  no_servers : ConfigError
  bad_id : ℕ → IdError → ConfigError
  duplicated addr_required addr_is_url token_file_required : ℕ → ConfigError
  bad_addr : ℕ → AddressError → ConfigError
  bad_tunnel : ℕ → TunnelError → ConfigError

-- `with_context`
abbrev pub within : {E F A : Type 0} → (E → F) → Result E A → Result F A
within wrap (ok a) = ok a
within wrap (err e) = err (wrap e)

unfoldable pub is_id_byte : ℕ → Bool
is_id_byte c =
    (leb b'0' c && leb c b'9')
    || ((leb b'A' c && leb c b'Z') || ((leb b'a' c && leb c b'z') || (c == b'_' || c == b'-')))

unfoldable pub validate_server_id : Text → Result IdError (Unit {0})
validate_server_id id = do
  ensure (not (is_empty id)) required
  ensure (all is_id_byte id) bad_character
  ensure (not (text_eq id (codes "internal"))) reserved

unfoldable pub has_structured_ssh_tunnel : ServerConfig → Bool
has_structured_ssh_tunnel server = elim server.tunnel [
  | none ↦ false
  | some tunnel ↦ is_some tunnel.ssh && not (is_some tunnel.custom_command)
]

-- `starts_with('-')`
abbrev pub has_hyphen : Text → Bool
has_hyphen [] = false
has_hyphen (c ∷ cs) = c == b'-'

-- `command.first().is_none_or(String::is_empty)`, negated
abbrev pub has_executable : List Text → Bool
has_executable [] = false
has_executable (program ∷ args) = not (is_empty program)

abbrev pub probe_is_empty : Option TunnelReadinessProbeConfig → Bool
probe_is_empty none = false
probe_is_empty (some probe) = is_empty probe.contains_output

abbrev pub token_file_is_empty : Option AuthConfig → Bool
token_file_is_empty none = false
token_file_is_empty (some auth) = is_empty auth.bearer_token_file

-- `ids.insert(&server.id)` is false
abbrev pub is_seen : Text → List Text → Bool
is_seen id = any (λ seen. text_eq seen id)

abbrev pub check_addr : Text → Result AddressError (Unit {0})
check_addr [] = ok tt
check_addr (c ∷ cs) = do parts ← validate_host_port (c ∷ cs); ok tt

-- `contains("//")`
abbrev pub has_double_slash : Text → Bool
has_double_slash [] = false
has_double_slash (c ∷ []) = false
has_double_slash (c ∷ d ∷ cs) = (c == b'/' && d == b'/') || has_double_slash (d ∷ cs)

module _ (is_loopback_ip : Text → Bool) where
  unfoldable pub check_local : Text → Result SshError (Unit {0})
  check_local [] = ok tt
  check_local (c ∷ cs) = do
    parts ← within bad_local (validate_host_port (c ∷ cs))
    ensure (text_eq parts.0 (codes "localhost") || is_loopback_ip parts.0) not_loopback

  unfoldable pub validate_ssh_tunnel : ServerConfig → SshTunnelConfig → Result SshError (Unit {0})
  validate_ssh_tunnel server ssh = do
    ensure (not (is_empty ssh.host)) host_required
    ensure (not (has_hyphen ssh.host)) host_hyphen
    ensure (not (is_empty ssh.user)) user_required
    ensure (not (has_hyphen ssh.user)) user_hyphen
    remote ← within bad_remote (validate_host_port ssh.remote_server_addr)
    check_local server.addr

  unfoldable pub validate_custom : CustomTunnelCommandConfig → Result TunnelError (Unit {0})
  validate_custom custom = do
    ensure (has_executable custom.command) no_executable
    ensure (not (probe_is_empty custom.readiness_probe)) empty_probe

  unfoldable pub tunnel_choice :
      ServerConfig
      → Option SshTunnelConfig
      → Option CustomTunnelCommandConfig
      → Result TunnelError (Unit {0})
  unfolding validate_custom
  tunnel_choice server (some ssh) none = within bad_ssh (validate_ssh_tunnel server ssh)
  tunnel_choice server none (some custom) = validate_custom custom
  tunnel_choice server _ _ = err not_exactly_one

  unfoldable pub validate_tunnel : ServerConfig → TunnelConfig → Result TunnelError (Unit {0})
  unfolding tunnel_choice
  validate_tunnel server tunnel = tunnel_choice server tunnel.ssh tunnel.custom_command

  abbrev pub check_tunnel : ServerConfig → Option TunnelConfig → Result TunnelError (Unit {0})
  check_tunnel server none = ok tt
  check_tunnel server (some tunnel) = validate_tunnel server tunnel

  -- one round of the loop
  unfoldable pub check_server : ℕ → List Text → ServerConfig → Result ConfigError (Unit {0})
  check_server index ids server = do
    within (bad_id index) (validate_server_id server.id)
    ensure (not (is_seen server.id ids)) (duplicated index)
    ensure (not (is_empty server.addr && not (has_structured_ssh_tunnel server)))
        (addr_required index)
    ensure
        (not (
          not (is_empty server.addr)
          && (has_double_slash server.addr || has_byte b'/' server.addr)))
        (addr_is_url index)
    within (bad_addr index) (check_addr server.addr)
    ensure (not (token_file_is_empty server.auth)) (token_file_required index)
    within (bad_tunnel index) (check_tunnel server server.tunnel)

  unfoldable pub check_servers : ℕ → List Text → List ServerConfig → Result ConfigError (Unit {0})
  check_servers index ids [] = ok tt
  check_servers index ids (server ∷ servers) = do
    check_server index ids server
    check_servers (index + 1) (server.id ∷ ids) servers

  unfoldable pub validate : Config → Result ConfigError (Unit {0})
  validate config = do
    ensure (not (is_empty config.servers)) no_servers
    check_servers 0 [] config.servers

abbrev pub with_server : ServerConfig → Option (List ServerConfig) → Option (List ServerConfig)
with_server server none = none
with_server server (some servers) = some (server ∷ servers)

-- `resolve_tunnel_addresses`: the server at an index that has no address gets the one that the
-- system allocates then; `none` is a failure to bind.
unfoldable pub resolve : (ℕ → Option Text) → ℕ → List ServerConfig → Option (List ServerConfig)
resolve allocate index [] = some []
resolve allocate index (server ∷ servers) =
    let rest = resolve allocate (index + 1) servers in
    if not (is_empty server.addr) then with_server server rest else elim (allocate index) [
      | none ↦ none
      | some addr ↦ with_server (record server { addr = addr }) rest
    ]
