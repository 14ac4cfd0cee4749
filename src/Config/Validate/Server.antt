-- ===== src/Config/Validate/Server.antt =====
-- config.rs: what is known of one server that is accepted.
use mathlib.Core.Path.{subst}
use salmon.Base.{
  Option-cases, sym, is_some, Option, none, some, ◌≢◌, text_eq_iff, Bool-cases, ◌⊎◌, ◌||◌, inl, inr,
  ℕ, Bool, true, false, not, List, [], ◌∷◌, ◌≡◌, refl, arith, Text, codes, text_eq, is_empty, All,
  all,
}
use salmon.Base.Results.{Result, ok, err, ensure, ok_of_ensure, ok_of_bind}
use salmon.Config.{
  ServerConfig, SshTunnelConfig, CustomTunnelCommandConfig, TunnelReadinessProbeConfig,
  TunnelConfig,
}
use salmon.Config.Address.Shape.{IsHostPort, accepted-IsHostPort}
use salmon.Config.Address.{has_byte, validate_host_port}
use salmon.Config.Validate.{
  within, not_loopback, no_executable, has_executable, probe_is_empty, has_hyphen, bad_local,
  bad_remote, bad_ssh, host_required, host_hyphen, user_required, user_hyphen, check_local,
  validate_ssh_tunnel, validate_custom, tunnel_choice, validate_tunnel, has_structured_ssh_tunnel,
  token_file_is_empty, is_id_byte, validate_server_id, is_seen, check_addr, check_tunnel,
  check_server,
}

-- an id as `validate_server_id` accepts it
pub record IsServerId (id : Text) : Type 0 where
  pub filled : is_empty id ≡ false
  pub plain : all is_id_byte id ≡ true
  pub unreserved : text_eq id (codes "internal") ≡ false

pub validate_server_id-eq-ok : (id : Text) → validate_server_id id ≡ ok tt → IsServerId id
unfolding validate_server_id
validate_server_id-eq-ok id h = record {
  filled = ground arith;
  plain = ground arith;
  unreserved = ground arith;
}

-- what one round of the loop leaves behind
pub record IsServer (is_loopback_ip : Text → Bool) (ids : List Text) (server : ServerConfig)
    : Type 0 where
  pub id_ok : validate_server_id server.id ≡ ok tt
  pub fresh : is_seen server.id ids ≡ false
  pub addr_given : (is_empty server.addr ≡ true) → has_structured_ssh_tunnel server ≡ true
  pub no_slash : has_byte b'/' server.addr ≡ false
  pub addr_ok : check_addr server.addr ≡ ok tt
  pub token_ok : token_file_is_empty server.auth ≡ false
  pub tunnel_ok : check_tunnel is_loopback_ip server server.tunnel ≡ ok tt

-- an empty address has no slash either
slash_free :
    (addr : Text)
    → (is_empty addr ≡ true) ⊎ (has_byte b'/' addr ≡ false)
    → has_byte b'/' addr ≡ false
slash_free [] h = refl
slash_free (c ∷ cs) (inl h) = cc
slash_free (c ∷ cs) (inr h) = h

module _ (is_loopback_ip : Text → Bool) where
  pub check_server_sound :
      (index : ℕ) (ids : List Text) (server : ServerConfig)
      → check_server is_loopback_ip index ids server ≡ ok tt
      → IsServer is_loopback_ip ids server
  unfolding check_server
  check_server_sound index ids server h = record {
    id_ok = ground arith;
    fresh = ground arith;
    addr_given = ground arith;
    no_slash = slash_free server.addr (ground arith);
    addr_ok = ground arith;
    token_ok = ground arith;
    tunnel_ok = ground arith;
  }

-- no server of the list has this id
abbrev pub Fresh : Text → List ServerConfig → Type 0
Fresh id = All (λ server. text_eq id server.id ≡ false)

abbrev pub DistinctIds : List ServerConfig → Type 0
DistinctIds [] = Unit
DistinctIds (server ∷ servers) = Fresh server.id servers × DistinctIds servers

-- a structured SSH tunnel: its fields are given, the remote address is a host and port, and a local
-- one that is given is a loopback address
pub record IsSshTunnel (is_loopback_ip : Text → Bool) (server : ServerConfig)
    (ssh : SshTunnelConfig) : Type 0 where
  pub host_given : is_empty ssh.host ≡ false
  pub host_no_option : has_hyphen ssh.host ≡ false
  pub user_given : is_empty ssh.user ≡ false
  pub user_no_option : has_hyphen ssh.user ≡ false
  pub remote : IsHostPort ssh.remote_server_addr
  pub local :
      (server.addr ≡ [])
      ⊎ ((parts : Text × ℕ) × (validate_host_port server.addr ≡ ok parts)
          × ((parts.0 ≡ codes "localhost") ⊎ (is_loopback_ip parts.0 ≡ true)))

-- a command of one's own: a program, and a probe that is not empty if there is one
abbrev pub IsCommand : List Text → Type 0
IsCommand [] = ⊥
IsCommand (program ∷ args) = program ≢ []

abbrev pub IsProbe : Option TunnelReadinessProbeConfig → Type 0
IsProbe none = Unit
IsProbe (some probe) = probe.contains_output ≢ []

-- exactly one of the two kinds
abbrev pub IsTunnel :
    (Text → Bool)
    → ServerConfig
    → Option SshTunnelConfig
    → Option CustomTunnelCommandConfig
    → Type 0
IsTunnel is_loopback_ip server (some ssh) none = IsSshTunnel is_loopback_ip server ssh
IsTunnel is_loopback_ip server none (some custom) =
    IsCommand custom.command × IsProbe custom.readiness_probe
IsTunnel is_loopback_ip server _ _ = ⊥

abbrev pub HasTunnel : (Text → Bool) → ServerConfig → Option TunnelConfig → Type 0
HasTunnel is_loopback_ip server none = Unit
HasTunnel is_loopback_ip server (some tunnel) =
    IsTunnel is_loopback_ip server tunnel.ssh tunnel.custom_command

abbrev pub HasSsh : Option TunnelConfig → Type 0
HasSsh none = ⊥
HasSsh (some tunnel) =
    ((ssh : SshTunnelConfig) × (tunnel.ssh ≡ some ssh)) × (tunnel.custom_command ≡ none)

-- an address that is given is a host and port, and without one there is a structured SSH tunnel
abbrev pub HasAddress : ServerConfig → Text → Type 0
HasAddress server [] = HasSsh server.tunnel
HasAddress server (c ∷ cs) = IsHostPort (c ∷ cs)

-- what the program may rely on for one server
abbrev pub IsAccepted : (Text → Bool) → ServerConfig → Type 0
IsAccepted is_loopback_ip server =
    IsServerId server.id
    × HasAddress server server.addr
    × HasTunnel is_loopback_ip server server.tunnel

structured-HasSsh :
    (server : ServerConfig) → has_structured_ssh_tunnel server ≡ true → HasSsh server.tunnel
unfolding has_structured_ssh_tunnel
structured-HasSsh server h = elim (Option-cases server.tunnel) [
  | inl e ↦ absurd (ground arith)
  | inr (tunnel, e) ↦
      subst HasSsh (sym e)
        (given tunnel.ssh (ground arith), absent tunnel.custom_command (ground arith))
]
  where
    given :
        (ssh : Option SshTunnelConfig)
        → is_some ssh ≡ true
        → (config : SshTunnelConfig) × (ssh ≡ some config)
    given none k = cc
    given (some config) k = (config, refl)

    absent : (custom : Option CustomTunnelCommandConfig) → is_some custom ≡ false → custom ≡ none
    absent none k = refl
    absent (some config) k = cc

pub address-HasAddress :
    (server : ServerConfig) (addr : Text)
    → (is_empty addr ≡ true → has_structured_ssh_tunnel server ≡ true)
    → check_addr addr ≡ ok tt
    → HasAddress server addr
address-HasAddress server [] h k = structured-HasSsh server (h refl)
address-HasAddress server (c ∷ cs) h k =
    let (parts, done, e) = ok_of_bind (validate_host_port (c ∷ cs)) _ tt k in
    accepted-IsHostPort (c ∷ cs) parts e

within_sound :
    {E F A : Type 0} (wrap : E → F) (m : Result E A) (a : A) → within wrap m ≡ ok a → m ≡ ok a
within_sound wrap (ok b) a h = cc
within_sound wrap (err e) a h = cc

loopback_left :
    (named loopback : Bool)
    → ensure (named || loopback) not_loopback ≡ ok tt
    → named ≡ false
    → loopback ≡ true
loopback_left true loopback h k = cc
loopback_left false true h k = refl
loopback_left false false h k = cc

local_sound :
    (is_loopback_ip : Text → Bool) (addr : Text)
    → check_local is_loopback_ip addr ≡ ok tt
    → (addr ≡ [])
      ⊎ ((parts : Text × ℕ) × (validate_host_port addr ≡ ok parts)
          × ((parts.0 ≡ codes "localhost") ⊎ (is_loopback_ip parts.0 ≡ true)))
unfolding check_local
local_sound is_loopback_ip [] h = inl refl
local_sound is_loopback_ip (c ∷ cs) h =
    let (parts, checked, e) = ok_of_bind (within bad_local (validate_host_port (c ∷ cs))) _ tt h in
    inr (
      parts,
      within_sound bad_local _ parts e,
      elim (Bool-cases (text_eq parts.0 (codes "localhost"))) [
        | inl here ↦ inl ((text_eq_iff parts.0 (codes "localhost")).0 here)
        | inr other_ ↦ inr (loopback_left _ _ checked other_)
      ],
    )

ssh-IsSshTunnel :
    (is_loopback_ip : Text → Bool) (server : ServerConfig) (ssh : SshTunnelConfig)
    → validate_ssh_tunnel is_loopback_ip server ssh ≡ ok tt
    → IsSshTunnel is_loopback_ip server ssh
unfolding validate_ssh_tunnel
ssh-IsSshTunnel is_loopback_ip server ssh h =
    let (h1, e1) = ok_of_ensure (not (is_empty ssh.host)) host_required _ tt h in
    let (h2, e2) = ok_of_ensure (not (has_hyphen ssh.host)) host_hyphen _ tt h1 in
    let (h3, e3) = ok_of_ensure (not (is_empty ssh.user)) user_required _ tt h2 in
    let (h4, e4) = ok_of_ensure (not (has_hyphen ssh.user)) user_hyphen _ tt h3 in
    let (parts, h5, e5) =
      ok_of_bind (within bad_remote (validate_host_port ssh.remote_server_addr)) _ tt h4 in
    record {
      host_given = ground arith;
      host_no_option = ground arith;
      user_given = ground arith;
      user_no_option = ground arith;
      remote =
          accepted-IsHostPort ssh.remote_server_addr parts (within_sound bad_remote _ parts e5);
      local = local_sound is_loopback_ip server.addr h5;
    }

program_given : (command : List Text) → has_executable command ≡ true → IsCommand command
program_given [] h = cc
program_given ([] ∷ args) h = cc
program_given ((c ∷ cs) ∷ args) h = λ e. cc

IsProbe-given :
    (probe : Option TunnelReadinessProbeConfig) → probe_is_empty probe ≡ false → IsProbe probe
IsProbe-given none h = tt
IsProbe-given (some probe) h = λ e. filled probe.contains_output h e
  where
    filled : (text : Text) → is_empty text ≡ false → text ≡ [] → ⊥
    filled [] k e = cc
    filled (c ∷ cs) k e = cc

custom_sound :
    (is_loopback_ip : Text → Bool) (custom : CustomTunnelCommandConfig)
    → validate_custom is_loopback_ip custom ≡ ok tt
    → IsCommand custom.command × IsProbe custom.readiness_probe
unfolding validate_custom
custom_sound is_loopback_ip custom h =
    let (h1, e1) = ok_of_ensure (has_executable custom.command) no_executable _ tt h in
    (
      program_given custom.command (ground arith),
      IsProbe-given custom.readiness_probe (ground arith),
    )

choice-IsTunnel :
    (is_loopback_ip : Text → Bool) (server : ServerConfig) (ssh : Option SshTunnelConfig)
    (custom : Option CustomTunnelCommandConfig)
    → tunnel_choice is_loopback_ip server ssh custom ≡ ok tt
    → IsTunnel is_loopback_ip server ssh custom
unfolding tunnel_choice
choice-IsTunnel is_loopback_ip server (some ssh) none h =
    ssh-IsSshTunnel is_loopback_ip server ssh (within_sound bad_ssh _ tt h)
choice-IsTunnel is_loopback_ip server none (some custom) h = custom_sound is_loopback_ip custom h
choice-IsTunnel is_loopback_ip server none none h = cc
choice-IsTunnel is_loopback_ip server (some ssh) (some custom) h = cc

pub tunnel-HasTunnel :
    (is_loopback_ip : Text → Bool) (server : ServerConfig) (tunnel : Option TunnelConfig)
    → check_tunnel is_loopback_ip server tunnel ≡ ok tt
    → HasTunnel is_loopback_ip server tunnel
unfolding validate_tunnel
tunnel-HasTunnel is_loopback_ip server none h = tt
tunnel-HasTunnel is_loopback_ip server (some tunnel) h =
    choice-IsTunnel is_loopback_ip server tunnel.ssh tunnel.custom_command h
