-- ===== src/Network/Tunnel/Command/Safe.antt =====
-- network/tunnel.rs: the command of an accepted configuration.
use salmon.Base.{
  ℕ, Bool, true, false, Option, none, some, List, [], ◌∷◌, ◌++◌, ◌≡◌, ◌≤◌, text_eq, refl, arith,
  Text, codes, ◌==◌, is_empty, if◌then◌else◌,
}
use salmon.Base.Results.{ok}
use salmon.Base.Decimal.{parse_unsigned, parse_unsigned-decimal}
use salmon.Config.{
  TunnelReadinessProbeConfig, CustomTunnelCommandConfig, SshTunnelConfig, TunnelConfig,
  ServerConfig,
}
use salmon.Config.Validate.{
  validate_custom, has_hyphen, has_executable, probe_is_empty, validate_ssh_tunnel, tunnel_choice,
  validate_tunnel, check_tunnel,
}
use salmon.Network.Tunnel.Command.{
  Planned, no_tunnel, spec, panic, ssh_options, ssh_destination, for_ssh, split_first, adapter,
  planned, for_server,
}

-- the number in the argument behind an option
abbrev pub find_after : Text → List Text → Option ℕ
find_after option [] = none
find_after option (arg ∷ []) = none
find_after option (arg ∷ next ∷ args) =
    if text_eq arg option then parse_unsigned 65535 next else find_after option (next ∷ args)

-- a probe that the matcher can look for
abbrev pub HasProbeText : Option Text → Type 0
HasProbeText none = Unit
HasProbeText (some probe) = is_empty probe ≡ false

-- no panic, a program to run, and a probe that is not empty
abbrev pub IsSafe : Planned → Type 0
IsSafe no_tunnel = Unit
IsSafe panic = ⊥
IsSafe (spec s) = (is_empty s.program ≡ false) × HasProbeText s.readiness_probe

custom-IsSafe :
    (is_loopback_ip : Text → Bool) (custom : CustomTunnelCommandConfig) (command : List Text)
    (probe : Option TunnelReadinessProbeConfig)
    → has_executable command ≡ true
    → probe_is_empty probe ≡ false
    → IsSafe (split_first command probe)
custom-IsSafe is_loopback_ip custom [] probe h k = cc
custom-IsSafe is_loopback_ip custom (program ∷ args) none h k = (ground arith, tt)
custom-IsSafe is_loopback_ip custom (program ∷ args) (some probe) h k = (ground arith, k)

adapter-IsSafe :
    (is_loopback_ip : Text → Bool) (server : ServerConfig) (ssh : Option SshTunnelConfig)
    (custom : Option CustomTunnelCommandConfig)
    → tunnel_choice is_loopback_ip server ssh custom ≡ ok tt
    → IsSafe (adapter server custom ssh)
unfolding tunnel_choice validate_custom for_ssh
adapter-IsSafe is_loopback_ip server (some ssh) none h = (refl, refl)
adapter-IsSafe is_loopback_ip server none (some custom) h =
    custom-IsSafe is_loopback_ip custom custom.command custom.readiness_probe (ground arith)
      (ground arith)
adapter-IsSafe is_loopback_ip server none none h = cc
adapter-IsSafe is_loopback_ip server (some ssh) (some custom) h = cc

planned-IsSafe :
    (is_loopback_ip : Text → Bool) (server : ServerConfig) (tunnel : Option TunnelConfig)
    → check_tunnel is_loopback_ip server tunnel ≡ ok tt
    → IsSafe (planned server tunnel)
unfolding validate_tunnel
planned-IsSafe is_loopback_ip server none h = tt
planned-IsSafe is_loopback_ip server (some tunnel) h =
    adapter-IsSafe is_loopback_ip server tunnel.ssh tunnel.custom_command h

-- Building the tunnel command of a server whose tunnel settings are accepted never panics; the
-- command has a program, and its readiness text, if it has one, is not empty.
pub for_server-IsSafe :
    (is_loopback_ip : Text → Bool) (server : ServerConfig)
    → check_tunnel is_loopback_ip server server.tunnel ≡ ok tt
    → IsSafe (for_server server)
unfolding for_server
for_server-IsSafe is_loopback_ip server h = planned-IsSafe is_loopback_ip server server.tunnel h

ssh_user :
    (is_loopback_ip : Text → Bool) (server : ServerConfig) (ssh : SshTunnelConfig)
    → validate_ssh_tunnel is_loopback_ip server ssh ≡ ok tt
    → (is_empty ssh.user ≡ false) × (has_hyphen ssh.user ≡ false)
unfolding validate_ssh_tunnel
ssh_user is_loopback_ip server ssh h = ground arith

no_hyphen :
    (user rest : Text)
    → is_empty user ≡ false
    → has_hyphen user ≡ false
    → has_hyphen (user ++ rest) ≡ false
no_hyphen [] rest h k = cc
no_hyphen (c ∷ cs) rest h k = k

-- The SSH command of accepted settings ends with the destination, and ssh cannot read that as an
-- option: it does not begin with a hyphen. The port in front of it is the configured one, or 22
-- for 0, and reads back as that number.
pub ssh_destination_last :
    (is_loopback_ip : Text → Bool) (server : ServerConfig) (ssh : SshTunnelConfig)
    → validate_ssh_tunnel is_loopback_ip server ssh ≡ ok tt
    → ssh.port ≤ 65535
    → ((for_ssh server ssh).args
        ≡ (ssh_options server ssh ++ ssh.extra_ssh_args) ++ (ssh_destination ssh ∷ []))
      × (has_hyphen (ssh_destination ssh) ≡ false)
      × (find_after (codes "-p") (for_ssh server ssh).args
          ≡ some (if ssh.port == 0 then 22 else ssh.port))
unfolding for_ssh ssh_options ssh_destination text_eq
ssh_destination_last is_loopback_ip server ssh h small =
    let (filled, plain) = ssh_user is_loopback_ip server ssh h in
    (
      refl,
      no_hyphen ssh.user _ filled plain,
      parse_unsigned-decimal 65535 (if ssh.port == 0 then 22 else ssh.port) (ground arith),
    )
