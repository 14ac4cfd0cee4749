-- ===== src/Network/Tunnel/Command.antt =====
-- network/tunnel.rs: `CommandSpec`, the command line of a tunnel.
pub mod Safe
use salmon.Base.{
  ℕ, Bool, true, false, Option, none, some, List, [], ◌∷◌, ◌++◌, Text, codes, ◌==◌, if◌then◌else◌,
}
use salmon.Base.Decimal.{decimal}
use salmon.Config.{
  TunnelReadinessProbeConfig, CustomTunnelCommandConfig, SshTunnelConfig, TunnelConfig,
  ServerConfig,
}

-- READY_MARKER
abbrev pub ready_marker : Text
ready_marker = codes "MONTRAY_TUNNEL_READY"

pub record CommandSpec : Type 0 where
  pub program : Text
  pub args : List Text
  pub readiness_probe : Option Text

-- `Option<CommandSpec>`, and the panics of the two `expect` calls
pub data Planned : Type 0 where
  no_tunnel : Planned
  spec : CommandSpec → Planned
  panic : Planned

-- the arguments in front of the user's own
unfoldable pub ssh_options : ServerConfig → SshTunnelConfig → List Text
ssh_options server ssh =
    codes "-N"
    ∷ codes "-T"
    ∷ codes "-o"
    ∷ codes "BatchMode=yes"
    ∷ codes "-o"
    ∷ codes "ExitOnForwardFailure=yes"
    ∷ codes "-o"
    ∷ codes "ConnectTimeout=15"
    ∷ codes "-o"
    ∷ codes "ServerAliveInterval=10"
    ∷ codes "-o"
    ∷ codes "ServerAliveCountMax=3"
    ∷ codes "-o"
    ∷ codes "PermitLocalCommand=yes"
    ∷ codes "-o"
    ∷ (codes "LocalCommand=echo " ++ ready_marker)
    ∷ codes "-p"
    ∷ decimal (if ssh.port == 0 then 22 else ssh.port)
    ∷ codes "-L"
    ∷ (server.addr ++ (codes ":" ++ ssh.remote_server_addr))
    ∷ []

unfoldable pub ssh_destination : SshTunnelConfig → Text
ssh_destination ssh = ssh.user ++ (codes "@" ++ ssh.host)

unfoldable pub for_ssh : ServerConfig → SshTunnelConfig → CommandSpec
for_ssh server ssh = record {
  program = codes "ssh";
  args = (ssh_options server ssh ++ ssh.extra_ssh_args) ++ (ssh_destination ssh ∷ []);
  readiness_probe = some ready_marker;
}

abbrev pub probe_text : Option TunnelReadinessProbeConfig → Option Text
probe_text none = none
probe_text (some probe) = some probe.contains_output

abbrev pub split_first : List Text → Option TunnelReadinessProbeConfig → Planned
split_first [] probe = panic
split_first (program ∷ args) probe =
    spec (record { program = program; args = args; readiness_probe = probe_text probe })

abbrev pub adapter :
    ServerConfig → Option CustomTunnelCommandConfig → Option SshTunnelConfig → Planned
adapter server (some custom) ssh = split_first custom.command custom.readiness_probe
adapter server none (some ssh) = spec (for_ssh server ssh)
adapter server none none = panic

abbrev pub planned : ServerConfig → Option TunnelConfig → Planned
planned server none = no_tunnel
planned server (some tunnel) = adapter server tunnel.custom_command tunnel.ssh

unfoldable pub for_server : ServerConfig → Planned
for_server server = planned server server.tunnel
