-- ===== src/Examples/Settings.antt =====
-- cmd/montray-ui/src/config.rs and the tunnel's command at concrete configurations.
use salmon.Base.{
  ◌≤◌, false, some, none, [], ◌∷◌, ◌≡◌, ◌≢◌, refl, arith, Text, codes, text_eq, is_empty, All, Bool,
}
use salmon.Base.Decimal.{parse_unsigned}
use salmon.Base.Results.{ok}
use salmon.Domain.Model.{Incident, IncidentState}
use salmon.Domain.Reducer.{prefixed}
use salmon.Config.{SshTunnelConfig, ServerConfig, Config}
use salmon.Config.Address.{split_bracket, rsplit_colon, validate_host_port}
use salmon.Config.Validate.{
  is_id_byte, validate_server_id, has_structured_ssh_tunnel, check_local, validate_ssh_tunnel,
  tunnel_choice, validate_tunnel, check_tunnel, check_server, check_servers, validate,
}
use salmon.Config.Validate.Server.{IsServerId, IsAccepted, DistinctIds}
use salmon.Config.Validate.Accepted.{validate_sound}
use salmon.Config.Validate.Namespaces.{qualified_keys_distinct}
use salmon.Network.Tunnel.Command.{for_server}
use salmon.Network.Tunnel.Command.Safe.{IsSafe, for_server-IsSafe}

abbrev no_loopback : Text → Bool
no_loopback host = false

abbrev plain : ServerConfig
plain = record { id = codes "web"; addr = codes "h:80"; tls = none; auth = none; tunnel = none }

abbrev ssh : SshTunnelConfig
ssh = record {
  host = codes "gate";
  user = codes "me";
  port = 0;
  remote_server_addr = codes "db:5";
  extra_ssh_args = [];
}

abbrev tunneled : ServerConfig
tunneled = record {
  id = codes "db";
  addr = codes "localhost:7";
  tls = none;
  auth = none;
  tunnel = some (record { ssh = some ssh; custom_command = none });
}

abbrev both : Config
both = record { servers = plain ∷ tunneled ∷ [] }

both_accepted : validate no_loopback both ≡ ok tt
unfolding validate check_servers check_server validate_server_id is_id_byte
    has_structured_ssh_tunnel validate_tunnel tunnel_choice validate_ssh_tunnel check_local
    validate_host_port split_bracket rsplit_colon text_eq parse_unsigned
both_accepted = refl

validate_sound_example :
    (is_empty both.servers ≡ false)
    × All (IsAccepted no_loopback) both.servers
    × DistinctIds both.servers
validate_sound_example = validate_sound no_loopback both both_accepted

web-IsServerId : IsServerId (codes "web")
unfolding is_id_byte text_eq
web-IsServerId = record { filled = refl; plain = refl; unreserved = refl }

db-IsServerId : IsServerId (codes "db")
unfolding is_id_byte text_eq
db-IsServerId = record { filled = refl; plain = refl; unreserved = refl }

abbrev disk_full : Incident
disk_full = record {
  key = codes "disk";
  state = IncidentState.error;
  details = codes "full";
  incident_started_at = codes "t";
  stale = false;
}

web_db : text_eq (codes "web") (codes "db") ≡ false
unfolding text_eq
web_db = refl

qualified_keys_distinct_example :
    (prefixed disk_full (codes "web")).key ≢ (prefixed disk_full (codes "db")).key
qualified_keys_distinct_example =
    qualified_keys_distinct (codes "web") (codes "db") disk_full disk_full web-IsServerId
      db-IsServerId web_db

db_address : validate_host_port (codes "[::1]:41990") ≡ ok (codes "::1", 41990)
unfolding validate_host_port split_bracket rsplit_colon parse_unsigned
db_address = refl

tunnel_accepted : check_tunnel no_loopback tunneled tunneled.tunnel ≡ ok tt
unfolding validate_tunnel tunnel_choice validate_ssh_tunnel check_local validate_host_port
    split_bracket rsplit_colon text_eq parse_unsigned
tunnel_accepted = refl

for_server-IsSafe_example : IsSafe (for_server tunneled)
for_server-IsSafe_example = for_server-IsSafe no_loopback tunneled tunnel_accepted

ssh_accepted : validate_ssh_tunnel no_loopback tunneled ssh ≡ ok tt
unfolding validate_ssh_tunnel check_local validate_host_port split_bracket rsplit_colon text_eq
    parse_unsigned
ssh_accepted = refl

small_port : ssh.port ≤ 65535
small_port = omega arith
