-- ===== src/Config.antt =====
-- config.rs: the configuration file as data. YAML is read by serde; its unknown fields are
-- refused there, and omitted fields have the defaults that `serde(default)` gives them.
pub mod Address
pub mod Validate
use salmon.Base.{ℕ, Option, List, Text}

pub record TlsConfig : Type 0 where
  pub ca_file : Text
  pub server_name : Text

pub record AuthConfig : Type 0 where
  pub bearer_token_file : Text

pub record TunnelReadinessProbeConfig : Type 0 where
  pub contains_output : Text

pub record CustomTunnelCommandConfig : Type 0 where
  pub command : List Text
  pub readiness_probe : Option TunnelReadinessProbeConfig

pub record SshTunnelConfig : Type 0 where
  pub host : Text
  pub user : Text
  pub port : ℕ  -- u16
  pub remote_server_addr : Text
  pub extra_ssh_args : List Text

pub record TunnelConfig : Type 0 where
  pub ssh : Option SshTunnelConfig
  pub custom_command : Option CustomTunnelCommandConfig

pub record ServerConfig : Type 0 where
  pub id : Text
  pub addr : Text
  pub tls : Option TlsConfig
  pub auth : Option AuthConfig
  pub tunnel : Option TunnelConfig

pub record Config : Type 0 where
  pub servers : List ServerConfig
