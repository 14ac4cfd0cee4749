-- ===== src/Network/Tunnel.antt =====
-- network/tunnel.rs: the tunnel command and the supervisor of its process.
pub mod Command
pub mod Supervisor
