-- ===== src/Network/Client.antt =====
-- network/client.rs: the connection of one server, from its request to the reconnect loop.
pub mod Request
pub mod Token
pub mod Session
pub mod Reconnect
