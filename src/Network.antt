-- ===== src/Network.antt =====
-- cmd/montray-ui/src/network: the wire protocol, the socket's reconnect loop, and the tunnel
-- process with the readers of its output.
pub mod Probe
pub mod Tail
pub mod Capture
pub mod Protocol
pub mod Tunnel
pub mod Client
