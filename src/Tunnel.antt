-- ===== src/Tunnel.antt =====
-- crates/ssh-core/src/tunnel.rs: the SOCKS5 server of a dynamic tunnel, and the relay between a TCP
-- stream and a channel.
pub mod Relay
pub mod Faithful
pub mod Delivers
pub mod Socks
pub mod Accepts
mod Tests
