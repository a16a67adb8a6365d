-- ===== src/Server.antt =====
-- The program cmd/server: what it does with a connection and with the destination of a stream.
pub mod Private
pub mod Policy
pub mod Packets
pub mod Proxy
pub mod Handshake
