-- ===== src/Session.antt =====
-- proxy/session: the multiplexing session.
pub mod Conn
pub mod State
pub mod Write
pub mod Streams
pub mod Recv
pub mod Frames
pub mod Wire
pub mod Padded
pub mod Reliable
pub mod Steps
pub mod Invariant
pub mod Transfer
