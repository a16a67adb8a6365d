-- ===== src/Acl.antt =====
-- acl: the rules that choose an outbound for a request.
pub mod Host
pub mod Glob
pub mod Rules
pub mod Cached
pub mod Compile
pub mod Geo
pub mod Loader
pub mod Ports
pub mod Parse
