-- ===== src/Lib.antt =====
-- anytls-go carries many proxied streams over few TLS connections. A Client
-- (proxy/session/client.go) keeps a pool of Sessions; a Session (proxy/session/session.go,
-- stream.go) multiplexes Streams over one connection with frames (frame.go) and pads what it
-- writes by a scheme (proxy/padding). The server authenticates a client (auth), throttles its
-- connections (limiter), chooses an outbound for each request (acl) and accounts for its traffic
-- (stats).
--
-- Files. Common: lists, Boolean tests, results, maps. Text: the parts of Go's strings and strconv.
-- Frame, StringMap, Padding: frame.go, util/string_map.go, proxy/padding/padding.go. Session: the
-- state (State), the connection below it (Conn), doWriteConn and the data path (Write), streams
-- (Streams), recvLoop (Recv), the machine on whole frames that recvLoop implements (Frames), and
-- every event of a session as a step (Steps); its other children are proofs, named for what they
-- show: Recv/Total, Frames/Refine, Wire, Padded, Reliable, Transfer, Invariant (the limit on
-- streams). Client: client.go over the session. Devices: the reference counts of stats/registry.go
-- and limiter/limiter.go. Limiter, Stats, Acl, Auth: the packages of these names (Stats/Account is
-- the history of the traffic); Lru is the interface of the caches that acl and auth use. Pipe:
-- proxy/pipe, its deadlines (Deadline), what reads get (Order), that a close frees every call
-- (Release). Config: config/config.go, its bandwidths (Bandwidth), its outbounds with the map of
-- cmd/server/outbound.go (Outbounds, Built), what LoadFile accepts (Accepted). Acl/Geo:
-- acl/matchers_v2geo.go; Acl/Loader: acl/geoloader.go; Auth/Limit: auth/limit.go. Resolver: the
-- package resolver and cmd/server/resolver.go, with proofs on its answers (Proper, Answered).
-- Outbound: the kinds of outbound. Server: selectRoute (Policy), private.go (Private), the UDP
-- connection (Packets), the admission of a client's first packet (Handshake) and TCP requests
-- (Proxy) of cmd/server. Acl/Parse: acl/parse.go. Tests, ServerTests, ServiceTests and
-- NetworkTests: small runs.
--
-- Model. Go functions are functions of the same name in snake_case on explicit state; a function
-- that can fail returns the state that the failure leaves and a Result. A mutex makes a method one
-- step, and Session/Steps takes the steps in any order; a frame can be handled after Close, since
-- the loop looks at die only before it reads. Where calls run at one time and wait for each other
-- (the pipe, the authentication limit, the DNS pool), their waits and returns are a step relation,
-- and the theorems are on every state that it reaches. Integers of fixed width wrap explicitly.
-- Maps are association lists. A stream is found by its id; one that left the map, also because
-- another of its id took its entry, stays in `gone`. A UserStat is found by its id and the number
-- of its allocation. A write to a pipe is taken at its return: the session does not show the loop
-- while it is blocked. The connection's successes and failures, random draws, hashes, clocks, the
-- dialer, IP parsing and printing, the order of a Go map, idna, the LRU caches and the skip list
-- are parameters. Strings are lists of bytes, and in acl lists of runes; case and spaces are those
-- of ASCII.
--
-- Bounds. recv runs on as much fuel as the input has bytes, plus one, since a round that goes on
-- takes a header; write_chunks on the length of the data, plus one, since a chunk is not empty;
-- the loops of the limiter on the number of bytes. The binary search of a geoip matcher runs on as
-- much fuel as it has nets, and a lookup of the resolver on 18, since a depth over 16 is an error.
--
-- Not modelled: deadlines of streams beyond whether they passed, the dump of streams, HTTP with
-- DNS over HTTPS, the sockets below the outbounds, generated code, and the programs under cmd but
-- for the files named above, which wire these parts together.
pub mod Common
pub mod Frame
pub mod Text
pub mod StringMap
pub mod Padding
pub mod Pipe
pub mod Session
pub mod Lru
pub mod Acl
pub mod Auth
pub mod Devices
pub mod Limiter
pub mod Stats
pub mod Client
pub mod Outbound
pub mod Config
pub mod Resolver
pub mod Server
mod Tests
mod ServerTests
mod ServiceTests
mod NetworkTests
