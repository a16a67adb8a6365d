-- ===== src/Server/Packets.antt =====
-- routedPacketConn of cmd/server/acl.go: the packets of a UDP-over-TCP stream. `decide` is a
-- parameter, selectRoute for UDP with its state; so are the print of a destination, the outbound's
-- ListenUDP and WritePacket, and the entry that a `range` over the cache meets first.
pub mod Bound
use anytls_go.Common.{
  ℕ, ◌%◌, Bytes, List, [], ◌∷◌, ◌++◌, Option, none, some, Bool, true, false, length, take, drop,
  leb, if◌then◌else◌, Error, net_closed, Result, ok, err,
}
use anytls_go.Common.Maps.{lookup, insert, bytes_key}
use anytls_go.Outbound.{Socksaddr, Outbound, same_outbound}
use anytls_go.Server.Policy.{Route, Chosen, routed, refused}

-- maxSessionACLCache
abbrev pub max_session_acl_cache : ℕ
max_session_acl_cache = 256

-- policyDecision: none is a rejection.
abbrev pub PolicyDecision : Type 0
PolicyDecision = Option Route

-- The payload and the destination that WritePacket is given
abbrev pub Packet : Type 0
Packet = Bytes × Socksaddr

-- The socket that an outbound gave, with what was written to it, oldest first: each packet as it
-- was given, and the target that its payload was sent to
pub record Socket : Type 0 where
  pub owner : Outbound
  pub sent : List (Packet × Socksaddr)
  pub open_still : Bool

pub record RoutedPacketConn {ℓ} (S : Type ℓ) : Type ℓ where
  pub rules : S
  pub cache : List (Bytes × PolicyDecision)
  pub socket : Option Socket
  pub closed : Bool
  -- the channel ready is closed
  pub ready : Bool

pub record World {ℓ} (S : Type ℓ) : Type ℓ where
  pub select : Socksaddr → S → S × Chosen
  pub show_dest : Socksaddr → Bytes
  -- an error of ListenUDP, and of WritePacket after so many packets
  pub listen_fails : Outbound → Option Error
  pub write_fails : ℕ → Option Error
  pub first_key : ℕ → ℕ

-- What WritePacket returns: a packet that is dropped is no error.
pub data Written : Type 0 where
  dropped : Written
  passed : Written
  write_error : Error → Written

module _ {ℓ} {S : Type ℓ} (w : World S) where
  -- newRoutedPacketConn
  unfoldable pub new_routed_packet_conn : S → RoutedPacketConn S
  new_routed_packet_conn s = record {
    rules = s;
    cache = [];
    socket = none;
    closed = false;
    ready = false;
  }

  -- decide
  abbrev pub decision_of : Chosen → PolicyDecision
  decision_of (routed r) = some r
  decision_of (refused x) = none

  unfoldable pub decide : Socksaddr → S → S × PolicyDecision
  decide destination s = let r = w.select destination s in (r.0, decision_of r.1)

  -- The eviction of one entry from a cache that is full
  unfoldable pub make_room : List (Bytes × PolicyDecision) → List (Bytes × PolicyDecision)
  make_room m =
      let i = w.first_key (length m) % length m in
      if leb max_session_acl_cache (length m) then take i m ++ drop 1 (drop i m) else m

  -- The decision for a destination, from the cache or made and cached
  abbrev pub decide_case :
      Socksaddr
      → Bytes
      → Option PolicyDecision
      → RoutedPacketConn S
      → RoutedPacketConn S × PolicyDecision
  decide_case destination key (some d) c = (c, d)
  decide_case destination key none c =
      let r = decide destination c.rules in
      (record c { rules = r.0; cache = insert key r.1 (make_room c.cache) }, r.1)

  unfoldable pub cached_decision :
      Socksaddr → RoutedPacketConn S → RoutedPacketConn S × PolicyDecision
  unfolding decide make_room lookup insert
  cached_decision destination c =
      decide_case destination (w.show_dest destination) (lookup (w.show_dest destination) c.cache) c

  -- conn.WritePacket on the socket
  abbrev pub put_packet :
      Option Error → Packet → Socksaddr → Socket → RoutedPacketConn S → RoutedPacketConn S × Written
  put_packet (some e) b target k c = (c, write_error e)
  put_packet none b target k c =
      (record c { socket = some (record k { sent = k.sent ++ (b, target) ∷ [] }) }, passed)

  -- A packet of a route on the socket that is open
  abbrev pub on_socket : Packet → Route → Socket → RoutedPacketConn S → RoutedPacketConn S × Written
  on_socket b r k c =
      if same_outbound r.outbound k.owner
      then put_packet (w.write_fails (length k.sent)) b r.target k c
      else (c, dropped)

  abbrev pub opened :
      Packet → Route → Option Error → RoutedPacketConn S → RoutedPacketConn S × Written
  opened b r (some e) c = (c, write_error e)
  opened b r none c =
      let k : Socket = record { owner = r.outbound; sent = []; open_still = true } in
      on_socket b r k (record c { socket = some k; ready = true })

  abbrev pub with_socket :
      Packet → Route → Option Socket → RoutedPacketConn S → RoutedPacketConn S × Written
  with_socket b r none c = opened b r (w.listen_fails r.outbound) c
  with_socket b r (some k) c = on_socket b r k c

  abbrev pub by_decision :
      Packet → RoutedPacketConn S × PolicyDecision → RoutedPacketConn S × Written
  by_decision b (c, none) = (c, dropped)
  by_decision b (c, some r) =
      if c.closed then (c, write_error net_closed) else with_socket b r c.socket c

  -- WritePacket
  unfoldable pub write_packet :
      Bytes → Socksaddr → RoutedPacketConn S → RoutedPacketConn S × Written
  unfolding cached_decision
  write_packet b destination c = by_decision (b, destination) (cached_decision destination c)

  -- ReadPacket: none while it waits for ready; then the socket that it reads from, or ErrClosed.
  abbrev pub socket_or_closed : Option Socket → Result Socket
  socket_or_closed none = err net_closed
  socket_or_closed (some k) = ok k

  unfoldable pub read_packet : RoutedPacketConn S → Option (Result Socket)
  read_packet c = if c.ready then some (socket_or_closed c.socket) else none

  -- Close
  abbrev pub shut : Option Socket → Option Socket
  shut none = none
  shut (some k) = some (record k { open_still = false })

  unfoldable pub close_conn : RoutedPacketConn S → RoutedPacketConn S
  close_conn c =
      if c.closed then c else record c { closed = true; ready = true; socket = shut c.socket }
