-- ===== src/Server/Packets/Bound.antt =====
-- The outbound and the targets of the packets that leave a packet connection, and its decisions.
use anytls_go.Common.{
  ◌≤◌, Bytes, List, [], ◌∷◌, Option, none, some, Bool, true, false, not, ◌||◌, length, ◌≡◌, refl,
  All, arith,
}
use anytls_go.Common.Maps.{bytes_key}
use anytls_go.Outbound.{Socksaddr, Outbound, same_outbound}
use anytls_go.Server.Policy.{Route, Refusal, routed, refused}
use anytls_go.Server.Packets.{
  max_session_acl_cache, PolicyDecision, Packet, Socket, RoutedPacketConn, World, write_packet,
  close_conn,
}

same_refl : (ob : Outbound) → same_outbound ob ob ≡ true
same_refl Outbound.reject = refl
same_refl (Outbound.direct n) = ground arith
same_refl (Outbound.socks5 n s) = ground arith

module _ {ℓ} {S : Type ℓ} (w : World S) where
  -- The policy routed some destination of this name by r.
  pub record IsChosen (key : Bytes) (r : Route) : Type ℓ where
    pub destination : Socksaddr
    pub rules : S
    pub named : w.show_dest destination ≡ key
    pub chosen : (w.select destination rules).1 ≡ routed r

  -- The policy refused some destination of this name.
  pub record IsRefused (key : Bytes) : Type ℓ where
    pub destination : Socksaddr
    pub rules : S
    pub reason : Refusal
    pub named : w.show_dest destination ≡ key
    pub refusal : (w.select destination rules).1 ≡ refused reason

  abbrev pub Cached : Bytes × PolicyDecision → Type ℓ
  Cached (key, none) = IsRefused key
  Cached (key, some r) = IsChosen key r

  -- A packet on its way: for a destination of the name that it was given, the policy chose its
  -- target, and the outbound that owns the socket.
  pub record IsRouted (owner : Outbound) (sent : Packet × Socksaddr) : Type ℓ where
    pub route : Route
    pub allowed : IsChosen (w.show_dest sent.0.1) route
    pub there : route.target ≡ sent.1
    pub same_owner : same_outbound route.outbound owner ≡ true

  abbrev pub SocketIsValid : Bool → Option Socket → Type ℓ
  SocketIsValid closed none = Unit
  SocketIsValid closed (some k) = All (IsRouted k.owner) k.sent × (k.open_still ≡ not closed)

  abbrev pub opened_once : Option Socket → Bool
  opened_once none = false
  opened_once (some k) = true

  pub record IsValid (c : RoutedPacketConn S) : Type ℓ where
    pub cache_fits : length c.cache ≤ max_session_acl_cache
    pub cache_chosen : All Cached c.cache
    pub socket_valid : SocketIsValid c.closed c.socket
    pub readable : c.ready ≡ (opened_once c.socket || c.closed)

  -- The state with a decision that it may pass a packet by.
  Decided : Bytes → RoutedPacketConn S × PolicyDecision → Type ℓ
  Decided key r = IsValid r.0 × Cached (key, r.1)

  -- Packets and a close, in any order
  pub data Call : Type 0 where
    packet : Bytes → Socksaddr → Call
    shut_down : Call

  unfoldable pub call : Call → RoutedPacketConn S → RoutedPacketConn S
  unfolding write_packet close_conn
  call (packet b d) c = (write_packet w b d c).0
  call shut_down c = close_conn w c

  unfoldable pub calls : List Call → RoutedPacketConn S → RoutedPacketConn S
  unfolding call
  calls [] c = c
  calls (x ∷ xs) c = calls xs (call x c)
