-- ===== src/Server/Proxy.antt =====
-- proxyOutboundTCP and clientError of cmd/server/outbound_tcp.go over DialTCP of the outbounds, as
-- what they do to the network and what the client is told. The dialer, the SOCKS5 handshake of the
-- sing library and the write of the report are parameters.
pub mod Reported
use anytls_go.Common.{
  Bytes, List, [], ◌∷◌, ◌++◌, Bool, true, false, if◌then◌else◌, Option, none, some,
}
use anytls_go.Lru.{Lru}
use anytls_go.Acl.Rules.{tcp, CacheKey, Decision, Names}
use anytls_go.Outbound.{Socksaddr, Socks5, Outbound, reject, direct, socks5}
use anytls_go.Server.Policy.{
  OutboundPolicy, Net, Refusal, acl_rejected, private_destination, resolve_failed, Chosen, routed,
  refused, select_route,
}

-- errClientBlocked, errClientResolveFailed and errClientDialFailed
pub data Message : Type 0 where
  blocked resolve_failed_message dial_failed : Message

-- A failure of selectRoute or of a reject outbound, or of DialTCP over the network
pub data Failure : Type 0 where
  by_policy : Refusal → Failure
  by_dial : Failure

unfoldable pub client_error : Failure → Message
client_error (by_policy acl_rejected) = blocked
client_error (by_policy private_destination) = blocked
client_error (by_policy resolve_failed) = resolve_failed_message
client_error by_dial = dial_failed

-- What happens on the network, in order
pub data Action : Type 0 where
  -- a direct connection; one to a proxy, the request on it, and its close
  connects : Socksaddr → Action
  connects_proxy : Socks5 → Action
  asks_proxy : Socks5 → Socksaddr → Action
  closes_proxy : Socks5 → Action
  -- ReportHandshakeFailure, ReportHandshakeSuccess, SetState and CopyConn
  tells : Message → Action
  tells_success : Action
  establishes : Action
  relays : Action

-- Which of the calls succeed. `handshakes` is ClientHandshake5 with its deadline set and cleared.
pub record Wires : Type 0 where
  pub dials : Socksaddr → Bool
  pub dials_proxy : Bytes → Bool
  pub sets_deadline : Bool
  pub handshakes : Socks5 → Socksaddr → Bool
  pub clears_deadline : Bool
  pub reports : Bool

module _ (w : Wires) where
  -- clientHandshake of SOCKS5: the request is sent once the deadline is set.
  abbrev pub client_handshake : Socks5 → Socksaddr → List Action × Bool
  client_handshake s destination =
      if w.sets_deadline
      then (
        asks_proxy s destination ∷ [],
        if w.handshakes s destination then w.clears_deadline else false,
      )
      else ([], false)

  -- negotiate
  abbrev pub close_failed : Socks5 → List Action × Bool → List Action × Bool
  close_failed s (done, true) = (done, true)
  close_failed s (done, false) = (done ++ closes_proxy s ∷ [], false)

  abbrev pub after_connect : Socks5 → List Action × Bool → List Action × Bool
  after_connect s (done, good) = (connects_proxy s ∷ done, good)

  unfoldable pub negotiate : Socks5 → Socksaddr → List Action × Bool
  negotiate s destination =
      if w.dials_proxy s.server
      then after_connect s (close_failed s (client_handshake s destination))
      else (connects_proxy s ∷ [], false)

  -- The end of a dial: none is a connection.
  abbrev pub dial_end : Bool → Option Failure
  dial_end true = none
  dial_end false = some by_dial

  abbrev pub with_end : List Action × Bool → List Action × Option Failure
  with_end (done, good) = (done, dial_end good)

  -- The three methods DialTCP; the error of Reject is the one that errACLRejected names.
  unfoldable pub dial_tcp : Outbound → Socksaddr → List Action × Option Failure
  unfolding negotiate
  dial_tcp reject destination = ([], some (by_policy acl_rejected))
  dial_tcp (direct n) destination = (connects destination ∷ [], dial_end (w.dials destination))
  dial_tcp (socks5 n s) destination = with_end (negotiate s destination)

  abbrev pub after_dial : List Action × Option Failure → List Action
  after_dial (done, some failure) = done ++ tells (client_error failure) ∷ []
  after_dial (done, none) =
      if w.reports
      then done ++ tells_success ∷ establishes ∷ relays ∷ []
      else done ++ tells_success ∷ []

  unfoldable pub by_route : Chosen → List Action
  unfolding dial_tcp client_error
  by_route (refused x) = tells (client_error (by_policy x)) ∷ []
  by_route (routed r) = after_dial (dial_tcp r.outbound r.target)

  module _ {κ} {S : Type κ} (cache : Lru CacheKey (Decision Outbound) S) (names : Names) where
    abbrev pub with_choice : S × Chosen → S × List Action
    with_choice (s, c) = (s, by_route c)

    -- proxyOutboundTCP
    unfoldable pub proxy_outbound_tcp : Net → OutboundPolicy → Socksaddr → S → S × List Action
    unfolding select_route by_route
    proxy_outbound_tcp net p destination s =
        with_choice (select_route cache names net p destination tcp s)
