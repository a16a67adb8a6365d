-- ===== src/Server/Proxy/Reported.antt =====
-- What a TCP request may reach with the private filter on, and the reports that are made on it.
use anytls_go.Common.{ℕ, ◌+◌, Bytes, List, [], ◌∷◌, ◌++◌, Bool, true, false, ◌≡◌, ◌≢◌, ◌⊎◌, All}
use anytls_go.Lru.{Lru}
use anytls_go.Outbound.{Socksaddr, socksaddr_from, Outbound}
use anytls_go.Server.Private.{is_private_addr}
use anytls_go.Server.Policy.{Resolved, is_private_ip, ip_to_netip}
use anytls_go.Server.Policy.Safety.{is_found}
use anytls_go.Server.Proxy.{
  Action, connects, connects_proxy, asks_proxy, closes_proxy, tells, tells_success, establishes,
  relays, Wires,
}

-- A connection goes to the hijack address of a rule, or to an address that is not private; a proxy
-- is asked for the former, or for the destination itself once an address of it was found here and
-- neither the first IPv4 nor the first IPv6 address is private.
abbrev pub IsAllowed : Bytes → Socksaddr → Resolved → Action → Type 0
IsAllowed hijack d result (connects a) =
    ((hijack ≢ []) × (a ≡ socksaddr_from (ip_to_netip hijack) d.port))
    ⊎ (is_private_addr a.addr ≡ false)
IsAllowed hijack d result (asks_proxy s a) =
    ((hijack ≢ []) × (a ≡ socksaddr_from (ip_to_netip hijack) d.port))
    ⊎ ((a ≡ d)
        × (is_found result ≡ true)
        × (is_private_ip result.ipv4 ≡ false)
        × (is_private_ip result.ipv6 ≡ false))
IsAllowed hijack d result act = Unit

-- The calls of ReportHandshakeFailure and ReportHandshakeSuccess
unfoldable pub reports_of : List Action → ℕ
reports_of [] = 0
reports_of (tells m ∷ done) = 1 + reports_of done
reports_of (tells_success ∷ done) = 1 + reports_of done
reports_of (connects a ∷ done) = reports_of done
reports_of (connects_proxy s ∷ done) = reports_of done
reports_of (asks_proxy s a ∷ done) = reports_of done
reports_of (closes_proxy s ∷ done) = reports_of done
reports_of (establishes ∷ done) = reports_of done
reports_of (relays ∷ done) = reports_of done

-- Every connection is allowed, and one report is made.
pub record IsReported (hijack : Bytes) (d : Socksaddr) (result : Resolved) (done : List Action)
    : Type 0 where
  pub allowed : All (IsAllowed hijack d result) done
  pub told_once : reports_of done ≡ 1

module _ (w : Wires) (hijack : Bytes) (d : Socksaddr) (result : Resolved) where
  -- Dialing alone: allowed, and nothing is told.
  record IsSilent (done : List Action) : Type 0 where
    fine : All (IsAllowed hijack d result) done
    none_told : (more : List Action) → reports_of (done ++ more) ≡ reports_of more
