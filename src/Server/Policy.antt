-- ===== src/Server/Policy.antt =====
-- cmd/server/acl.go: the route of a request. The access rules are those of Acl.Rules; resolving is
-- a parameter, and so is the print of an address.
pub mod Safety
use anytls_go.Common.{
  Bytes, List, [], ◌∷◌, Option, none, some, Bool, true, false, not, ◌&&◌, ◌||◌, length, ◌==◌,
  if◌then◌else◌,
}
use anytls_go.Lru.{Lru}
use anytls_go.Acl.Host.{HostInfo, to4}
use anytls_go.Acl.Rules.{Protocol, Rule, CacheKey, Decision, Names, look_up}
use anytls_go.Outbound.{
  Socksaddr, socksaddr_from, is_ip, Outbound, direct, remote_resolve, is_reject, unmap,
}
use anytls_go.Server.Private.{is_private_addr}

-- resolver.Result: an address is empty where it is nil; `failed` says whether Err is set.
pub record Resolved : Type 0 where
  pub ipv4 : Bytes
  pub ipv6 : Bytes
  pub failed : Bool

abbrev pub unresolved : Resolved
unresolved = record { ipv4 = []; ipv6 = []; failed = false }

-- acl.Engine
pub record Engine : Type 0 where
  pub rules : List (Rule Outbound)
  pub default_outbound : Outbound

pub record OutboundPolicy : Type 0 where
  pub acl : Option Engine
  pub resolver : Option (Bytes → Resolved)
  pub block_private : Bool
  pub fallback : Outbound

-- newOutboundPolicy; the direct outbound that stands in for nil is number 0.
abbrev pub or_direct : Option Outbound → Outbound
or_direct none = direct 0
or_direct (some o) = o

unfoldable pub new_outbound_policy :
    Option Engine → Option (Bytes → Resolved) → Bool → Option Outbound → OutboundPolicy
new_outbound_policy engine res block_private fallback = record {
  acl = engine;
  resolver = res;
  block_private = block_private;
  fallback = or_direct fallback;
}

pub record Route : Type 0 where
  pub outbound : Outbound
  pub target : Socksaddr

-- errACLRejected, errPrivateDestination, resolver.Error
pub data Refusal : Type 0 where
  acl_rejected private_destination resolve_failed : Refusal

pub data Chosen : Type 0 where
  routed : Route → Chosen
  refused : Refusal → Chosen

-- systemResolve over what LookupIP answers: none is an error. The first address of each family.
abbrev pub keep_first : Bytes → Bytes → Bytes
keep_first old new = if length old == 0 then new else old

abbrev pub sort_ip : Option Bytes → Bytes → Resolved → Resolved
sort_ip (some v4) ip r = record r { ipv4 = keep_first r.ipv4 v4 }
sort_ip none ip r = record r { ipv6 = keep_first r.ipv6 ip }

unfoldable pub first_of_each : List Bytes → Resolved → Resolved
unfolding to4
first_of_each [] r = r
first_of_each (ip ∷ ips) r = first_of_each ips (sort_ip (to4 ip) ip r)

unfoldable pub system_resolve : (Bytes → Option (List Bytes)) → Bytes → Resolved
unfolding first_of_each
system_resolve lookup_ip host = elim (lookup_ip host) [
  | none ↦ record unresolved { failed = true }
  | some ips ↦ first_of_each ips unresolved
]

-- ipToNetip
unfoldable pub ip_to_netip : Bytes → Bytes
unfolding unmap
ip_to_netip ip = if length ip == 4 || length ip == 16 then unmap ip else []

-- isPrivateIP
unfoldable pub is_private_ip : Bytes → Bool
unfolding ip_to_netip is_private_addr
is_private_ip ip = not (length ip == 0) && is_private_addr (ip_to_netip ip)

-- reachesPrivate
unfoldable pub reaches_private : Outbound → Socksaddr → Resolved → Bool
unfolding is_private_ip is_private_addr
reaches_private ob addr result =
    if remote_resolve ob
    then is_private_ip result.ipv4 || is_private_ip result.ipv6
    else is_ip addr && is_private_addr addr.addr

-- pickDialAddr; none is the resolver's error.
unfoldable pub pick_dial_addr : Socksaddr → Resolved → Bool → Option Socksaddr
unfolding ip_to_netip
pick_dial_addr destination result attempted =
    if not (length result.ipv4 == 0)
    then some (socksaddr_from (ip_to_netip result.ipv4) destination.port)
    else if not (length result.ipv6 == 0)
    then some (socksaddr_from (ip_to_netip result.ipv6) destination.port)
    else if attempted
    then none
    else some destination

-- What the policy needs of package net: the print of an address, and LookupIP.
pub record Net : Type 0 where
  pub show_ip : Bytes → Bytes
  pub lookup_ip : Bytes → Option (List Bytes)

-- hostInfo: the name to match, the addresses, and whether resolving was attempted.
abbrev pub literal_info : Bytes → Bytes → Bytes × Resolved × Bool
literal_info name ip =
    if length ip == 4
    then (name, record unresolved { ipv4 = ip }, false)
    else (name, record unresolved { ipv6 = ip }, false)

abbrev pub resolve_by : Net → Bytes → Bool → Option (Bytes → Resolved) → Bytes × Resolved × Bool
resolve_by net name needed (some resolve) = (name, resolve name, true)
resolve_by net name needed none =
    if not needed
    then (name, unresolved, false)
    else (name, system_resolve net.lookup_ip name, true)

abbrev pub has_rules : Option Engine → Bool
has_rules none = false
has_rules (some e) = true

unfoldable pub host_info : Net → OutboundPolicy → Socksaddr → Bytes × Resolved × Bool
unfolding system_resolve
host_info net p destination =
    if not destination.is_fqdn
    then literal_info (net.show_ip destination.addr) destination.addr
    else resolve_by net destination.fqdn (has_rules p.acl || p.block_private) p.resolver

-- The part of selectRoute behind the rules, which chose `ob` and no hijack address.
abbrev pub dial_case : Bool → Outbound → Socksaddr → Resolved → Option Socksaddr → Chosen
dial_case block_private ob destination result none =
    if not (remote_resolve ob) || block_private
    then refused resolve_failed
    else routed (record { outbound = ob; target = destination })
dial_case block_private ob destination result (some addr) =
    if block_private && reaches_private ob addr result
    then refused private_destination
    else if remote_resolve ob
    then routed (record { outbound = ob; target = destination })
    else routed (record { outbound = ob; target = addr })

unfoldable pub dial : Bool → Outbound → Socksaddr → Resolved → Bool → Chosen
unfolding pick_dial_addr reaches_private
dial block_private ob destination result attempted =
    dial_case block_private ob destination result (pick_dial_addr destination result attempted)

-- What the rules chose: an outbound, and a hijack address that is empty where there is none.
unfoldable pub by_rules : Bool → Socksaddr → Resolved → Bool → Outbound × Bytes → Chosen
unfolding dial ip_to_netip
by_rules block_private destination result attempted (ob, hijack) =
    if is_reject ob
    then refused acl_rejected
    else if not (length hijack == 0)
    then routed
        (record { outbound = ob; target = socksaddr_from (ip_to_netip hijack) destination.port })
    else dial block_private ob destination result attempted

module _ {κ} {S : Type κ} (cache : Lru CacheKey (Decision Outbound) S) (names : Names) where
  abbrev pub decided : Bool → Socksaddr → Resolved → Bool → S × (Outbound × Bytes) → S × Chosen
  decided block_private destination result attempted (s, choice) =
      (s, by_rules block_private destination result attempted choice)

  abbrev pub with_info :
      OutboundPolicy
      → Socksaddr
      → Protocol
      → Option Engine
      → Bytes × Resolved × Bool
      → S
      → S × Chosen
  with_info p destination proto none (host, result, attempted) s =
      (s, dial p.block_private p.fallback destination result attempted)
  with_info p destination proto (some e) (host, result, attempted) s =
      let info : HostInfo = record { name = host; ipv4 = result.ipv4; ipv6 = result.ipv6 } in
      decided p.block_private destination result attempted
        (look_up cache names e.rules e.default_outbound info proto destination.port s)

  -- selectRoute, with the state of the rules' cache
  unfoldable pub select_route : Net → OutboundPolicy → Socksaddr → Protocol → S → S × Chosen
  unfolding host_info look_up by_rules dial
  select_route net p destination proto s =
      with_info p destination proto p.acl (host_info net p destination) s
