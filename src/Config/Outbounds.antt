-- ===== src/Config/Outbounds.antt =====
-- The outbounds of config/config.go, and the map of outbounds that cmd/server/outbound.go builds
-- from them.
use anytls_go.Common.{
  ℕ, suc, Bytes, List, [], ◌∷◌, Option, none, some, Bool, true, false, not, ◌||◌, length, ltb, ◌==◌,
  ◌=b◌, if◌then◌else◌, codes,
}
use anytls_go.Common.Maps.{lookup, insert, bytes_key}
use anytls_go.Text.Words.{to_lower, trim_space}
use anytls_go.Acl.Compile.{parse_uint16}
use anytls_go.Outbound.{Outbound, reject, direct, Socks5}
use anytls_go.Server.Private.{is_private_addr}
use anytls_go.Config.Bandwidth.{Fault, fine, fault, Check, ◌>>◌}

-- SplitHostPort of package net and ParseAddr of package netip, none on an error
pub record Addresses : Type 0 where
  pub split_host_port : Bytes → Option (Bytes × Bytes)
  pub parse_addr : Bytes → Option Bytes

-- OutboundEntry, with the number of its direct options
pub record OutboundEntry : Type 0 where
  pub name : Bytes
  pub kind_given : Bytes
  pub direct_options : ℕ
  pub socks5 : Socks5

-- The cases of the switches on Kind
pub data EntryKind : Type 0 where
  direct_kind socks5_kind other_kind : EntryKind

unfoldable pub kind : OutboundEntry → EntryKind
unfolding to_lower trim_space ◌=b◌
kind e =
    let k = to_lower (trim_space e.kind_given) in
    if k =b codes "direct"
    then direct_kind
    else if k =b codes "socks5"
    then socks5_kind
    else other_kind

unfoldable pub validate_outbound_name : ℕ → Bytes → Check
unfolding trim_space ◌=b◌
validate_outbound_name i name =
    if length (trim_space name) == 0
    then fault (Fault.blank_name i)
    else if not (trim_space name =b name)
    then fault (Fault.spaced_name i)
    else fine tt

-- The test of the port: none is an error of ParseUint.
abbrev pub bad_port : Option ℕ → Bool
bad_port none = true
bad_port (some n) = n == 0

-- == on Go's bools
abbrev pub same_bool : Bool → Bool → Bool
same_bool true b = b
same_bool false b = not b

abbrev pub with_host : ℕ → Socks5 → Option (Bytes × Bytes) → Check
with_host i s none = fault (Fault.bad_proxy_address i)
with_host i s (some (host, port)) =
    if length host == 0
    then fault (Fault.no_proxy_host i)
    else if bad_port (parse_uint16 port)
    then fault (Fault.bad_proxy_port i)
    else if not (same_bool (length s.username == 0) (length s.password == 0))
    then fault (Fault.half_login i)
    else if ltb 255 (length s.username) || ltb 255 (length s.password)
    then fault (Fault.long_login i)
    else fine tt

-- validate of OutboundSOCKS5Config
unfoldable pub validate_socks5 : Addresses → ℕ → Socks5 → Check
unfolding parse_uint16
validate_socks5 net i s =
    if length s.server == 0
    then fault (Fault.no_proxy_address i)
    else with_host i s (net.split_host_port s.server)

abbrev pub validate_kind : Addresses → ℕ → OutboundEntry → EntryKind → Check
validate_kind net i e direct_kind =
    if ltb 0 e.direct_options then fault (Fault.direct_options i) else fine tt
validate_kind net i e socks5_kind = validate_socks5 net i e.socks5
validate_kind net i e other_kind = fault (Fault.bad_outbound_kind i)

-- `seen`, the lower case names so far
unfoldable pub in_seen : Bytes → List Bytes → Bool
unfolding ◌=b◌
in_seen a [] = false
in_seen a (b ∷ bs) = (b =b a) || in_seen a bs

abbrev pub fresh_name : ℕ → Bytes → List Bytes → Check
fresh_name i key seen = if in_seen key seen then fault (Fault.double_name i) else fine tt

-- The loop of ValidateOutbounds
unfoldable pub validate_from : Addresses → ℕ → List Bytes → List OutboundEntry → Check
unfolding validate_outbound_name to_lower kind validate_socks5 in_seen
validate_from net i seen [] = fine tt
validate_from net i seen (e ∷ es) =
    let key = to_lower e.name in
    validate_outbound_name i e.name
    >> fresh_name i key seen
    >> validate_kind net i e (kind e)
    >> validate_from net (suc i) (key ∷ seen) es

unfoldable pub validate_outbounds : Addresses → List OutboundEntry → Check
unfolding validate_from
validate_outbounds net es = validate_from net 0 [] es

-- namedOutbound
abbrev pub NamedOutbound : Type 0
NamedOutbound = Bytes × Outbound

-- newOutbounds: each outbound that it makes is a new pointer, numbered from `n`; none is its error.
abbrev pub made : ℕ → OutboundEntry → EntryKind → Option Outbound
made n e direct_kind = some (direct n)
made n e socks5_kind = some (Outbound.socks5 n e.socks5)
made n e other_kind = none

abbrev pub add_named :
    Bytes → Option Outbound → Option (List NamedOutbound) → Option (List NamedOutbound)
add_named name none rest = none
add_named name (some o) none = none
add_named name (some o) (some es) = some ((name, o) ∷ es)

unfoldable pub named_from : ℕ → List OutboundEntry → Option (List NamedOutbound)
unfolding kind
named_from n [] = some []
named_from n (e ∷ es) = add_named e.name (made n e (kind e)) (named_from (suc n) es)

-- outboundMap
unfoldable pub put_all : List NamedOutbound → List (Bytes × Outbound) → List (Bytes × Outbound)
unfolding to_lower insert
put_all [] m = m
put_all ((name, o) ∷ es) m = put_all es (insert (to_lower name) o m)

-- A built-in for a name that is not there
abbrev pub absent : Option Outbound → Bool
absent none = true
absent (some o) = false

unfoldable pub or_insert : Bytes → Outbound → List (Bytes × Outbound) → List (Bytes × Outbound)
unfolding lookup insert
or_insert name o m = if absent (lookup name m) then insert name o m else m

-- A missing key of a map of interfaces is nil; `direct` is there by then.
abbrev pub or_nil : Outbound → Option Outbound → Outbound
or_nil d none = d
or_nil d (some o) = o

abbrev pub default_of : List NamedOutbound → Outbound → List (Bytes × Outbound) → Outbound
default_of [] d m = or_nil d (lookup (codes "direct") m)
default_of ((name, o) ∷ es) d m = o

unfoldable pub outbound_map : List NamedOutbound → Outbound → List (Bytes × Outbound)
unfolding put_all or_insert
outbound_map entries d =
    let m = or_insert (codes "reject") reject (or_insert (codes "direct") d (put_all entries [])) in
    or_insert (codes "default") (default_of entries d m) m

abbrev pub mapped : Option (List NamedOutbound) → ℕ → Option (List (Bytes × Outbound))
mapped none n = none
mapped (some es) n = some (outbound_map es (direct n))

unfoldable pub new_outbounds : List OutboundEntry → Option (List (Bytes × Outbound))
unfolding named_from outbound_map
new_outbounds es = mapped (named_from 0 es) (length es)

-- isLocalProxyAddr
abbrev pub private_or_not : Option Bytes → Bool
private_or_not none = false
private_or_not (some ip) = is_private_addr ip

abbrev pub local_host : Addresses → Option (Bytes × Bytes) → Bool
local_host net none = false
local_host net (some (host, port)) =
    if to_lower host =b codes "localhost" then true else private_or_not (net.parse_addr host)

unfoldable pub is_local_proxy_addr : Addresses → Bytes → Bool
unfolding to_lower ◌=b◌ is_private_addr
is_local_proxy_addr net addr = local_host net (net.split_host_port addr)

-- warnLocalProxies: the entries that it warns about
abbrev pub warns : Addresses → OutboundEntry → EntryKind → Bool
warns net e socks5_kind = is_local_proxy_addr net e.socks5.server
warns net e k = false

unfoldable pub warn_local_proxies : Addresses → List OutboundEntry → List OutboundEntry
unfolding kind is_local_proxy_addr
warn_local_proxies net [] = []
warn_local_proxies net (e ∷ es) =
    if warns net e (kind e) then e ∷ warn_local_proxies net es else warn_local_proxies net es
