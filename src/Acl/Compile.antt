-- ===== src/Acl/Compile.antt =====
-- acl/compile.go: compiling the text rules, and the parsers of their fields.
use anytls_go.Common.{
  ℕ, ◌^◌, Bytes, List, [], ◌∷◌, Option, none, some, Bool, ◌||◌, length, drop, map, ltb, ◌==◌, ◌=b◌,
  if◌then◌else◌, codes,
}
use anytls_go.Common.Maps.{lookup, bytes_key}
use anytls_go.Text.{split, cut, parse_digits}
use anytls_go.Text.Words.{to_lower, trim_space, has_prefix, contains}
use anytls_go.Acl.Host.{
  HostInfo, HostMatcher, IpNet, all_hosts, one_ip, cidr, exact, wildcard, suffix, geo,
}
use anytls_go.Acl.Rules.{Protocol, both, tcp, udp, Rule, normalize}

-- TextRule of acl/parse.go
pub record TextRule : Type 0 where
  pub outbound : Bytes
  pub address : Bytes
  pub proto_port : Bytes
  pub hijack_address : Bytes
  pub line_num : ℕ

-- The messages of CompilationError
pub data Fault : Type 0 where
  no_outbound bad_proto_port bad_hijack bad_cidr empty_country empty_site empty_suffix geo_failed
        geo_not_found :
      Fault

pub record CompilationError : Type 0 where
  pub line_num : ℕ
  pub fault : Fault

pub data Compiled {ℓ} (E : Type 0) (A : Type ℓ) : Type ℓ where
  compiled : A → Compiled E A
  failed : E → Compiled E A

-- A geo database: a failure to load it or to build the matcher, no such list, or the matcher.
pub data Loaded : Type 0 where
  load_failed missing : Loaded
  loaded : (HostInfo → Bool) → Loaded

-- What the compiler needs of other packages: ParseIP (none for nil) and ParseCIDR of net, and the
-- databases with the matchers of acl/matchers_v2geo.go.
pub record Loader : Type 0 where
  pub parse_ip : Bytes → Option Bytes
  pub parse_cidr : Bytes → Option IpNet
  pub geoip : Bytes → Loaded
  pub geosite : Bytes → List Bytes → Loaded

-- strconv.ParseUint(s, 10, 16)
abbrev pub below_u16 : Option ℕ → Option ℕ
below_u16 none = none
below_u16 (some n) = if ltb n (2 ^ 16) then some n else none

unfoldable pub parse_uint16 : Bytes → Option ℕ
unfolding parse_digits
parse_uint16 s = below_u16 (parse_digits s)

-- Protocol, start port and end port
abbrev pub Ports : Type 0
Ports = Protocol × ℕ × ℕ

abbrev pub protocol_alone : Bytes → Option Ports
protocol_alone p =
    if p =b codes "tcp"
    then some (tcp, 0, 0)
    else if p =b codes "udp"
    then some (udp, 0, 0)
    else none

abbrev pub protocol_of : Bytes → Option Protocol
protocol_of p =
    if p =b codes "tcp"
    then some tcp
    else if p =b codes "udp"
    then some udp
    else if p =b codes "*"
    then some both
    else none

abbrev pub one_port : Protocol → Option ℕ → Option Ports
one_port proto none = none
one_port proto (some p) = some (proto, p, p)

abbrev pub port_range : Protocol → Option ℕ → Option ℕ → Option Ports
port_range proto none q = none
port_range proto (some p) none = none
port_range proto (some p) (some q) = if ltb q p then none else some (proto, p, q)

-- A single port is parsed as it was given, a range after TrimSpace.
abbrev pub ports_of : Protocol → Bytes → Option (Bytes × Bytes) → Option Ports
ports_of proto given none = one_port proto (parse_uint16 given)
ports_of proto given (some (a, b)) = port_range proto (parse_uint16 a) (parse_uint16 b)

abbrev pub protocol_ports : Option Protocol → Bytes → Option Ports
protocol_ports none p = none
protocol_ports (some proto) p =
    if p =b codes "*" then some (proto, 0, 0) else ports_of proto p (cut b'-' (trim_space p))

abbrev pub parts_of : Bytes → Option (Bytes × Bytes) → Option Ports
parts_of s none = protocol_alone s
parts_of s (some (a, b)) = protocol_ports (protocol_of a) b

unfoldable pub parse_proto_port : Bytes → Option Ports
unfolding to_lower ◌=b◌ cut parse_uint16 trim_space
parse_proto_port given =
    let s = to_lower given in
    if (s =b []) || (s =b codes "*") || (s =b codes "*/*")
    then some (both, 0, 0)
    else parts_of s (cut b'/' s)

-- parseGeoSiteName
abbrev pub name_and_attrs : List Bytes → Bytes × List Bytes
name_and_attrs [] = ([], [])
name_and_attrs (base ∷ attrs) = (trim_space base, map trim_space attrs)

unfoldable pub parse_geo_site_name : Bytes → Bytes × List Bytes
unfolding split trim_space
parse_geo_site_name s = name_and_attrs (split b'@' s)

abbrev pub from_loaded : Loaded → Compiled Fault HostMatcher
from_loaded load_failed = failed geo_failed
from_loaded missing = failed geo_not_found
from_loaded (loaded f) = compiled (geo f)

abbrev pub site_matcher : Loader → Bytes × List Bytes → Compiled Fault HostMatcher
site_matcher l (name, attrs) =
    if length name == 0 then failed empty_site else from_loaded (l.geosite name attrs)

abbrev pub cidr_matcher : Option IpNet → Compiled Fault HostMatcher
cidr_matcher none = failed bad_cidr
cidr_matcher (some n) = compiled (cidr n)

abbrev pub ip_or_domain : Bytes → Option Bytes → Compiled Fault HostMatcher
ip_or_domain addr (some ip) = compiled (one_ip ip)
ip_or_domain addr none =
    if contains b'*' addr then compiled (wildcard addr) else compiled (exact addr)

unfoldable pub compile_host_matcher : Loader → Bytes → Compiled Fault HostMatcher
unfolding normalize ◌=b◌ has_prefix contains parse_geo_site_name
compile_host_matcher l given =
    let addr = normalize given in
    if (addr =b codes "*") || (addr =b codes "all")
    then compiled all_hosts
    else if has_prefix (codes "geoip:") addr
    then (if length (drop 6 addr) == 0
        then failed empty_country
        else from_loaded (l.geoip (drop 6 addr)))
    else if has_prefix (codes "geosite:") addr
    then site_matcher l (parse_geo_site_name (drop 8 addr))
    else if has_prefix (codes "suffix:") addr
    then (if length (drop 7 addr) == 0
        then failed empty_suffix
        else compiled (suffix (drop 7 addr)))
    else if contains b'/' addr
    then cidr_matcher (l.parse_cidr addr)
    else ip_or_domain addr (l.parse_ip addr)

module _ {ℓ} {O : Type ℓ} where
  -- The steps of the loop of Compile, in its order: outbound, address, protocol and ports, hijack.
  abbrev pub with_hijack :
      TextRule → O → HostMatcher → Ports → Option Bytes → Compiled CompilationError (Rule O)
  with_hijack t o m p none = failed (record { line_num = t.line_num; fault = bad_hijack })
  with_hijack t o m (proto, start, end) (some ip) = compiled (record {
    outbound = o;
    host_matcher = m;
    protocol = proto;
    start_port = start;
    end_port = end;
    hijack_address = ip;
  })

  abbrev pub with_ports :
      Loader → TextRule → O → HostMatcher → Option Ports → Compiled CompilationError (Rule O)
  with_ports l t o m none = failed (record { line_num = t.line_num; fault = bad_proto_port })
  with_ports l t o m (some p) =
      with_hijack t o m p (if t.hijack_address =b [] then some [] else l.parse_ip t.hijack_address)

  abbrev pub with_matcher :
      Loader → TextRule → O → Compiled Fault HostMatcher → Compiled CompilationError (Rule O)
  with_matcher l t o (failed f) = failed (record { line_num = t.line_num; fault = f })
  with_matcher l t o (compiled m) = with_ports l t o m (parse_proto_port t.proto_port)

  abbrev pub with_outbound : Loader → TextRule → Option O → Compiled CompilationError (Rule O)
  with_outbound l t none = failed (record { line_num = t.line_num; fault = no_outbound })
  with_outbound l t (some o) = with_matcher l t o (compile_host_matcher l t.address)

  unfoldable pub compile_rule :
      Loader → List (Bytes × O) → TextRule → Compiled CompilationError (Rule O)
  unfolding lookup to_lower compile_host_matcher parse_proto_port ◌=b◌
  compile_rule l outbounds t = with_outbound l t (lookup (to_lower t.outbound) outbounds)

  abbrev pub add_rule :
      Compiled CompilationError (Rule O)
      → Compiled CompilationError (List (Rule O))
      → Compiled CompilationError (List (Rule O))
  add_rule (failed e) rest = failed e
  add_rule (compiled r) (failed e) = failed e
  add_rule (compiled r) (compiled rules) = compiled (r ∷ rules)

  -- Compile up to its cache; the error is that of the first rule that has one.
  unfoldable pub compile :
      Loader → List (Bytes × O) → List TextRule → Compiled CompilationError (List (Rule O))
  unfolding compile_rule
  compile l outbounds [] = compiled []
  compile l outbounds (t ∷ rules) =
      add_rule (compile_rule l outbounds t) (compile l outbounds rules)
