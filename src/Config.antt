-- ===== src/Config.antt =====
-- config/config.go: the settings and their checks. ParseDuration, SplitHostPort, ReadFile and the
-- YAML decoder are parameters. Text is ASCII; a message is named by what it complains of.
pub mod Bandwidth
pub mod Outbounds
pub mod Accepted
pub mod Built
use anytls_go.Common.{
  ℕ, Bytes, List, [], Option, none, some, Bool, true, false, not, ◌&&◌, ◌||◌, length, ltb, ◌==◌,
  ◌=b◌, if◌then◌else◌, codes,
}
use anytls_go.Text.{ℤ, pos, negsuc}
use anytls_go.Text.Words.{to_lower, trim_space}
use anytls_go.Config.Bandwidth.{Fault, Checked, fine, fault, Check, ◌>>◌, ◌>>=◌, parse_bandwidth}
use anytls_go.Config.Bandwidth
use anytls_go.Config.Outbounds.{OutboundEntry, validate_outbounds, Addresses}

-- ResolverAddrConfig and ResolverTLSConfig; a time.Duration is its nanoseconds.
pub record ResolverAddrConfig : Type 0 where
  pub addr : Bytes
  pub timeout : ℤ

pub record ResolverTlsConfig : Type 0 where
  pub addr : Bytes
  pub timeout : ℤ
  pub sni : Bytes
  pub insecure : Bool

pub record ResolverConfig : Type 0 where
  pub kind_given : Bytes
  pub tcp : ResolverAddrConfig
  pub udp : ResolverAddrConfig
  pub tls : ResolverTlsConfig
  pub https : ResolverTlsConfig

pub record AclConfig : Type 0 where
  pub file : Bytes
  pub inline : List Bytes
  pub geo_ip : Bytes
  pub geo_site : Bytes
  pub geo_update_interval : Bytes

pub record HttpAuthConfig : Type 0 where
  pub url : Bytes
  pub insecure : Bool
  pub cache_ttl : Bytes
  pub cache_size : ℤ
  pub negative_cache_ttl : Bytes
  pub max_concurrent : ℤ

pub record AuthConfig : Type 0 where
  pub kind_given : Bytes
  pub http : HttpAuthConfig

pub record Config : Type 0 where
  pub listen : Bytes
  pub password : Bytes
  pub padding_scheme : Bytes
  pub tls_cert : Bytes
  pub tls_key : Bytes
  pub auth : AuthConfig
  pub acl : AclConfig
  pub resolver : ResolverConfig
  pub stats_listen : Bytes
  pub stats_secret : Bytes
  pub bandwidth_up : Bytes
  pub bandwidth_down : Bytes
  pub allow_private : Bool
  pub outbounds : List OutboundEntry

-- Default: every field but Listen is zero.
abbrev pub no_addr : ResolverAddrConfig
no_addr = record { addr = []; timeout = pos 0 }

abbrev pub no_tls : ResolverTlsConfig
no_tls = record { addr = []; timeout = pos 0; sni = []; insecure = false }

abbrev pub default : Config
default = record {
  listen = codes "0.0.0.0:8443";
  password = [];
  padding_scheme = [];
  tls_cert = [];
  tls_key = [];
  auth = record {
    kind_given = [];
    http = record {
      url = [];
      insecure = false;
      cache_ttl = [];
      cache_size = pos 0;
      negative_cache_ttl = [];
      max_concurrent = pos 0;
    };
  };
  acl = record { file = []; inline = []; geo_ip = []; geo_site = []; geo_update_interval = [] };
  resolver = record { kind_given = []; tcp = no_addr; udp = no_addr; tls = no_tls; https = no_tls };
  stats_listen = [];
  stats_secret = [];
  bandwidth_up = [];
  bandwidth_down = [];
  allow_private = false;
  outbounds = [];
}

abbrev pub is_blank : Bytes → Bool
is_blank s = length s == 0

abbrev pub is_negative : ℤ → Bool
is_negative (pos n) = false
is_negative (negsuc n) = true

-- The default TTLs, 10 and 60 seconds, and the default bound
abbrev pub default_auth_cache_ttl : ℤ
default_auth_cache_ttl = pos 10000000000

abbrev pub default_auth_negative_cache_ttl : ℤ
default_auth_negative_cache_ttl = pos 60000000000

abbrev pub default_auth_max_concurrent : ℤ
default_auth_max_concurrent = pos 64

-- A duration that is given: none where ParseDuration fails.
abbrev pub not_negative : Option ℤ → Checked ℤ
not_negative none = fault Fault.bad_duration
not_negative (some d) = if is_negative d then fault Fault.negative_duration else fine d

-- What the checks need of packages time and net
pub record Parsers : Type 0 where
  pub parse_duration : Bytes → Option ℤ
  pub addresses : Addresses

unfoldable pub auth_cache_ttl : Parsers → Config → Checked ℤ
auth_cache_ttl p c =
    if is_blank c.auth.http.cache_ttl
    then fine default_auth_cache_ttl
    else not_negative (p.parse_duration c.auth.http.cache_ttl)

abbrev pub is_positive : ℤ → Bool
is_positive (pos n) = ltb 0 n
is_positive (negsuc n) = false

unfoldable pub auth_negative_cache_ttl : Parsers → Config → Checked ℤ
unfolding auth_cache_ttl
auth_negative_cache_ttl p c = auth_cache_ttl p c >>= λ positive.
    if is_blank c.auth.http.negative_cache_ttl
    then (if is_positive positive then fine default_auth_negative_cache_ttl else fine (pos 0))
    else not_negative (p.parse_duration c.auth.http.negative_cache_ttl)

unfoldable pub use_http_auth : Config → Bool
unfolding ◌=b◌
use_http_auth c = (c.auth.kind_given =b codes "http") && not (is_blank c.auth.http.url)

unfoldable pub auth_max_concurrent : Config → ℤ
auth_max_concurrent c =
    if is_positive c.auth.http.max_concurrent
    then c.auth.http.max_concurrent
    else default_auth_max_concurrent

abbrev pub stats_enabled : Config → Bool
stats_enabled c = not (is_blank c.stats_listen)

unfoldable pub validate_stats : Config → Check
validate_stats c =
    if stats_enabled c && is_blank c.stats_secret then fault Fault.no_secret else fine tt

abbrev pub has_inline : Config → Bool
has_inline c = ltb 0 (length c.acl.inline)

unfoldable pub acl_enabled : Config → Bool
acl_enabled c = not (is_blank c.acl.file) || has_inline c

unfoldable pub validate_acl : Config → Check
validate_acl c = if not (is_blank c.acl.file) && has_inline c then fault Fault.both_acl else fine tt

unfoldable pub geo_update_interval : Parsers → Config → Checked ℤ
geo_update_interval p c =
    if is_blank c.acl.geo_update_interval
    then fine (pos 0)
    else not_negative (p.parse_duration c.acl.geo_update_interval)

unfoldable pub tls_enabled : Config → Bool
tls_enabled c = not (is_blank c.tls_cert) && not (is_blank c.tls_key)

-- != on Go's bools
abbrev pub differ : Bool → Bool → Bool
differ true b = not b
differ false b = b

unfoldable pub validate_tls : Config → Check
validate_tls c =
    if differ (not (is_blank c.tls_cert)) (not (is_blank c.tls_key))
    then fault Fault.half_tls
    else fine tt

unfoldable pub validate_auth : Config → Check
unfolding ◌=b◌
validate_auth c =
    if is_blank c.auth.kind_given || (c.auth.kind_given =b codes "password")
    then fine tt
    else if c.auth.kind_given =b codes "http"
    then (if is_blank c.auth.http.url
        then fault Fault.no_url
        else if is_negative c.auth.http.max_concurrent
        then fault Fault.negative_max
        else fine tt)
    else fault Fault.bad_auth_kind

-- The cases of the switches on Kind, which is trimmed and in lower case
pub data ResolverKind : Type 0 where
  system udp tcp tls https unknown : ResolverKind

unfoldable pub resolver_kind : ResolverConfig → ResolverKind
unfolding to_lower trim_space ◌=b◌
resolver_kind r =
    let k = to_lower (trim_space r.kind_given) in
    if is_blank k || (k =b codes "system")
    then ResolverKind.system
    else if k =b codes "udp"
    then ResolverKind.udp
    else if k =b codes "tcp"
    then ResolverKind.tcp
    else if (k =b codes "tls") || (k =b codes "tcp-tls")
    then ResolverKind.tls
    else if (k =b codes "https") || (k =b codes "http")
    then ResolverKind.https
    else ResolverKind.unknown

-- Enabled and Addr of ResolverConfig
abbrev pub enabled_kind : ResolverKind → Bool
enabled_kind ResolverKind.system = false
enabled_kind k = true

unfoldable pub enabled : ResolverConfig → Bool
unfolding resolver_kind
enabled r = enabled_kind (resolver_kind r)

abbrev pub addr_of : ResolverKind → ResolverConfig → Bytes
addr_of ResolverKind.udp r = r.udp.addr
addr_of ResolverKind.tcp r = r.tcp.addr
addr_of ResolverKind.tls r = r.tls.addr
addr_of ResolverKind.https r = r.https.addr
addr_of k r = []

abbrev pub timeout_of : ResolverKind → ResolverConfig → ℤ
timeout_of ResolverKind.udp r = r.udp.timeout
timeout_of ResolverKind.tcp r = r.tcp.timeout
timeout_of ResolverKind.tls r = r.tls.timeout
timeout_of ResolverKind.https r = r.https.timeout
timeout_of k r = pos 0

-- Validate of ResolverConfig
abbrev pub validate_kind : ResolverKind → ResolverConfig → Check
validate_kind ResolverKind.system r = fine tt
validate_kind ResolverKind.unknown r = fault Fault.bad_resolver_kind
validate_kind k r =
    if is_blank (addr_of k r)
    then fault Fault.no_resolver_address
    else if is_negative (timeout_of k r)
    then fault Fault.negative_timeout
    else fine tt

unfoldable pub validate_resolver : ResolverConfig → Check
unfolding resolver_kind
validate_resolver r = validate_kind (resolver_kind r) r

unfoldable pub bandwidth_limits : Config → Checked (ℕ × ℕ)
unfolding parse_bandwidth
bandwidth_limits c = parse_bandwidth c.bandwidth_up >>= λ up.
    parse_bandwidth c.bandwidth_down >>= λ down. fine (up, down)

-- The checks of LoadFile, in its order
unfoldable pub check_all : Parsers → Config → Checked Config
unfolding auth_cache_ttl auth_negative_cache_ttl bandwidth_limits geo_update_interval validate_acl
    validate_tls validate_auth validate_resolver validate_outbounds validate_stats
check_all p c =
    auth_cache_ttl p c
    >> auth_negative_cache_ttl p c
    >> bandwidth_limits c
    >> geo_update_interval p c
    >> validate_acl c
    >> validate_tls c
    >> validate_auth c
    >> validate_resolver c.resolver
    >> validate_outbounds p.addresses c.outbounds
    >> validate_stats c
    >> fine c

-- LoadFile over the file's bytes, none where it cannot be read, and the decoder, which starts from
-- the default and may fail.
abbrev pub decoded : Parsers → Option Config → Checked Config
decoded p none = fault Fault.parse_failed
decoded p (some c) = check_all p c

abbrev pub file_read : Parsers → (Bytes → Config → Option Config) → Option Bytes → Checked Config
file_read p unmarshal none = fault Fault.read_failed
file_read p unmarshal (some text) = decoded p (unmarshal text default)

unfoldable pub load_file :
    Parsers → (Bytes → Option Bytes) → (Bytes → Config → Option Config) → Bytes → Checked Config
unfolding check_all
load_file p read_file unmarshal path =
    if is_blank path then fine default else file_read p unmarshal (read_file path)
