-- ===== src/Resolver.antt =====
-- The package resolver over a DNS client, which is a parameter: what it answers a question with, in
-- any attempt and behind any CNAMEs, so that the questions of both families may run at one time.
-- resolver/doh.go, which puts HTTP below, is left out.
pub mod Proper
pub mod Answered
pub mod Pool
use anytls_go.Common.{
  ℕ, zero, suc, ◌+◌, Bytes, List, [], ◌∷◌, ◌++◌, Option, none, some, Bool, true, false, not, ◌||◌,
  length, ltb, ◌==◌, ◌=b◌, if◌then◌else◌, codes,
}
use anytls_go.Text.{ℤ, pos, negsuc}
use anytls_go.Text.Words.{to_lower}
use anytls_go.Acl.Host.{v4_prefix, to4}
use anytls_go.Config.{
  ResolverConfig, ResolverKind, ResolverTlsConfig, resolver_kind, validate_resolver,
}
use anytls_go.Config.Bandwidth.{Fault, Checked, fine, fault, ◌>>◌}
use anytls_go.Config.Outbounds.{in_seen}
use anytls_go.Server.Policy.{Resolved, unresolved}

-- dns.TypeA and dns.TypeAAAA
pub data Qtype : Type 0 where
  type_a type_aaaa : Qtype

abbrev pub is_a : Qtype → Bool
is_a type_a = true
is_a type_aaaa = false

-- dns.RR: the records that the code tells apart
pub data Rr : Type 0 where
  a aaaa : Bytes → Rr
  cname : Bytes → Bytes → Rr
  other_record : Rr

-- IP.To4 and IP.To16, empty for nil
abbrev pub or_nil : Option Bytes → Bytes
or_nil none = []
or_nil (some ip) = ip

abbrev pub to16 : Bytes → Bytes
to16 ip = if length ip == 4 then v4_prefix ++ ip else if length ip == 16 then ip else []

-- The loop of firstAddress with hasCNAME so far
unfoldable pub first_from : Qtype → Bool → List Rr → Bytes × Bool
unfolding to4
first_from q has_cname [] = ([], has_cname)
first_from q has_cname (a ip ∷ rs) =
    let rest = first_from q has_cname rs in if is_a q then (or_nil (to4 ip), false) else rest
first_from q has_cname (aaaa ip ∷ rs) =
    let rest = first_from q has_cname rs in if is_a q then rest else (to16 ip, false)
first_from q has_cname (cname name target ∷ rs) = first_from q true rs
first_from q has_cname (other_record ∷ rs) = first_from q has_cname rs

unfoldable pub first_address : List Rr → Qtype → Bytes × Bool
unfolding first_from
first_address answers q = first_from q false answers

-- skipCNAMEChain with lastCNAME so far
unfoldable pub skip_from : Bytes → List Rr → Bytes
unfolding ◌=b◌
skip_from last [] = last
skip_from last (cname name target ∷ rs) =
    let rest = skip_from target rs in if length last == 0 || (name =b last) then rest else last
skip_from last (a ip ∷ rs) = skip_from last rs
skip_from last (aaaa ip ∷ rs) = skip_from last rs
skip_from last (other_record ∷ rs) = skip_from last rs

unfoldable pub skip_cname_chain : List Rr → Bytes
unfolding skip_from
skip_cname_chain answers = skip_from [] answers

-- What exchange returns: the answers, an error, or a panic of the client
pub data Reply : Type 0 where
  answered : List Rr → Reply
  exchange_failed exchange_panicked : Reply

-- What a lookup returns; an address is empty where it is nil.
pub data Looked : Type 0 where
  address : Bytes → Looked
  lookup_failed chain_too_long : Looked
  lookup_panicked : Looked

-- maxCNAMEDepth and standardResolverRetryTimes
abbrev pub max_cname_depth : ℕ
max_cname_depth = 16

abbrev pub standard_resolver_retry_times : ℕ
standard_resolver_retry_times = 2

-- The DNS client: dns.Fqdn, and exchange at an attempt and a depth. ParseIP of package net.
pub record Dns : Type 0 where
  pub fqdn : Bytes → Bytes
  pub exchange : ℕ → ℕ → Bytes → Qtype → Reply
  pub parse_ip : Bytes → Option Bytes

module _ (dns : Dns) where
  abbrev pub next_hop : (Bytes → Option Looked) → List Rr → Bytes × Bool → Option Looked
  next_hop again answers (ip, has_cname) =
      if not (length ip == 0) || not has_cname
      then some (address ip)
      else again (skip_cname_chain answers)

  abbrev pub with_reply : (Bytes → Option Looked) → Qtype → Reply → Option Looked
  with_reply again q exchange_failed = some lookup_failed
  with_reply again q exchange_panicked = some lookup_panicked
  with_reply again q (answered answers) =
      if length answers == 0
      then some (address [])
      else next_hop again answers (first_address answers q)

  -- lookup, on fuel; none is no fuel.
  unfoldable pub lookup_host : ℕ → ℕ → Qtype → ℕ → List Bytes → Bytes → Option Looked
  unfolding to_lower in_seen skip_cname_chain first_address
  lookup_host zero attempt q depth seen host = none
  lookup_host (suc fuel) attempt q depth seen host =
      let key = to_lower (dns.fqdn host) in
      if ltb max_cname_depth depth
      then some chain_too_long
      else if in_seen key seen
      then some chain_too_long
      else with_reply (λ target. lookup_host fuel attempt q (suc depth) (key ∷ seen) target) q
          (dns.exchange attempt depth (dns.fqdn host) q)

  -- lookupWithRetry: an error is tried again, a panic is not.
  abbrev pub or_again : Option Looked → Option Looked → Option Looked
  or_again (some lookup_failed) second = second
  or_again (some chain_too_long) second = second
  or_again first second = first

  unfoldable pub try_times : ℕ → ℕ → Qtype → Bytes → Option Looked → Option Looked
  unfolding lookup_host
  try_times zero attempt q host last = last
  try_times (suc n) attempt q host last =
      or_again (lookup_host 18 attempt q 0 [] host)
        (try_times n (suc attempt) q host (lookup_host 18 attempt q 0 [] host))

  unfoldable pub lookup_with_retry : Bytes → Qtype → Option Looked
  unfolding try_times
  lookup_with_retry host q = try_times standard_resolver_retry_times 0 q host (some (address []))

  -- tryParseIP
  abbrev pub parsed : Option Bytes → Bytes → Option Resolved
  parsed (some v4) ip = some (record unresolved { ipv4 = v4 })
  parsed none ip = some (record unresolved { ipv6 = ip })

  abbrev pub literal : Option Bytes → Option Resolved
  literal none = none
  literal (some ip) = parsed (to4 ip) ip

  unfoldable pub try_parse_ip : Bytes → Option Resolved
  unfolding to4
  try_parse_ip host = literal (dns.parse_ip host)

  -- resolveParallel: a panic is an error of its family.
  abbrev pub ip_of : Looked → Bytes
  ip_of (address ip) = ip
  ip_of l = []

  abbrev pub is_error : Looked → Bool
  is_error (address ip) = false
  is_error l = true

  abbrev pub both_families : Option Looked → Option Looked → Option Resolved
  both_families none second = none
  both_families (some x) none = none
  both_families (some x) (some y) =
      some (record { ipv4 = ip_of x; ipv6 = ip_of y; failed = is_error x || is_error y })

  abbrev pub resolve_case : Bytes → Option Resolved → Option Resolved
  resolve_case host (some r) = some r
  resolve_case host none =
      both_families (lookup_with_retry host type_a) (lookup_with_retry host type_aaaa)

  -- Resolve of standardResolver
  unfoldable pub resolve : Bytes → Option Resolved
  unfolding try_parse_ip lookup_with_retry
  resolve host = resolve_case host (try_parse_ip host)

-- timeoutOrDefault: 2 seconds
unfoldable pub timeout_or_default : ℤ → ℤ
timeout_or_default (pos n) = if n == 0 then pos 2000000000 else pos n
timeout_or_default (negsuc n) = pos 2000000000

-- addPortIfMissing over SplitHostPort and JoinHostPort of package net
unfoldable pub add_port_if_missing :
    (Bytes → Option (Bytes × Bytes)) → (Bytes → Bytes → Bytes) → Bytes → Bytes → Bytes
add_port_if_missing split_host_port join_host_port addr port = elim (split_host_port addr) [
  | none ↦ join_host_port addr port
  | some parts ↦ addr
]

-- standardResolver with the fields of its dns.Client
pub data Transport : Type 0 where
  over_udp over_tcp over_tls : Transport

pub record StandardResolver : Type 0 where
  pub addr : Bytes
  pub transport : Transport
  pub timeout : ℤ
  pub server_name : Bytes
  pub insecure : Bool
  pub pooled : Bool

-- A resolver that newResolver makes; HTTPS is that of resolver/doh.go.
pub data Made : Type 0 where
  standard : StandardResolver → Made
  https : ResolverTlsConfig → Made

module _ (split_host_port : Bytes → Option (Bytes × Bytes))
    (join_host_port : Bytes → Bytes → Bytes) where
  unfoldable pub new_udp : Bytes → ℤ → StandardResolver
  unfolding add_port_if_missing timeout_or_default
  new_udp addr timeout = record {
    addr = add_port_if_missing split_host_port join_host_port addr (codes "53");
    transport = over_udp;
    timeout = timeout_or_default timeout;
    server_name = [];
    insecure = false;
    pooled = false;
  }

  unfoldable pub new_tcp : Bytes → ℤ → StandardResolver
  unfolding add_port_if_missing timeout_or_default
  new_tcp addr timeout = record {
    addr = add_port_if_missing split_host_port join_host_port addr (codes "53");
    transport = over_tcp;
    timeout = timeout_or_default timeout;
    server_name = [];
    insecure = false;
    pooled = true;
  }

  unfoldable pub new_tls : Bytes → ℤ → Bytes → Bool → StandardResolver
  unfolding add_port_if_missing timeout_or_default
  new_tls addr timeout sni insecure = record {
    addr = add_port_if_missing split_host_port join_host_port addr (codes "853");
    transport = over_tls;
    timeout = timeout_or_default timeout;
    server_name = sni;
    insecure = insecure;
    pooled = true;
  }

  -- newResolver of cmd/server/resolver.go: none is the system's resolver.
  abbrev pub made_of : ResolverKind → ResolverConfig → Checked (Option Made)
  made_of ResolverKind.system c = fine none
  made_of ResolverKind.udp c = fine (some (standard (new_udp c.udp.addr c.udp.timeout)))
  made_of ResolverKind.tcp c = fine (some (standard (new_tcp c.tcp.addr c.tcp.timeout)))
  made_of ResolverKind.tls c =
      fine (some (standard (new_tls c.tls.addr c.tls.timeout c.tls.sni c.tls.insecure)))
  made_of ResolverKind.https c = fine (some (https c.https))
  made_of ResolverKind.unknown c = fault Fault.bad_resolver_kind

  unfoldable pub new_resolver : ResolverConfig → Checked (Option Made)
  unfolding validate_resolver resolver_kind new_udp new_tcp new_tls
  new_resolver c = validate_resolver c >> made_of (resolver_kind c) c
