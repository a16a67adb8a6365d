-- ===== src/Config/Accepted.antt =====
-- What settings that LoadFile returns satisfy.
pub mod Settings
use anytls_go.Common.{
  ℕ, ◌<◌, ◌^◌, Bytes, [], Option, none, some, if◌then◌else◌, Bool-cases, ◌≡◌, ◌≢◌, ◌⊎◌, ◌↔◌, inl,
  inr, refl, sym, ap, ◌∙◌, subst,
}
use anytls_go.Config.Bandwidth.{fine, Check, parse_bandwidth}
use anytls_go.Config.Outbounds.{validate_outbounds}
use anytls_go.Config.Built.{first_passes, second_passes}
use anytls_go.Config.{
  Parsers, Config, is_blank, auth_cache_ttl, auth_negative_cache_ttl, default, validate_stats,
  validate_acl, validate_tls, validate_auth, validate_resolver, resolver_kind, geo_update_interval,
  bandwidth_limits, check_all, decoded, file_read, load_file,
}
use anytls_go.Config.Accepted.Settings.Bandwidths.{limits-Fit}
use anytls_go.Config.Accepted.Settings.{
  IsDuration, AuthIsSet, ResolverIsSet, cache_ttl-IsDuration, geo-IsDuration, negative-IsDuration,
  one_source, both_or_none, has_secret, auth-IsSet, resolver-IsSet,
}

pub record IsAccepted (p : Parsers) (c : Config) : Type 0 where
  pub cache_ttl : IsDuration (auth_cache_ttl p c)
  pub negative_cache_ttl : IsDuration (auth_negative_cache_ttl p c)
  pub geo_interval : IsDuration (geo_update_interval p c)
  pub limits :
      (up : ℕ) × (down : ℕ) × (bandwidth_limits c ≡ fine (up, down))
      × (up < 2 ^ 64)
      × (down < 2 ^ 64)
  pub one_acl : (c.acl.file ≡ []) ⊎ (c.acl.inline ≡ [])
  pub whole_tls : (c.tls_cert ≡ []) ↔ (c.tls_key ≡ [])
  pub auth_set : AuthIsSet c
  pub resolver_set : ResolverIsSet (resolver_kind c.resolver) c.resolver
  pub outbounds_valid : validate_outbounds p.addresses c.outbounds ≡ fine tt
  pub secret_set : (c.stats_listen ≡ []) ⊎ (c.stats_secret ≢ [])

unit_fine : (m : Check) (x : (a : Unit {0}) × (m ≡ fine a)) → m ≡ fine tt
unit_fine m (a, h) = h

same_config : (c d : Config) → fine c ≡ fine d → c ≡ d
same_config c d h = cc

-- The checks in their order
check_all-IsAccepted :
    (p : Parsers) (c d : Config) → check_all p c ≡ fine d → (c ≡ d) × IsAccepted p c
unfolding check_all
check_all-IsAccepted p c d h =
    let k0 = second_passes (auth_cache_ttl p c) _ d h in
    let k1 = second_passes (auth_negative_cache_ttl p c) _ d k0 in
    let k2 = second_passes (bandwidth_limits c) _ d k1 in
    let k3 = second_passes (geo_update_interval p c) _ d k2 in
    let k4 = second_passes (validate_acl c) _ d k3 in
    let k5 = second_passes (validate_tls c) _ d k4 in
    let k6 = second_passes (validate_auth c) _ d k5 in
    let k7 = second_passes (validate_resolver c.resolver) _ d k6 in
    let k8 = second_passes (validate_outbounds p.addresses c.outbounds) _ d k7 in
    let k9 = second_passes (validate_stats c) _ d k8 in
    let ttl = first_passes (auth_cache_ttl p c) _ d h in
    let negative = first_passes (auth_negative_cache_ttl p c) _ d k0 in
    let limit = first_passes (bandwidth_limits c) _ d k1 in
    let geo = first_passes (geo_update_interval p c) _ d k2 in
    let acl = first_passes (validate_acl c) _ d k3 in
    let tls = first_passes (validate_tls c) _ d k4 in
    let auth = first_passes (validate_auth c) _ d k5 in
    let res = first_passes (validate_resolver c.resolver) _ d k6 in
    let out = first_passes (validate_outbounds p.addresses c.outbounds) _ d k7 in
    let stats = first_passes (validate_stats c) _ d k8 in
    (
      same_config c d k9,
      record {
        cache_ttl = cache_ttl-IsDuration p c ttl.0 ttl.1;
        negative_cache_ttl = negative-IsDuration p c negative.0 negative.1;
        geo_interval = geo-IsDuration p c geo.0 geo.1;
        limits = limits-Fit c limit.0 limit.1;
        one_acl = one_source c acl.0 acl.1;
        whole_tls = both_or_none c tls.0 tls.1;
        auth_set = auth-IsSet c auth.0 auth.1;
        resolver_set = resolver-IsSet c.resolver res.0 res.1;
        outbounds_valid = unit_fine _ out;
        secret_set = has_secret c stats.0 stats.1;
      },
    )

decoded-IsAccepted :
    (p : Parsers) (o : Option Config) (c : Config) → decoded p o ≡ fine c → IsAccepted p c
decoded-IsAccepted p none c h = absurd cc
decoded-IsAccepted p (some d) c h =
    let (same, v) = check_all-IsAccepted p d c h in subst (IsAccepted p) same v

read-IsAccepted :
    (p : Parsers) (unmarshal : Bytes → Config → Option Config) (o : Option Bytes) (c : Config)
    → file_read p unmarshal o ≡ fine c
    → IsAccepted p c
read-IsAccepted p unmarshal none c h = absurd cc
read-IsAccepted p unmarshal (some text) c h = decoded-IsAccepted p (unmarshal text default) c h

default_passes : (p : Parsers) → check_all p default ≡ fine default
unfolding check_all auth_cache_ttl auth_negative_cache_ttl bandwidth_limits parse_bandwidth
    geo_update_interval validate_acl validate_tls validate_auth validate_resolver resolver_kind
    validate_outbounds validate_stats
default_passes p = refl

-- Settings that LoadFile returns, from a file or as the default: the durations parse and are not
-- negative; both bandwidths parse, into 64-bit numbers; the rules have at most one source; a
-- certificate comes with its key and the other way round; the authentication is by password, or by an
-- HTTP backend with an address; the resolver is the system's, or a known kind with an address and
-- no negative timeout; the outbounds pass their check; and the statistics have a secret if they are
-- served.
pub load_file-IsAccepted :
    (p : Parsers) (read_file : Bytes → Option Bytes) (unmarshal : Bytes → Config → Option Config)
    (path : Bytes) (c : Config)
    → load_file p read_file unmarshal path ≡ fine c
    → IsAccepted p c
unfolding load_file
load_file-IsAccepted p read_file unmarshal path c h = elim (Bool-cases (is_blank path)) [
  | inl empty ↦
      let same : fine default ≡ fine c =
        sym (ap (λ b. if b then fine default else file_read p unmarshal (read_file path)) empty)
        ∙ h in
      subst (IsAccepted p) (same_config default c same)
        (check_all-IsAccepted p default default (default_passes p)).1
  | inr given ↦
      read-IsAccepted p unmarshal (read_file path) c (
        sym (ap (λ b. if b then fine default else file_read p unmarshal (read_file path)) given)
        ∙ h)
]
