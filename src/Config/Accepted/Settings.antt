-- ===== src/Config/Accepted/Settings.antt =====
-- What the settings satisfy that one check accepts.
pub mod Bandwidths
use anytls_go.Common.{
  ℕ, Bytes, [], Option, none, some, Bool, true, false, not, ◌&&◌, ◌=b◌, if◌then◌else◌, codes,
  Bool-cases, ◌≡◌, ◌≢◌, ◌⊎◌, ◌↔◌, inl, inr, refl, sym, ap, ◌∙◌, arith, length-zero, eq_of_=b,
}
use anytls_go.Text.{ℤ, pos, negsuc}
use anytls_go.Config.Bandwidth.{Fault, Checked, fine, fault, ◌>>=◌}
use anytls_go.Config.{
  Parsers, Config, ResolverConfig, ResolverKind, is_blank, is_negative, not_negative,
  auth_cache_ttl, auth_negative_cache_ttl, is_positive, validate_stats, validate_acl, validate_tls,
  validate_auth, validate_resolver, validate_kind, resolver_kind, addr_of, timeout_of,
  geo_update_interval, differ, has_inline, stats_enabled,
}

-- A duration that a check lets through
abbrev pub IsDuration : Checked ℤ → Type 0
IsDuration m = (d : ℕ) × (m ≡ fine (pos d))

-- A password is checked, or there is an HTTP backend to ask.
abbrev pub AuthIsSet : Config → Type 0
AuthIsSet c =
    (c.auth.kind_given ≡ [])
    ⊎ (c.auth.kind_given ≡ codes "password")
    ⊎ ((c.auth.kind_given ≡ codes "http")
        × (c.auth.http.url ≢ [])
        × (is_negative c.auth.http.max_concurrent ≡ false))

-- The system's resolver, or a known one with an address
abbrev pub ResolverIsSet : ResolverKind → ResolverConfig → Type 0
ResolverIsSet ResolverKind.system r = Unit
ResolverIsSet ResolverKind.unknown r = ⊥
ResolverIsSet k r = (addr_of k r ≢ []) × (is_negative (timeout_of k r) ≡ false)

blank : (s : Bytes) → is_blank s ≡ true → s ≡ []
blank s h = length-zero s (ground arith)

not_blank : (s : Bytes) → is_blank s ≡ false → s ≢ []
not_blank s h e = let n : is_blank s ≡ true = ap is_blank e in absurd (ground arith)

-- A guard in front of a check that passes
guard_off {ℓ} :
    {A : Type ℓ} (b : Bool) (x : Fault) (m : Checked A) (a : A)
    → (if b then fault x else m) ≡ fine a
    → (b ≡ false) × (m ≡ fine a)
guard_off true x m a h = absurd cc
guard_off false x m a h = (refl, h)

not_negative-IsDuration :
    (o : Option ℤ) (d : ℤ) → not_negative o ≡ fine d → IsDuration (not_negative o)
not_negative-IsDuration none d h = absurd cc
not_negative-IsDuration (some (pos n)) d h = (n, refl)
not_negative-IsDuration (some (negsuc n)) d h = absurd cc

either-IsDuration :
    (b : Bool) (n : ℕ) (o : Option ℤ) (d : ℤ)
    → (if b then fine (pos n) else not_negative o) ≡ fine d
    → IsDuration (if b then fine (pos n) else not_negative o)
either-IsDuration true n o d h = (n, refl)
either-IsDuration false n o d h = not_negative-IsDuration o d h

pub cache_ttl-IsDuration :
    (p : Parsers) (c : Config) (d : ℤ)
    → auth_cache_ttl p c ≡ fine d
    → IsDuration (auth_cache_ttl p c)
unfolding auth_cache_ttl
cache_ttl-IsDuration p c d h =
    either-IsDuration (is_blank c.auth.http.cache_ttl) _ (p.parse_duration c.auth.http.cache_ttl) d
      h

pub geo-IsDuration :
    (p : Parsers) (c : Config) (d : ℤ)
    → geo_update_interval p c ≡ fine d
    → IsDuration (geo_update_interval p c)
unfolding geo_update_interval
geo-IsDuration p c d h =
    either-IsDuration (is_blank c.acl.geo_update_interval) _
      (p.parse_duration c.acl.geo_update_interval) d h

default_if-IsDuration : (b : Bool) → IsDuration (if b then fine (pos 60000000000) else fine (pos 0))
default_if-IsDuration true = (60000000000, refl)
default_if-IsDuration false = (0, refl)

negative_case :
    (p : Parsers) (c : Config) (m : Checked ℤ) (d : ℤ)
    → let f = λ (positive : ℤ).
      if is_blank c.auth.http.negative_cache_ttl
      then (if is_positive positive then fine (pos 60000000000) else fine (pos 0))
      else not_negative (p.parse_duration c.auth.http.negative_cache_ttl) in
      (m >>= f) ≡ fine d → IsDuration (m >>= f)
negative_case p c (fault e) d h = absurd cc
negative_case p c (fine x) d h = elim (Bool-cases (is_blank c.auth.http.negative_cache_ttl)) [
  | inl empty ↦ rw (empty, if◌then◌else◌) (default_if-IsDuration (is_positive x))
  | inr given ↦
      rw (given, if◌then◌else◌)
        (not_negative-IsDuration (p.parse_duration c.auth.http.negative_cache_ttl) d (
          sym (
            ap
              (λ b.
                if b
                then (if is_positive x then fine (pos 60000000000) else fine (pos 0))
                else not_negative (p.parse_duration c.auth.http.negative_cache_ttl))
              given)
          ∙ h))
]

pub negative-IsDuration :
    (p : Parsers) (c : Config) (d : ℤ)
    → auth_negative_cache_ttl p c ≡ fine d
    → IsDuration (auth_negative_cache_ttl p c)
unfolding auth_negative_cache_ttl
negative-IsDuration p c d h = negative_case p c (auth_cache_ttl p c) d h

empty_inline : (c : Config) → has_inline c ≡ false → c.acl.inline ≡ []
empty_inline c h = length-zero c.acl.inline (ground arith)

pub one_source :
    (c : Config) (a : Unit {0}) → validate_acl c ≡ fine a → (c.acl.file ≡ []) ⊎ (c.acl.inline ≡ [])
unfolding validate_acl
one_source c a h =
    let off =
      (guard_off (not (is_blank c.acl.file) && has_inline c) Fault.both_acl (fine tt) a h).0 in
    elim (Bool-cases (is_blank c.acl.file)) [
      | inl none_there ↦ inl (blank c.acl.file none_there)
      | inr there ↦ inr (empty_inline c (ground arith))
    ]

half : (x y : Bool) → differ (not x) (not y) ≡ false → x ≡ y
half x y h = ground arith

blank_too : (s s' : Bytes) → is_blank s ≡ is_blank s' → s ≡ [] → s' ≡ []
blank_too s s' h e = blank s' (sym h ∙ ap is_blank e)

pub both_or_none :
    (c : Config) (a : Unit {0}) → validate_tls c ≡ fine a → (c.tls_cert ≡ []) ↔ (c.tls_key ≡ [])
unfolding validate_tls
both_or_none c a h =
    let same =
      half (is_blank c.tls_cert) (is_blank c.tls_key)
        (guard_off _ Fault.half_tls (fine tt) a h).0 in
    (blank_too c.tls_cert c.tls_key same, blank_too c.tls_key c.tls_cert (sym same))

pub has_secret :
    (c : Config) (a : Unit {0})
    → validate_stats c ≡ fine a
    → (c.stats_listen ≡ []) ⊎ (c.stats_secret ≢ [])
unfolding validate_stats
has_secret c a h =
    let off =
      (guard_off (stats_enabled c && is_blank c.stats_secret) Fault.no_secret (fine tt) a h).0 in
    elim (Bool-cases (is_blank c.stats_listen)) [
      | inl none_there ↦ inl (blank c.stats_listen none_there)
      | inr there ↦ inr (not_blank c.stats_secret (ground arith))
    ]

http_case :
    (c : Config) (h : Bool) (a : Unit {0})
    → (c.auth.kind_given =b codes "http") ≡ h
    → (if h
        then (if is_blank c.auth.http.url
            then fault Fault.no_url
            else if is_negative c.auth.http.max_concurrent
            then fault Fault.negative_max
            else fine tt)
        else fault Fault.bad_auth_kind)
      ≡ fine a
    → AuthIsSet c
http_case c false a e h = absurd cc
http_case c true a e h =
    let url = guard_off (is_blank c.auth.http.url) Fault.no_url _ a h in
    let bound = guard_off (is_negative c.auth.http.max_concurrent) Fault.negative_max _ a url.1 in
    inr
      (inr (eq_of_=b c.auth.kind_given (codes "http") e, not_blank c.auth.http.url url.0, bound.0))

pub auth-IsSet : (c : Config) (a : Unit {0}) → validate_auth c ≡ fine a → AuthIsSet c
unfolding validate_auth
auth-IsSet c a h = elim (Bool-cases (is_blank c.auth.kind_given)) [
  | inl none_there ↦ inl (blank c.auth.kind_given none_there)
  | inr there ↦ elim (Bool-cases (c.auth.kind_given =b codes "password")) [
    | inl password ↦ inr (inl (eq_of_=b c.auth.kind_given (codes "password") password))
    | inr other ↦ http_case c (c.auth.kind_given =b codes "http") a refl (simp (there, other) at h)
  ]
]

set_kind :
    (addr : Bytes) (timeout : ℤ) (a : Unit {0})
    → (if is_blank addr
        then fault Fault.no_resolver_address
        else if is_negative timeout
        then fault Fault.negative_timeout
        else fine tt)
      ≡ fine a
    → (addr ≢ []) × (is_negative timeout ≡ false)
set_kind addr timeout a h =
    let there = guard_off (is_blank addr) Fault.no_resolver_address _ a h in
    (not_blank addr there.0, (guard_off (is_negative timeout) Fault.negative_timeout _ a there.1).0)

kind-IsSet :
    (k : ResolverKind) (r : ResolverConfig) (a : Unit {0})
    → validate_kind k r ≡ fine a
    → ResolverIsSet k r
kind-IsSet ResolverKind.system r a h = tt
kind-IsSet ResolverKind.unknown r a h = absurd cc
kind-IsSet ResolverKind.udp r a h = set_kind r.udp.addr r.udp.timeout a h
kind-IsSet ResolverKind.tcp r a h = set_kind r.tcp.addr r.tcp.timeout a h
kind-IsSet ResolverKind.tls r a h = set_kind r.tls.addr r.tls.timeout a h
kind-IsSet ResolverKind.https r a h = set_kind r.https.addr r.https.timeout a h

pub resolver-IsSet :
    (r : ResolverConfig) (a : Unit {0})
    → validate_resolver r ≡ fine a
    → ResolverIsSet (resolver_kind r) r
unfolding validate_resolver
resolver-IsSet r a h = kind-IsSet (resolver_kind r) r a h
