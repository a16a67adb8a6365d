-- ===== src/Acl/Rules.antt =====
-- acl/compile.go: the compiled rules and Match with its cache of decisions, and Lookup of
-- acl/engine.go.
use anytls_go.Common.{
  ℕ, Bytes, List, [], ◌∷◌, ◌++◌, Option, none, some, Bool, true, false, not, ◌&&◌, ◌||◌, ltb, ◌==◌,
  if◌then◌else◌,
}
use anytls_go.Text.Words.{to_lower, trim_right}
use anytls_go.Lru.{Lru}
use anytls_go.Acl.Host.{HostInfo, HostMatcher, match_host}

pub data Protocol : Type 0 where
  both tcp udp : Protocol

abbrev pub same_protocol : Protocol → Protocol → Bool
same_protocol both both = true
same_protocol tcp tcp = true
same_protocol udp udp = true
same_protocol p q = false

-- compiledRule; the hijack address is empty when there is none.
pub record Rule {ℓ} (O : Type ℓ) : Type ℓ where
  pub outbound : O
  pub host_matcher : HostMatcher
  pub protocol : Protocol
  pub start_port : ℕ
  pub end_port : ℕ
  pub hijack_address : Bytes

-- matchResultCacheKey
pub record CacheKey : Type 0 where
  pub host : List ℕ
  pub proto : Protocol
  pub port : ℕ

-- What a match answers: none when no rule matches.
abbrev pub Decision {ℓ} : Type ℓ → Type ℓ
Decision O = Option (O × Bytes)

-- What the matcher needs of other packages: IP.String of net, ToUnicode of idna.
pub record Names : Type 0 where
  pub show_ip : Bytes → List ℕ
  pub to_unicode : List ℕ → Option (List ℕ)

-- compiledRule.Match
unfoldable pub rule_match {ℓ} : {O : Type ℓ} → Names → Rule O → HostInfo → Protocol → ℕ → Bool
unfolding match_host
rule_match names r host proto port =
    if not (same_protocol r.protocol both) && not (same_protocol r.protocol proto)
    then false
    else if not (r.start_port == 0) && (ltb port r.start_port || ltb r.end_port port)
    then false
    else match_host names.to_unicode r.host_matcher host

-- The loop over the rules: the first that matches.
unfoldable pub first_match {ℓ} :
    {O : Type ℓ} → Names → List (Rule O) → HostInfo → Protocol → ℕ → Decision O
unfolding rule_match
first_match names [] host proto port = none
first_match names (r ∷ rules) host proto port =
    let later = first_match names rules host proto port in
    if rule_match names r host proto port then some (r.outbound, r.hijack_address) else later

-- Lower case, no trailing dots.
unfoldable pub normalize : List ℕ → List ℕ
unfolding to_lower trim_right
normalize name = trim_right (λ c. c == b'.') (to_lower name)

-- HostInfo.String
unfoldable pub host_string : Names → HostInfo → List ℕ
host_string names h = h.name ++ (b'|' ∷ (names.show_ip h.ipv4 ++ (b'|' ∷ names.show_ip h.ipv6)))

unfoldable pub cache_key : Names → HostInfo → Protocol → ℕ → CacheKey
unfolding host_string
cache_key names host proto port = record {
  host = host_string names host;
  proto = proto;
  port = port;
}

module _ {ℓ κ} {O : Type ℓ} {S : Type κ} (cache : Lru CacheKey (Decision O) S) where
  -- compiledRuleSetImpl.Match, after the cache was asked: the answer is cached, also when no rule
  -- matches.
  abbrev pub remember : CacheKey → Decision O → S × Option (Decision O) → S × Decision O
  remember key found (s, some result) = (s, result)
  remember key found (s, none) = (cache.add key found s, found)

  unfoldable pub match : Names → List (Rule O) → HostInfo → Protocol → ℕ → S → S × Decision O
  unfolding normalize cache_key first_match
  match names rules host proto port s =
      let h : HostInfo = record host { name = normalize host.name } in
      let key = cache_key names h proto port in
      remember key (first_match names rules h proto port) (cache.get key s)

  -- Engine.Lookup
  abbrev pub or_default : O → S × Decision O → S × (O × Bytes)
  or_default d (s, some answer) = (s, answer)
  or_default d (s, none) = (s, (d, []))

  unfoldable pub look_up : Names → List (Rule O) → O → HostInfo → Protocol → ℕ → S → S × (O × Bytes)
  unfolding match
  look_up names rules d host proto port s = or_default d (match names rules host proto port s)
