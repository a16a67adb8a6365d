-- ===== src/NetworkTests.antt =====
-- Small runs of the resolver, the authentication limit, the geo loader and the server, at which the
-- theorems apply.
use anytls_go.Common.{
  if◌then◌else◌, if_elim, ◌=b◌, Option, replicate, ◌++◌, ◌≡◌, refl, subst, Bytes, [], ◌∷◌, none,
  some, true, false, codes, arith, inl, inr,
}
use anytls_go.Text.{pos}
use anytls_go.Outbound.{Outbound, direct, Socksaddr}
use anytls_go.Resolver.{
  Dns, Rr, answered, exchange_panicked, cname, type_a, type_aaaa, first_from, first_address,
  resolve,
}
use anytls_go.Resolver.Answered.{family_of, resolve-answered}
use anytls_go.Acl.Host.{to4}
use anytls_go.Resolver.Proper.{ParsesIps, Resolves, resolve-Resolves}
use anytls_go.Resolver.Pool
use anytls_go.Resolver.Pool.{new_conn_pool}
use anytls_go.Resolver.Pool.Owned.{IsOwned, Reach-new-IsOwned}
use anytls_go.Auth.Limit
use anytls_go.Auth.Limit.{new_limited_authenticator, IsBounded, Enters, Reach-new-IsBounded}
use anytls_go.Acl.Loader.{FileGeoLoader, Web, Disk, no_file, has, load_geo}
use anytls_go.Acl.Loader.Sound.{IsSound, load_geo-IsSound}
use anytls_go.Padding.{size}
use anytls_go.Auth.{new_password_authenticator}
use anytls_go.Server.Handshake.{admit, preface, session_starts}
use anytls_go.Server.Handshake.Admission.{
  by_password, IsExplained, answer_to, admit-preface, admit-IsExplained,
}
use anytls_go.Server.Proxy.{Wires}
use anytls_go.Lru.{Lru}
use anytls_go.Acl.Rules.{tcp, CacheKey, Decision, Names}
use anytls_go.Server.Policy.{Net, OutboundPolicy, Resolved, host_info, select_route, routed}
use anytls_go.Server.Policy.Safety.{
  IsProper, Answers, IsProperResult, IsSafe, hijack_by, select_route-IsSafe,
}
use anytls_go.Server.Packets.{World}
use anytls_go.Server.Packets.Bound.{calls}

-- A server whose every name is another's alias
abbrev endless : Dns
endless = record {
  fqdn = λ s. s;
  exchange = λ attempt depth name q. answered (cname name (b'a' ∷ name) ∷ []);
  parse_ip = λ s. if s =b codes "1.2.3.4" then some (1 ∷ 2 ∷ 3 ∷ 4 ∷ []) else none;
}

endless-ParsesIps : ParsesIps endless
endless-ParsesIps = record {
  sized = λ host ip.
      if_elim {A = Option Bytes} (λ o. o ≡ some ip → IsProper ip) (host =b codes "1.2.3.4") _ _
        (λ hit e. let same : 1 ∷ 2 ∷ 3 ∷ 4 ∷ [] ≡ ip = cc in subst IsProper same (inr (inl refl)))
        (λ miss e. absurd cc);
}

endless_example : Resolves endless (resolve endless (codes "h")) (endless.parse_ip (codes "h"))
endless_example = resolve-Resolves endless (codes "h") endless-ParsesIps

-- A server that knows an IPv4 address, and on which the question for an IPv6 address panics
abbrev one_family : Dns
one_family = record {
  fqdn = λ s. s;
  exchange = λ attempt depth name q. elim q [
    | type_a ↦ answered (Rr.a (1 ∷ 2 ∷ 3 ∷ 4 ∷ []) ∷ [])
    | type_aaaa ↦ exchange_panicked
  ];
  parse_ip = λ s. none;
}

answered_example :
    (r : Resolved) × (resolve one_family (codes "h") ≡ some r)
    × (family_of type_a r ≡ (first_address (Rr.a (1 ∷ 2 ∷ 3 ∷ 4 ∷ []) ∷ []) type_a).0)
answered_example =
    resolve-answered one_family type_a (codes "h") (Rr.a (1 ∷ 2 ∷ 3 ∷ 4 ∷ []) ∷ []) refl refl
      (unfold first_address first_from to4 in refl)

dialed_example : IsOwned (Pool.dial new_conn_pool)
dialed_example = Reach-new-IsOwned (Pool.dial new_conn_pool) (Pool.next Pool.here Pool.dials)

bounded_example :
    IsBounded 2 (record (new_limited_authenticator 2) { waiting = 7 ∷ [] })
    × Enters 2 (record (new_limited_authenticator 2) { waiting = 7 ∷ [] })
bounded_example =
    Reach-new-IsBounded 2 (record (new_limited_authenticator 2) { waiting = 7 ∷ [] })
      (unfold new_limited_authenticator in Limit.next Limit.here (Limit.calls 7))

abbrev auto : FileGeoLoader Bytes
auto = record { filename = []; update_interval = pos 0; cached = none }

abbrev web : Web
web = record { response = some (codes "db"); creates = true; copies = true; renames = true }

loading_example :
    IsSound (λ text. some text) no_file (load_geo (λ text. some text) auto web no_file)
    × ((m : Bytes)
        → (load_geo (λ text. some text) auto web no_file).2 ≡ has m
        → (w : Web) (d : Disk)
        → load_geo (λ text. some text) (load_geo (λ text. some text) auto web no_file).0 w d
          ≡ ((load_geo (λ text. some text) auto web no_file).0, d, has m))
loading_example = load_geo-IsSound (λ text. some text) auto web no_file refl

-- A policy that resolves every name to a private address, and a destination
abbrev net : Net
net = record { show_ip = λ ip. ip; lookup_ip = λ name. none }

abbrev private_address : Resolved
private_address = record { ipv4 = 10 ∷ 0 ∷ 0 ∷ 1 ∷ []; ipv6 = []; failed = false }

abbrev policy : OutboundPolicy
policy = record {
  acl = none;
  resolver = some (λ name. private_address);
  block_private = true;
  fallback = direct 0;
}

abbrev a_name : Socksaddr
a_name = record { fqdn = codes "h"; is_fqdn = true; addr = []; port = 80 }

policy-Answers : Answers net policy
policy-Answers = record {
  resolver_answers = λ r e name.
      let same : (λ (n : Bytes). private_address) ≡ r = cc in
      subst (λ (f : Bytes → Resolved). IsProperResult (f name)) same
        (record { proper4 = inr (inl refl); proper6 = inl refl });
  system_answers = λ name ips e. absurd cc;
}

abbrev no_names : Names
no_names = record { show_ip = λ ip. ip; to_unicode = λ s. some s }

no_hit : {A : Type 0} {X : Type 0} (v : A) → none ≡ some v → X
no_hit v e = absurd cc

abbrev no_cache : Lru CacheKey (Decision Outbound) (Unit {0})
no_cache = record {
  get = λ k s. (s, none);
  add = λ k v s. s;
  fresh = tt;
  holds = λ k s. none;
  get_holds = λ k s v e. no_hit v e;
  get_keeps = λ k j s v e. e;
  add_holds = λ k j w v s e. inr e;
  fresh_holds = λ k. refl;
}

routes_example :
    IsSafe
      (hijack_by no_cache no_names policy.acl (host_info net policy a_name) a_name tcp tt)
      a_name
      (host_info net policy a_name).1
      (select_route no_cache no_names net policy a_name tcp tt).1
routes_example =
    select_route-IsSafe no_cache no_names net policy a_name tcp tt refl policy-Answers (inl refl)

abbrev world : World (Unit {0})
world = record {
  select = λ d s. (s, routed (record { outbound = direct 0; target = d }));
  show_dest = λ d. d.fqdn;
  listen_fails = λ ob. none;
  write_fails = λ n. none;
  first_key = λ n. 0;
}

-- A hash of 32 bytes, a padding of 3 bytes, and one byte behind it
abbrev flat_hash : Bytes → Bytes
flat_hash password = replicate 32 7

preface_example :
    admit
      (by_password flat_hash (codes "pw"))
      (codes "1.2.3.4:5")
      (preface (λ n. replicate n 0) (flat_hash (codes "pw")) (size 3 ∷ []) ++ codes "x")
      tt
    ≡ (tt {0}, session_starts (new_password_authenticator flat_hash (codes "pw")).id (codes "x"))
preface_example =
    admit-preface flat_hash (λ n. replicate n 0) (codes "pw") (codes "1.2.3.4:5") (codes "x") 3
      (size 3 ∷ []) (record { hash_size = refl; below = omega arith; written = refl }) refl

admission_example :
    IsExplained
      (answer_to (by_password flat_hash (codes "pw")) (codes "1.2.3.4:5") (codes "abc") tt)
      (codes "abc")
      (admit (by_password flat_hash (codes "pw")) (codes "1.2.3.4:5") (codes "abc") (tt {0})).1
admission_example =
    admit-IsExplained (by_password flat_hash (codes "pw")) (codes "1.2.3.4:5") (codes "abc") tt

-- No call of the network fails.
abbrev wires : Wires
wires = record {
  dials = λ d. true;
  dials_proxy = λ s. true;
  sets_deadline = true;
  handshakes = λ s d. true;
  clears_deadline = true;
  reports = true;
}
