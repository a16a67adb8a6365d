-- ===== src/ServerTests.antt =====
-- Small runs of the access rules, the authenticators, the registries, the limiter and the client
-- pool, at which the theorems apply.
use anytls_go.Common.{
  not, ◌&&◌, ℕ, suc, ◌+◌, ◌≡◌, ◌↔◌, refl, ap, ◌∙◌, Bytes, List, [], ◌∷◌, none, some, Bool, true,
  false, codes, length, concat, All, arith, map, ◌=b◌, ◌==◌, ==_iff, ==_refl, =b_refl, eq_of_=b,
  subst, if◌then◌else◌,
}
use anytls_go.Common.Maps.{Key, lookup, bytes_key, nat_key, adjust, delete, insert}
use anytls_go.Lru.{unbounded}
use anytls_go.Acl.Host.{HostInfo, wildcard, deep_match_rune}
use anytls_go.Acl.Glob.{IsGlob, deep_match-IsGlob}
use anytls_go.Acl.Rules.{
  Protocol, both, tcp, udp, same_protocol, Rule, CacheKey, Decision, Names, first_match,
}
use anytls_go.Acl.Cached
use anytls_go.Acl.Cached.{PrintsPlain, TreatsAlike, answers-fresh}
use anytls_go.Acl.Compile.{parse_proto_port, TextRule, compiled}
use anytls_go.Acl.Parse.{parse_text_rules}
use anytls_go.Acl.Parse.Printed.{IsField, Numbered, show_rule, parse_text_rules-show}
use anytls_go.Text.{join}
use anytls_go.Text.Lines.{Lacks}
use anytls_go.Text.Words.{trim_space}
use anytls_go.Acl.Ports.{IsRange, parse_proto_port-IsRange}
use anytls_go.Auth.Password.{check_password-hex}
use anytls_go.Auth.{hex, check_password, new_password_authenticator, Authenticator, new_caching}
use anytls_go.Auth.Agreement
use anytls_go.Auth.Agreement.{IsDecided, answers-IsDecided}
use anytls_go.Devices.{DeviceKey, device_key}
use anytls_go.Devices.Counting.{Change, come, go, changes, count, Counts, changes-Counts}
use anytls_go.Limiter.{Bucket, Limits, wait_write, write_unlimited}
use anytls_go.Limiter.Chunks.{
  sum, IsChunk, IsPiece, wait_all, write_all, wait_write-chunks, write_unlimited-pieces,
}
use anytls_go.Stats.{new_registry}
use anytls_go.Stats.Ids.{IsApart, Visit, arrives, departs, visits, visits-new_registry-IsApart}
use anytls_go.Client.{IdleEntry, SkipList, sweep}
use anytls_go.Client.Idle.{Swept, sweep-keeps}

wildcard_example :
    (deep_match_rune (codes "*.org") (codes "a.org") ≡ true)
    ↔ IsGlob (codes "*.org") (codes "a.org")
wildcard_example = deep_match-IsGlob (codes "*.org") (codes "a.org")

ports_example : IsRange (parse_proto_port (codes "TCP/80-90"))
ports_example = parse_proto_port-IsRange (codes "TCP/80-90")

abbrev alice : DeviceKey
alice = record { auth = codes "alice"; ip = codes "1.2.3.4" }

abbrev small_changes : List (Change ℕ)
small_changes = come 1 alice ∷ come 2 alice ∷ go alice ∷ []

count_example :
    let r = changes small_changes ([], []) in Counts (lookup alice r.0) (count alice r.1)
count_example = changes-Counts small_changes alice

abbrev free : Limits ℕ
free = record {
  wait_n = λ n w. (suc w, none);
  write = λ b w. (suc w, length b, none);
  read = λ n w. (w, [], none);
}

abbrev slow : Bucket
slow = record { rate = 2; burst = 2 }

wait_example :
    (ns : List ℕ) × All (IsChunk 2) ns
    × (sum ns ≡ 5)
    × ((w : ℕ) → wait_write free (some slow) 5 w ≡ wait_all free ns w)
wait_example = wait_write-chunks free slow 5 (omega arith)

pieces_example :
    (ps : List Bytes) × All (IsPiece free 2) ps
    × (concat ps ≡ codes "hello")
    × ((w : ℕ) → write_unlimited free (some slow) (codes "hello") w ≡ write_all free ps 0 w)
pieces_example = write_unlimited-pieces free slow (codes "hello") (omega arith)

abbrev entry_list : SkipList (List (ℕ × IdleEntry))
entry_list = record {
  empty = [];
  insert_key = insert;
  remove_key = delete;
  touch = λ k now s. adjust k (λ e. record e { idle_since = now }) s;
  entries = λ s. s;
}

abbrev idle_two : List (ℕ × IdleEntry)
idle_two = (1, record { seq = 9; idle_since = 3 }) ∷ (2, record { seq = 8; idle_since = 1 }) ∷ []

sweep_example : Swept entry_list 10 5 1 0 idle_two (sweep entry_list 10 5 1 0 idle_two idle_two)
sweep_example = sweep-keeps entry_list 10 5 1 idle_two idle_two

abbrev open_door : Authenticator ℕ
open_door addr blob tx n = (suc n, record { id = blob; accepted = true; failure = none })

caching_example :
    All
      (λ x. IsDecided (some x.0) x.1)
      (Agreement.answers unbounded unbounded open_door
        (λ blob. some blob)
        (λ addr blob tx b. refl)
        ((codes "a", codes "blob", 0) ∷ (codes "b", codes "blob", 0) ∷ [])
        (new_caching unbounded unbounded open_door true 0))
caching_example =
    answers-IsDecided unbounded unbounded open_door (λ blob. some blob) (λ addr blob tx b. refl)
      ((codes "a", codes "blob", 0) ∷ (codes "b", codes "blob", 0) ∷ []) true 0

abbrev names : Names
names = record { show_ip = λ ip. map (λ b. b + 200) ip; to_unicode = λ s. some s }

shows-PrintsPlain : PrintsPlain names
shows-PrintsPlain [] = tt
shows-PrintsPlain (b ∷ ip) = (λ e. omega arith, shows-PrintsPlain ip)

abbrev small_rules : List (Rule ℕ)
small_rules =
    record {
      outbound = 7;
      host_matcher = wildcard (codes "*.org");
      protocol = both;
      start_port = 0;
      end_port = 0;
      hijack_address = [];
    }
    ∷ []

names_only : TreatsAlike names small_rules
names_only name a a' b b' proto port h h' = unfold first_match in refl

-- A cache of one entry.
abbrev same_key : CacheKey → CacheKey → Bool
same_key a b =
    if a.host =b b.host
    then (if a.port == b.port then same_protocol a.proto b.proto else false)
    else false

protocol_iff : (p q : Protocol) → (same_protocol p q ≡ true) ↔ (p ≡ q)
protocol_iff both both = (λ h. refl, λ h. refl)
protocol_iff both tcp = (λ h. cc, λ h. cc)
protocol_iff both udp = (λ h. cc, λ h. cc)
protocol_iff tcp both = (λ h. cc, λ h. cc)
protocol_iff tcp tcp = (λ h. refl, λ h. refl)
protocol_iff tcp udp = (λ h. cc, λ h. cc)
protocol_iff udp both = (λ h. cc, λ h. cc)
protocol_iff udp tcp = (λ h. cc, λ h. cc)
protocol_iff udp udp = (λ h. refl, λ h. refl)

same-≡ : (a b : CacheKey) → same_key a b ≡ true → a ≡ b
same-≡ a b h =
    let hosts : (a.host =b b.host) ≡ true = ground arith in
    let ports : (a.port == b.port) ≡ true = ground arith in
    let protos : same_protocol a.proto b.proto ≡ true = ground arith in
    ap (λ x. record { host = x; proto = a.proto; port = a.port }) (eq_of_=b a.host b.host hosts)
    ∙ ap (λ x. record { host = b.host; proto = x; port = a.port })
        ((protocol_iff a.proto b.proto).0 protos)
    ∙ ap (λ x. record { host = b.host; proto = b.proto; port = x }) ((==_iff a.port b.port).0 ports)

same_key_refl : (a : CacheKey) → same_key a a ≡ true
same_key_refl a =
    ap
      (λ x.
        if x then (if a.port == a.port then same_protocol a.proto a.proto else false) else false)
      (=b_refl a.host)
    ∙ ap (λ x. if x then same_protocol a.proto a.proto else false) (==_refl a.port)
    ∙ (protocol_iff a.proto a.proto).1 refl

instance abbrev cache_key_key : Key CacheKey
cache_key_key = record {
  beq = same_key;
  beq_iff = λ a b. (same-≡ a b, λ e. subst (λ x. same_key a x ≡ true) e (same_key_refl a));
}

abbrev asks : List (HostInfo × Protocol × ℕ)
asks =
    (record { name = codes "A.org."; ipv4 = 1 ∷ 2 ∷ 3 ∷ 4 ∷ []; ipv6 = [] }, tcp, 80)
    ∷ (record { name = codes "a.org"; ipv4 = 1 ∷ 2 ∷ 3 ∷ 4 ∷ []; ipv6 = [] }, tcp, 80)
    ∷ []

fresh_example :
    Cached.answers unbounded names small_rules shows-PrintsPlain names_only 0 asks []
    ≡ map
        (Cached.decide
          (unbounded {V = Decision ℕ})
          names
          small_rules
          shows-PrintsPlain
          names_only
          0)
        asks
unfolding unbounded
fresh_example = answers-fresh unbounded names small_rules shows-PrintsPlain names_only 0 asks

password_example :
    ((check_password (new_password_authenticator (λ b. b) (codes "pw")) (codes "7077")).accepted
      ≡ true)
    ↔ (codes "7077" ≡ hex (codes "pw"))
password_example = check_password-hex (λ b. b) (codes "pw") (codes "7077")

abbrev small_visits : List Visit
small_visits =
    arrives (5 ∷ []) (codes "alice") (codes "1.2.3.4:5")
    ∷ arrives (5 ∷ 6 ∷ []) (codes "bob") (codes "1.2.3.4:6")
    ∷ departs alice
    ∷ []

visits_example : IsApart (visits small_visits new_registry).devices
visits_example = visits-new_registry-IsApart small_visits

-- Two rules of a file
abbrev two_rules : List TextRule
two_rules =
    record {
      outbound = codes "warp";
      address = codes "suffix:org";
      proto_port = codes "tcp/443";
      hijack_address = codes "1.1.1.1";
      line_num = 1;
    }
    ∷ record {
      outbound = codes "direct";
      address = codes "all";
      proto_port = [];
      hijack_address = [];
      line_num = 2;
    }
    ∷ []

abbrev plain_text : Bytes → Bool
plain_text [] = true
plain_text (c ∷ s) = not (c == 44) && not (c == 35) && not (c == 10) && plain_text s

plain-Lacks : (s : Bytes) → plain_text s ≡ true → Lacks 44 s × Lacks 35 s × Lacks 10 s
plain-Lacks [] h = (tt, tt, tt)
plain-Lacks (c ∷ s) h =
    let rest = plain-Lacks s (ground arith) in
    ((ground arith, rest.0), (ground arith, rest.1), (ground arith, rest.2))

plain-IsField : (s : Bytes) → plain_text s ≡ true → trim_space s ≡ s → IsField s
plain-IsField s h t =
    let r = plain-Lacks s h in
    record { no_comma = r.0; no_hash = r.1; no_newline = r.2; trimmed = t }

two_rules-Numbered : Numbered 1 two_rules
unfolding trim_space
two_rules-Numbered = (
  refl,
  record {
    word = (refl, (refl, (refl, (refl, tt))));
    named = λ e. cc;
    address_field = plain-IsField (codes "suffix:org") refl refl;
    address_given = λ e. cc;
    proto_field = plain-IsField (codes "tcp/443") refl refl;
    hijack_field = plain-IsField (codes "1.1.1.1") refl refl;
    hijack_last = λ e. absurd cc;
  },
  (
    refl,
    record {
      word = (refl, (refl, (refl, (refl, (refl, (refl, tt))))));
      named = λ e. cc;
      address_field = plain-IsField (codes "all") refl refl;
      address_given = λ e. cc;
      proto_field = plain-IsField [] refl refl;
      hijack_field = plain-IsField [] refl refl;
      hijack_last = λ e. refl;
    },
    tt,
  ),
)

rules_example : parse_text_rules (join 10 (map show_rule two_rules)) ≡ compiled two_rules
rules_example = parse_text_rules-show two_rules two_rules-Numbered
