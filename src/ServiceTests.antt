-- ===== src/ServiceTests.antt =====
-- Small runs of the pipe, the settings and the geoip matcher, at which the theorems apply.
use anytls_go.Common.{
  ℕ, zero, suc, ◌+◌, ◌*◌, ◌/◌, ◌%◌, ◌^◌, ◌==◌, ◌&&◌, Bool, Bytes, subst, ◌<◌, ◌≡◌, refl, List, [],
  ◌∷◌, none, some, true, false, ◌||◌, codes, arith, if◌then◌else◌,
}
use anytls_go.Pipe.{
  new_system, System, Pipe, Reach, here, next, write_enters, locks, read_enters, hands_over,
  start_writer,
}
use anytls_go.Pipe
use anytls_go.Pipe.Deadline.{future, set}
use anytls_go.Pipe.Order.{IsFaithful, Reach-new-IsFaithful}
use anytls_go.Pipe.Release.{IsQuiet, done-IsQuiet}
use anytls_go.Pipe.Timers.{SetsTo, Reach-new-SetsTo}
use anytls_go.Text.{pos, cut, digits_value}
use anytls_go.Outbound.{Socks5}
use anytls_go.Config.{
  Parsers, default, load_file, check_all, auth_cache_ttl, auth_negative_cache_ttl, bandwidth_limits,
  geo_update_interval, validate_acl, validate_tls, validate_auth, validate_resolver, resolver_kind,
  validate_stats,
}
use anytls_go.Config.Bandwidth.{parse_bandwidth}
use anytls_go.Config.Outbounds
use anytls_go.Config.Outbounds.{
  Addresses, OutboundEntry, validate_outbounds, validate_outbound_name, validate_socks5,
}
use anytls_go.Config.Accepted.{IsAccepted, load_file-IsAccepted}
use anytls_go.Config.Built.{IsBuilt, new_outbounds-IsBuilt}
use anytls_go.Acl.Host.{HostInfo, IpNet, bit_and, same_network, to4, net_contains}
use anytls_go.Acl.Geo.{GeoIpMatcher, get_elem?, bytes_less, search_nets, search_ip, match_geoip}
use anytls_go.Acl.Geo.Nets.{IsV4, IsV6, IsBytes, IsSpread, listed_given, match_geoip-listed}

-- A write of "hi" that a read of one byte meets
abbrev locked : System
locked = record new_system { readers = 1 ∷ []; writer = some (start_writer (codes "hi")) }

abbrev handed : System
handed = record new_system {
  writer = some (record (start_writer (codes "hi")) { count = some 1 });
  delivered = codes "h";
}

to_locked : Reach new_system locked
to_locked =
    unfold Pipe.enter_write Pipe.enter_read in
    next
      (next (next here (write_enters true (codes "hi") refl)) (locks [] [] (codes "hi") refl refl))
      (read_enters true 1 refl)

to_handed : Reach new_system handed
to_handed = next to_locked (hands_over (start_writer (codes "hi")) [] [] 1 refl refl refl)

bytes_example : IsFaithful handed
bytes_example = Reach-new-IsFaithful handed to_handed

abbrev closed_system : System
closed_system = record locked { pipe = record locked.pipe { done = true } }

quiet_example : (t : System) × Reach closed_system t × IsQuiet closed_system t
quiet_example = done-IsQuiet closed_system refl

timers_example :
    (handed.pipe.read_deadline.panicked ≡ false)
    × (handed.pipe.write_deadline.panicked ≡ false)
    × SetsTo future (set future handed.pipe.read_deadline)
    × SetsTo future (set future handed.pipe.write_deadline)
timers_example = Reach-new-SetsTo handed future to_handed

-- Settings from a file that says nothing
abbrev addresses : Addresses
addresses = record { split_host_port = λ s. cut b':' s; parse_addr = λ s. none }

abbrev parsers : Parsers
parsers = record { parse_duration = λ s. some (pos 1); addresses = addresses }

accepted_example : IsAccepted parsers default
accepted_example =
    load_file-IsAccepted parsers (λ path. some []) (λ text c. some c) (codes "a") default
      (unfold load_file check_all auth_cache_ttl auth_negative_cache_ttl bandwidth_limits
          parse_bandwidth geo_update_interval validate_acl validate_tls validate_auth
          validate_resolver resolver_kind validate_outbounds validate_stats in
        refl)

abbrev no_proxy : Socks5
no_proxy = record { server = []; username = []; password = [] }

abbrev a_proxy : Socks5
a_proxy = record { server = codes "h:80"; username = []; password = [] }

abbrev entries : List OutboundEntry
entries =
    record {
      name = codes "Warp";
      kind_given = codes "SOCKS5";
      direct_options = 0;
      socks5 = a_proxy;
    }
    ∷ record {
      name = codes "out";
      kind_given = codes "direct";
      direct_options = 0;
      socks5 = no_proxy;
    }
    ∷ []

built_example : IsBuilt entries
unfolding cut digits_value
built_example =
    new_outbounds-IsBuilt addresses entries
      (unfold validate_outbounds validate_outbound_name validate_socks5 Outbounds.kind in refl)

-- A byte under a mask of ones
unfoldable ones : ℕ → ℕ
ones zero = 0
ones (suc f) = 1 + 2 * ones f

bit_and-ones : (f a : ℕ) → a < 2 ^ f → bit_and f a (ones f) ≡ a
unfolding bit_and ones
bit_and-ones zero a h = omega arith
bit_and-ones (suc f) a h =
    let odd : (1 + 2 * ones f) % 2 ≡ 1 = omega arith in
    let half : (1 + 2 * ones f) / 2 ≡ ones f = omega arith in
    let rest = bit_and-ones f (a / 2) (omega arith) in rw (odd, half, rest) (omega arith)

-- The nets 1.0.0.0/8 and 10.0.0.0/8, and one net with two others inside
abbrev slash8 : ℕ → IpNet
slash8 n = record { ip = n ∷ 0 ∷ 0 ∷ 0 ∷ []; mask = 255 ∷ 0 ∷ 0 ∷ 0 ∷ [] }

abbrev two_nets : List IpNet
two_nets = slash8 1 ∷ slash8 10 ∷ []

abbrev two_matcher : GeoIpMatcher
two_matcher = record { n4 = two_nets; n6 = []; inverse = false }

and_first : (a b : Bool) → (a && b) ≡ true → a ≡ true
and_first a b h = ground arith

-- An address of such a net begins with its byte.
in_slash8 :
    (n a b c d : ℕ)
    → n < 256
    → a < 256
    → net_contains (slash8 n) (a ∷ b ∷ c ∷ d ∷ []) ≡ true
    → n ≡ a
unfolding net_contains same_network to4 ones
in_slash8 n a b c d h k e =
    let first : bit_and 8 n 255 == bit_and 8 a 255 ≡ true = and_first _ _ e in
    let left : bit_and 8 n 255 ≡ n = bit_and-ones 8 n (omega arith) in
    let right : bit_and 8 a 255 ≡ a = bit_and-ones 8 a (omega arith) in ground arith

above : (a b c d : ℕ) → 10 ≡ a → bytes_less (1 ∷ 0 ∷ 0 ∷ 0 ∷ []) (a ∷ b ∷ c ∷ d ∷ []) ≡ true
unfolding bytes_less
above a b c d e = ground arith

not_above : (a b c d : ℕ) → 1 ≡ a → bytes_less (10 ∷ 0 ∷ 0 ∷ 0 ∷ []) (a ∷ b ∷ c ∷ d ∷ []) ≡ false
unfolding bytes_less
not_above a b c d e = ground arith

ordered :
    (ip : Bytes)
    → IsV4 ip
    → (net_contains (slash8 10) ip ≡ true → bytes_less (1 ∷ 0 ∷ 0 ∷ 0 ∷ []) ip ≡ true)
      × (net_contains (slash8 1) ip ≡ true → bytes_less (10 ∷ 0 ∷ 0 ∷ 0 ∷ []) ip ≡ false)
ordered [] v = absurd (omega (arith, v.0))
ordered (a ∷ []) v = absurd (omega (arith, v.0))
ordered (a ∷ b ∷ []) v = absurd (omega (arith, v.0))
ordered (a ∷ b ∷ c ∷ []) v = absurd (omega (arith, v.0))
ordered (a ∷ b ∷ c ∷ d ∷ []) v = (
  λ e. above a b c d (in_slash8 10 a b c d (omega arith) v.1.0 e),
  λ e. not_above a b c d (in_slash8 1 a b c d (omega arith) v.1.0 e),
)
ordered (a ∷ b ∷ c ∷ d ∷ e ∷ ip) v = absurd (omega (arith, v.0))

-- Two indices in order are those of the two nets.
both_nets :
    (P : IpNet → IpNet → Type 0) (i j : ℕ) (a b : IpNet)
    → i < j
    → get_elem? two_nets i ≡ some a
    → get_elem? two_nets j ≡ some b
    → P (slash8 1) (slash8 10)
    → P a b
unfolding get_elem?
both_nets P zero zero a b h at_i at_j p = absurd (omega arith)
both_nets P zero (suc zero) a b h at_i at_j p =
    let first : slash8 1 ≡ a = cc in
    let second : slash8 10 ≡ b = cc in subst (λ x. P x b) first (subst (P (slash8 1)) second p)
both_nets P zero (suc (suc j)) a b h at_i at_j p = absurd cc
both_nets P (suc i) zero a b h at_i at_j p = absurd (omega arith)
both_nets P (suc zero) (suc zero) a b h at_i at_j p = absurd (omega arith)
both_nets P (suc i) (suc (suc j)) a b h at_i at_j p = absurd cc
both_nets P (suc (suc i)) (suc j) a b h at_i at_j p = absurd cc

two_nets-IsSpread : IsSpread IsV4 two_nets
two_nets-IsSpread = record {
  behind = λ i j a b ip v h at_i at_j hit.
      both_nets (λ x y. net_contains y ip ≡ true → bytes_less x.ip ip ≡ true) i j a b h at_i at_j
        (ordered ip v).0 hit;
  ends = λ i j a b ip v h at_i at_j hit.
      both_nets (λ x y. net_contains x ip ≡ true → bytes_less y.ip ip ≡ false) i j a b h at_i at_j
        (ordered ip v).1 hit;
}

no_net-IsSpread : IsSpread IsV6 []
unfolding get_elem?
no_net-IsSpread = record {
  behind = λ i j a b ip v h at_i at_j hit. absurd cc;
  ends = λ i j a b ip v h at_i at_j hit. absurd cc;
}

abbrev a_host : HostInfo
a_host = record { name = codes "h"; ipv4 = 10 ∷ 1 ∷ 2 ∷ 3 ∷ []; ipv6 = [] }

a_host-IsBytes : IsBytes a_host.ipv4
a_host-IsBytes = (omega arith, (omega arith, (omega arith, (omega arith, tt))))

listed_example :
    match_geoip two_matcher a_host
    ≡ some (
        if listed_given two_matcher a_host.ipv4 || listed_given two_matcher a_host.ipv6
        then true
        else false)
listed_example =
    match_geoip-listed two_matcher a_host two_nets-IsSpread no_net-IsSpread a_host-IsBytes tt

-- A net inside another one hides addresses of the outer net.
abbrev nested : List IpNet
nested =
    slash8 10
    ∷ record { ip = 10 ∷ 1 ∷ 0 ∷ 0 ∷ []; mask = 255 ∷ 255 ∷ 0 ∷ 0 ∷ [] }
    ∷ record { ip = 10 ∷ 2 ∷ 0 ∷ 0 ∷ []; mask = 255 ∷ 255 ∷ 0 ∷ 0 ∷ [] }
    ∷ []

hidden : search_ip nested (10 ∷ 200 ∷ 0 ∷ 1 ∷ []) ≡ some false
unfolding search_nets net_contains bytes_less
hidden = refl

not_outside : net_contains (slash8 10) (10 ∷ 200 ∷ 0 ∷ 1 ∷ []) ≡ true
unfolding net_contains
not_outside = refl
