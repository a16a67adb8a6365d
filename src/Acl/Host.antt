-- ===== src/Acl/Host.antt =====
-- acl/matchers.go, HostInfo of acl/compile.go, and the parts of Go's net package that they use. A
-- net.IP is its bytes, none for nil; a name is the list of its runes.
use anytls_go.Common.{
  ℕ, zero, suc, ◌+◌, ◌*◌, ◌/◌, ◌%◌, Bytes, List, [], ◌∷◌, ◌++◌, Option, none, some, Bool, true,
  false, ◌&&◌, ◌||◌, length, take, drop, ◌==◌, ◌=b◌, if◌then◌else◌,
}
use anytls_go.Text.Words.{has_suffix}

pub record HostInfo : Type 0 where
  pub name : List ℕ
  pub ipv4 : Bytes
  pub ipv6 : Bytes

pub record IpNet : Type 0 where
  pub ip : Bytes
  pub mask : Bytes

-- The hostMatcher implementations; `geo` is one of acl/matchers_v2geo.go, by what it answers.
pub data HostMatcher : Type 0 where
  all_hosts : HostMatcher
  one_ip : Bytes → HostMatcher
  cidr : IpNet → HostMatcher
  exact wildcard suffix : List ℕ → HostMatcher
  geo : (HostInfo → Bool) → HostMatcher

-- v4InV6Prefix of package net
abbrev pub v4_prefix : Bytes
v4_prefix = 0 ∷ 0 ∷ 0 ∷ 0 ∷ 0 ∷ 0 ∷ 0 ∷ 0 ∷ 0 ∷ 0 ∷ 255 ∷ 255 ∷ []

-- IP.To4 : none for nil
unfoldable pub to4 : Bytes → Option Bytes
unfolding ◌=b◌
to4 ip =
    if length ip == 4
    then some ip
    else if length ip == 16 && (take 12 ip =b v4_prefix)
    then some (drop 12 ip)
    else none

-- IP.Equal
unfoldable pub ip_equal : Bytes → Bytes → Bool
unfolding ◌=b◌
ip_equal a b =
    if length a == length b
    then a =b b
    else if length a == 4 && length b == 16
    then (v4_prefix ++ a) =b b
    else if length a == 16 && length b == 4
    then a =b (v4_prefix ++ b)
    else false

-- & on the low bits of two numbers
unfoldable pub bit_and : ℕ → ℕ → ℕ → ℕ
bit_and zero a b = 0
bit_and (suc f) a b = (a % 2) * (b % 2) + 2 * bit_and f (a / 2) (b / 2)

-- networkNumberAndMask of package net
abbrev pub with_mask : Bytes → Bytes → Bytes × Bytes
with_mask ip mask =
    if length mask == 4
    then (if length ip == 4 then (ip, mask) else ([], []))
    else if length mask == 16
    then (ip, if length ip == 4 then drop 12 mask else mask)
    else ([], [])

abbrev pub number_of : Option Bytes → Bytes → Bytes → Bytes × Bytes
number_of (some v4) ip mask = with_mask v4 mask
number_of none ip mask = if length ip == 16 then with_mask ip mask else ([], [])

-- The loop of IPNet.Contains over addresses of one length
unfoldable pub same_network : Bytes → Bytes → Bytes → Bool
unfolding bit_and
same_network (a ∷ nn) (m ∷ mask) (b ∷ ip) =
    bit_and 8 a m == bit_and 8 b m && same_network nn mask ip
same_network nn mask ip = true

abbrev pub four_or : Option Bytes → Bytes → Bytes
four_or (some v4) ip = v4
four_or none ip = ip

abbrev pub in_network : Bytes × Bytes → Bytes → Bool
in_network (nn, mask) ip = length ip == length nn && same_network nn mask ip

-- IPNet.Contains
unfoldable pub net_contains : IpNet → Bytes → Bool
unfolding to4 same_network
net_contains n ip = in_network (number_of (to4 n.ip) n.ip n.mask) (four_or (to4 ip) ip)

-- deepMatchRune: the recursion at '*' on the rest of the name, and on the rest of the pattern
abbrev pub star : (List ℕ → Bool) → List ℕ → Bool
star after [] = after []
star after (c ∷ str) = after (c ∷ str) || star after str

abbrev pub literal : (List ℕ → Bool) → ℕ → List ℕ → Bool
literal after p [] = false
literal after p (c ∷ str) = if c == p then after str else false

abbrev pub is_empty : List ℕ → Bool
is_empty [] = true
is_empty (c ∷ str) = false

unfoldable pub deep_match_rune : List ℕ → List ℕ → Bool
deep_match_rune [] str = is_empty str
deep_match_rune (p ∷ pattern) str =
    if p == b'*'
    then star (λ rest. deep_match_rune pattern rest) str
    else literal (λ rest. deep_match_rune pattern rest) p str

-- The Match methods; idna.ToUnicode is `to_unicode`, none when it fails.
abbrev pub unicode_or : Option (List ℕ) → List ℕ → List ℕ
unicode_or (some name) host = name
unicode_or none host = host

unfoldable pub match_host : (List ℕ → Option (List ℕ)) → HostMatcher → HostInfo → Bool
unfolding ip_equal net_contains deep_match_rune ◌=b◌ has_suffix
match_host to_unicode all_hosts host = true
match_host to_unicode (one_ip ip) host = ip_equal ip host.ipv4 || ip_equal ip host.ipv6
match_host to_unicode (cidr n) host = net_contains n host.ipv4 || net_contains n host.ipv6
match_host to_unicode (exact p) host = unicode_or (to_unicode host.name) host.name =b p
match_host to_unicode (wildcard p) host =
    deep_match_rune p (unicode_or (to_unicode host.name) host.name)
match_host to_unicode (suffix p) host =
    let name = unicode_or (to_unicode host.name) host.name in
    (name =b p) || has_suffix (b'.' ∷ p) name
match_host to_unicode (geo f) host = f host
