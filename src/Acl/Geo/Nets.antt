-- ===== src/Acl/Geo/Nets.antt =====
-- matchIP over nets that are spread.
use anytls_go.Common.{
  ℕ, zero, suc, ◌<◌, Bytes, List, [], ◌∷◌, Option, none, some, Bool, true, false, not, ◌||◌, length,
  All, All-drop, take, drop, length-drop, if_elim, subst, ◌==◌, ◌&&◌, ◌=b◌, ◌≡◌, refl, ap, ◌∙◌,
  arith, if◌then◌else◌,
}
use anytls_go.Acl.Host.{HostInfo, IpNet, v4_prefix, to4, net_contains}
use anytls_go.Acl.Geo.{
  GeoIpMatcher, bytes_less, get_elem?, search_ip, match_family, match_ip, match_given,
  either_family, match_geoip,
}
use anytls_go.Acl.Geo.Search.{any, IsOrdered, search_lem, search_answers}

abbrev pub IsBytes : Bytes → Type 0
IsBytes ip = All (λ b. b < 256) ip

-- The addresses that the nets of a family are searched for
abbrev pub IsV4 : Bytes → Type 0
IsV4 ip = (length ip ≡ 4) × IsBytes ip

abbrev pub IsV6 : Bytes → Type 0
IsV6 ip = (to4 ip ≡ none) × IsBytes ip

-- Each net ends where the next one begins at the latest, on the addresses of the family.
pub record IsSpread (IsFamily : Bytes → Type 0) (ns : List IpNet) : Type 0 where
  pub behind :
      (i j : ℕ) (a b : IpNet) (ip : Bytes)
      → IsFamily ip
      → i < j
      → get_elem? ns i ≡ some a
      → get_elem? ns j ≡ some b
      → net_contains b ip ≡ true
      → bytes_less a.ip ip ≡ true
  pub ends :
      (i j : ℕ) (a b : IpNet) (ip : Bytes)
      → IsFamily ip
      → i < j
      → get_elem? ns i ≡ some a
      → get_elem? ns j ≡ some b
      → net_contains a ip ≡ true
      → bytes_less b.ip ip ≡ false

spread-IsOrdered :
    (IsFamily : Bytes → Type 0) (ns : List IpNet) (ip : Bytes)
    → IsSpread IsFamily ns
    → IsFamily ip
    → IsOrdered (λ n. net_contains n ip) (λ n. bytes_less n.ip ip) ns
spread-IsOrdered IsFamily ns ip s f = record {
  before = λ i j a b h at_i at_j hit miss. s.behind i j a b ip f h at_i at_j hit;
  behind = λ i j a b h at_i at_j hit miss. s.ends i j a b ip f h at_i at_j hit;
}

-- Some net of the list holds the address.
abbrev pub some_net : List IpNet → Bytes → Bool
some_net ns ip = any (λ n. net_contains n ip) (λ n. bytes_less n.ip ip) ns

in_list : (ns : List IpNet) (i : ℕ) (a : IpNet) → get_elem? ns i ≡ some a → i < length ns
unfolding get_elem?
in_list [] i a e = absurd cc
in_list (n ∷ ns) zero a e = omega arith
in_list (n ∷ ns) (suc i) a e = omega (arith, in_list ns i a e)

search-some_net :
    (IsFamily : Bytes → Type 0) (ns : List IpNet) (ip : Bytes)
    → IsSpread IsFamily ns
    → IsFamily ip
    → search_ip ns ip ≡ some (some_net ns ip)
search-some_net IsFamily ns ip s f =
    search_lem (λ n. net_contains n ip) (λ n. bytes_less n.ip ip) (length ns) 0 (length ns) ns
      (spread-IsOrdered IsFamily ns ip s f) (omega arith) (omega arith)
      (λ i a e h. (omega arith, in_list ns i a e))

-- The nets of the address's family
abbrev pub listed : GeoIpMatcher → Bytes → Option Bytes → Bool
listed m ip (some v4) = some_net m.n4 v4
listed m ip none = some_net m.n6 ip

abbrev pub listed_given : GeoIpMatcher → Bytes → Bool
listed_given m [] = false
listed_given m (b ∷ ip) = listed m (b ∷ ip) (to4 (b ∷ ip))

to4-IsV4 : (ip v4 : Bytes) → IsBytes ip → to4 ip ≡ some v4 → IsV4 v4
unfolding to4
to4-IsV4 ip v4 v =
    if_elim {A = Option Bytes} (λ o. o ≡ some v4 → IsV4 v4) (length ip == 4) _ _
      (λ four e. let same : ip ≡ v4 = cc in subst IsV4 same (ground arith, v))
      (λ other.
        if_elim {A = Option Bytes} (λ o. o ≡ some v4 → IsV4 v4)
          (length ip == 16 && (take 12 ip =b v4_prefix)) _ _
          (λ mapped e.
            let same : drop 12 ip ≡ v4 = cc in
            subst IsV4 same (ground (arith, length-drop 12 ip), All-drop (λ b. b < 256) 12 ip v))
          (λ six e. absurd cc))

family-listed :
    (m : GeoIpMatcher) (ip : Bytes) (o : Option Bytes)
    → IsSpread IsV4 m.n4
    → IsSpread IsV6 m.n6
    → IsBytes ip
    → to4 ip ≡ o
    → match_family m ip o ≡ some (listed m ip o)
family-listed m ip (some v4) h4 h6 v e = search-some_net IsV4 m.n4 v4 h4 (to4-IsV4 ip v4 v e)
family-listed m ip none h4 h6 v e = search-some_net IsV6 m.n6 ip h6 (e, v)

given-listed :
    (m : GeoIpMatcher) (ip : Bytes)
    → IsSpread IsV4 m.n4
    → IsSpread IsV6 m.n6
    → IsBytes ip
    → match_given m ip ≡ some (listed_given m ip)
unfolding match_ip
given-listed m [] h4 h6 v = refl
given-listed m (b ∷ ip) h4 h6 v = family-listed m (b ∷ ip) (to4 (b ∷ ip)) h4 h6 v refl

combine :
    (inverse a b : Bool)
    → either_family inverse (some a) (some b) ≡ some (if a || b then not inverse else inverse)
combine inverse true b = refl
combine inverse false true = refl
combine inverse false false = refl

-- If the host's addresses are bytes, and the nets of both families are spread on the bytes of an
-- address of theirs (each net ends where the next one begins at the latest), the binary searches of a geoip matcher decide whether one
-- of the host's addresses is in some net of its family, and the matcher answers that, or the
-- opposite for an inverse list.
pub match_geoip-listed :
    (m : GeoIpMatcher) (host : HostInfo)
    → IsSpread IsV4 m.n4
    → IsSpread IsV6 m.n6
    → IsBytes host.ipv4
    → IsBytes host.ipv6
    → match_geoip m host
      ≡ some (
          if listed_given m host.ipv4 || listed_given m host.ipv6 then not m.inverse else m.inverse)
unfolding match_geoip
match_geoip-listed m host h4 h6 v4 v6 =
    ap (λ o. either_family m.inverse o (match_given m host.ipv6))
      (given-listed m host.ipv4 h4 h6 v4)
    ∙ ap (either_family m.inverse (some (listed_given m host.ipv4)))
        (given-listed m host.ipv6 h4 h6 v6)
    ∙ combine m.inverse (listed_given m host.ipv4) (listed_given m host.ipv6)

search_ip-returns : (ns : List IpNet) (ip : Bytes) → (b : Bool) × (search_ip ns ip ≡ some b)
search_ip-returns ns ip =
    search_answers (λ n. net_contains n ip) (λ n. bytes_less n.ip ip) (length ns) 0 (length ns) ns
      (omega arith) (omega arith)

family-returns :
    (m : GeoIpMatcher) (ip : Bytes) (o : Option Bytes) → (b : Bool) × (match_family m ip o ≡ some b)
family-returns m ip (some v4) = search_ip-returns m.n4 v4
family-returns m ip none = search_ip-returns m.n6 ip

given-returns : (m : GeoIpMatcher) (ip : Bytes) → (b : Bool) × (match_given m ip ≡ some b)
unfolding match_ip
given-returns m [] = (false, refl)
given-returns m (b ∷ ip) = family-returns m (b ∷ ip) (to4 (b ∷ ip))

-- A geoip matcher answers for every host, in any order of its nets: the loop of each search ends
-- within as many rounds as there are nets, and its index is in range in each.
pub match_geoip-returns :
    (m : GeoIpMatcher) (host : HostInfo) → (b : Bool) × (match_geoip m host ≡ some b)
unfolding match_geoip
match_geoip-returns m host =
    let (a, first) = given-returns m host.ipv4 in
    let (b, second) = given-returns m host.ipv6 in
    (
      if a || b then not m.inverse else m.inverse,
      ap (λ o. either_family m.inverse o (match_given m host.ipv6)) first
          ∙ ap (either_family m.inverse (some a)) second
          ∙ combine m.inverse a b,
    )
