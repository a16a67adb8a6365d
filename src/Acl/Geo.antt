-- ===== src/Acl/Geo.antt =====
-- acl/matchers_v2geo.go and acl/v2geo/load.go: the matchers of the geo databases. Decoding a file
-- and compiling a regular expression are parameters.
pub mod Search
pub mod Nets
use anytls_go.Common.{
  ℕ, zero, suc, ◌+◌, ◌-◌, ◌*◌, ◌/◌, ◌^◌, min, Bytes, List, [], ◌∷◌, Option, none, some, Bool, true,
  false, not, ◌&&◌, ◌||◌, length, ltb, ◌==◌, ◌=b◌, if◌then◌else◌,
}
use anytls_go.Common.Maps.{insert, bytes_key}
use anytls_go.Text.Words.{to_lower, has_prefix, has_suffix}
use anytls_go.Acl.Host.{HostInfo, IpNet, to4, net_contains}

-- CIDR, GeoIP, Domain and GeoSite of acl/v2geo/v2geo.pb.go: the fields that are used
pub record Cidr : Type 0 where
  pub ip : Bytes
  pub prefix : ℕ

pub record GeoIp : Type 0 where
  pub country_code : Bytes
  pub cidrs : List Cidr
  pub inverse_match : Bool

pub data DomainType : Type 0 where
  plain regex root_domain full other_type : DomainType

pub record Domain : Type 0 where
  pub kind : DomainType
  pub value : Bytes
  pub attributes : List Bytes

pub record GeoSite : Type 0 where
  pub country_code : Bytes
  pub domains : List Domain

-- geoipMatcher
pub record GeoIpMatcher : Type 0 where
  pub n4 : List IpNet
  pub n6 : List IpNet
  pub inverse : Bool

-- bytes.Compare(a, b) < 0
unfoldable pub bytes_less : Bytes → Bytes → Bool
bytes_less [] [] = false
bytes_less [] (b ∷ ys) = true
bytes_less (a ∷ xs) [] = false
bytes_less (a ∷ xs) (b ∷ ys) =
    let rest = bytes_less xs ys in if ltb a b then true else if a == b then rest else false

unfoldable pub get_elem? {ℓ} : {A : Type ℓ} → List A → ℕ → Option A
get_elem? [] i = none
get_elem? (x ∷ xs) zero = some x
get_elem? (x ∷ xs) (suc i) = get_elem? xs i

-- The loop of matchIP between `left` and the index behind `right`, on fuel; none is a panic of the
-- index, or no fuel.
module _ {ℓ} {A : Type ℓ} (holds below : A → Bool) where
  abbrev pub probe : Option A → Option Bool → Option Bool → Option Bool
  probe none lower upper = none
  probe (some n) lower upper = if holds n then some true else if below n then upper else lower

  unfoldable pub search_nets : ℕ → ℕ → ℕ → List A → Option Bool
  unfolding get_elem?
  search_nets zero left stop ns = if ltb left stop then none else some false
  search_nets (suc fuel) left stop ns =
      let mid = (left + (stop - 1)) / 2 in
      let lower = search_nets fuel left mid ns in
      let upper = search_nets fuel (mid + 1) stop ns in
      if ltb left stop then probe (get_elem? ns mid) lower upper else some false

-- matchIP
abbrev pub search_ip : List IpNet → Bytes → Option Bool
search_ip ns ip =
    search_nets (λ n. net_contains n ip) (λ n. bytes_less n.ip ip) (length ns) 0 (length ns) ns

abbrev pub match_family : GeoIpMatcher → Bytes → Option Bytes → Option Bool
match_family m ip (some v4) = search_ip m.n4 v4
match_family m ip none = search_ip m.n6 ip

unfoldable pub match_ip : GeoIpMatcher → Bytes → Option Bool
unfolding to4 search_nets net_contains bytes_less
match_ip m ip = match_family m ip (to4 ip)

-- Match of geoipMatcher; an address that is empty stands for nil.
abbrev pub match_given : GeoIpMatcher → Bytes → Option Bool
match_given m [] = some false
match_given m (b ∷ ip) = match_ip m (b ∷ ip)

abbrev pub either_family : Bool → Option Bool → Option Bool → Option Bool
either_family inverse none second = none
either_family inverse (some true) second = some (not inverse)
either_family inverse (some false) none = none
either_family inverse (some false) (some true) = some (not inverse)
either_family inverse (some false) (some false) = some inverse

unfoldable pub match_geoip : GeoIpMatcher → HostInfo → Option Bool
unfolding match_ip
match_geoip m host = either_family m.inverse (match_given m host.ipv4) (match_given m host.ipv6)

-- net.CIDRMask, empty for nil
abbrev pub mask_byte : ℕ → ℕ
mask_byte ones = 256 - 2 ^ (8 - min 8 ones)

unfoldable pub mask_bytes : ℕ → ℕ → Bytes
mask_bytes zero ones = []
mask_bytes (suc n) ones = mask_byte ones ∷ mask_bytes n (ones - 8)

unfoldable pub cidr_mask : ℕ → ℕ → Bytes
unfolding mask_bytes
cidr_mask ones size = if ltb (8 * size) ones then [] else mask_bytes size ones

-- The sort of the nets by their address. Go's may order nets of one address in another way.
unfoldable pub insert_net : IpNet → List IpNet → List IpNet
unfolding bytes_less
insert_net n [] = n ∷ []
insert_net n (m ∷ ns) = if bytes_less m.ip n.ip then m ∷ insert_net n ns else n ∷ m ∷ ns

unfoldable pub sort_nets : List IpNet → List IpNet
unfolding insert_net
sort_nets [] = []
sort_nets (n ∷ ns) = insert_net n (sort_nets ns)

-- newGeoIPMatcher: the nets of both families, none on an address of another length
abbrev pub add_net : Cidr → Option (List IpNet × List IpNet) → Option (List IpNet × List IpNet)
add_net c none = none
add_net c (some (n4, n6)) =
    if length c.ip == 4
    then some (record { ip = c.ip; mask = cidr_mask c.prefix 4 } ∷ n4, n6)
    else if length c.ip == 16
    then some (n4, record { ip = c.ip; mask = cidr_mask c.prefix 16 } ∷ n6)
    else none

unfoldable pub nets_of : List Cidr → Option (List IpNet × List IpNet)
unfolding cidr_mask
nets_of [] = some ([], [])
nets_of (c ∷ cs) = add_net c (nets_of cs)

abbrev pub sorted_matcher : Bool → Option (List IpNet × List IpNet) → Option GeoIpMatcher
sorted_matcher inverse none = none
sorted_matcher inverse (some (n4, n6)) =
    some (record { n4 = sort_nets n4; n6 = sort_nets n6; inverse = inverse })

unfoldable pub new_geo_ip_matcher : GeoIp → Option GeoIpMatcher
unfolding nets_of sort_nets
new_geo_ip_matcher list = sorted_matcher list.inverse_match (nets_of list.cidrs)

-- geositeDomain with its type
pub data GeositeDomain : Type 0 where
  plain_text root_text full_text : Bytes → List Bytes → GeositeDomain
  pattern_of : (Bytes → Bool) → List Bytes → GeositeDomain

pub record GeositeMatcher : Type 0 where
  pub domains : List GeositeDomain
  pub attrs : List Bytes

-- strings.Contains
unfoldable pub has_infix : Bytes → Bytes → Bool
unfolding has_prefix
has_infix p [] = has_prefix p []
has_infix p (c ∷ s) = has_prefix p (c ∷ s) || has_infix p s

-- The attributes of a domain, as the keys of domainAttributeToMap
unfoldable pub has_attr : Bytes → List Bytes → Bool
unfolding ◌=b◌
has_attr a [] = false
has_attr a (b ∷ bs) = (b =b a) || has_attr a bs

unfoldable pub all_attrs : List Bytes → List Bytes → Bool
unfolding has_attr
all_attrs [] given = true
all_attrs (a ∷ wanted) given = if has_attr a given then all_attrs wanted given else false

abbrev pub attrs_match : List Bytes → List Bytes → Bool
attrs_match wanted given =
    if ltb 0 (length wanted)
    then (if length given == 0 then false else all_attrs wanted given)
    else true

-- matchDomain
unfoldable pub match_domain : List Bytes → GeositeDomain → HostInfo → Bool
unfolding all_attrs has_infix has_suffix ◌=b◌
match_domain wanted (plain_text value given) host =
    attrs_match wanted given && has_infix value host.name
match_domain wanted (pattern_of matches given) host = attrs_match wanted given && matches host.name
match_domain wanted (full_text value given) host = attrs_match wanted given && (host.name =b value)
match_domain wanted (root_text value given) host =
    attrs_match wanted given && ((host.name =b value) || has_suffix (b'.' ∷ value) host.name)

unfoldable pub any_domain : List Bytes → List GeositeDomain → HostInfo → Bool
unfolding match_domain
any_domain wanted [] host = false
any_domain wanted (d ∷ ds) host =
    if match_domain wanted d host then true else any_domain wanted ds host

-- Match of geositeMatcher
unfoldable pub match_geosite : GeositeMatcher → HostInfo → Bool
unfolding any_domain
match_geosite m host = any_domain m.attrs m.domains host

-- newGeositeMatcher over regexp.Compile, which is none on an error
abbrev pub from_regex : Option (Bytes → Bool) → List Bytes → Option GeositeDomain
from_regex none given = none
from_regex (some matches) given = some (pattern_of matches given)

abbrev pub convert : (Bytes → Option (Bytes → Bool)) → Domain → DomainType → Option GeositeDomain
convert compile_regex d plain = some (plain_text d.value d.attributes)
convert compile_regex d regex = from_regex (compile_regex d.value) d.attributes
convert compile_regex d full = some (full_text d.value d.attributes)
convert compile_regex d root_domain = some (root_text d.value d.attributes)
convert compile_regex d other_type = none

abbrev pub cons_both :
    Option GeositeDomain → Option (List GeositeDomain) → Option (List GeositeDomain)
cons_both none rest = none
cons_both (some d) none = none
cons_both (some d) (some ds) = some (d ∷ ds)

unfoldable pub convert_all :
    (Bytes → Option (Bytes → Bool)) → List Domain → Option (List GeositeDomain)
convert_all compile_regex [] = some []
convert_all compile_regex (d ∷ ds) =
    cons_both (convert compile_regex d d.kind) (convert_all compile_regex ds)

abbrev pub with_attrs : List Bytes → Option (List GeositeDomain) → Option GeositeMatcher
with_attrs attrs none = none
with_attrs attrs (some ds) = some (record { domains = ds; attrs = attrs })

unfoldable pub new_geosite_matcher :
    (Bytes → Option (Bytes → Bool)) → GeoSite → List Bytes → Option GeositeMatcher
unfolding convert_all
new_geosite_matcher compile_regex list attrs =
    with_attrs attrs (convert_all compile_regex list.domains)

-- LoadGeoIP and LoadGeoSite of acl/v2geo/load.go: the last list of a country code stays.
unfoldable pub by_code {ℓ} :
    {G : Type ℓ} → (G → Bytes) → List G → List (Bytes × G) → List (Bytes × G)
unfolding to_lower insert
by_code code [] m = m
by_code code (g ∷ gs) m = by_code code gs (insert (to_lower (code g)) g m)

abbrev pub decoded_list {ℓ} :
    {G : Type ℓ} → (G → Bytes) → Option (List G) → Option (List (Bytes × G))
decoded_list code none = none
decoded_list code (some gs) = some (by_code code gs [])

abbrev pub read_list {ℓ} :
    {G : Type ℓ}
    → (G → Bytes)
    → (Bytes → Option (List G))
    → Option Bytes
    → Option (List (Bytes × G))
read_list code unmarshal none = none
read_list code unmarshal (some text) = decoded_list code (unmarshal text)
