-- ===== src/Server/Private.antt =====
-- cmd/server/private.go, with the predicates of net/netip that it uses.
use anytls_go.Common.{
  ℕ, Bytes, [], ◌∷◌, Bool, true, false, ◌&&◌, ◌||◌, length, leb, ◌==◌, ◌=b◌, if◌then◌else◌,
}
use anytls_go.Outbound.{unmap}

abbrev pub within : ℕ → ℕ → ℕ → Bool
within lo hi b = leb lo b && leb b hi

-- A test of the first two bytes of an IPv4 address, and of an IPv6 address
abbrev pub first_two : (ℕ → ℕ → Bool) → Bytes → Bool
first_two f (a ∷ b ∷ rest) = f a b
first_two f (a ∷ []) = false
first_two f [] = false

abbrev pub by_family : (ℕ → ℕ → Bool) → (ℕ → ℕ → Bool) → Bytes → Bool
by_family v4 v6 addr =
    if length addr == 4
    then first_two v4 addr
    else if length addr == 16
    then first_two v6 addr
    else false

abbrev pub v6_zero : Bytes
v6_zero = 0 ∷ 0 ∷ 0 ∷ 0 ∷ 0 ∷ 0 ∷ 0 ∷ 0 ∷ 0 ∷ 0 ∷ 0 ∷ 0 ∷ 0 ∷ 0 ∷ 0 ∷ 0 ∷ []

abbrev pub v6_one : Bytes
v6_one = 0 ∷ 0 ∷ 0 ∷ 0 ∷ 0 ∷ 0 ∷ 0 ∷ 0 ∷ 0 ∷ 0 ∷ 0 ∷ 0 ∷ 0 ∷ 0 ∷ 0 ∷ 1 ∷ []

-- Addr.IsLoopback: 127.0.0.0/8, ::1
unfoldable pub is_loopback : Bytes → Bool
unfolding ◌=b◌
is_loopback addr = by_family (λ a b. a == 127) (λ a b. false) addr || (addr =b v6_one)

-- Addr.IsPrivate: 10.0.0.0/8, 172.16.0.0/12, 192.168.0.0/16, fc00::/7
unfoldable pub is_private : Bytes → Bool
is_private addr =
    by_family (λ a b. (a == 10) || (a == 172 && within 16 31 b) || (a == 192 && b == 168))
      (λ a b. within 252 253 a) addr

-- Addr.IsUnspecified: 0.0.0.0, ::
unfoldable pub is_unspecified : Bytes → Bool
unfolding ◌=b◌
is_unspecified addr = (addr =b 0 ∷ 0 ∷ 0 ∷ 0 ∷ []) || (addr =b v6_zero)

-- Addr.IsLinkLocalUnicast: 169.254.0.0/16, fe80::/10
unfoldable pub is_link_local_unicast : Bytes → Bool
is_link_local_unicast addr =
    by_family (λ a b. a == 169 && b == 254) (λ a b. a == 254 && within 128 191 b) addr

-- Addr.IsMulticast: 224.0.0.0/4, ff00::/8
unfoldable pub is_multicast : Bytes → Bool
is_multicast addr = by_family (λ a b. within 224 239 a) (λ a b. a == 255) addr

-- The loop over nonPublicPrefixes: 0.0.0.0/8, 100.64.0.0/10, 255.255.255.255/32
unfoldable pub in_non_public : Bytes → Bool
unfolding ◌=b◌
in_non_public addr =
    by_family (λ a b. (a == 0) || (a == 100 && within 64 127 b)) (λ a b. false) addr
    || (addr =b 255 ∷ 255 ∷ 255 ∷ 255 ∷ [])

unfoldable pub is_private_addr : Bytes → Bool
unfolding unmap is_loopback is_private is_unspecified is_link_local_unicast is_multicast
    in_non_public
is_private_addr given =
    let addr = unmap given in
    if is_loopback addr
      || is_private addr
      || is_unspecified addr
      || is_link_local_unicast addr
      || is_multicast addr
    then true
    else in_non_public addr
