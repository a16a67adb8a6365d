-- ===== src/Devices.antt =====
-- The device registries of stats/registry.go and limiter/limiter.go: one reference-counted entry
-- for each credential and source address. Both use `host_only` on the remote address.
pub mod Counting
use anytls_go.Common.{
  ℕ, ◌+◌, ◌-◌, Bytes, List, [], ◌∷◌, Option, none, some, Bool, true, false, not, ◌&&◌, ◌||◌, ltb,
  leb, ◌==◌, ◌=b◌, =b_refl, eq_of_=b, if◌then◌else◌, ◌≡◌, refl, sym, ap, ◌∙◌, ◌↔◌, subst, arith,
}
use anytls_go.Common.Maps.{Key, lookup, insert, delete}
use anytls_go.Text.Words.{contains}

-- deviceKey
pub record DeviceKey : Type 0 where
  pub auth : Bytes
  pub ip : Bytes

unfoldable pub same_device : DeviceKey → DeviceKey → Bool
unfolding ◌=b◌
same_device a b = if a.auth =b b.auth then a.ip =b b.ip else false

same→≡ : (a b : DeviceKey) → same_device a b ≡ true → a ≡ b
unfolding same_device
same→≡ a b h =
    let first : (a.auth =b b.auth) ≡ true = ground arith in
    let second : (a.ip =b b.ip) ≡ true = ground arith in
    ap (λ x. record { auth = x; ip = a.ip }) (eq_of_=b a.auth b.auth first)
    ∙ ap (λ y. record { auth = b.auth; ip = y }) (eq_of_=b a.ip b.ip second)

same_refl : (a : DeviceKey) → same_device a a ≡ true
unfolding same_device
same_refl a = ap (λ x. if x then (a.ip =b a.ip) else false) (=b_refl a.auth) ∙ =b_refl a.ip

pub same_iff : (a b : DeviceKey) → (same_device a b ≡ true) ↔ (a ≡ b)
same_iff a b = (same→≡ a b, λ e. subst (λ x. same_device a x ≡ true) e (same_refl a))

instance abbrev pub device_key : Key DeviceKey
device_key = record { beq = same_device; beq_iff = same_iff }

-- net.SplitHostPort: the text before the last ':' and its port, and the brackets of an IPv6
-- address; none is an error.
abbrev pub add_front : ℕ → Option (Bytes × Bytes) → Option (Bytes × Bytes)
add_front c none = none
add_front c (some (a, b)) = some (c ∷ a, b)

abbrev pub cut_here : Bool → ℕ → Bytes → Option (Bytes × Bytes) → Option (Bytes × Bytes)
cut_here hit c s (some (a, b)) = some (c ∷ a, b)
cut_here true c s none = some ([], s)
cut_here false c s none = none

unfoldable pub cut_last : ℕ → Bytes → Option (Bytes × Bytes)
cut_last sep [] = none
cut_last sep (c ∷ s) = cut_here (c == sep) c s (cut_last sep s)

abbrev pub no_bracket : Bytes → Bool
no_bracket s = not (contains b'[' s) && not (contains b']' s)

-- A bracketed host: the ']' comes just before the last ':'.
abbrev pub bracketed : Bytes → Bytes → Option (Bytes × Bytes) → Option Bytes
bracketed inside port none = none
bracketed inside port (some (host, [])) =
    if no_bracket host && no_bracket port then some host else none
bracketed inside port (some (host, c ∷ more)) = none

abbrev pub split_host : Option (Bytes × Bytes) → Option Bytes
split_host none = none
split_host (some ([], port)) = if no_bracket port then some [] else none
split_host (some (c ∷ host, port)) =
    if c == b'['
    then bracketed host port (cut_last b']' host)
    else if contains b':' (c ∷ host)
    then none
    else if no_bracket (c ∷ host) && no_bracket port
    then some (c ∷ host)
    else none

abbrev pub host_or : Bytes → Option Bytes → Bytes
host_or addr none = addr
host_or addr (some host) = host

unfoldable pub host_only : Bytes → Bytes
unfolding cut_last contains
host_only addr = host_or addr (split_host (cut_last b':' addr))

unfoldable pub key_of : Bytes → Bytes → DeviceKey
unfolding host_only
key_of auth_id remote_addr = record { auth = auth_id; ip = host_only remote_addr }

-- An entry: its number of live sessions, and what they share.
pub record Entry {ℓ} (A : Type ℓ) : Type ℓ where
  pub refs : ℕ
  pub shared : A

module _ {ℓ} {A : Type ℓ} where
  abbrev pub one_more : A → Option (Entry A) → Entry A
  one_more a none = record { refs = 1; shared = a }
  one_more a (some e) = record e { refs = e.refs + 1 }

  -- Acquire and AcquireConn: what a first session makes is `a`.
  unfoldable pub acquire :
      A → DeviceKey → List (DeviceKey × Entry A) → List (DeviceKey × Entry A) × Entry A
  unfolding lookup insert
  acquire a k m = let e = one_more a (lookup k m) in (insert k e m, e)

  abbrev pub one_less :
      DeviceKey → Option (Entry A) → List (DeviceKey × Entry A) → List (DeviceKey × Entry A)
  one_less k none m = m
  one_less k (some e) m =
      if leb e.refs 1 then delete k m else insert k (record e { refs = e.refs - 1 }) m

  -- Release and ReleaseConn, by a session that acquired the entry.
  unfoldable pub release : DeviceKey → List (DeviceKey × Entry A) → List (DeviceKey × Entry A)
  unfolding lookup delete insert
  release k m = one_less k (lookup k m) m
