-- ===== src/Server/Policy/Safety.antt =====
-- Where a route of selectRoute may lead with the private filter on.
use anytls_go.Common.{
  ℕ, Bytes, List, [], ◌∷◌, Option, none, some, Bool, true, false, not, ◌&&◌, ◌||◌, length, ◌==◌,
  if◌then◌else◌, if_elim, ◌≡◌, ◌≢◌, refl, sym, ap, ◌∙◌, subst, ◌⊎◌, inl, inr, All, arith,
  length-drop,
}
use mathlib.Core.Bool.{false≢true}
use anytls_go.Lru.{Lru}
use anytls_go.Acl.Host.{to4}
use anytls_go.Acl.Rules.{Protocol, CacheKey, Decision, Names, look_up}
use anytls_go.Outbound.{
  Socksaddr, socksaddr_from, is_ip, Outbound, remote_resolve, is_reject, unmap,
}
use anytls_go.Server.Private.{is_private_addr}
use anytls_go.Server.Policy.{
  Resolved, unresolved, Engine, OutboundPolicy, Chosen, routed, refused, sort_ip, first_of_each,
  system_resolve, ip_to_netip, is_private_ip, reaches_private, pick_dial_addr, Net, literal_info,
  resolve_by, has_rules, host_info, dial_case, dial, by_rules, with_info, select_route,
}

-- The bytes of an IPv4 or an IPv6 address, or none.
abbrev pub IsProper : Bytes → Type 0
IsProper ip = (length ip ≡ 0) ⊎ (length ip ≡ 4) ⊎ (length ip ≡ 16)

pub record IsProperResult (r : Resolved) : Type 0 where
  pub proper4 : IsProper r.ipv4
  pub proper6 : IsProper r.ipv6

-- What the resolvers answer are addresses.
pub record Answers (net : Net) (p : OutboundPolicy) : Type 0 where
  pub resolver_answers :
      (resolve : Bytes → Resolved)
      → p.resolver ≡ some resolve
      → (name : Bytes) → IsProperResult (resolve name)
  pub system_answers :
      (name : Bytes) (ips : List Bytes) → net.lookup_ip name ≡ some ips → All IsProper ips

-- A destination is a name to resolve or an address.
abbrev pub IsDestination : Socksaddr → Type 0
IsDestination d = (d.is_fqdn ≡ true) ⊎ (length d.addr ≡ 4) ⊎ (length d.addr ≡ 16)

-- An address of either family was found.
abbrev pub is_found : Resolved → Bool
is_found r = not (length r.ipv4 == 0) || not (length r.ipv6 == 0)

-- The route goes to a rule's hijack address, or to a proxy that resolves the name itself while an
-- address was found here and neither resolved address is private, or to an address that is not
-- private.
abbrev pub IsSafe : Bytes → Socksaddr → Resolved → Chosen → Type 0
IsSafe hijack destination result (refused x) = Unit {0}
IsSafe hijack destination result (routed r) =
    ((hijack ≢ []) × (r.target ≡ socksaddr_from (ip_to_netip hijack) destination.port))
    ⊎ ((remote_resolve r.outbound ≡ true)
        × (r.target ≡ destination)
        × (is_found result ≡ true)
        × (is_private_ip result.ipv4 ≡ false)
        × (is_private_ip result.ipv6 ≡ false))
    ⊎ ((remote_resolve r.outbound ≡ false)
        × (is_ip r.target ≡ true)
        × (is_private_addr r.target.addr ≡ false))

or_false : (a b : Bool) → (a || b) ≡ false → (a ≡ false) × (b ≡ false)
or_false a b h = ground arith

unmap-IsProper : (ip : Bytes) → (length ip ≡ 4) ⊎ (length ip ≡ 16) → length (unmap ip) ≢ 0
unfolding unmap to4
unmap-IsProper ip h = ground (arith, length-drop 12 ip)

netip-IsProper :
    (ip : Bytes) (port : ℕ)
    → IsProper ip
    → (length ip == 0) ≡ false
    → is_ip (socksaddr_from (ip_to_netip ip) port) ≡ true
unfolding ip_to_netip
netip-IsProper ip port h e = ground (arith, unmap-IsProper ip)

-- What pickDialAddr picks is an address, and only if one was found.
PicksIp : Resolved → Option Socksaddr → Type 0
PicksIp result none = Unit {0}
PicksIp result (some a) = (is_ip a ≡ true) × (is_found result ≡ true)

found4 : (r : Resolved) → not (length r.ipv4 == 0) ≡ true → is_found r ≡ true
found4 r h = ground arith

found6 : (r : Resolved) → not (length r.ipv6 == 0) ≡ true → is_found r ≡ true
found6 r h = ground arith

picked :
    (destination : Socksaddr) (result : Resolved) (attempted : Bool)
    → IsProperResult result
    → ((attempted ≡ true) ⊎ ((is_ip destination ≡ true) × (is_found result ≡ true)))
    → PicksIp result (pick_dial_addr destination result attempted)
unfolding pick_dial_addr PicksIp
picked destination result attempted v h =
    if_elim (PicksIp result) (not (length result.ipv4 == 0)) _ _
      (λ e. (netip-IsProper result.ipv4 destination.port v.proper4 (ground arith), found4 result e))
      (λ e.
        if_elim (PicksIp result) (not (length result.ipv6 == 0)) _ _
          (λ d.
            (netip-IsProper result.ipv6 destination.port v.proper6 (ground arith), found6 result d))
          (λ d. if_elim (PicksIp result) attempted _ _ (λ c. tt) (λ c. ground arith)))

dial_case-IsSafe :
    (ob : Outbound) (destination : Socksaddr) (result : Resolved) (o : Option Socksaddr)
    → PicksIp result o
    → IsSafe [] destination result (dial_case true ob destination result o)
unfolding PicksIp reaches_private
dial_case-IsSafe ob destination result none h =
    if_elim (IsSafe [] destination result) (not (remote_resolve ob) || true) _ _ (λ e. tt)
      (λ e. absurd (false≢true (sym (or_false (not (remote_resolve ob)) true e).1)))
dial_case-IsSafe ob destination result (some addr) h =
    if_elim (IsSafe [] destination result) (reaches_private ob addr result) _ _ (λ e. tt)
      (λ e.
        if_elim (IsSafe [] destination result) (remote_resolve ob) _ _
          (λ remote.
            let both = or_false (is_private_ip result.ipv4) (is_private_ip result.ipv6) (
              sym (
                ap
                  (λ b.
                    if b
                    then is_private_ip result.ipv4 || is_private_ip result.ipv6
                    else is_ip addr && is_private_addr addr.addr)
                  remote)
              ∙ e) in
            inr (inl (remote, refl, h.1, both.0, both.1)))
          (λ local.
            let public : (is_ip addr && is_private_addr addr.addr) ≡ false =
              sym (
                ap
                  (λ b.
                    if b
                    then is_private_ip result.ipv4 || is_private_ip result.ipv6
                    else is_ip addr && is_private_addr addr.addr)
                  local)
              ∙ e in
            inr (inr (local, h.0, sym (ap (λ b. b && is_private_addr addr.addr) h.0) ∙ public))))

weaken :
    (hijack : Bytes) (destination : Socksaddr) (result : Resolved) (c : Chosen)
    → IsSafe [] destination result c
    → IsSafe hijack destination result c
weaken hijack destination result (refused x) s = tt
weaken hijack destination result (routed r) (inl (some_there, e)) = absurd (some_there refl)
weaken hijack destination result (routed r) (inr s) = inr s

by_rules-IsSafe :
    (destination : Socksaddr) (result : Resolved) (attempted : Bool) (ob : Outbound)
    (hijack : Bytes)
    → IsProperResult result
    → ((attempted ≡ true) ⊎ ((is_ip destination ≡ true) × (is_found result ≡ true)))
    → IsSafe hijack destination result (by_rules true destination result attempted (ob, hijack))
unfolding by_rules dial
by_rules-IsSafe destination result attempted ob hijack v h =
    if_elim (IsSafe hijack destination result) (is_reject ob) _ _ (λ e. tt)
      (λ e.
        if_elim (IsSafe hijack destination result) (not (length hijack == 0)) _ _
          (λ d. inl (
            λ none_there. false≢true (ap (λ (x : Bytes). not (length x == 0)) (sym none_there) ∙ d),
            refl,
          ))
          (λ d. weaken hijack destination result _ (
            dial_case-IsSafe ob destination result (pick_dial_addr destination result attempted)
              (picked destination result attempted v h))))

sort_ip-IsProper :
    (ip : Bytes) (r : Resolved)
    → IsProper ip
    → IsProperResult r
    → IsProperResult (sort_ip (to4 ip) ip r)
unfolding to4
sort_ip-IsProper ip r h v = ground (arith, length-drop 12 ip)

first-IsProper :
    (ips : List Bytes) (r : Resolved)
    → All IsProper ips
    → IsProperResult r
    → IsProperResult (first_of_each ips r)
unfolding first_of_each
first-IsProper [] r h v = v
first-IsProper (ip ∷ ips) r h v =
    first-IsProper ips (sort_ip (to4 ip) ip r) h.1 (sort_ip-IsProper ip r h.0 v)

unresolved-IsProper : (failed : Bool) → IsProperResult (record unresolved { failed = failed })
unresolved-IsProper failed = record { proper4 = inl refl; proper6 = inl refl }

system-IsProper :
    (lookup_ip : Bytes → Option (List Bytes)) (host : Bytes) (o : Option (List Bytes))
    → lookup_ip host ≡ o
    → ((ips : List Bytes) → o ≡ some ips → All IsProper ips)
    → IsProperResult (system_resolve lookup_ip host)
unfolding system_resolve
system-IsProper lookup_ip host none e h = rw (e, system_resolve) (unresolved-IsProper true)
system-IsProper lookup_ip host (some ips) e h =
    rw (e, system_resolve) (first-IsProper ips unresolved (h ips refl) (unresolved-IsProper false))

-- What hostInfo answers: proper addresses, and an attempt unless the destination is an address.
abbrev IsInfo : Socksaddr → Bytes × Resolved × Bool → Type 0
IsInfo destination info =
    IsProperResult info.1
    × ((info.2 ≡ true) ⊎ ((is_ip destination ≡ true) × (is_found info.1 ≡ true)))

literal-IsInfo :
    (name : Bytes) (d : Socksaddr)
    → (length d.addr ≡ 4) ⊎ (length d.addr ≡ 16)
    → IsInfo d (literal_info name d.addr)
literal-IsInfo name d h =
    if_elim (IsInfo d) (length d.addr == 4) _ _
      (λ e. (record { proper4 = inr h; proper6 = inl refl }, inr (ground arith, ground arith)))
      (λ e. (record { proper4 = inl refl; proper6 = inr h }, inr (ground arith, ground arith)))

resolve-IsInfo :
    (net : Net) (p : OutboundPolicy) (d : Socksaddr) (o : Option (Bytes → Resolved))
    → p.resolver ≡ o
    → Answers net p
    → IsInfo d (resolve_by net d.fqdn true o)
resolve-IsInfo net p d (some resolve) e v = (v.resolver_answers resolve e d.fqdn, inl refl)
resolve-IsInfo net p d none e v = (
  system-IsProper net.lookup_ip d.fqdn (net.lookup_ip d.fqdn) refl (v.system_answers d.fqdn),
  inl refl,
)

or_true : (a b : Bool) → b ≡ true → (a || b) ≡ true
or_true a b h = ground arith

host_info-IsInfo :
    (net : Net) (p : OutboundPolicy) (d : Socksaddr)
    → p.block_private ≡ true
    → Answers net p
    → IsDestination d
    → IsInfo d (host_info net p d)
unfolding host_info
host_info-IsInfo net p d block v h =
    if_elim (IsInfo d) (not d.is_fqdn) _ _
      (λ e. literal-IsInfo (net.show_ip d.addr) d (ground arith))
      (λ e.
        subst (λ b. IsInfo d (resolve_by net d.fqdn b p.resolver))
          (sym (or_true (has_rules p.acl) p.block_private block))
          (resolve-IsInfo net p d p.resolver refl v))

module _ {κ} {S : Type κ} (cache : Lru CacheKey (Decision Outbound) S) (names : Names) where
  -- The hijack address that the rules answer, none without rules.
  abbrev pub hijack_by : Option Engine → Bytes × Resolved × Bool → Socksaddr → Protocol → S → Bytes
  hijack_by none info d proto s = []
  hijack_by (some e) (host, result, attempted) d proto s =
      (look_up cache names e.rules e.default_outbound
        (record { name = host; ipv4 = result.ipv4; ipv6 = result.ipv6 }) proto d.port s).1.1

  with_info-IsSafe :
      (p : OutboundPolicy) (d : Socksaddr) (proto : Protocol) (o : Option Engine)
      (info : Bytes × Resolved × Bool) (s : S)
      → p.block_private ≡ true
      → IsInfo d info
      → IsSafe (hijack_by o info d proto s) d info.1 (with_info cache names p d proto o info s).1
  with_info-IsSafe p d proto none (host, result, attempted) s block v =
      unfold dial in
      subst
        (λ b.
          IsSafe [] d result (dial_case b p.fallback d result (pick_dial_addr d result attempted)))
        (sym block)
        (dial_case-IsSafe p.fallback d result (pick_dial_addr d result attempted)
          (picked d result attempted v.0 v.1))
  with_info-IsSafe p d proto (some e) (host, result, attempted) s block v =
      let r =
        look_up cache names e.rules e.default_outbound
          (record { name = host; ipv4 = result.ipv4; ipv6 = result.ipv6 }) proto d.port s in
      subst (λ b. IsSafe r.1.1 d result (by_rules b d result attempted r.1)) (sym block)
        (by_rules-IsSafe d result attempted r.1.0 r.1.1 v.0 v.1)

  -- With the private filter on, and resolvers that answer IPv4 and IPv6 addresses, a destination
  -- that is a name to resolve or an address is refused, or goes to the hijack address of a rule, or
  -- goes unchanged to a proxy that resolves names itself, after an address of it was found here and
  -- neither the first IPv4 nor the first IPv6 address found is private, or goes to an address that is not private; whatever the rules and their cache are.
  pub select_route-IsSafe :
      (net : Net) (p : OutboundPolicy) (d : Socksaddr) (proto : Protocol) (s : S)
      → p.block_private ≡ true
      → Answers net p
      → IsDestination d
      → IsSafe
          (hijack_by p.acl (host_info net p d) d proto s)
          d
          (host_info net p d).1
          (select_route cache names net p d proto s).1
  unfolding select_route
  select_route-IsSafe net p d proto s block v h =
      with_info-IsSafe p d proto p.acl (host_info net p d) s block
        (host_info-IsInfo net p d block v h)
