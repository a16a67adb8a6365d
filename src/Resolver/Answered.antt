-- ===== src/Resolver/Answered.antt =====
-- An answer of the DNS server to the first question for a family.
use anytls_go.Common.{
  Bytes, List, [], ◌∷◌, Option, none, some, false, not, ◌||◌, length, ◌==◌, if◌then◌else◌, ◌≡◌,
  refl, sym, ap, ◌∙◌, subst, arith,
}
use mathlib.Core.Bool.{false≢true}
use anytls_go.Text.Words.{to_lower}
use anytls_go.Config.Outbounds.{in_seen}
use anytls_go.Server.Policy.{Resolved}
use anytls_go.Resolver.{
  Qtype, type_a, type_aaaa, Rr, first_from, first_address, skip_cname_chain, answered, Looked,
  address, Dns, with_reply, next_hop, lookup_host, or_again, try_times, lookup_with_retry, literal,
  try_parse_ip, ip_of, is_error, both_families, resolve_case, resolve,
}
use anytls_go.Resolver.Proper.{IsDone, retry-IsDone}

-- The address of a family
abbrev pub family_of : Qtype → Resolved → Bytes
family_of type_a r = r.ipv4
family_of type_aaaa r = r.ipv6

module _ (dns : Dns) where
  reply_found :
      (again : Bytes → Option Looked) (q : Qtype) (rs : List Rr)
      → (length (first_address rs q).0 == 0) ≡ false
      → with_reply dns again q (answered rs) ≡ some (address (first_address rs q).0)
  unfolding first_address first_from
  reply_found again q [] h = absurd (false≢true (sym h))
  reply_found again q (x ∷ rs) h =
      let some_record : (length (x ∷ rs) == 0) ≡ false = ground arith in
      ap
        (λ b.
          if b then some (address []) else next_hop dns again (x ∷ rs) (first_address (x ∷ rs) q))
        some_record
      ∙ ap
          (λ b.
            if not b || not (first_from q false (x ∷ rs)).1
            then some (address (first_from q false (x ∷ rs)).0)
            else again (skip_cname_chain (x ∷ rs)))
          h

  retry_found :
      (q : Qtype) (host : Bytes) (rs : List Rr)
      → dns.exchange 0 0 (dns.fqdn host) q ≡ answered rs
      → (length (first_address rs q).0 == 0) ≡ false
      → lookup_with_retry dns host q ≡ some (address (first_address rs q).0)
  unfolding lookup_with_retry try_times lookup_host in_seen
  retry_found q host rs e h =
      ap (λ x. or_again dns x (try_times dns 1 1 q host (lookup_host dns 18 0 q 0 [] host)))
        (ap
            (λ r.
              with_reply dns
                (λ target. lookup_host dns 17 0 q 1 (to_lower (dns.fqdn host) ∷ []) target) q r)
            e
          ∙ reply_found (λ target. lookup_host dns 17 0 q 1 (to_lower (dns.fqdn host) ∷ []) target)
              q rs h)

  first_family :
      (ip : Bytes) (y : Option Looked)
      → IsDone type_aaaa y
      → (r : Resolved) × (both_families dns (some (address ip)) y ≡ some r) × (r.ipv4 ≡ ip)
  first_family ip none d = absurd d
  first_family ip (some y) d = (
    record { ipv4 = ip; ipv6 = ip_of dns y; failed = is_error dns (address ip) || is_error dns y },
    refl,
    refl,
  )

  second_family :
      (x : Option Looked) (ip : Bytes)
      → IsDone type_a x
      → (r : Resolved) × (both_families dns x (some (address ip)) ≡ some r) × (r.ipv6 ≡ ip)
  second_family none ip d = absurd d
  second_family (some x) ip d = (
    record { ipv4 = ip_of dns x; ipv6 = ip; failed = is_error dns x || is_error dns (address ip) },
    refl,
    refl,
  )

  kept :
      (q : Qtype) (host ip : Bytes)
      → lookup_with_retry dns host q ≡ some (address ip)
      → (r : Resolved) × (both_families dns
            (lookup_with_retry dns host type_a)
            (lookup_with_retry dns host type_aaaa)
          ≡ some r)
        × (family_of q r ≡ ip)
  kept type_a host ip e =
      subst
        (λ x.
          (r : Resolved) × (both_families dns x (lookup_with_retry dns host type_aaaa) ≡ some r)
          × (r.ipv4 ≡ ip))
        (sym e)
        (first_family ip (lookup_with_retry dns host type_aaaa) (retry-IsDone dns host type_aaaa))
  kept type_aaaa host ip e =
      subst
        (λ y.
          (r : Resolved) × (both_families dns (lookup_with_retry dns host type_a) y ≡ some r)
          × (r.ipv6 ≡ ip))
        (sym e)
        (second_family (lookup_with_retry dns host type_a) ip (retry-IsDone dns host type_a))

  -- If the host is not a literal address, and the server answers the first question for a family
  -- with records of which firstAddress finds an address, then resolving gives that address for the
  -- family, whatever happens to the question for the other family.
  pub resolve-answered :
      (q : Qtype) (host : Bytes) (rs : List Rr)
      → dns.parse_ip host ≡ none
      → dns.exchange 0 0 (dns.fqdn host) q ≡ answered rs
      → (length (first_address rs q).0 == 0) ≡ false
      → (r : Resolved) × (resolve dns host ≡ some r) × (family_of q r ≡ (first_address rs q).0)
  unfolding resolve try_parse_ip
  resolve-answered q host rs name e h =
      let (r, found, same) = kept q host (first_address rs q).0 (retry_found q host rs e h) in
      (r, ap (λ o. resolve_case dns host (literal dns o)) name ∙ found, same)
