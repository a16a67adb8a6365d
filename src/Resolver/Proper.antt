-- ===== src/Resolver/Proper.antt =====
-- The families of the addresses that resolving gives.
use anytls_go.Common.{
  ℕ, zero, suc, ◌+◌, ◌<◌, Bytes, List, [], ◌∷◌, Option, none, some, Bool, true, false, not, ◌||◌,
  length, ltb, ◌==◌, if_elim, ◌≡◌, ◌⊎◌, inl, inr, refl, ap, arith, length-append, length-drop,
}
use mathlib.Core.Bool.{false≢true}
use anytls_go.Acl.Host.{v4_prefix, to4}
use anytls_go.Text.Words.{to_lower}
use anytls_go.Config.Outbounds.{in_seen}
use anytls_go.Server.Policy.{Resolved}
use anytls_go.Server.Policy.Safety.{IsProper}
use anytls_go.Resolver.{
  Qtype, type_a, type_aaaa, Rr, a, aaaa, cname, other_record, or_nil, to16, first_from,
  first_address, skip_cname_chain, Reply, answered, exchange_failed, exchange_panicked, Looked,
  address, lookup_failed, chain_too_long, lookup_panicked, max_cname_depth, Dns, with_reply,
  lookup_host, or_again, try_times, lookup_with_retry, parsed, literal, try_parse_ip, ip_of,
  is_error, both_families, resolve_case, resolve,
}

-- The length of an address that a question asks for
abbrev pub family_size : Qtype → ℕ
family_size type_a = 4
family_size type_aaaa = 16

-- No address, or one of the family
abbrev pub IsOfFamily : Qtype → Bytes → Type 0
IsOfFamily q ip = (length ip ≡ 0) ⊎ (length ip ≡ family_size q)

abbrev pub LookedIsOfFamily : Qtype → Looked → Type 0
LookedIsOfFamily q (address ip) = IsOfFamily q ip
LookedIsOfFamily q lookup_failed = Unit
LookedIsOfFamily q chain_too_long = Unit
LookedIsOfFamily q lookup_panicked = Unit

to4-Sized : (ip v4 : Bytes) → to4 ip ≡ some v4 → length v4 ≡ 4
unfolding to4
to4-Sized ip v4 h = ground (arith, length-drop 12 ip)

no_v4-IsOfFamily : (ip : Bytes) → IsProper ip → to4 ip ≡ none → IsOfFamily type_aaaa ip
unfolding to4
no_v4-IsOfFamily ip h e = ground arith

or_nil-IsOfFamily : (ip : Bytes) (o : Option Bytes) → to4 ip ≡ o → IsOfFamily type_a (or_nil o)
or_nil-IsOfFamily ip none h = inl refl
or_nil-IsOfFamily ip (some v4) h = inr (to4-Sized ip v4 h)

to16-IsOfFamily : (ip : Bytes) → IsOfFamily type_aaaa (to16 ip)
to16-IsOfFamily ip =
    if_elim (IsOfFamily type_aaaa) (length ip == 4) _ _
      (λ four.
        let size : length ip ≡ 4 = ground arith in
        inr (omega (arith, length-append v4_prefix ip, size)))
      (λ other.
        if_elim (IsOfFamily type_aaaa) (length ip == 16) _ _ (λ e. inr (ground arith))
          (λ e. inl refl))

first-IsOfFamily : (q : Qtype) (b : Bool) (rs : List Rr) → IsOfFamily q (first_from q b rs).0
unfolding first_from
first-IsOfFamily q b [] = inl refl
first-IsOfFamily type_a b (a ip ∷ rs) = or_nil-IsOfFamily ip (to4 ip) refl
first-IsOfFamily type_aaaa b (a ip ∷ rs) = first-IsOfFamily type_aaaa b rs
first-IsOfFamily type_a b (aaaa ip ∷ rs) = first-IsOfFamily type_a b rs
first-IsOfFamily type_aaaa b (aaaa ip ∷ rs) = to16-IsOfFamily ip
first-IsOfFamily q b (cname name target ∷ rs) = first-IsOfFamily q true rs
first-IsOfFamily q b (other_record ∷ rs) = first-IsOfFamily q b rs

-- A lookup that ended, with an address of its family or with an error
abbrev pub IsDone : Qtype → Option Looked → Type 0
IsDone q none = ⊥
IsDone q (some l) = LookedIsOfFamily q l

module _ (dns : Dns) where
  reply-IsDone :
      (again : Bytes → Option Looked) (q : Qtype) (r : Reply)
      → ((target : Bytes) → IsDone q (again target))
      → IsDone q (with_reply dns again q r)
  reply-IsDone again q exchange_failed f = tt
  reply-IsDone again q exchange_panicked f = tt
  reply-IsDone again q (answered rs) f =
      unfold first_address in
      if_elim (IsDone q) (length rs == 0) _ _ (λ e. inl refl)
        (λ e.
          let r = first_from q false rs in
          if_elim (IsDone q) (not (length r.0 == 0) || not r.1) _ _
            (λ found. first-IsOfFamily q false rs) (λ hop. f (skip_cname_chain rs)))

  lookup-IsDone :
      (fuel attempt : ℕ) (q : Qtype) (depth : ℕ) (seen : List Bytes) (host : Bytes)
      → 17 < fuel + depth
      → 0 < fuel
      → IsDone q (lookup_host dns fuel attempt q depth seen host)
  unfolding lookup_host
  lookup-IsDone zero attempt q depth seen host h p = absurd (omega arith)
  lookup-IsDone (suc fuel) attempt q depth seen host h p =
      let key = to_lower (dns.fqdn host) in
      if_elim (IsDone q) (ltb max_cname_depth depth) _ _ (λ deep. tt)
        (λ shallow.
          if_elim (IsDone q) (in_seen key seen) _ _ (λ again. tt)
            (λ new.
              reply-IsDone
                (λ target. lookup_host dns fuel attempt q (suc depth) (key ∷ seen) target) q
                (dns.exchange attempt depth (dns.fqdn host) q)
                (λ target.
                  lookup-IsDone fuel attempt q (suc depth) (key ∷ seen) target (omega arith)
                    (ground arith))))

  again-IsDone :
      (q : Qtype) (x y : Option Looked) → IsDone q x → IsDone q y → IsDone q (or_again dns x y)
  again-IsDone q none y hx hy = hx
  again-IsDone q (some (address ip)) y hx hy = hx
  again-IsDone q (some lookup_failed) y hx hy = hy
  again-IsDone q (some chain_too_long) y hx hy = hy
  again-IsDone q (some lookup_panicked) y hx hy = hx

  try-IsDone :
      (n attempt : ℕ) (q : Qtype) (host : Bytes) (last : Option Looked)
      → IsDone q last
      → IsDone q (try_times dns n attempt q host last)
  unfolding try_times
  try-IsDone zero attempt q host last h = h
  try-IsDone (suc n) attempt q host last h =
      let one = lookup-IsDone 18 attempt q 0 [] host (omega arith) (omega arith) in
      again-IsDone q (lookup_host dns 18 attempt q 0 [] host)
        (try_times dns n (suc attempt) q host (lookup_host dns 18 attempt q 0 [] host)) one
        (try-IsDone n (suc attempt) q host (lookup_host dns 18 attempt q 0 [] host) one)

  pub retry-IsDone : (host : Bytes) (q : Qtype) → IsDone q (lookup_with_retry dns host q)
  unfolding lookup_with_retry
  retry-IsDone host q = try-IsDone 2 0 q host (some (address [])) (inl refl)

  ip_of-IsOfFamily : (q : Qtype) (l : Looked) → LookedIsOfFamily q l → IsOfFamily q (ip_of dns l)
  ip_of-IsOfFamily q (address ip) h = h
  ip_of-IsOfFamily q lookup_failed h = inl refl
  ip_of-IsOfFamily q chain_too_long h = inl refl
  ip_of-IsOfFamily q lookup_panicked h = inl refl

  -- An answer whose addresses are of their families; an error leaves out one of them at least.
  pub record IsResult (r : Resolved) : Type 0 where
    pub family4 : IsOfFamily type_a r.ipv4
    pub family6 : IsOfFamily type_aaaa r.ipv6
    pub lacks_one : r.failed ≡ true → (r.ipv4 ≡ []) ⊎ (r.ipv6 ≡ [])

  -- A literal address is its own answer, in its family.
  abbrev pub OfLiteral : Option Bytes → Resolved → Type 0
  OfLiteral none r = Unit {0}
  OfLiteral (some ip) r =
      (r.failed ≡ false)
      × (((to4 ip ≡ some r.ipv4) × (r.ipv6 ≡ []))
          ⊎ ((to4 ip ≡ none) × (r.ipv4 ≡ []) × (r.ipv6 ≡ ip)))

  -- An answer, which is the address itself for a literal one.
  abbrev pub Resolves : Option Resolved → Option Bytes → Type 0
  Resolves o given = (r : Resolved) × (o ≡ some r) × IsResult r × OfLiteral given r

  error-empty :
      (x y : Looked)
      → (is_error dns x || is_error dns y) ≡ true
      → (ip_of dns x ≡ []) ⊎ (ip_of dns y ≡ [])
  error-empty (address ip) (address jp) h = absurd (false≢true h)
  error-empty (address ip) lookup_failed h = inr refl
  error-empty (address ip) chain_too_long h = inr refl
  error-empty (address ip) lookup_panicked h = inr refl
  error-empty lookup_failed y h = inl refl
  error-empty chain_too_long y h = inl refl
  error-empty lookup_panicked y h = inl refl

  both-Resolves :
      (x y : Option Looked)
      → IsDone type_a x
      → IsDone type_aaaa y
      → Resolves (both_families dns x y) none
  both-Resolves none y hx hy = absurd hx
  both-Resolves (some x) none hx hy = absurd hy
  both-Resolves (some x) (some y) hx hy = (
    record { ipv4 = ip_of dns x; ipv6 = ip_of dns y; failed = is_error dns x || is_error dns y },
    refl,
    record {
      family4 = ip_of-IsOfFamily type_a x hx;
      family6 = ip_of-IsOfFamily type_aaaa y hy;
      lacks_one = error-empty x y;
    },
    tt,
  )

  -- ParseIP gives an IPv4 or an IPv6 address.
  pub record ParsesIps : Type 0 where
    pub sized : (host ip : Bytes) → dns.parse_ip host ≡ some ip → IsProper ip

  parsed-Resolves :
      (ip : Bytes) (o : Option Bytes)
      → to4 ip ≡ o
      → IsProper ip
      → Resolves (parsed dns o ip) (some ip)
  parsed-Resolves ip none e h = (
    record { ipv4 = []; ipv6 = ip; failed = false },
    refl,
    record {
      family4 = inl refl;
      family6 = no_v4-IsOfFamily ip h e;
      lacks_one = λ bad. absurd (false≢true bad);
    },
    (refl, inr (e, refl, refl)),
  )
  parsed-Resolves ip (some v4) e h = (
    record { ipv4 = v4; ipv6 = []; failed = false },
    refl,
    record {
      family4 = inr (to4-Sized ip v4 e);
      family6 = inl refl;
      lacks_one = λ bad. absurd (false≢true bad);
    },
    (refl, inl (e, refl)),
  )

  literal-Resolves :
      (host : Bytes) (o : Option Bytes)
      → dns.parse_ip host ≡ o
      → ParsesIps
      → Resolves (resolve_case dns host (literal dns o)) o
  literal-Resolves host none e p =
      both-Resolves (lookup_with_retry dns host type_a) (lookup_with_retry dns host type_aaaa)
        (retry-IsDone host type_a) (retry-IsDone host type_aaaa)
  literal-Resolves host (some ip) e p =
      let (r, found, proper, good) = parsed-Resolves ip (to4 ip) refl (p.sized host ip e) in
      (r, ap (resolve_case dns host) found, proper, good)

  -- Whatever the DNS server answers, CNAMEs without an end included, resolving a host ends: it gives
  -- at most one IPv4 address, of 4 bytes, and at most one IPv6 address, of 16 bytes; a literal
  -- address is its own answer and no error, an IPv4 address in its form of 4 bytes; and an error
  -- leaves out one of the two addresses at least.
  pub resolve-Resolves :
      (host : Bytes) → ParsesIps → Resolves (resolve dns host) (dns.parse_ip host)
  unfolding resolve try_parse_ip
  resolve-Resolves host p = literal-Resolves host (dns.parse_ip host) refl p
