-- ===== src/Acl/Cached.antt =====
-- Match with its cache answers as the rules do.
use anytls_go.Common.{
  ℕ, Bytes, List, [], ◌∷◌, ◌++◌, Option, none, some, ◌≡◌, refl, sym, ap, ◌∙◌, subst, inl, inr,
  append_assoc, map,
}
use anytls_go.Text.Lines.{Lacks}
use anytls_go.Lru.{Lru}
use anytls_go.Acl.Host.{HostInfo}
use anytls_go.Acl.Rules.{
  Protocol, Rule, CacheKey, Decision, Names, first_match, normalize, host_string, cache_key,
  remember, match, or_default, look_up,
}

no_separator : (sep : ℕ) (a b : Bytes) → Lacks sep (a ++ (sep ∷ b)) → Type 0 → ⊥
no_separator sep [] b h t = h.0 refl
no_separator sep (c ∷ a) b h t = no_separator sep a b h.1 t

-- The text behind the last separator is determined.
last_apart :
    (sep : ℕ) (a a' b b' : Bytes)
    → Lacks sep b
    → Lacks sep b'
    → a ++ (sep ∷ b) ≡ a' ++ (sep ∷ b')
    → (a ≡ a') × (b ≡ b')
last_apart sep [] [] b b' h h' e = (refl, cc)
last_apart sep [] (c ∷ a') b b' h h' e =
    let tails : b ≡ a' ++ (sep ∷ b') = cc in
    absurd (no_separator sep a' b' (subst (Lacks sep) tails h) ℕ)
last_apart sep (c ∷ a) [] b b' h h' e =
    let tails : b' ≡ a ++ (sep ∷ b) = cc in
    absurd (no_separator sep a b (subst (Lacks sep) tails h') ℕ)
last_apart sep (c ∷ a) (d ∷ a') b b' h h' e =
    let heads : c ≡ d = cc in
    let tails : a ++ (sep ∷ b) ≡ a' ++ (sep ∷ b') = cc in
    let (front, back) = last_apart sep a a' b b' h h' tails in
    (ap (λ x. x ∷ a) heads ∙ ap (λ x. d ∷ x) front, back)

-- An address prints without '|'.
abbrev pub PrintsPlain : Names → Type 0
PrintsPlain names = (ip : Bytes) → Lacks b'|' (names.show_ip ip)

-- Addresses that print alike are alike to the rules.
abbrev pub TreatsAlike {ℓ} : {O : Type ℓ} → Names → List (Rule O) → Type ℓ
TreatsAlike names rules =
    (name : List ℕ) (a a' b b' : Bytes) (proto : Protocol) (port : ℕ)
    → names.show_ip a ≡ names.show_ip a'
    → names.show_ip b ≡ names.show_ip b'
    → first_match names rules (record { name = name; ipv4 = a; ipv6 = b }) proto port
      ≡ first_match names rules (record { name = name; ipv4 = a'; ipv6 = b' }) proto port

shows_apart :
    (names : Names) (h h' : HostInfo)
    → PrintsPlain names
    → host_string names h ≡ host_string names h'
    → (h.name ≡ h'.name)
      × (names.show_ip h.ipv4 ≡ names.show_ip h'.ipv4)
      × (names.show_ip h.ipv6 ≡ names.show_ip h'.ipv6)
unfolding host_string
shows_apart names h h' plain e =
    let (front, v6) =
      last_apart b'|' (h.name ++ (b'|' ∷ names.show_ip h.ipv4))
        (h'.name ++ (b'|' ∷ names.show_ip h'.ipv4)) (names.show_ip h.ipv6) (names.show_ip h'.ipv6)
        (plain h.ipv6) (plain h'.ipv6)
        (append_assoc h.name (b'|' ∷ names.show_ip h.ipv4) (b'|' ∷ names.show_ip h.ipv6)
          ∙ e
          ∙ sym (
              append_assoc h'.name (b'|' ∷ names.show_ip h'.ipv4)
                (b'|' ∷ names.show_ip h'.ipv6))) in
    let (name, v4) =
      last_apart b'|' h.name h'.name (names.show_ip h.ipv4) (names.show_ip h'.ipv4) (plain h.ipv4)
        (plain h'.ipv4) front in
    (name, v4, v6)

-- Requests with the same cache key have the same answer.
same_key {ℓ} :
    {O : Type ℓ} (names : Names) (rules : List (Rule O)) (h h' : HostInfo) (proto proto' : Protocol)
    (port port' : ℕ)
    → PrintsPlain names
    → TreatsAlike names rules
    → cache_key names h proto port ≡ cache_key names h' proto' port'
    → first_match names rules h proto port ≡ first_match names rules h' proto' port'
unfolding cache_key
same_key names rules h h' proto proto' port port' plain alike e =
    let (name, v4, v6) = shows_apart names h h' plain (ap (λ k. k.host) e) in
    alike h.name h.ipv4 h'.ipv4 h.ipv6 h'.ipv6 proto port v4 v6
    ∙ ap
        (λ n.
          first_match names rules (record { name = n; ipv4 = h'.ipv4; ipv6 = h'.ipv6 }) proto port)
        name
    ∙ ap (λ p. first_match names rules h' p port) (ap (λ k. k.proto) e)
    ∙ ap (λ p. first_match names rules h' proto' p) (ap (λ k. k.port) e)

module _ {ℓ κ} {O : Type ℓ} {S : Type κ} (cache : Lru CacheKey (Decision O) S) (names : Names)
    (rules : List (Rule O)) (plain : PrintsPlain names) (alike : TreatsAlike names rules) where
  -- What the cache holds is what the rules say.
  abbrev pub IsCurrent : S → Type ℓ
  IsCurrent s =
      (h : HostInfo) (proto : Protocol) (port : ℕ) (d : Decision O)
      → cache.holds (cache_key names h proto port) s ≡ some d
      → d ≡ first_match names rules h proto port

  abbrev pub normal : HostInfo → HostInfo
  normal host = record host { name = normalize host.name }

  remember-IsCurrent :
      (h : HostInfo) (proto : Protocol) (port : ℕ) (s : S) (o : Option (Decision O))
      → IsCurrent s
      → ((d : Decision O) → o ≡ some d → d ≡ first_match names rules h proto port)
      → let r =
          remember cache
            (cache_key names h proto port)
            (first_match names rules h proto port)
            (s, o) in
        (r.1 ≡ first_match names rules h proto port) × IsCurrent r.0
  remember-IsCurrent h proto port s (some d) c hit = (hit d refl, c)
  remember-IsCurrent h proto port s none c hit = (
    refl,
    λ h' proto' port' d e.
        elim (cache.add_holds (cache_key names h proto port) (cache_key names h' proto' port') _ d s
          e) [
            | inl (key, value) ↦
                value ∙ same_key names rules h h' proto proto' port port' plain alike (sym key)
            | inr old ↦ c h' proto' port' d old
          ],
  )

  match-first :
      (host : HostInfo) (proto : Protocol) (port : ℕ) (s : S)
      → IsCurrent s
      → let r = match cache names rules host proto port s in
        (r.1 ≡ first_match names rules (normal host) proto port) × IsCurrent r.0
  unfolding match
  match-first host proto port s c =
      let key = cache_key names (normal host) proto port in
      remember-IsCurrent (normal host) proto port (cache.get key s).0 (cache.get key s).1
        (λ h p q d e. c h p q d (cache.get_keeps key (cache_key names h p q) s d e))
        (λ d e. c (normal host) proto port d (cache.get_holds key s d e))

  -- Requests answered one after the other with one cache.
  abbrev pub Request : Type 0
  Request = HostInfo × Protocol × ℕ

  unfoldable pub answers : O → List Request → S → List (O × Bytes)
  answers d [] s = []
  answers d ((host, proto, port) ∷ more) s =
      let r = look_up cache names rules d host proto port s in r.1 ∷ answers d more r.0

  -- The decision without a cache.
  abbrev pub choose : O → Decision O → O × Bytes
  choose d (some answer) = answer
  choose d none = (d, [])

  unfoldable pub decide : O → Request → O × Bytes
  decide d (host, proto, port) = choose d (first_match names rules (normal host) proto port)

  or_default-choose : (d : O) (r : S × Decision O) → or_default cache d r ≡ (r.0, choose d r.1)
  or_default-choose d (s, some answer) = refl
  or_default-choose d (s, none) = refl

  answers-decide :
      (d : O) (requests : List Request) (s : S)
      → IsCurrent s
      → answers d requests s ≡ map (decide d) requests
  unfolding answers decide look_up
  answers-decide d [] s c = refl
  answers-decide d ((host, proto, port) ∷ more) s c =
      let r = match cache names rules host proto port s in
      let (same, next) = match-first host proto port s c in
      let split = or_default-choose d r in
      ap (λ x. x.1 ∷ answers d more x.0) split
      ∙ ap (λ x. choose d x ∷ answers d more r.0) same
      ∙ ap (λ x. choose d (first_match names rules (normal host) proto port) ∷ x)
          (answers-decide d more r.0 next)

  -- If an address prints without '|', and addresses that print alike are alike to the rules, then
  -- any sequence of look-ups from a fresh cache, whatever it evicts, gives for each request the
  -- outbound and hijack address of the first rule that matches, or the default outbound.
  pub answers-fresh :
      (d : O) (requests : List Request) → answers d requests cache.fresh ≡ map (decide d) requests
  answers-fresh d requests = answers-decide d requests cache.fresh (λ h proto port x e.
      let gone : none ≡ some x = sym (cache.fresh_holds (cache_key names h proto port)) ∙ e in cc)
