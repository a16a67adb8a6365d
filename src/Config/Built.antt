-- ===== src/Config/Built.antt =====
-- Outbounds that the checks accept, and the map that the server builds from them.
use anytls_go.Common.{
  ℕ, suc, Bytes, List, [], ◌∷◌, some, Option-cases, inl, inr, true, false, length, ◌=b◌, =b_refl,
  eq_of_=b, Bool-cases, if◌then◌else◌, codes, arith, ◌||◌, ◌≡◌, refl, sym, ap, ◌∙◌, subst, All,
}
use anytls_go.Common.Maps.{lookup, insert, bytes_key, lookup-insert}
use anytls_go.Text.Words.{to_lower}
use anytls_go.Outbound.{Outbound, direct, reject}
use anytls_go.Config.Bandwidth.{Checked, fine, fault, ◌>>◌}
use anytls_go.Config.Outbounds.{
  Addresses, OutboundEntry, EntryKind, direct_kind, socks5_kind, other_kind, kind, validate_kind,
  validate_outbound_name, fresh_name, in_seen, validate_from, validate_outbounds, NamedOutbound,
  made, add_named, named_from, put_all, absent, or_insert, default_of, outbound_map, mapped,
  new_outbounds,
}

-- A sequence of checks passes if each does.
pub second_passes {ℓ κ} :
    {A : Type ℓ} {B : Type κ} (m : Checked A) (k : Checked B) (b : B)
    → (m >> k) ≡ fine b
    → k ≡ fine b
second_passes (fine a) k b h = h
second_passes (fault e) k b h = absurd cc

pub first_passes {ℓ κ} :
    {A : Type ℓ} {B : Type κ} (m : Checked A) (k : Checked B) (b : B)
    → (m >> k) ≡ fine b
    → (a : A) × (m ≡ fine a)
first_passes (fine a) k b h = (a, refl)
first_passes (fault e) k b h = absurd cc

-- No name of the list is `key` in lower case.
abbrev Lacks : Bytes → List NamedOutbound → Type 0
Lacks key ns = All (λ x. (to_lower x.0 =b key) ≡ false) ns

abbrev LacksName : Bytes → List OutboundEntry → Type 0
LacksName key es = All (λ e. (to_lower e.name =b key) ≡ false) es

-- The map has each entry's own outbound under its name, numbered from n.
abbrev pub Has : List (Bytes × Outbound) → ℕ → List OutboundEntry → Type 0
Has m n [] = Unit
Has m n (e ∷ es) =
    ((o : Outbound) × (made n e (kind e) ≡ some o) × (lookup (to_lower e.name) m ≡ some o))
    × Has m (suc n) es

fresh_passes :
    (i : ℕ) (key : Bytes) (seen : List Bytes) (a : Unit {0})
    → fresh_name i key seen ≡ fine a
    → in_seen key seen ≡ false
fresh_passes i key seen a h = ground arith

seen_first : (key : Bytes) (seen : List Bytes) → in_seen key (key ∷ seen) ≡ true
unfolding in_seen
seen_first key seen = ap (λ b. b || in_seen key seen) (=b_refl key)

seen_later :
    (k key : Bytes) (seen : List Bytes) → in_seen k seen ≡ true → in_seen k (key ∷ seen) ≡ true
unfolding in_seen
seen_later k key seen h = ground arith

differs :
    (k key : Bytes) (seen : List Bytes)
    → in_seen k seen ≡ true
    → in_seen key seen ≡ false
    → (key =b k) ≡ false
differs k key seen h g = elim (Bool-cases (key =b k)) [
  | inl same ↦ let e = eq_of_=b key k same in absurd cc
  | inr other ↦ other
]

-- The checks that an accepted list passes entry by entry
passes-head :
    (net : Addresses) (i : ℕ) (seen : List Bytes) (e : OutboundEntry) (es : List OutboundEntry)
    → validate_from net i seen (e ∷ es) ≡ fine tt
    → (in_seen (to_lower e.name) seen ≡ false)
      × ((a : Unit {0}) × (validate_kind net i e (kind e) ≡ fine a))
      × (validate_from net (suc i) (to_lower e.name ∷ seen) es ≡ fine tt)
unfolding validate_from
passes-head net i seen e es h =
    let key = to_lower e.name in
    let after = validate_kind net i e (kind e) >> validate_from net (suc i) (key ∷ seen) es in
    let named =
      second_passes (validate_outbound_name i e.name) (fresh_name i key seen >> after) tt h in
    let fresh = first_passes (fresh_name i key seen) after tt named in
    let kinds = second_passes (fresh_name i key seen) after tt named in
    (
      fresh_passes i key seen fresh.0 fresh.1,
      first_passes (validate_kind net i e (kind e)) _ tt kinds,
      second_passes (validate_kind net i e (kind e)) _ tt kinds,
    )

seen-LacksName :
    (net : Addresses) (i : ℕ) (seen : List Bytes) (es : List OutboundEntry) (k : Bytes)
    → validate_from net i seen es ≡ fine tt
    → in_seen k seen ≡ true
    → LacksName k es
seen-LacksName net i seen [] k h s = tt
seen-LacksName net i seen (e ∷ es) k h s =
    let r = passes-head net i seen e es h in
    (
      differs k (to_lower e.name) seen s r.0,
      seen-LacksName net (suc i) (to_lower e.name ∷ seen) es k r.2
          (seen_later k (to_lower e.name) seen s),
    )

lookup-put_all :
    (k : Bytes) (ns : List NamedOutbound) (m : List (Bytes × Outbound))
    → Lacks k ns
    → lookup k (put_all ns m) ≡ lookup k m
unfolding put_all
lookup-put_all k [] m h = refl
lookup-put_all k ((name, o) ∷ ns) m h =
    lookup-put_all k ns (insert (to_lower name) o m) h.1
    ∙ lookup-insert (to_lower name) k o m
    ∙ ap (λ b. if b then some o else lookup k m) h.0

-- The outbounds that are made, with their names
abbrev IsNamed : ℕ → List OutboundEntry → List NamedOutbound → Type 0
IsNamed n [] ns = ns ≡ []
IsNamed n (e ∷ es) [] = ⊥
IsNamed n (e ∷ es) (x ∷ ns) =
    (x.0 ≡ e.name) × (made n e (kind e) ≡ some x.1) × IsNamed (suc n) es ns

made-passes :
    (net : Addresses) (i n : ℕ) (e : OutboundEntry) (k : EntryKind) (a : Unit {0})
    → validate_kind net i e k ≡ fine a
    → (o : Outbound) × (made n e k ≡ some o)
made-passes net i n e direct_kind a h = (direct n, refl)
made-passes net i n e socks5_kind a h = (Outbound.socks5 n e.socks5, refl)
made-passes net i n e other_kind a h = absurd cc

passes-IsNamed :
    (net : Addresses) (i n : ℕ) (seen : List Bytes) (es : List OutboundEntry)
    → validate_from net i seen es ≡ fine tt
    → (ns : List NamedOutbound) × (named_from n es ≡ some ns) × IsNamed n es ns
unfolding named_from
passes-IsNamed net i n seen [] h = ([], refl, refl)
passes-IsNamed net i n seen (e ∷ es) h =
    let r = passes-head net i seen e es h in
    let (ns, built, valid) = passes-IsNamed net (suc i) (suc n) (to_lower e.name ∷ seen) es r.2 in
    let (o, here) = made-passes net i n e (kind e) r.1.0 r.1.1 in
    (
      (e.name, o) ∷ ns,
      ap (λ x. add_named e.name x (named_from (suc n) es)) here
          ∙ ap (add_named e.name (some o)) built,
      (refl, here, valid),
    )

LacksName-Lacks :
    (k : Bytes) (n : ℕ) (es : List OutboundEntry) (ns : List NamedOutbound)
    → IsNamed n es ns
    → LacksName k es
    → Lacks k ns
LacksName-Lacks k n [] ns v h = subst (Lacks k) (sym v) tt
LacksName-Lacks k n (e ∷ es) [] v h = absurd v
LacksName-Lacks k n (e ∷ es) (x ∷ ns) v h =
    (ap (λ s. to_lower s =b k) v.0 ∙ h.0, LacksName-Lacks k (suc n) es ns v.2 h.1)

-- A map that keeps what another one has
abbrev Keeps : List (Bytes × Outbound) → List (Bytes × Outbound) → Type 0
Keeps m m' = (k : Bytes) (o : Outbound) → lookup k m ≡ some o → lookup k m' ≡ some o

Has-Keeps :
    (m m' : List (Bytes × Outbound)) (n : ℕ) (es : List OutboundEntry)
    → Keeps m m'
    → Has m n es
    → Has m' n es
Has-Keeps m m' n [] f h = tt
Has-Keeps m m' n (e ∷ es) f ((o, here, there), rest) =
    ((o, here, f (to_lower e.name) o there), Has-Keeps m m' (suc n) es f rest)

put_all-Has :
    (net : Addresses) (i n : ℕ) (seen : List Bytes) (es : List OutboundEntry)
    (ns : List NamedOutbound) (m : List (Bytes × Outbound))
    → validate_from net i seen es ≡ fine tt
    → IsNamed n es ns
    → Has (put_all ns m) n es
unfolding put_all
put_all-Has net i n seen [] ns m h v = tt
put_all-Has net i n seen (e ∷ es) [] m h v = absurd v
put_all-Has net i n seen (e ∷ es) ((name, o) ∷ ns) m h v =
    let r = passes-head net i seen e es h in
    let key = to_lower e.name in
    let lacks =
      LacksName-Lacks key (suc n) es ns v.2
        (seen-LacksName net (suc i) (key ∷ seen) es key r.2 (seen_first key seen)) in
    (
      (
        o,
        v.1,
        lookup-put_all key ns (insert (to_lower name) o m) lacks
            ∙ ap (λ s. lookup key (insert (to_lower s) o m)) v.0
            ∙ lookup-insert key key o m
            ∙ ap (λ b. if b then some o else lookup key m) (=b_refl key),
      ),
      put_all-Has net (suc i) (suc n) (key ∷ seen) es ns (insert (to_lower name) o m) r.2 v.2,
    )

-- The built-ins
or_insert-Keeps :
    (name : Bytes) (o : Outbound) (m : List (Bytes × Outbound)) → Keeps m (or_insert name o m)
unfolding or_insert
or_insert-Keeps name o m k p h = elim (Bool-cases (absent (lookup name m))) [
  | inl gone ↦
      ap (λ b. lookup k (if b then insert name o m else m)) gone
      ∙ lookup-insert name k o m
      ∙ elim (Bool-cases (name =b k)) [
        | inl same ↦
            let e = eq_of_=b name k same in
            let found : lookup name m ≡ some p = ap (λ x. lookup x m) e ∙ h in
            let no_way : absent (some p) ≡ true = sym (ap absent found) ∙ gone in absurd cc
        | inr other ↦ ap (λ b. if b then some o else lookup k m) other ∙ h
      ]
  | inr there ↦ ap (λ b. lookup k (if b then insert name o m else m)) there ∙ h
]

or_insert_finds :
    (name : Bytes) (o : Outbound) (m : List (Bytes × Outbound))
    → (p : Outbound) × (lookup name (or_insert name o m) ≡ some p)
or_insert_finds name o m = elim (Option-cases (lookup name m)) [
  | inl gone ↦ (
    o,
    unfold or_insert in
        ap (λ x. lookup name (if absent x then insert name o m else m)) gone
        ∙ lookup-insert name name o m
        ∙ ap (λ b. if b then some o else lookup name m) (=b_refl name),
  )
  | inr (p, there) ↦ (p, or_insert-Keeps name o m name p there)
]

-- A configured list and its map: a name of an entry leads to that entry's outbound, and the names of
-- the built-ins lead to some outbound.
pub record IsBuilt (es : List OutboundEntry) : Type 0 where
  pub outbounds : List (Bytes × Outbound)
  pub built : new_outbounds es ≡ some outbounds
  pub own : Has outbounds 0 es
  pub direct_there : (o : Outbound) × (lookup (codes "direct") outbounds ≡ some o)
  pub reject_there : (o : Outbound) × (lookup (codes "reject") outbounds ≡ some o)
  pub default_there : (o : Outbound) × (lookup (codes "default") outbounds ≡ some o)

-- If the checks accept the configured outbounds, the server builds its map of outbounds without an
-- error: the name of each entry, in lower case, leads to the outbound made from that very entry, and
-- direct, reject and default lead to some outbound.
pub new_outbounds-IsBuilt :
    (net : Addresses) (es : List OutboundEntry) → validate_outbounds net es ≡ fine tt → IsBuilt es
unfolding new_outbounds outbound_map validate_outbounds
new_outbounds-IsBuilt net es h =
    let (ns, made_all, valid) = passes-IsNamed net 0 0 [] es h in
    let d = direct (length es) in
    let m0 = put_all ns [] in
    let m1 = or_insert (codes "direct") d m0 in
    let m2 = or_insert (codes "reject") reject m1 in
    let f = default_of ns d m2 in
    let keeps1 = or_insert-Keeps (codes "direct") d m0 in
    let keeps2 = or_insert-Keeps (codes "reject") reject m1 in
    let keeps3 = or_insert-Keeps (codes "default") f m2 in
    let found_direct = or_insert_finds (codes "direct") d m0 in
    let found_reject = or_insert_finds (codes "reject") reject m1 in
    record {
      outbounds = or_insert (codes "default") f m2;
      built = ap (λ o. mapped o (length es)) made_all;
      own = Has-Keeps m2 (or_insert (codes "default") f m2) 0 es keeps3 (
          Has-Keeps m1 m2 0 es keeps2
            (Has-Keeps m0 m1 0 es keeps1 (put_all-Has net 0 0 [] es ns [] h valid)));
      direct_there = (found_direct.0, keeps3 _ _ (keeps2 _ _ found_direct.1));
      reject_there = (found_reject.0, keeps3 _ _ found_reject.1);
      default_there = or_insert_finds (codes "default") f m2;
    }
