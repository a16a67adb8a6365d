-- ===== src/Stats/Ids.antt =====
-- No two devices with a session have the same connection id.
use anytls_go.Common.{
  ℕ, ◌+◌, ◌-◌, ◌≡◌, refl, sym, ap, ◌∙◌, subst, Bytes, List, [], ◌∷◌, Option, none, some, true,
  false, ◌||◌, leb, if◌then◌else◌, if_elim, Bool-cases, inl, inr, ==_iff, arith,
}
use mathlib.Core.Bool.{false≢true}
use anytls_go.Common.Maps.{lookup, insert, delete, lookup-insert, lookup-delete}
use anytls_go.Devices.{
  DeviceKey, device_key, same_device, same_iff, Entry, one_more, acquire, one_less, release, key_of,
}
use anytls_go.Stats.{
  Conn, Registry, new_registry, in_use, fresh_conn_id, acquire_known, acquire_conn, release_conn,
}

abbrev pub Devices : Type 0
Devices = List (DeviceKey × Entry Conn)

-- The id of a device's connection determines the device.
abbrev pub IsApart : Devices → Type 0
IsApart m =
    (k j : DeviceKey) (e d : Entry Conn)
    → lookup k m ≡ some e
    → lookup j m ≡ some d
    → e.shared.id ≡ d.shared.id
    → k ≡ j

-- Only k may have the id.
abbrev Owns : DeviceKey → ℕ → Devices → Type 0
Owns k n m = (j : DeviceKey) (d : Entry Conn) → lookup j m ≡ some d → d.shared.id ≡ n → j ≡ k

inserted :
    (k j : DeviceKey) (e d : Entry Conn) (m : Devices)
    → same_device k j ≡ true
    → lookup j (insert k e m) ≡ some d
    → (j ≡ k) × (d ≡ e)
inserted k j e d m hit h =
    let same : some e ≡ some d =
      sym (ap (λ b. if b then some e else lookup j m) hit) ∙ sym (lookup-insert k j e m) ∙ h in
    (sym ((same_iff k j).0 hit), cc)

before :
    (k j : DeviceKey) (e d : Entry Conn) (m : Devices)
    → same_device k j ≡ false
    → lookup j (insert k e m) ≡ some d
    → lookup j m ≡ some d
before k j e d m miss h =
    sym (ap (λ b. if b then some e else lookup j m) miss) ∙ sym (lookup-insert k j e m) ∙ h

insert-IsApart :
    (k : DeviceKey) (e : Entry Conn) (m : Devices)
    → Owns k e.shared.id m
    → IsApart m
    → IsApart (insert k e m)
insert-IsApart k e m own v i j a b h g same = elim (Bool-cases (same_device k i)) [
  | inl p ↦
      let (at, value) = inserted k i e a m p h in
      elim (Bool-cases (same_device k j)) [
        | inl q ↦ at ∙ sym (inserted k j e b m q g).0
        | inr q ↦
            at
            ∙ sym (
                own j b (before k j e b m q g)
                  (sym same ∙ ap (λ (x : Entry Conn). x.shared.id) value))
      ]
  | inr p ↦ elim (Bool-cases (same_device k j)) [
    | inl q ↦
        let (at, value) = inserted k j e b m q g in
        own i a (before k i e a m p h) (same ∙ ap (λ (x : Entry Conn). x.shared.id) value) ∙ sym at
    | inr q ↦ v i j a b (before k i e a m p h) (before k j e b m q g) same
  ]
]

kept :
    (k j : DeviceKey) (d : Entry Conn) (m : Devices)
    → lookup j (delete k m) ≡ some d
    → lookup j m ≡ some d
kept k j d m h = elim (Bool-cases (same_device k j)) [
  | inl p ↦
      let gone : none ≡ some d =
        sym (ap (λ b. if b then none else lookup j m) p) ∙ sym (lookup-delete k j m) ∙ h in
      cc
  | inr p ↦ sym (ap (λ b. if b then none else lookup j m) p) ∙ sym (lookup-delete k j m) ∙ h
]

known_Owns :
    (k : DeviceKey) (e : Entry Conn) (m : Devices)
    → lookup k m ≡ some e
    → IsApart m
    → Owns k e.shared.id m
known_Owns k e m found v j d h same = v j k d e h found same

unused_Owns : (k : DeviceKey) (n : ℕ) (m : Devices) → in_use n m ≡ false → Owns k n m
unfolding in_use lookup
unused_Owns k n [] u j d h same = cc
unused_Owns k n ((i, e) ∷ m) u j d h same = elim (Bool-cases (same_device i j)) [
  | inl p ↦
      let value : some e ≡ some d = sym (ap (λ b. if b then some e else lookup j m) p) ∙ h in
      let is : e ≡ d = cc in
      absurd (
        false≢true (
          sym u
          ∙ ap (λ b. b || in_use n m)
              ((==_iff e.shared.id n).1 (ap (λ (x : Entry Conn). x.shared.id) is ∙ same))))
  | inr p ↦
      let rest : in_use n m ≡ false = ground arith in
      unused_Owns k n m rest j d (sym (ap (λ b. if b then some e else lookup j m) p) ∙ h) same
]

fresh_unused :
    (ns : List ℕ) (m : Devices) (n : ℕ) → fresh_conn_id ns m ≡ some n → in_use n m ≡ false
unfolding fresh_conn_id
fresh_unused [] m n h = cc
fresh_unused (x ∷ ns) m n h = elim (Bool-cases (in_use x m)) [
  | inl p ↦ fresh_unused ns m n (sym (ap (λ b. if b then fresh_conn_id ns m else some x) p) ∙ h)
  | inr p ↦
      let value : some x ≡ some n =
        sym (ap (λ b. if b then fresh_conn_id ns m else some x) p) ∙ h in
      let is : x ≡ n = cc in subst (λ y. in_use y m ≡ false) is p
]

one_less-IsApart :
    (k : DeviceKey) (m : Devices) (o : Option (Entry Conn))
    → lookup k m ≡ o
    → IsApart m
    → IsApart (one_less k o m)
one_less-IsApart k m none found v = v
one_less-IsApart k m (some e) found v =
    if_elim {A = Devices} IsApart (leb e.refs 1) _ _
      (λ last i j a b h g. v i j a b (kept k i a m h) (kept k j b m g))
      (λ more. insert-IsApart k (record e { refs = e.refs - 1 }) m (known_Owns k e m found v) v)

-- Where there is a registry.
abbrev ApartAfter : Option (Registry × Entry Conn) → Type 0
ApartAfter none = Unit {0}
ApartAfter (some (r, e)) = IsApart r.devices

acquire_known-IsApart :
    (k : DeviceKey) (o : Option (Entry Conn)) (n : Option ℕ) (r : Registry)
    → lookup k r.devices ≡ o
    → ((i : ℕ) → n ≡ some i → in_use i r.devices ≡ false)
    → IsApart r.devices
    → ApartAfter (acquire_known k o n r)
unfolding acquire
acquire_known-IsApart k (some e) n r found u v =
    subst (λ o. IsApart (insert k (one_more e.shared o) r.devices)) (sym found)
      (insert-IsApart k (record e { refs = e.refs + 1 }) r.devices
        (known_Owns k e r.devices found v) v)
acquire_known-IsApart k none none r found u v = tt
acquire_known-IsApart k none (some n) r found u v =
    subst (λ o. IsApart (insert k (one_more (record { id = n; stream_seq = 0 }) o) r.devices))
      (sym found)
      (insert-IsApart k (record { refs = 1; shared = record { id = n; stream_seq = 0 } }) r.devices
        (unused_Owns k n r.devices (u n refl)) v)

-- Sessions that come, each with the random numbers that it may draw, and go; one that draws no free
-- number leaves the registry as it is.
pub data Visit : Type 0 where
  arrives : List ℕ → Bytes → Bytes → Visit
  departs : DeviceKey → Visit

abbrev pub or_same : Registry → Option (Registry × Entry Conn) → Registry
or_same r none = r
or_same r (some (r', e)) = r'

unfoldable pub visit : Visit → Registry → Registry
unfolding acquire_conn release_conn
visit (arrives draws auth_id remote) r = or_same r (acquire_conn draws auth_id remote r)
visit (departs k) r = release_conn k r

unfoldable pub visits : List Visit → Registry → Registry
unfolding visit
visits [] r = r
visits (x ∷ xs) r = visits xs (visit x r)

or_same-IsApart :
    (r : Registry) (o : Option (Registry × Entry Conn))
    → ApartAfter o
    → IsApart r.devices
    → IsApart (or_same r o).devices
or_same-IsApart r none a v = v
or_same-IsApart r (some (r', e)) a v = a

visit-IsApart : (x : Visit) (r : Registry) → IsApart r.devices → IsApart (visit x r).devices
unfolding visit acquire_conn release_conn release
visit-IsApart (arrives draws auth_id remote) r v =
    let k = key_of auth_id remote in
    or_same-IsApart r (acquire_known k (lookup k r.devices) (fresh_conn_id draws r.devices) r)
      (acquire_known-IsApart k (lookup k r.devices) (fresh_conn_id draws r.devices) r refl
        (fresh_unused draws r.devices) v)
      v
visit-IsApart (departs k) r v = one_less-IsApart k r.devices (lookup k r.devices) refl v

visits-IsApart :
    (xs : List Visit) (r : Registry) → IsApart r.devices → IsApart (visits xs r).devices
unfolding visits
visits-IsApart [] r v = v
visits-IsApart (x ∷ xs) r v = visits-IsApart xs (visit x r) (visit-IsApart x r v)

-- However sessions come and go and whatever numbers are drawn, no two devices in the registry have
-- the same connection id.
pub visits-new_registry-IsApart : (xs : List Visit) → IsApart (visits xs new_registry).devices
visits-new_registry-IsApart xs =
    visits-IsApart xs new_registry (unfold new_registry in unfold lookup in λ k j e d h g same. cc)
