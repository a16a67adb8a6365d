-- ===== src/Devices/Counting.antt =====
-- The registries count the live sessions of each device.
use anytls_go.Common.{
  ℕ, ◌+◌, ◌-◌, ◌<◌, List, [], ◌∷◌, Option, none, some, Bool, true, false, leb, if◌then◌else◌,
  if_elim, ◌≡◌, refl, sym, ap, ◌∙◌, arith, subst, Bool-cases, inl, inr, ltb, ltb→lt,
}
use mathlib.Core.Bool.{true≢false}
use anytls_go.Common.Maps.{lookup, lookup-insert, lookup-delete}
use anytls_go.Devices.{
  DeviceKey, same_device, same_iff, device_key, Entry, one_more, acquire, one_less, release,
}

-- Sessions that come, each with what it would share as the first of its device, and go.
pub data Change {ℓ} (A : Type ℓ) : Type ℓ where
  come : A → DeviceKey → Change A
  go : DeviceKey → Change A

-- The sessions that hold a device, by its key.
abbrev pub Holders : Type 0
Holders = List DeviceKey

abbrev pub counted : Bool → ℕ → ℕ
counted true n = n + 1
counted false n = n

unfoldable pub count : DeviceKey → Holders → ℕ
count k [] = 0
count k (h ∷ hs) = counted (same_device h k) (count k hs)

-- One holder of a device leaves.
unfoldable pub leave : DeviceKey → Holders → Holders
leave k [] = []
leave k (h ∷ hs) = if same_device h k then hs else h ∷ leave k hs

module _ {ℓ} {A : Type ℓ} where
  -- There is an entry exactly while somebody holds the device, and it counts the holders.
  abbrev pub Counts : Option (Entry A) → ℕ → Type 0
  Counts none n = n ≡ 0
  Counts (some e) n = (e.refs ≡ n) × (0 < n)

  abbrev pub IsCounted : List (DeviceKey × Entry A) → Holders → Type 0
  IsCounted m hs = (k : DeviceKey) → Counts (lookup k m) (count k hs)

  more-Counts :
      (a : A) (o : Option (Entry A)) (n : ℕ) → Counts o n → Counts (some (one_more a o)) (n + 1)
  more-Counts a none n h = (omega arith, omega arith)
  more-Counts a (some e) n h = (ap (λ x. x + 1) h.0, omega arith)

  pub acquire-IsCounted :
      (a : A) (k : DeviceKey) (m : List (DeviceKey × Entry A)) (hs : Holders)
      → IsCounted m hs
      → IsCounted (acquire a k m).0 (k ∷ hs)
  unfolding acquire count
  acquire-IsCounted a k m hs v j =
      subst (λ o. Counts o (counted (same_device k j) (count j hs)))
        (sym (lookup-insert k j (one_more a (lookup k m)) m))
        (elim (Bool-cases (same_device k j)) [
          | inl e ↦
              let same = (same_iff k j).0 e in
              subst
                (λ b.
                  Counts (if b then some (one_more a (lookup k m)) else lookup j m)
                    (counted b (count j hs)))
                (sym e)
                (subst (λ x. Counts (some (one_more a (lookup k m))) (count x hs + 1)) same
                  (more-Counts a (lookup k m) (count k hs) (v k)))
          | inr e ↦
              subst
                (λ b.
                  Counts (if b then some (one_more a (lookup k m)) else lookup j m)
                    (counted b (count j hs)))
                (sym e) (v j)
        ])

abbrev pub less : Bool → ℕ → ℕ
less true n = n - 1
less false n = n

differ :
    (h k j : DeviceKey) → same_device h k ≡ false → same_device k j ≡ true → same_device h j ≡ false
differ h k j miss hit = subst (λ x. same_device h x ≡ false) ((same_iff k j).0 hit) miss

past :
    (b c : Bool) (n m : ℕ)
    → (c ≡ true → b ≡ false)
    → m ≡ less c n
    → counted b m ≡ less c (counted b n)
past true true n m h e = absurd (true≢false (h refl))
past false true n m h e = e
past true false n m h e = ap (λ x. x + 1) e
past false false n m h e = e

count-leave :
    (k j : DeviceKey) (hs : Holders) → count j (leave k hs) ≡ less (same_device k j) (count j hs)
unfolding count leave
count-leave k j [] = elim (Bool-cases (same_device k j)) [
  | inl e ↦ subst (λ b. 0 ≡ less b 0) (sym e) refl
  | inr e ↦ subst (λ b. 0 ≡ less b 0) (sym e) refl
]
count-leave k j (h ∷ hs) =
    if_elim (λ x. count j x ≡ less (same_device k j) (counted (same_device h j) (count j hs)))
      (same_device h k) hs (h ∷ leave k hs)
      (λ e.
        subst (λ x. count j hs ≡ less (same_device k j) (counted (same_device x j) (count j hs)))
          (sym ((same_iff h k).0 e)) (undone (same_device k j) (count j hs)))
      (λ e.
        past (same_device h j) (same_device k j) (count j hs) (count j (leave k hs))
          (differ h k j e) (count-leave k j hs))
  where
    undone : (b : Bool) (n : ℕ) → n ≡ less b (counted b n)
    undone true n = omega arith
    undone false n = refl

module _ {ℓ} {A : Type ℓ} where
  here_Counts :
      (k : DeviceKey) (m : List (DeviceKey × Entry A)) (o : Option (Entry A)) (n : ℕ)
      → o ≡ lookup k m
      → 0 < n
      → Counts o n
      → Counts (lookup k (one_less k o m)) (n - 1)
  here_Counts k m none n e p c = absurd (omega arith)
  here_Counts k m (some e) n found p c =
      if_elim {A = List (DeviceKey × Entry A)} (λ x. Counts (lookup k x) (n - 1)) (leb e.refs 1) _ _
        (λ last.
          subst (λ o. Counts o (n - 1))
            (sym (
              lookup-delete k k m
              ∙ ap (λ b. if b then none else lookup k m) ((same_iff k k).1 refl)))
            (ground arith))
        (λ others.
          subst (λ o. Counts o (n - 1))
            (sym (
              lookup-insert k k (record e { refs = e.refs - 1 }) m
              ∙ ap (λ b. if b then some (record e { refs = e.refs - 1 }) else lookup k m)
                  ((same_iff k k).1 refl)))
            (ap (λ x. x - 1) c.0, ground arith))

  elsewhere :
      (k j : DeviceKey) (m : List (DeviceKey × Entry A)) (o : Option (Entry A))
      → same_device k j ≡ false
      → lookup j (one_less k o m) ≡ lookup j m
  elsewhere k j m none e = refl
  elsewhere k j m (some x) e =
      if_elim {A = List (DeviceKey × Entry A)} (λ t. lookup j t ≡ lookup j m) (leb x.refs 1) _ _
        (λ last. lookup-delete k j m ∙ ap (λ b. if b then none else lookup j m) e)
        (λ others.
          lookup-insert k j (record x { refs = x.refs - 1 }) m
          ∙ ap (λ b. if b then some (record x { refs = x.refs - 1 }) else lookup j m) e)

  pub release-IsCounted :
      (k : DeviceKey) (m : List (DeviceKey × Entry A)) (hs : Holders)
      → 0 < count k hs
      → IsCounted m hs
      → IsCounted (release k m) (leave k hs)
  unfolding release
  release-IsCounted k m hs p v j =
      subst (Counts (lookup j (release k m))) (sym (count-leave k j hs))
        (elim (Bool-cases (same_device k j)) [
          | inl e ↦
              subst (λ b. Counts (lookup j (release k m)) (less b (count j hs))) (sym e)
                (subst (λ x. Counts (lookup x (release k m)) (count x hs - 1)) ((same_iff k j).0 e)
                  (here_Counts k m (lookup k m) (count k hs) refl p (v k)))
          | inr e ↦
              subst (λ b. Counts (lookup j (release k m)) (less b (count j hs))) (sym e)
                (subst (λ o. Counts o (count j hs)) (sym (elsewhere k j m (lookup k m) e)) (v j))
        ])

  abbrev pub go_if :
      Bool → DeviceKey → List (DeviceKey × Entry A) × Holders → List (DeviceKey × Entry A) × Holders
  go_if true k (m, hs) = (release k m, leave k hs)
  go_if false k r = r

  -- A session leaves once; a departure of nobody changes nothing.
  unfoldable pub change :
      Change A → List (DeviceKey × Entry A) × Holders → List (DeviceKey × Entry A) × Holders
  change (come a k) (m, hs) = ((acquire a k m).0, k ∷ hs)
  change (go k) (m, hs) = go_if (ltb 0 (count k hs)) k (m, hs)

  unfoldable pub changes :
      List (Change A) → List (DeviceKey × Entry A) × Holders → List (DeviceKey × Entry A) × Holders
  changes [] r = r
  changes (c ∷ cs) r = changes cs (change c r)

  go-IsCounted :
      (b : Bool) (k : DeviceKey) (m : List (DeviceKey × Entry A)) (hs : Holders)
      → (b ≡ true → 0 < count k hs)
      → IsCounted m hs
      → let r = go_if b k (m, hs) in IsCounted r.0 r.1
  go-IsCounted true k m hs p v = release-IsCounted k m hs (p refl) v
  go-IsCounted false k m hs p v = v

  change-IsCounted :
      (c : Change A) (m : List (DeviceKey × Entry A)) (hs : Holders)
      → IsCounted m hs
      → let r = change c (m, hs) in IsCounted r.0 r.1
  unfolding change
  change-IsCounted (come a k) m hs v = acquire-IsCounted a k m hs v
  change-IsCounted (go k) m hs v =
      go-IsCounted (ltb 0 (count k hs)) k m hs (λ e. ltb→lt 0 (count k hs) e) v

  changes-IsCounted :
      (cs : List (Change A)) (m : List (DeviceKey × Entry A)) (hs : Holders)
      → IsCounted m hs
      → let r = changes cs (m, hs) in IsCounted r.0 r.1
  unfolding changes
  changes-IsCounted [] m hs v = v
  changes-IsCounted (c ∷ cs) m hs v =
      let r = change c (m, hs) in changes-IsCounted cs r.0 r.1 (change-IsCounted c m hs v)

  -- However sessions come and go, the registry has an entry for a device exactly while the device
  -- has a session, and its reference count is the number of those sessions.
  pub changes-Counts :
      (cs : List (Change A)) (k : DeviceKey)
      → let r = changes cs ([], []) in Counts (lookup k r.0) (count k r.1)
  changes-Counts cs k = changes-IsCounted cs [] [] (λ j. unfold lookup in unfold count in refl) k
