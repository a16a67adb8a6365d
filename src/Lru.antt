-- ===== src/Lru.antt =====
-- The caches of hashicorp/golang-lru that acl and auth keep, as an interface: what a cache of state
-- S holds, and that Get and Add never make up an entry. Entries may go at any time, by eviction or
-- expiry.
use anytls_go.Common.{
  List, [], Option, none, some, if◌then◌else◌, ◌≡◌, refl, sym, ap, ◌∙◌, ◌⊎◌, inl, inr, Bool-cases,
}
use anytls_go.Common.Maps.{Key, lookup, insert, lookup-insert}

pub record Lru {ℓ κ μ} (K : Type ℓ) (V : Type κ) (S : Type μ) : Type (ℓ ⊔ κ ⊔ μ) where
  pub get : K → S → S × Option V
  pub add : K → V → S → S
  pub fresh : S
  -- what a look-up may answer
  pub holds : K → S → Option V
  pub get_holds : (k : K) (s : S) (v : V) → (get k s).1 ≡ some v → holds k s ≡ some v
  pub get_keeps : (k j : K) (s : S) (v : V) → holds j (get k s).0 ≡ some v → holds j s ≡ some v
  pub add_holds :
      (k j : K) (w v : V) (s : S)
      → holds j (add k w s) ≡ some v
      → ((j ≡ k) × (v ≡ w)) ⊎ (holds j s ≡ some v)
  pub fresh_holds : (k : K) → holds k fresh ≡ none

-- A cache of any size, without expiry.
module _ {ℓ κ} {K : Type ℓ} {V : Type κ} ⦃k : Key K⦄ where
  pub added :
      (a b : K) (w v : V) (s : List (K × V))
      → lookup b (insert a w s) ≡ some v
      → ((b ≡ a) × (v ≡ w)) ⊎ (lookup b s ≡ some v)
  added a b w v s h = elim (Bool-cases (k.beq a b)) [
    | inl hit ↦
        let here : some w ≡ some v =
          sym (ap (λ c. if c then some w else lookup b s) hit) ∙ sym (lookup-insert a b w s) ∙ h in
        inl (sym ((k.beq_iff a b).0 hit), cc)
    | inr miss ↦
        inr
          (sym (ap (λ c. if c then some w else lookup b s) miss) ∙ sym (lookup-insert a b w s) ∙ h)
  ]

  unfoldable pub unbounded : Lru K V (List (K × V))
  unfolding lookup
  unbounded = record {
    get = λ a s. (s, lookup a s);
    add = insert;
    fresh = [];
    holds = lookup;
    get_holds = λ a s v h. h;
    get_keeps = λ a b s v h. h;
    add_holds = λ a b w v s h. added a b w v s h;
    fresh_holds = λ a. refl;
  }
