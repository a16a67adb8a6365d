-- ===== src/Common/Maps.antt =====
-- Go maps as association lists without duplicate keys: `lookup`, `insert`, `delete`, `keys`.
-- The key's equality is an argument, so that numbers, byte strings and pairs serve as keys.
use mathlib.Core.Bool.{Bool, true, false}
use mathlib.Core.List.{List, [], ◌∷◌}
use mathlib.Core.Logic.{◌↔◌, inl, inr}
use mathlib.Core.Option.{Option, none, some}
use mathlib.Core.Path.{◌≡◌, refl, sym, ap, subst, ◌∙◌}
use Prim.Native.Nat.{ℕ, ◌≤◌, ◌+◌}
use native.Mathlib.Omega.{arith}
use anytls_go.Common.Tests.{◌==◌, if◌then◌else◌, if_elim, Bool-cases, ==_iff}
use anytls_go.Common.Lists.{length, All, ◌=b◌, =b_refl, eq_of_=b}

pub record Key {ℓ} (K : Type ℓ) : Type ℓ where
  pub beq : K → K → Bool
  pub beq_iff : (a b : K) → (beq a b ≡ true) ↔ (a ≡ b)

instance abbrev pub nat_key : Key ℕ
nat_key = record { beq = ◌==◌; beq_iff = ==_iff }

pub =b_iff : (a b : List ℕ) → ((a =b b) ≡ true) ↔ (a ≡ b)
=b_iff a b = (eq_of_=b a b, λ e. rw e (=b_refl b))

instance abbrev pub bytes_key : Key (List ℕ)
bytes_key = record { beq = ◌=b◌; beq_iff = =b_iff }

abbrev pub map_some {ℓ} : {V : Type ℓ} → (V → V) → Option V → Option V
map_some f none = none
map_some f (some v) = some (f v)

module _ {ℓ κ} {K : Type ℓ} {V : Type κ} ⦃k : Key K⦄ where
  unfoldable pub lookup : K → List (K × V) → Option V
  lookup a [] = none
  lookup a ((b, v) ∷ m) = if k.beq b a then some v else lookup a m

  -- An existing key keeps its place.
  unfoldable pub insert : K → V → List (K × V) → List (K × V)
  insert a v [] = (a, v) ∷ []
  insert a v ((b, w) ∷ m) = if k.beq b a then (a, v) ∷ m else (b, w) ∷ insert a v m

  unfoldable pub delete : K → List (K × V) → List (K × V)
  delete a [] = []
  delete a ((b, w) ∷ m) = if k.beq b a then delete a m else (b, w) ∷ delete a m

  pub lookup-insert :
      (a c : K) (v : V) (m : List (K × V))
      → lookup c (insert a v m) ≡ (if k.beq a c then some v else lookup c m)
  unfolding lookup insert
  lookup-insert a c v [] = refl
  lookup-insert a c v ((b, w) ∷ m) =
      ground (arith, k.beq_iff b a, k.beq_iff b c, k.beq_iff a c, lookup-insert a c v m)

  pub lookup-delete :
      (a c : K) (m : List (K × V))
      → lookup c (delete a m) ≡ (if k.beq a c then none else lookup c m)
  unfolding lookup delete
  lookup-delete a c [] = ground arith
  lookup-delete a c ((b, w) ∷ m) =
      ground (arith, k.beq_iff b a, k.beq_iff b c, k.beq_iff a c, lookup-delete a c m)

  pub length-insert : (a : K) (v : V) (m : List (K × V)) → length (insert a v m) ≤ length m + 1
  unfolding insert
  length-insert a v [] = omega arith
  length-insert a v ((b, w) ∷ m) = ground (arith, length-insert a v m)

  pub length-delete : (a : K) (m : List (K × V)) → length (delete a m) ≤ length m
  unfolding delete
  length-delete a [] = omega arith
  length-delete a ((b, w) ∷ m) = ground (arith, length-delete a m)

  -- A change to the value under a key, where there is one.
  unfoldable pub adjust : K → (V → V) → List (K × V) → List (K × V)
  adjust a f [] = []
  adjust a f ((b, w) ∷ m) = if k.beq b a then (b, f w) ∷ adjust a f m else (b, w) ∷ adjust a f m

  pub lookup-adjust :
      (a c : K) (f : V → V) (m : List (K × V))
      → lookup c (adjust a f m) ≡ (if k.beq a c then map_some f (lookup c m) else lookup c m)
  unfolding lookup adjust
  lookup-adjust a c f [] = ground arith
  lookup-adjust a c f ((b, w) ∷ m) =
      ground (arith, k.beq_iff b a, k.beq_iff b c, k.beq_iff a c, lookup-adjust a c f m)

  pub length-adjust : (a : K) (f : V → V) (m : List (K × V)) → length (adjust a f m) ≡ length m
  unfolding adjust
  length-adjust a f [] = refl
  length-adjust a f ((b, w) ∷ m) = ground (arith, length-adjust a f m)

  pub adjust-adjust :
      (a : K) (f g : V → V) (m : List (K × V))
      → adjust a g (adjust a f m) ≡ adjust a (λ v. g (f v)) m
  unfolding adjust
  adjust-adjust a f g [] = refl
  adjust-adjust a f g ((b, w) ∷ m) = ground (arith, adjust-adjust a f g m)

  pub adjust_same : (a : K) (f : V → V) (m : List (K × V)) → ((v : V) → f v ≡ v) → adjust a f m ≡ m
  unfolding adjust
  adjust_same a f [] h = refl
  adjust_same a f ((b, w) ∷ m) h = ground (arith, h w, adjust_same a f m h)

  -- Predicates on the entries.
  pub All-insert {μ} :
      (P : K × V → Type μ) (a : K) (v : V) (m : List (K × V))
      → P (a, v)
      → All P m
      → All P (insert a v m)
  unfolding insert
  All-insert P a v [] p h = (p, tt)
  All-insert P a v ((b, w) ∷ m) p h =
      if_elim (All P) (k.beq b a) _ _ (λ e. (p, h.1)) (λ e. (h.0, All-insert P a v m p h.1))

  -- Deleting a key leaves entries of other keys only.
  pub All-delete {μ ν} :
      (P : K × V → Type μ) (Q : K × V → Type ν) (a : K) (m : List (K × V))
      → ((b : K) (v : V) → k.beq b a ≡ false → P (b, v) → Q (b, v))
      → All P m
      → All Q (delete a m)
  unfolding delete
  All-delete P Q a [] f h = tt
  All-delete P Q a ((b, w) ∷ m) f h =
      if_elim (All Q) (k.beq b a) _ _ (λ e. All-delete P Q a m f h.1)
        (λ e. (f b w e h.0, All-delete P Q a m f h.1))

  pub All-adjust {μ ν} :
      (P : K × V → Type μ) (Q : K × V → Type ν) (a : K) (g : V → V) (m : List (K × V))
      → ((b : K) (v : V) → k.beq b a ≡ true → P (b, v) → Q (b, g v))
      → ((b : K) (v : V) → k.beq b a ≡ false → P (b, v) → Q (b, v))
      → All P m
      → All Q (adjust a g m)
  unfolding adjust
  All-adjust P Q a g [] f f' h = tt
  All-adjust P Q a g ((b, w) ∷ m) f f' h =
      if_elim (All Q) (k.beq b a) _ _ (λ e. (f b w e h.0, All-adjust P Q a g m f f' h.1))
        (λ e. (f' b w e h.0, All-adjust P Q a g m f f' h.1))

  pub All-lookup {μ} :
      (P : K × V → Type μ) (a : K) (m : List (K × V)) (v : V)
      → All P m
      → lookup a m ≡ some v
      → (b : K) × (k.beq b a ≡ true) × P (b, v)
  unfolding lookup
  All-lookup P a [] v h e = cc
  All-lookup P a ((b, w) ∷ m) v h e = elim (Bool-cases (k.beq b a)) [
    | inl hit ↦
        let same : some w ≡ some v = sym (ap (λ c. if c then some w else lookup a m) hit) ∙ e in
        let value : w ≡ v = cc in (b, hit, subst (λ x. P (b, x)) value h.0)
    | inr miss ↦ All-lookup P a m v h.1 (sym (ap (λ c. if c then some w else lookup a m) miss) ∙ e)
  ]
