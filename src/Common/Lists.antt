-- ===== src/Common/Lists.antt =====
-- Lists measured and cut by native numbers, under the library's names; byte strings.
use Prim.Native.Nat.{ℕ, zero, suc, ◌+◌, ◌-◌, ◌≤◌, min}
use Prim.Native.Char.{code}
use Prim.Native.String.{String}
use mathlib.Core.Path.{◌≡◌, refl, sym, ap, ◌∙◌}
use mathlib.Core.Bool.{Bool, true, false}
use mathlib.Core.List.{List, [], ◌∷◌, ◌++◌, append_assoc}
use native.Mathlib.Omega.{arith}
use anytls_go.Common.Tests.{◌==◌, if◌then◌else◌}

-- A Go []byte or string: a list of bytes, each below 256 where it matters.
abbrev pub Bytes : Type 0
Bytes = List ℕ

-- The bytes of an ASCII literal.
abbrev pub codes : String → List ℕ
codes String.[] = []
codes (String.◌∷◌ c s) = code c ∷ codes s

-- Go's == on strings.
infix 50 ◌=b◌
unfoldable pub ◌=b◌ : List ℕ → List ℕ → Bool
[] =b [] = true
[] =b (y ∷ ys) = false
(x ∷ xs) =b [] = false
(x ∷ xs) =b (y ∷ ys) = if x == y then xs =b ys else false

pub =b_refl : (xs : List ℕ) → (xs =b xs) ≡ true
unfolding ◌=b◌
=b_refl [] = refl
=b_refl (x ∷ xs) = ground (arith, =b_refl xs)

pub eq_of_=b : (xs ys : List ℕ) → (xs =b ys) ≡ true → xs ≡ ys
unfolding ◌=b◌
eq_of_=b [] [] h = refl
eq_of_=b [] (y ∷ ys) h = cc
eq_of_=b (x ∷ xs) [] h = cc
eq_of_=b (x ∷ xs) (y ∷ ys) h = ground (arith, eq_of_=b xs ys)

module _ {ℓ} {A : Type ℓ} where
  abbrev pub length : List A → ℕ
  length [] = 0
  length (x ∷ xs) = suc (length xs)

  abbrev pub take : ℕ → List A → List A
  take zero xs = []
  take (suc n) [] = []
  take (suc n) (x ∷ xs) = x ∷ take n xs

  abbrev pub drop : ℕ → List A → List A
  drop zero xs = xs
  drop (suc n) [] = []
  drop (suc n) (x ∷ xs) = drop n xs

  abbrev pub replicate : ℕ → A → List A
  replicate zero a = []
  replicate (suc n) a = a ∷ replicate n a

  abbrev pub concat : List (List A) → List A
  concat [] = []
  concat (x ∷ xs) = x ++ concat xs

  pub length-append : (xs ys : List A) → length (xs ++ ys) ≡ length xs + length ys
  length-append [] ys = omega arith
  length-append (x ∷ xs) ys = omega (arith, length-append xs ys)

  pub take-append-drop : (n : ℕ) (xs : List A) → take n xs ++ drop n xs ≡ xs
  take-append-drop zero xs = refl
  take-append-drop (suc n) [] = refl
  take-append-drop (suc n) (x ∷ xs) = ap (◌∷◌ x) (take-append-drop n xs)

  pub length-take : (n : ℕ) (xs : List A) → length (take n xs) ≡ min n (length xs)
  length-take zero xs = omega arith
  length-take (suc n) [] = omega arith
  length-take (suc n) (x ∷ xs) = omega (arith, length-take n xs)

  pub length-drop : (n : ℕ) (xs : List A) → length (drop n xs) ≡ length xs - n
  length-drop zero xs = omega arith
  length-drop (suc n) [] = omega arith
  length-drop (suc n) (x ∷ xs) = omega (arith, length-drop n xs)

  pub length-replicate : (n : ℕ) (a : A) → length (replicate n a) ≡ n
  length-replicate zero a = refl
  length-replicate (suc n) a = ap suc (length-replicate n a)

  pub take-append_length : (xs ys : List A) → take (length xs) (xs ++ ys) ≡ xs
  take-append_length [] ys = refl
  take-append_length (x ∷ xs) ys = ap (◌∷◌ x) (take-append_length xs ys)

  pub drop-append_length : (xs ys : List A) → drop (length xs) (xs ++ ys) ≡ ys
  drop-append_length [] ys = refl
  drop-append_length (x ∷ xs) ys = drop-append_length xs ys

  pub take_all : (n : ℕ) (xs : List A) → length xs ≤ n → take n xs ≡ xs
  take_all zero [] h = refl
  take_all zero (x ∷ xs) h = absurd (omega arith)
  take_all (suc n) [] h = refl
  take_all (suc n) (x ∷ xs) h = ap (◌∷◌ x) (take_all n xs (omega arith))

  pub drop_all : (n : ℕ) (xs : List A) → length xs ≤ n → drop n xs ≡ []
  drop_all zero [] h = refl
  drop_all zero (x ∷ xs) h = absurd (omega arith)
  drop_all (suc n) [] h = refl
  drop_all (suc n) (x ∷ xs) h = drop_all n xs (omega arith)

  take_nil : (n : ℕ) → take n [] ≡ []
  take_nil zero = refl
  take_nil (suc n) = refl

  drop_nil : (n : ℕ) → drop n [] ≡ []
  drop_nil zero = refl
  drop_nil (suc n) = refl

  pub drop-drop : (n k : ℕ) (xs : List A) → drop k (drop n xs) ≡ drop (n + k) xs
  drop-drop zero k xs = ap (λ i. drop i xs) (omega arith)
  drop-drop (suc n) k [] = drop_nil k ∙ sym (drop_nil (suc n + k))
  drop-drop (suc n) k (x ∷ xs) =
      let step : suc (n + k) ≡ suc n + k = omega arith in
      drop-drop n k xs ∙ ap (λ i. drop i (x ∷ xs)) step

  pub take_add : (n k : ℕ) (xs : List A) → take (n + k) xs ≡ take n xs ++ take k (drop n xs)
  take_add zero k xs = ap (λ i. take i xs) {x = 0 + k} {y = k} (omega arith)
  take_add (suc n) k [] = take_nil (suc n + k) ∙ sym (take_nil k)
  take_add (suc n) k (x ∷ xs) =
      let step : suc n + k ≡ suc (n + k) = omega arith in
      ap (λ i. take i (x ∷ xs)) step ∙ ap (◌∷◌ x) (take_add n k xs)

  pub concat-append : (xs ys : List (List A)) → concat (xs ++ ys) ≡ concat xs ++ concat ys
  concat-append [] ys = refl
  concat-append (x ∷ xs) ys = simp (concat-append xs ys, append_assoc)

  pub length-zero : (xs : List A) → length xs ≡ 0 → xs ≡ []
  length-zero [] h = refl
  length-zero (x ∷ xs) h = absurd (omega arith)

abbrev pub All {ℓ κ} : {A : Type ℓ} → (A → Type κ) → List A → Type κ
All P [] = Unit
All P (x ∷ xs) = P x × All P xs

pub All-append {ℓ κ} :
    {A : Type ℓ} (P : A → Type κ) (xs ys : List A) → All P xs → All P ys → All P (xs ++ ys)
All-append P [] ys hx hy = hy
All-append P (x ∷ xs) ys hx hy = (hx.0, All-append P xs ys hx.1 hy)

module _ {ℓ κ} {A : Type ℓ} (P : A → Type κ) where
  pub All-take : (n : ℕ) (xs : List A) → All P xs → All P (take n xs)
  All-take zero xs h = tt
  All-take (suc n) [] h = tt
  All-take (suc n) (x ∷ xs) h = (h.0, All-take n xs h.1)

  pub All-drop : (n : ℕ) (xs : List A) → All P xs → All P (drop n xs)
  All-drop zero xs h = h
  All-drop (suc n) [] h = tt
  All-drop (suc n) (x ∷ xs) h = All-drop n xs h.1
