-- ===== src/Common/Results.antt =====
-- Go's (value, error) results, and computations that thread a state and may fail.
use Prim.Native.Nat.{ℕ}
use mathlib.Core.List.{List}

-- The errors that the code tells apart, by the Go values that they stand for.
pub data Error : Type 0 where
  closed_pipe net_closed deadline_exceeded eof io_error backend_busy : Error
  remote : List ℕ → Error

pub data Result {ℓ} (A : Type ℓ) : Type ℓ where
  ok : A → Result A
  err : Error → Result A

-- The state after an error is the state that the failing step left.
abbrev pub M {ℓ κ} : Type ℓ → Type κ → Type (ℓ ⊔ κ)
M S A = S → S × Result A

infixl 5 ◌>>=◌ ◌>>◌
abbrev pub chain {ℓ κ μ} :
    {S : Type ℓ} {A : Type κ} {B : Type μ} → S × Result A → (A → M S B) → S × Result B
chain (s, ok a) f = f a s
chain (s, err e) f = (s, err e)

abbrev pub ◌>>=◌ {ℓ κ μ} : {S : Type ℓ} {A : Type κ} {B : Type μ} → M S A → (A → M S B) → M S B
◌>>=◌ m f s = chain (m s) f

abbrev pub ◌>>◌ {ℓ κ μ} : {S : Type ℓ} {A : Type κ} {B : Type μ} → M S A → M S B → M S B
◌>>◌ m k s = chain (m s) (λ _. k)

abbrev pub pure {ℓ κ} : {S : Type ℓ} {A : Type κ} → A → M S A
pure a s = (s, ok a)
