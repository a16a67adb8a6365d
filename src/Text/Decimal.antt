-- ===== src/Text/Decimal.antt =====
-- Numbers that itoa prints are read back by atoi.
use native.Mathlib.Nat.{pow-suc}
use anytls_go.Common.{
  ℕ, zero, suc, ◌+◌, ◌/◌, ◌%◌, ◌^◌, ◌<◌, ◌≤◌, ◌≡◌, ◌∙◌, refl, Bytes, [], ◌∷◌, some, arith, ltb,
  if◌then◌else◌, Bool-cases, inl, inr,
}
use anytls_go.Text.{pos, digits_value, atoi, print_digits, itoa}

value-digit :
    (n : ℕ) (out : Bytes) → digits_value (n / 10) ((b'0' + n % 10) ∷ out) ≡ digits_value n out
unfolding digits_value
value-digit n out = ground arith

value_last :
    (n : ℕ) (out : Bytes) → n < 10 → digits_value 0 ((b'0' + n % 10) ∷ out) ≡ digits_value n out
unfolding digits_value
value_last n out h = ground arith

tenth : (k n : ℕ) → n < 10 ^ suc k → n / 10 < 10 ^ k
tenth k n h = omega (arith, pow-suc 10 k)

pub value-print :
    (f n : ℕ) (out : Bytes)
    → n < 10 ^ suc f
    → digits_value 0 (print_digits (suc f) n out) ≡ digits_value n out
unfolding print_digits
value-print zero n out h = ground (arith, value_last n out h)
value-print (suc f) n out h = elim (Bool-cases (ltb n 10)) [
  | inl small ↦ rw (small, if◌then◌else◌) (value_last n out (ground arith))
  | inr big ↦
      rw (big, if◌then◌else◌)
        (value-print f (n / 10) ((b'0' + n % 10) ∷ out) (tenth (suc f) n h) ∙ value-digit n out)
]

-- The first byte that is printed is a digit.
abbrev StartsWithDigit : Bytes → Type 0
StartsWithDigit [] = ⊥
StartsWithDigit (c ∷ s) = (b'0' ≤ c) × (c ≤ b'9')

print-StartsWithDigit : (f n : ℕ) (out : Bytes) → StartsWithDigit (print_digits (suc f) n out)
unfolding print_digits
print-StartsWithDigit zero n out = elim (Bool-cases (ltb n 10)) [
  | inl small ↦ rw (small, if◌then◌else◌) (omega arith)
  | inr big ↦ rw (big, if◌then◌else◌) (omega arith)
]
print-StartsWithDigit (suc f) n out = elim (Bool-cases (ltb n 10)) [
  | inl small ↦ rw (small, if◌then◌else◌) (omega arith)
  | inr big ↦ rw (big, if◌then◌else◌) (print-StartsWithDigit f (n / 10) _)
]

atoi_digits :
    (s : Bytes) (n : ℕ)
    → StartsWithDigit s
    → digits_value 0 s ≡ some n
    → n < 2 ^ 63
    → atoi s ≡ some (pos n)
unfolding atoi
atoi_digits [] n d h lt = absurd d
atoi_digits (c ∷ s) n d h lt = ground arith

-- Every non-negative 64-bit int is read back from its decimal print.
pub atoi-itoa : (n : ℕ) → n < 2 ^ 63 → atoi (itoa n) ≡ some (pos n)
unfolding itoa
atoi-itoa n h =
    atoi_digits (print_digits 20 n []) n (print-StartsWithDigit 19 n [])
      (value-print 19 n [] (omega arith) ∙ unfold digits_value in refl) h
