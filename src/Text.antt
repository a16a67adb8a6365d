-- ===== src/Text.antt =====
-- The parts of Go's strings and strconv that the program uses, over byte strings: Split, SplitN
-- at 2, Join, Atoi and ParseInt in base 10, Itoa; and the integers that Atoi returns.
pub mod Decimal
pub mod Lines
pub mod Words
use anytls_go.Common.{
  ℕ, zero, suc, ◌+◌, ◌-◌, ◌*◌, ◌/◌, ◌%◌, ◌^◌, Bytes, List, [], ◌∷◌, ◌++◌, Option, none, some, Bool,
  true, false, ◌||◌, ◌&&◌, ltb, leb, ◌==◌, if◌then◌else◌,
}

-- `negsuc n` is -(n + 1).
pub data ℤ : Type 0 where
  pos : ℕ → ℤ
  negsuc : ℕ → ℤ

abbrev pub le_int : ℤ → ℤ → Bool
le_int (pos a) (pos b) = leb a b
le_int (pos a) (negsuc b) = false
le_int (negsuc a) (pos b) = true
le_int (negsuc a) (negsuc b) = leb b a

abbrev pub min_int : ℤ → ℤ → ℤ
min_int a b = if le_int a b then a else b

abbrev pub max_int : ℤ → ℤ → ℤ
max_int a b = if le_int a b then b else a

-- uint32(v) of a Go int
abbrev pub to_u32 : ℤ → ℕ
to_u32 (pos n) = n % 2 ^ 32
to_u32 (negsuc n) = 2 ^ 32 - 1 - n % 2 ^ 32

-- strings.Split by one byte: always at least one part.
abbrev pub add_head : ℕ → List Bytes → List Bytes
add_head c [] = (c ∷ []) ∷ []
add_head c (p ∷ ps) = (c ∷ p) ∷ ps

unfoldable pub split : ℕ → Bytes → List Bytes
split sep [] = [] ∷ []
split sep (c ∷ s) = if c == sep then [] ∷ split sep s else add_head c (split sep s)

-- strings.SplitN(s, sep, 2), as the two parts; none if there is only one.
abbrev pub add_first : ℕ → Option (Bytes × Bytes) → Option (Bytes × Bytes)
add_first c none = none
add_first c (some (a, b)) = some (c ∷ a, b)

unfoldable pub cut : ℕ → Bytes → Option (Bytes × Bytes)
cut sep [] = none
cut sep (c ∷ s) = if c == sep then some ([], s) else add_first c (cut sep s)

-- strings.Join with one byte
unfoldable pub join : ℕ → List Bytes → Bytes
join sep [] = []
join sep (p ∷ []) = p
join sep (p ∷ q ∷ ps) = p ++ (sep ∷ join sep (q ∷ ps))

abbrev pub is_digit : ℕ → Bool
is_digit c = leb b'0' c && leb c b'9'

-- The number that digits spell behind `acc`; none at any other byte.
unfoldable pub digits_value : ℕ → Bytes → Option ℕ
digits_value acc [] = some acc
digits_value acc (c ∷ s) =
    let rest = digits_value (acc * 10 + (c - b'0')) s in if is_digit c then rest else none

unfoldable pub parse_digits : Bytes → Option ℕ
parse_digits [] = none
parse_digits (c ∷ s) = digits_value 0 (c ∷ s)

-- A 64-bit result, or the range error of strconv.
abbrev pub non_negative : Option ℕ → Option ℤ
non_negative none = none
non_negative (some n) = if ltb n (2 ^ 63) then some (pos n) else none

abbrev pub negative : Option ℕ → Option ℤ
negative none = none
negative (some zero) = some (pos 0)
negative (some (suc n)) = if ltb n (2 ^ 63) then some (negsuc n) else none

-- strconv.Atoi, and strconv.ParseInt(s, 10, 64); none is an error.
unfoldable pub atoi : Bytes → Option ℤ
unfolding parse_digits digits_value
atoi [] = none
atoi (c ∷ s) =
    if c == b'-'
    then negative (parse_digits s)
    else if c == b'+'
    then non_negative (parse_digits s)
    else non_negative (parse_digits (c ∷ s))

-- strconv.Itoa of a number that is not negative; twenty digits are enough for 64 bits.
unfoldable pub print_digits : ℕ → ℕ → Bytes → Bytes
print_digits zero n out = out
print_digits (suc f) n out =
    let more = print_digits f (n / 10) ((b'0' + n % 10) ∷ out) in
    if ltb n 10 then (b'0' + n % 10) ∷ out else more

unfoldable pub itoa : ℕ → Bytes
unfolding print_digits
itoa n = print_digits 20 n []
