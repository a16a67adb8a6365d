-- ===== src/Padding.antt =====
-- proxy/padding/padding.go: the padding scheme and the packet sizes that it asks for. The hash
-- (crypto/md5 and its hexadecimal print) and the random draws (crypto/rand) are parameters: `md5`,
-- and `draw i m` for the i-th call of rand.Int with the bound m.
pub mod Sizes
use anytls_go.Common.{
  ℕ, zero, suc, ◌+◌, ◌-◌, Bytes, List, [], ◌∷◌, Option, none, some, Bool, true, false, codes,
  length, ltb, ◌=b◌, ◌==◌, if◌then◌else◌,
}
use anytls_go.Common.Maps.{lookup, bytes_key}
use anytls_go.Text.{ℤ, pos, negsuc, to_u32, split, atoi, itoa, min_int, max_int}
use anytls_go.StringMap.{StringMap, from_bytes, get}

pub record PaddingFactory : Type 0 where
  pub scheme : StringMap
  pub raw_scheme : Bytes
  pub stop : ℕ
  pub md5 : Bytes

-- An entry of pktSizes: CheckMark (-1), or a size. `generate_sizes` shows that sizes are positive.
pub data Size : Type 0 where
  check_mark : Size
  size : ℕ → Size

-- NewPaddingFactory: none is the nil that it returns for a scheme it cannot use.
abbrev pub with_stop : Bytes → Bytes → StringMap → Option ℤ → Option PaddingFactory
with_stop raw hash scheme none = none
with_stop raw hash scheme (some stop) =
    some (record { scheme = scheme; raw_scheme = raw; stop = to_u32 stop; md5 = hash })

unfoldable pub new_padding_factory : (Bytes → Bytes) → Bytes → Option PaddingFactory
unfolding from_bytes get atoi
new_padding_factory md5 raw =
    let scheme = from_bytes raw in
    if length scheme == 0
    then none
    else with_stop raw (md5 raw) scheme (atoi (get scheme (codes "stop")))

-- UpdatePaddingScheme on the global factory: a scheme that is refused leaves it as it was.
abbrev pub or_keep : PaddingFactory → Option PaddingFactory → PaddingFactory × Bool
or_keep old none = (old, false)
or_keep old (some p) = (p, true)

unfoldable pub update_padding_scheme :
    (Bytes → Bytes) → Bytes → PaddingFactory → PaddingFactory × Bool
unfolding new_padding_factory
update_padding_scheme md5 raw old = or_keep old (new_padding_factory md5 raw)

-- `_min <= 0`
abbrev pub positive : ℤ → Option ℕ
positive (pos zero) = none
positive (pos (suc n)) = some (suc n)
positive (negsuc n) = none

-- A minimum and a maximum that are both positive; none is a `continue`.
abbrev pub bounds : Option ℤ → Option ℤ → Option (ℕ × ℕ)
bounds none b = none
bounds (some a) none = none
bounds (some a) (some b) = elim (positive (min_int a b)) [
  | none ↦ none
  | some lo ↦ elim (positive (max_int a b)) [ none ↦ none | some hi ↦ some (lo, hi) ]
]

-- strings.Split(sRange, "-"), where it has two parts
abbrev pub range_of : List Bytes → Option (ℕ × ℕ)
range_of [] = none
range_of (a ∷ []) = none
range_of (a ∷ b ∷ []) = bounds (atoi a) (atoi b)
range_of (a ∷ b ∷ c ∷ ps) = none

abbrev pub has_two : List Bytes → Bool
has_two [] = false
has_two (a ∷ []) = false
has_two (a ∷ b ∷ []) = true
has_two (a ∷ b ∷ c ∷ ps) = false

-- The size of one range; the draw is taken only if the range is more than a point.
abbrev pub size_in : (ℕ → ℕ) → Option (ℕ × ℕ) → List Size
size_in draw none = []
size_in draw (some (lo, hi)) = if lo == hi then size lo ∷ [] else size (draw (hi - lo) + lo) ∷ []

-- One round of the loop over the pieces between commas.
unfoldable pub piece_sizes : (ℕ → ℕ) → Bytes → List Size
unfolding split atoi ◌=b◌
piece_sizes draw piece =
    let parts = split b'-' piece in
    if has_two parts
    then size_in draw (range_of parts)
    else if piece =b codes "c"
    then check_mark ∷ []
    else []

abbrev pub append_sizes : List Size → List Size → List Size
append_sizes [] ys = ys
append_sizes (x ∷ xs) ys = x ∷ append_sizes xs ys

unfoldable pub pieces_sizes : (ℕ → ℕ → ℕ) → ℕ → List Bytes → List Size
unfolding piece_sizes
pieces_sizes draw i [] = []
pieces_sizes draw i (p ∷ ps) = append_sizes (piece_sizes (draw i) p) (pieces_sizes draw (suc i) ps)

abbrev pub sizes_of : (ℕ → ℕ → ℕ) → Option Bytes → List Size
sizes_of draw none = []
sizes_of draw (some s) = pieces_sizes draw 0 (split b',' s)

-- GenerateRecordPayloadSizes
unfoldable pub generate_sizes : (ℕ → ℕ → ℕ) → PaddingFactory → ℕ → List Size
unfolding pieces_sizes split lookup itoa
generate_sizes draw p pkt = sizes_of draw (lookup (itoa pkt) p.scheme)

-- defaultPaddingScheme
abbrev pub default_padding_scheme : Bytes
default_padding_scheme =
    codes
      "stop=8\n0=30-30\n1=100-400\n2=400-500,c,500-1000,c,500-1000,c,500-1000,c,500-1000\n3=9-9,500-1000\n4=500-1000\n5=500-1000\n6=500-1000\n7=500-1000"
