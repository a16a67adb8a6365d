-- ===== src/Padding/Sizes.antt =====
-- What the sizes of a packet may be: a check mark, or a size that some range of the scheme allows.
use anytls_go.Common.{
  ℕ, ◌<◌, ◌≤◌, ◌≡◌, Bytes, List, [], ◌∷◌, none, some, arith, All, ◌≢◌, codes, ◌⊎◌,
}
use anytls_go.Common.Maps.{bytes_key}
use anytls_go.Text.{split}
use anytls_go.Padding.{Size, check_mark, size, range_of}

-- A draw of rand.Int lies below its bound.
abbrev pub IsDraw : (ℕ → ℕ → ℕ) → Type 0
IsDraw draw = (i m : ℕ) → 0 < m → draw i m < m

-- A size that the range lo-hi allows: lo itself, or anything from lo up to below hi.
abbrev pub InRange : ℕ × ℕ → Size → Type 0
InRange (lo, hi) check_mark = ⊥
InRange (lo, hi) (size n) = (0 < lo) × (lo ≤ hi) × (lo ≤ n) × ((n ≡ lo) ⊎ (n < hi))

-- What one piece of the scheme's line, between commas, may ask for.
abbrev pub Allowed : Bytes → Size → Type 0
Allowed piece check_mark = piece ≡ codes "c"
Allowed piece (size n) = (r : ℕ × ℕ) × (range_of (split b'-' piece) ≡ some r) × InRange r (size n)

-- A piece that asks for nothing: neither a range with a positive end, nor the letter c
abbrev pub AsksNothing : Bytes → Type 0
AsksNothing piece = (range_of (split b'-' piece) ≡ none) × (piece ≢ codes "c")

-- One size for each piece that asks for one, in the pieces' order.
pub data Follows : List Bytes → List Size → Type 0 where
  end : Follows [] []
  skip :
      {p : Bytes} {ps : List Bytes} {ss : List Size}
      → AsksNothing p
      → Follows ps ss
      → Follows (p ∷ ps) ss
  take_one :
      {p : Bytes} {ps : List Bytes} {s : Size} {ss : List Size}
      → Allowed p s
      → Follows ps ss
      → Follows (p ∷ ps) (s ∷ ss)

-- A piece that asks for nothing yields nothing, and any other one size that it allows.
abbrev OneOf : Bytes → List Size → Type 0
OneOf p [] = AsksNothing p
OneOf p (s ∷ []) = Allowed p s
OneOf p (s ∷ t ∷ ss) = ⊥

-- No size is zero.
abbrev pub IsPositive : Size → Type 0
IsPositive check_mark = Unit {0}
IsPositive (size n) = 0 < n

Allowed-IsPositive : (p : Bytes) (s : Size) → Allowed p s → IsPositive s
Allowed-IsPositive p check_mark a = tt
Allowed-IsPositive p (size n) (r, e, i) = omega arith

Follows-IsPositive : {ps : List Bytes} {ss : List Size} → Follows ps ss → All IsPositive ss
Follows-IsPositive end = tt
Follows-IsPositive (skip a f) = Follows-IsPositive f
Follows-IsPositive (take_one {p} {s = s} a f) = (Allowed-IsPositive p s a, Follows-IsPositive f)
