-- ===== src/Text/Words.antt =====
-- Go's strings.ToLower, TrimSpace, TrimRight, HasPrefix, HasSuffix and Contains, on ASCII text.
use anytls_go.Common.{
  ℕ, ◌+◌, Bytes, [], ◌∷◌, Bool, true, false, ◌&&◌, ◌||◌, leb, ◌==◌, ◌=b◌, if◌then◌else◌,
}

abbrev pub lower : ℕ → ℕ
lower c = if leb b'A' c && leb c b'Z' then c + 32 else c

unfoldable pub to_lower : Bytes → Bytes
to_lower [] = []
to_lower (c ∷ s) = lower c ∷ to_lower s

-- Tab, newline, vertical tab, form feed, carriage return and space.
abbrev pub is_space : ℕ → Bool
is_space c = (leb 9 c && leb c 13) || c == 32

unfoldable pub trim_left : (ℕ → Bool) → Bytes → Bytes
trim_left f [] = []
trim_left f (c ∷ s) = let rest = trim_left f s in if f c then rest else c ∷ s

-- A character stays if one that stays follows it.
abbrev pub keep : Bool → ℕ → Bytes → Bytes
keep true c [] = []
keep false c [] = c ∷ []
keep cuts c (d ∷ s) = c ∷ d ∷ s

unfoldable pub trim_right : (ℕ → Bool) → Bytes → Bytes
trim_right f [] = []
trim_right f (c ∷ s) = keep (f c) c (trim_right f s)

unfoldable pub trim_space : Bytes → Bytes
unfolding trim_left trim_right
trim_space s = trim_right is_space (trim_left is_space s)

unfoldable pub has_prefix : Bytes → Bytes → Bool
has_prefix [] s = true
has_prefix (c ∷ p) [] = false
has_prefix (c ∷ p) (d ∷ s) = c == d && has_prefix p s

unfoldable pub has_suffix : Bytes → Bytes → Bool
unfolding ◌=b◌
has_suffix p [] = p =b []
has_suffix p (c ∷ s) = (p =b (c ∷ s)) || has_suffix p s

unfoldable pub contains : ℕ → Bytes → Bool
contains c [] = false
contains c (d ∷ s) = d == c || contains c s
