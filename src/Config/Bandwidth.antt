-- ===== src/Config/Bandwidth.antt =====
-- parseBandwidth of config/config.go, and the result that its checks share.
use anytls_go.Common.{
  ℕ, ◌*◌, ◌^◌, ◌%◌, Bytes, [], ◌∷◌, Option, none, some, Bool, true, ◌&&◌, ◌||◌, length, ltb, leb,
  ◌==◌, ◌=b◌, if◌then◌else◌, codes,
}
use anytls_go.Text.{is_digit, parse_digits}
use anytls_go.Text.Words.{to_lower, trim_space}

-- What a check complains of, the entry of the outbounds by its index
pub data Fault : Type 0 where
  read_failed parse_failed : Fault
  bad_duration negative_duration : Fault
  bad_bandwidth bad_unit : Fault
  no_secret both_acl half_tls no_url negative_max bad_auth_kind : Fault
  bad_resolver_kind no_resolver_address negative_timeout : Fault
  blank_name spaced_name double_name direct_options bad_outbound_kind : ℕ → Fault
  no_proxy_address bad_proxy_address no_proxy_host bad_proxy_port half_login long_login : ℕ → Fault

pub data Checked {ℓ} (A : Type ℓ) : Type ℓ where
  fine : A → Checked A
  fault : Fault → Checked A

-- A check without a result
abbrev pub Check : Type 0
Check = Checked {0} Unit

infixl 5 ◌>>=◌
abbrev pub ◌>>=◌ {ℓ κ} : {A : Type ℓ} {B : Type κ} → Checked A → (A → Checked B) → Checked B
fine a >>= f = f a
fault e >>= f = fault e

infixr 4 ◌>>◌
abbrev pub ◌>>◌ {ℓ κ} : {A : Type ℓ} {B : Type κ} → Checked A → Checked B → Checked B
fine a >> m = m
fault e >> m = fault e

-- bandwidthRegex on a text that is trimmed: digits, white space, letters; none if it does not match.
unfoldable pub digits_first : Bytes → Bytes × Bytes
digits_first [] = ([], [])
digits_first (c ∷ s) =
    let rest = digits_first s in if is_digit c then (c ∷ rest.0, rest.1) else ([], c ∷ s)

-- \s: tab, newline, form feed, carriage return and space
abbrev pub is_blank_byte : ℕ → Bool
is_blank_byte c = c == 9 || c == 10 || c == 12 || c == 13 || c == 32

unfoldable pub skip_blanks : Bytes → Bytes
skip_blanks [] = []
skip_blanks (c ∷ s) = let rest = skip_blanks s in if is_blank_byte c then rest else c ∷ s

abbrev pub is_letter : ℕ → Bool
is_letter c = (leb b'a' c && leb c b'z') || (leb b'A' c && leb c b'Z')

unfoldable pub all_letters : Bytes → Bool
all_letters [] = true
all_letters (c ∷ s) = is_letter c && all_letters s

abbrev pub amount_and_unit : Bytes × Bytes → Option (Bytes × Bytes)
amount_and_unit ([], rest) = none
amount_and_unit (c ∷ s, rest) =
    if all_letters (skip_blanks rest) then some (c ∷ s, skip_blanks rest) else none

-- strconv.ParseUint(s, 10, 64)
abbrev pub below_u64 : Option ℕ → Option ℕ
below_u64 none = none
below_u64 (some n) = if ltb n (2 ^ 64) then some n else none

unfoldable pub parse_uint64 : Bytes → Option ℕ
unfolding parse_digits
parse_uint64 s = below_u64 (parse_digits s)

-- The bits that a unit stands for
unfoldable pub bits_of : Bytes → Option ℕ
unfolding ◌=b◌
bits_of u =
    if (length u == 0) || (u =b codes "bps") || (u =b codes "b")
    then some 1
    else if (u =b codes "kbps") || (u =b codes "kb") || (u =b codes "k")
    then some 1000
    else if (u =b codes "mbps") || (u =b codes "mb") || (u =b codes "m")
    then some 1000000
    else if (u =b codes "gbps") || (u =b codes "gb") || (u =b codes "g")
    then some 1000000000
    else if (u =b codes "tbps") || (u =b codes "tb") || (u =b codes "t")
    then some 1000000000000
    else none

-- The product of two uint64 wraps.
abbrev pub in_unit : ℕ → Option ℕ → Checked ℕ
in_unit v none = fault Fault.bad_unit
in_unit v (some bits) = fine ((v * bits) % 2 ^ 64)

abbrev pub amount_of : Option ℕ → Bytes → Checked ℕ
amount_of none u = fault Fault.bad_bandwidth
amount_of (some v) u = in_unit v (bits_of u)

abbrev pub matched : Option (Bytes × Bytes) → Checked ℕ
matched none = fault Fault.bad_bandwidth
matched (some (amount, u)) = amount_of (parse_uint64 amount) u

unfoldable pub parse_bandwidth : Bytes → Checked ℕ
unfolding to_lower trim_space digits_first skip_blanks all_letters parse_uint64 bits_of
parse_bandwidth given =
    let s = to_lower (trim_space given) in
    if length s == 0 then fine 0 else matched (amount_and_unit (digits_first s))
