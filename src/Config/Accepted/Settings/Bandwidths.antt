-- ===== src/Config/Accepted/Settings/Bandwidths.antt =====
-- The bandwidths that a check accepts are 64-bit numbers.
use anytls_go.Common.{
  ℕ, ◌<◌, ◌^◌, ◌*◌, Bytes, Option, none, some, Bool, true, false, length, ◌==◌, if◌then◌else◌, ◌≡◌,
  refl, arith, mod-lt,
}
use anytls_go.Text.Words.{to_lower, trim_space}
use anytls_go.Config.Bandwidth.{
  Checked, fine, fault, ◌>>=◌, in_unit, amount_of, matched, bits_of, parse_uint64, amount_and_unit,
  digits_first, parse_bandwidth,
}
use anytls_go.Config.{Config, bandwidth_limits}

-- A bandwidth is a 64-bit number.
abbrev FitsU64 : Checked ℕ → Type 0
FitsU64 (fine n) = n < 2 ^ 64
FitsU64 (fault e) = Unit

in_unit-FitsU64 : (v : ℕ) (o : Option ℕ) → FitsU64 (in_unit v o)
in_unit-FitsU64 v none = tt
in_unit-FitsU64 v (some bits) = mod-lt (v * bits) (omega arith)

amount-FitsU64 : (o : Option ℕ) (u : Bytes) → FitsU64 (amount_of o u)
amount-FitsU64 none u = tt
amount-FitsU64 (some v) u = in_unit-FitsU64 v (bits_of u)

matched-FitsU64 : (o : Option (Bytes × Bytes)) → FitsU64 (matched o)
matched-FitsU64 none = tt
matched-FitsU64 (some (amount, u)) = amount-FitsU64 (parse_uint64 amount) u

zero_or-FitsU64 : (b : Bool) (m : Checked ℕ) → FitsU64 m → FitsU64 (if b then fine 0 else m)
zero_or-FitsU64 true m h = omega arith
zero_or-FitsU64 false m h = h

parse_bandwidth-FitsU64 : (s : Bytes) → FitsU64 (parse_bandwidth s)
unfolding parse_bandwidth
parse_bandwidth-FitsU64 s =
    let text = to_lower (trim_space s) in
    zero_or-FitsU64 (length text == 0) (matched (amount_and_unit (digits_first text)))
      (matched-FitsU64 (amount_and_unit (digits_first text)))

abbrev both_limits : Checked ℕ → Checked ℕ → Checked (ℕ × ℕ)
both_limits m k = m >>= λ up. k >>= λ down. fine (up, down)

limits_case :
    (m k : Checked ℕ) (x : ℕ × ℕ)
    → FitsU64 m
    → FitsU64 k
    → both_limits m k ≡ fine x
    → (up : ℕ) × (down : ℕ) × (both_limits m k ≡ fine (up, down)) × (up < 2 ^ 64) × (down < 2 ^ 64)
limits_case (fault e) k x f g h = absurd cc
limits_case (fine up) (fault e) x f g h = absurd cc
limits_case (fine up) (fine down) x f g h = (up, down, refl, f, g)

pub limits-Fit :
    (c : Config) (x : ℕ × ℕ)
    → bandwidth_limits c ≡ fine x
    → (up : ℕ) × (down : ℕ) × (bandwidth_limits c ≡ fine (up, down))
      × (up < 2 ^ 64)
      × (down < 2 ^ 64)
unfolding bandwidth_limits
limits-Fit c x h =
    limits_case (parse_bandwidth c.bandwidth_up) (parse_bandwidth c.bandwidth_down) x
      (parse_bandwidth-FitsU64 c.bandwidth_up) (parse_bandwidth-FitsU64 c.bandwidth_down) h
