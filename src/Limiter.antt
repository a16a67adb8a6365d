-- ===== src/Limiter.antt =====
-- limiter/limiter.go and limiter/conn.go. A rate.Limiter is its rate, its burst and, with the
-- connection, the parameters: WaitN of a bucket and Write of the wrapped connection, on a state.
pub mod Chunks
use anytls_go.Common.{
  ℕ, zero, suc, ◌+◌, ◌-◌, ◌*◌, ◌/◌, ◌^◌, min, Bytes, List, [], ◌∷◌, Option, none, some, Bool, true,
  false, not, ◌&&◌, ◌||◌, Error, length, take, drop, ltb, leb, ◌==◌, if◌then◌else◌,
}
use anytls_go.Devices.{DeviceKey, Entry, acquire, release, key_of}

-- minBurst
abbrev pub min_burst : ℕ
min_burst = 64 * 1024

pub record Bucket : Type 0 where
  pub rate : ℕ
  pub burst : ℕ

-- The buckets of a Device: none is unlimited.
pub record Buckets : Type 0 where
  pub up : Option Bucket
  pub down : Option Bucket

-- The burst of newLimiter: int(bytesPerSec) is negative from 2^63 on.
unfoldable pub burst_of : ℕ → ℕ
burst_of bytes_per_sec =
    if ltb bytes_per_sec (2 ^ 63)
    then (if ltb bytes_per_sec min_burst then min_burst else bytes_per_sec)
    else min_burst

unfoldable pub new_limiter : ℕ → Option Bucket
unfolding burst_of
new_limiter bytes_per_sec =
    if bytes_per_sec == 0
    then none
    else some (record { rate = bytes_per_sec; burst = burst_of bytes_per_sec })

-- Registry
pub record Registry : Type 0 where
  pub up_bytes : ℕ
  pub down_bytes : ℕ
  pub devices : List (DeviceKey × Entry Buckets)

-- NewRegistry; none is nil.
unfoldable pub new_registry : ℕ → ℕ → Option Registry
new_registry up_bps down_bps =
    if up_bps == 0 && down_bps == 0
    then none
    else some (record { up_bytes = up_bps / 8; down_bytes = down_bps / 8; devices = [] })

-- Registry.Acquire and Release
unfoldable pub acquire_device : Bytes → Bytes → Registry → Registry × Entry Buckets
unfolding acquire new_limiter key_of
acquire_device auth_id remote_addr r =
    let buckets : Buckets = record {
      up = new_limiter r.up_bytes;
      down = new_limiter r.down_bytes;
    } in
    let got = acquire buckets (key_of auth_id remote_addr) r.devices in
    (record r { devices = got.0 }, got.1)

unfoldable pub release_device : DeviceKey → Registry → Registry
unfolding release
release_device k r = record r { devices = release k r.devices }

-- The environment of a limitedConn: WaitN(n), which may fail when the connection is closed, and
-- Write and Read of the connection.
pub record Limits {ℓ} (W : Type ℓ) : Type ℓ where
  pub wait_n : ℕ → W → W × Option Error
  pub write : Bytes → W → W × ℕ × Option Error
  pub read : ℕ → W → W × Bytes × Option Error

module _ {ℓ} {W : Type ℓ} (net : Limits W) where
  abbrev pub wait_then : W × Option Error → (W → W × Option Error) → W × Option Error
  wait_then (w, some e) k = (w, some e)
  wait_then (w, none) k = k w

  -- The loop of WaitWrite, with fuel for each byte.
  unfoldable pub wait_loop : ℕ → ℕ → ℕ → W → W × Option Error
  wait_loop zero burst n w = (w, none)
  wait_loop (suc f) burst n w =
      let chunk = min n burst in
      if n == 0
      then (w, none)
      else wait_then (net.wait_n chunk w) (λ v. wait_loop f burst (n - chunk) v)

  unfoldable pub wait_write : Option Bucket → ℕ → W → W × Option Error
  unfolding wait_loop
  wait_write none n w = (w, none)
  wait_write (some up) n w = wait_loop n up.burst n w

  -- The loop of WriteUnlimited, after `written` bytes
  abbrev pub write_then :
      ℕ → W × ℕ × Option Error → (ℕ → W → W × ℕ × Option Error) → W × ℕ × Option Error
  write_then written (w, n, some e) k = (w, written + n, some e)
  write_then written (w, n, none) k = k (written + n) w

  unfoldable pub write_loop : ℕ → ℕ → Bytes → ℕ → W → W × ℕ × Option Error
  write_loop zero burst b written w = (w, written, none)
  write_loop (suc f) burst b written w =
      let chunk = min (length b) burst in
      if length b == 0
      then (w, written, none)
      else write_then written (net.write (take chunk b) w)
          (λ total v. write_loop f burst (drop chunk b) total v)

  unfoldable pub write_unlimited : Option Bucket → Bytes → W → W × ℕ × Option Error
  unfolding write_loop
  write_unlimited none b w = net.write b w
  write_unlimited (some up) b w = write_loop (length b) up.burst b 0 w

  abbrev pub granted : W × Option Error → (W → W × ℕ × Option Error) → W × ℕ × Option Error
  granted (w, some e) k = (w, 0, some e)
  granted (w, none) k = k w

  -- limitedConn.Write
  unfoldable pub limited_write : Option Bucket → Bytes → W → W × ℕ × Option Error
  unfolding wait_write write_unlimited
  limited_write none b w = net.write b w
  limited_write (some up) b w =
      granted (wait_write (some up) (length b) w) (λ v. write_unlimited (some up) b v)

  -- limitedConn.Read into a buffer of n bytes: a failed wait keeps what was read.
  abbrev pub keep_read : Bytes → Option Error → W × Option Error → W × Bytes × Option Error
  keep_read b e (w, waited) = (w, b, e)

  abbrev pub after_read : W × Bytes × Option Error → W × Bytes × Option Error
  after_read (w, b, e) =
      if length b == 0 then (w, b, e) else keep_read b e (net.wait_n (length b) w)

  unfoldable pub limited_read : Option Bucket → ℕ → W → W × Bytes × Option Error
  limited_read none n w = net.read n w
  limited_read (some down) n w = after_read (net.read (min n down.burst) w)
