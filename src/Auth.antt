-- ===== src/Auth.antt =====
-- auth/auth.go, auth/cache.go and auth/password.go: Authenticators, one of which wraps another. The
-- inner one is a parameter, a function on a state of its own.
pub mod Agreement
pub mod Limit
pub mod Password
use anytls_go.Common.{
  ℕ, ◌+◌, ◌/◌, ◌%◌, Bytes, [], ◌∷◌, ◌++◌, take, Option, none, some, Bool, true, false, Error, not,
  length, ltb, ◌==◌, ◌=b◌, if◌then◌else◌, codes,
}
use anytls_go.Lru.{Lru}

-- What Authenticate returns: id, ok and err.
pub record Answer : Type 0 where
  pub id : Bytes
  pub accepted : Bool
  pub failure : Option Error

-- By address, credential and rate hint.
abbrev pub Authenticator {ℓ} : Type ℓ → Type ℓ
Authenticator B = Bytes → Bytes → ℕ → B → B × Answer

abbrev pub rejected : Answer
rejected = record { id = []; accepted = false; failure = none }

-- hex.EncodeToString
abbrev pub hex_digit : ℕ → ℕ
hex_digit n = if ltb n 10 then b'0' + n else 87 + n

unfoldable pub hex : Bytes → Bytes
hex [] = []
hex (b ∷ s) = hex_digit (b / 16) ∷ hex_digit (b % 16) ∷ hex s

-- PasswordAuthenticator, over the hash of crypto/sha256
pub record PasswordAuthenticator : Type 0 where
  pub password_hex : Bytes
  pub id : Bytes

unfoldable pub new_password_authenticator : (Bytes → Bytes) → Bytes → PasswordAuthenticator
unfolding hex
new_password_authenticator sha256 password = record {
  password_hex = hex (sha256 password);
  id = codes "pw-" ++ hex (take 8 (sha256 (sha256 password)));
}

unfoldable pub check_password : PasswordAuthenticator → Bytes → Answer
unfolding ◌=b◌
check_password p auth_blob =
    if not (length auth_blob == length p.password_hex)
    then rejected
    else if not (auth_blob =b p.password_hex)
    then rejected
    else record { id = p.id; accepted = true; failure = none }

-- CachingAuthenticator: the cache of ids, the cache of rejections (nil when disabled), the inner
-- authenticator's state.
pub record Caching {ℓ κ μ} (S : Type ℓ) (T : Type κ) (B : Type μ) : Type (ℓ ⊔ κ ⊔ μ) where
  pub cache : S
  pub neg : Option T
  pub inner : B

module _ {ℓ κ μ} {S : Type ℓ} {T : Type κ} {B : Type μ} (ids : Lru Bytes Bytes S)
    (bad : Lru Bytes (Unit {0}) T) (backend : Authenticator B) where
  -- NewCachingAuthenticator; `neg_enabled` is negTTL > 0.
  unfoldable pub new_caching : Bool → B → Caching S T B
  new_caching neg_enabled b = record {
    cache = ids.fresh;
    neg = if neg_enabled then some bad.fresh else none;
    inner = b;
  }

  -- The switch: errors are not cached.
  abbrev pub add_bad : Bytes → Option T → Option T
  add_bad blob none = none
  add_bad blob (some t) = some (bad.add blob tt t)

  abbrev pub cache_answer : Bytes → S → Option T → Option Error → Bool → Bytes → S × Option T
  cache_answer blob s t (some e) accepted id = (s, t)
  cache_answer blob s t none true id = (ids.add blob id s, t)
  cache_answer blob s t none false id = (s, add_bad blob t)

  abbrev pub answered : Bytes → S → Option T → B × Answer → Caching S T B × Answer
  answered blob s t (b, a) =
      let kept = cache_answer blob s t a.failure a.accepted a.id in
      (record { cache = kept.0; neg = kept.1; inner = b }, a)

  abbrev pub ask : Bytes → Bytes → ℕ → S → Option T → B → Caching S T B × Answer
  ask addr blob tx s t b = answered blob s t (backend addr blob tx b)

  abbrev pub check_bad : Bytes → Bytes → ℕ → S → B → T × Option (Unit {0}) → Caching S T B × Answer
  check_bad addr blob tx s b (t, some u) = (record { cache = s; neg = some t; inner = b }, rejected)
  check_bad addr blob tx s b (t, none) = ask addr blob tx s (some t) b

  abbrev pub check_neg : Bytes → Bytes → ℕ → S → Option T → B → Caching S T B × Answer
  check_neg addr blob tx s none b = ask addr blob tx s none b
  check_neg addr blob tx s (some t) b = check_bad addr blob tx s b (bad.get blob t)

  abbrev pub check_id : Bytes → Bytes → ℕ → Option T → B → S × Option Bytes → Caching S T B × Answer
  check_id addr blob tx t b (s, some id) = (
    record { cache = s; neg = t; inner = b },
    record { id = id; accepted = true; failure = none },
  )
  check_id addr blob tx t b (s, none) = check_neg addr blob tx s t b

  -- Authenticate
  unfoldable pub authenticate : Bytes → Bytes → ℕ → Caching S T B → Caching S T B × Answer
  authenticate addr blob tx c = check_id addr blob tx c.neg c.inner (ids.get blob c.cache)
