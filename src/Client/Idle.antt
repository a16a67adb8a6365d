-- ===== src/Client/Idle.antt =====
-- Which idle sessions the cleanup closes.
use anytls_go.Common.{
  ℕ, ◌+◌, ◌-◌, ◌≤◌, min, List, [], ◌∷◌, Bool, true, false, not, ltb, length, if◌then◌else◌, if_elim,
  ◌≡◌, sym, subst, ap, arith, ltb→lt, ltb→le,
}
use anytls_go.Client.{IdleEntry, SkipList, sweep}

-- The sessions that are idle since before `exp_time`, in the order of the list.
unfoldable pub expired : ℕ → List (ℕ × IdleEntry) → List ℕ
expired exp_time [] = []
expired exp_time ((key, e) ∷ es) =
    let rest = expired exp_time es in if ltb e.idle_since exp_time then e.seq ∷ rest else rest

-- Sublists, in order.
pub data Within {ℓ} {A : Type ℓ} : List A → List A → Type ℓ where
  none_of : Within [] []
  skip : {x : A} {xs ys : List A} → Within xs ys → Within xs (x ∷ ys)
  take_it : {x : A} {xs ys : List A} → Within xs ys → Within (x ∷ xs) (x ∷ ys)

pub record IsSwept (min_idle active exp_time : ℕ) (es : List (ℕ × IdleEntry)) (closed_now : List ℕ)
    : Type 0 where
  -- sessions that are not expired stay
  pub expired_only : Within closed_now (expired exp_time es)
  -- `min_idle` sessions stay, or all of them if there are fewer
  pub enough_left : min min_idle (active + length es) + length closed_now ≤ active + length es
  -- at most `min_idle` of those expired stay
  pub rest_closed : length (expired exp_time es) ≤ length closed_now + (min_idle - active)

grow :
    (min_idle active exp_time key : ℕ) (e : IdleEntry) (es : List (ℕ × IdleEntry))
    (xs out' : List ℕ)
    → expired exp_time ((key, e) ∷ es) ≡ xs
    → Within out' xs
    → min min_idle (active + 1 + length es) + length out' ≤ active + 1 + length es
    → length xs ≤ length out' + (min_idle - active)
    → IsSwept min_idle active exp_time ((key, e) ∷ es) out'
grow min_idle active exp_time key e es xs out' same within enough rest = record {
  expired_only = subst (Within out') (sym same) within;
  enough_left = omega (arith, enough);
  rest_closed =
      subst (λ (ys : List ℕ). length ys ≤ length out' + (min_idle - active)) (sym same) rest;
}

module _ {ℓ} {S : Type ℓ} (list : SkipList S) (now exp_time min_idle : ℕ) where
  abbrev pub Swept : ℕ → List (ℕ × IdleEntry) → S × List ℕ → Type 0
  Swept active es r = IsSwept min_idle active exp_time es r.1

  pub sweep-IsSwept :
      (active : ℕ) (es : List (ℕ × IdleEntry)) (s : S)
      → Swept active es (sweep list now exp_time min_idle active es s)
  unfolding sweep expired
  sweep-IsSwept active [] s = record {
    expired_only = none_of;
    enough_left = omega arith;
    rest_closed = omega arith;
  }
  sweep-IsSwept active ((key, e) ∷ es) s =
      let choice = λ (b : Bool). if b then e.seq ∷ expired exp_time es else expired exp_time es in
      let fresh = sweep-IsSwept (active + 1) es s in
      let kept = sweep-IsSwept (active + 1) es (list.touch key now s) in
      let out = sweep-IsSwept active es (list.remove_key key s) in
      if_elim {A = S × List ℕ} (Swept active ((key, e) ∷ es)) (not (ltb e.idle_since exp_time)) _ _
        (λ new.
          let since : ltb e.idle_since exp_time ≡ false = ground arith in
          grow min_idle active exp_time key e es (expired exp_time es) _ (ap choice since)
            fresh.expired_only fresh.enough_left (omega (arith, fresh.rest_closed)))
        (λ old.
          let since : ltb e.idle_since exp_time ≡ true = ground arith in
          if_elim {A = S × List ℕ} (Swept active ((key, e) ∷ es)) (ltb active min_idle) _ _
            (λ few.
              grow min_idle active exp_time key e es (e.seq ∷ expired exp_time es) _
                (ap choice since) (skip kept.expired_only) kept.enough_left
                (omega (arith, kept.rest_closed, ltb→lt active min_idle few)))
            (λ enough.
              grow min_idle active exp_time key e es (e.seq ∷ expired exp_time es) _
                (ap choice since) (take_it out.expired_only)
                (omega (arith, out.enough_left, ltb→le active min_idle enough))
                (omega (arith, out.rest_closed, ltb→le active min_idle enough))))

  -- The cleanup of the idle sessions closes only sessions that have been idle since before the
  -- given time, each once; it leaves at least the configured minimum of idle sessions, or all of
  -- them; and of the expired ones it leaves no more than that minimum.
  pub sweep-keeps :
      (es : List (ℕ × IdleEntry)) (s : S) → Swept 0 es (sweep list now exp_time min_idle 0 es s)
  sweep-keeps es s = sweep-IsSwept 0 es s
