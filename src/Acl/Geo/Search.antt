-- ===== src/Acl/Geo/Search.antt =====
-- The binary search over the nets finds what a linear search finds, where the nets are apart.
use anytls_go.Common.{
  ℕ, zero, suc, ◌+◌, ◌-◌, ◌/◌, ◌≤◌, ◌<◌, List, [], ◌∷◌, Option, some, Bool, true, false, ◌||◌,
  length, ltb, ltb→lt, ltb→le, if◌then◌else◌, Bool-cases, ◌≡◌, inl, inr, refl, sym, ap, ◌∙◌, arith,
}
use anytls_go.Acl.Geo.{get_elem?, probe, search_nets}

module _ {ℓ} {A : Type ℓ} (holds below : A → Bool) where
  -- The linear search
  unfoldable pub any : List A → Bool
  any [] = false
  any (x ∷ xs) = holds x || any xs

  -- What holds at one index: the elements before it are below, those behind it are not, unless they
  -- hold too.
  pub record IsOrdered (ns : List A) : Type ℓ where
    pub before :
        (i j : ℕ) (a b : A)
        → i < j
        → get_elem? ns i ≡ some a
        → get_elem? ns j ≡ some b
        → holds b ≡ true
        → holds a ≡ false
        → below a ≡ true
    pub behind :
        (i j : ℕ) (a b : A)
        → i < j
        → get_elem? ns i ≡ some a
        → get_elem? ns j ≡ some b
        → holds a ≡ true
        → holds b ≡ false
        → below b ≡ false

  -- Every element that holds stands between the two bounds.
  abbrev pub Within : ℕ → ℕ → List A → Type ℓ
  Within left stop ns =
      (i : ℕ) (a : A) → get_elem? ns i ≡ some a → holds a ≡ true → (left ≤ i) × (i < stop)

  any_at : (ns : List A) (i : ℕ) (a : A) → get_elem? ns i ≡ some a → holds a ≡ true → any ns ≡ true
  unfolding any get_elem?
  any_at [] i a e h = absurd cc
  any_at (x ∷ ns) zero a e h =
      let same : x ≡ a = cc in ap (λ y. holds y || any ns) same ∙ ap (λ b. b || any ns) h
  any_at (x ∷ ns) (suc i) a e h = let rest = any_at ns i a e h in ground arith

  any_none :
      (ns : List A) → ((i : ℕ) (a : A) → get_elem? ns i ≡ some a → holds a ≡ false) → any ns ≡ false
  unfolding any get_elem?
  any_none [] f = refl
  any_none (x ∷ ns) f = ap (λ b. b || any ns) (f zero x refl) ∙ any_none ns (λ i a e. f (suc i) a e)

  in_range : (ns : List A) (i : ℕ) → i < length ns → (a : A) × (get_elem? ns i ≡ some a)
  unfolding get_elem?
  in_range [] i h = absurd (omega arith)
  in_range (x ∷ ns) zero h = (x, refl)
  in_range (x ∷ ns) (suc i) h = in_range ns i (omega arith)

  empty_range : (left stop : ℕ) (ns : List A) → Within left stop ns → stop ≤ left → any ns ≡ false
  empty_range left stop ns w h = any_none ns (λ i a e. elim (Bool-cases (holds a)) [
    | inl yes_holds ↦ let r = w i a e yes_holds in absurd (omega (arith, r.0, r.1))
    | inr no_holds ↦ no_holds
  ])

  -- The element in the middle does not hold: the bounds move past it.
  drop_lower :
      (left stop mid : ℕ) (m : A) (ns : List A)
      → IsOrdered ns
      → get_elem? ns mid ≡ some m
      → holds m ≡ false
      → below m ≡ true
      → Within left stop ns
      → Within (mid + 1) stop ns
  drop_lower left stop mid m ns o at no_m low w i a e h = elim (Bool-cases (ltb mid i)) [
    | inl later ↦ (omega (arith, ltb→lt mid i later), (w i a e h).1)
    | inr sooner ↦ elim (Bool-cases (ltb i mid)) [
      | inl earlier ↦ let high = o.behind i mid a m (ltb→lt i mid earlier) e at h no_m in absurd cc
      | inr there ↦
          let same : i ≡ mid = omega (arith, ltb→le mid i sooner, ltb→le i mid there) in
          let found : some a ≡ some m = sym e ∙ ap (get_elem? ns) same ∙ at in
          let one : a ≡ m = cc in absurd cc
    ]
  ]

  drop_upper :
      (left stop mid : ℕ) (m : A) (ns : List A)
      → IsOrdered ns
      → get_elem? ns mid ≡ some m
      → holds m ≡ false
      → below m ≡ false
      → Within left stop ns
      → Within left mid ns
  drop_upper left stop mid m ns o at no_m high w i a e h = elim (Bool-cases (ltb i mid)) [
    | inl earlier ↦ ((w i a e h).0, ltb→lt i mid earlier)
    | inr later ↦ elim (Bool-cases (ltb mid i)) [
      | inl behind_it ↦
          let low = o.before mid i m a (ltb→lt mid i behind_it) at e h no_m in absurd cc
      | inr there ↦
          let same : i ≡ mid = omega (arith, ltb→le mid i there, ltb→le i mid later) in
          let found : some a ≡ some m = sym e ∙ ap (get_elem? ns) same ∙ at in
          let one : a ≡ m = cc in absurd cc
    ]
  ]

  -- One probe, when both searches that may follow it answer
  probe_lem :
      (ns : List A) (mid : ℕ) (m : A) (lower upper : Option Bool)
      → get_elem? ns mid ≡ some m
      → (holds m ≡ false → below m ≡ true → upper ≡ some (any ns))
      → (holds m ≡ false → below m ≡ false → lower ≡ some (any ns))
      → probe holds below (get_elem? ns mid) lower upper ≡ some (any ns)
  probe_lem ns mid m lower upper at f g =
      ap (λ o. probe holds below o lower upper) at ∙ elim (Bool-cases (holds m)) [
        | inl hit ↦
            ap (λ b. if b then some true else if below m then upper else lower) hit
            ∙ ap some (sym (any_at ns mid m at hit))
        | inr miss ↦
            ap (λ b. if b then some true else if below m then upper else lower) miss
            ∙ elim (Bool-cases (below m)) [
              | inl low ↦ ap (λ b. if b then upper else lower) low ∙ f miss low
              | inr high ↦ ap (λ b. if b then upper else lower) high ∙ g miss high
            ]
      ]

  pub search_lem :
      (fuel left stop : ℕ) (ns : List A)
      → IsOrdered ns
      → stop ≤ length ns
      → stop ≤ left + fuel
      → Within left stop ns
      → search_nets holds below fuel left stop ns ≡ some (any ns)
  unfolding search_nets
  search_lem zero left stop ns o fits enough w =
      ground (arith, empty_range left stop ns w (omega arith))
  search_lem (suc fuel) left stop ns o fits enough w = elim (Bool-cases (ltb left stop)) [
    | inr done ↦
        let mid = (left + (stop - 1)) / 2 in
        ap
          (λ b.
            if b
            then probe holds below (get_elem? ns mid) (search_nets holds below fuel left mid ns)
                (search_nets holds below fuel (mid + 1) stop ns)
            else some false)
          done
        ∙ ap some (sym (empty_range left stop ns w (ltb→le left stop done)))
    | inl more_left ↦
        let mid = (left + (stop - 1)) / 2 in
        let less = ltb→lt left stop more_left in
        let (m, at) = in_range ns mid (omega arith) in
        ap
          (λ b.
            if b
            then probe holds below (get_elem? ns mid) (search_nets holds below fuel left mid ns)
                (search_nets holds below fuel (mid + 1) stop ns)
            else some false)
          more_left
        ∙ probe_lem ns mid m (search_nets holds below fuel left mid ns)
            (search_nets holds below fuel (mid + 1) stop ns) at
            (λ miss low.
              search_lem fuel (mid + 1) stop ns o fits (omega arith)
                (drop_lower left stop mid m ns o at miss low w))
            (λ miss high.
              search_lem fuel left mid ns o (omega arith) (omega arith)
                (drop_upper left stop mid m ns o at miss high w))
  ]

  -- The search answers whatever the order of the elements is.
  probe_answers :
      (n : A) (lower upper : Option Bool) (u v : Bool)
      → lower ≡ some u
      → upper ≡ some v
      → (b : Bool) × (probe holds below (some n) lower upper ≡ some b)
  probe_answers n lower upper u v e f =
      (if holds n then true else if below n then v else u, ground arith)

  pub search_answers :
      (fuel left stop : ℕ) (ns : List A)
      → stop ≤ length ns
      → stop ≤ left + fuel
      → (b : Bool) × (search_nets holds below fuel left stop ns ≡ some b)
  unfolding search_nets
  search_answers zero left stop ns fits enough = (false, ground arith)
  search_answers (suc fuel) left stop ns fits enough = elim (Bool-cases (ltb left stop)) [
    | inr done ↦ (false, rw (done, if◌then◌else◌) refl)
    | inl more_left ↦
        let mid = (left + (stop - 1)) / 2 in
        let less = ltb→lt left stop more_left in
        let (m, at) = in_range ns mid (omega arith) in
        let (u, e) = search_answers fuel left mid ns (omega arith) (omega arith) in
        let (v, f) = search_answers fuel (mid + 1) stop ns fits (omega arith) in
        let (b, answer) =
          probe_answers m (search_nets holds below fuel left mid ns)
            (search_nets holds below fuel (mid + 1) stop ns) u v e f in
        (
          b,
          rw (more_left, if◌then◌else◌)
              (ap
                  (λ o.
                    probe holds below o (search_nets holds below fuel left mid ns)
                      (search_nets holds below fuel (mid + 1) stop ns))
                  at
                ∙ answer),
        )
  ]
